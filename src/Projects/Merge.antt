-- ===== src/Projects/Merge.antt =====
-- src/modules/admin/projects/project-merge.util.ts: the revision that last changed each field of a
-- project, and the conflicts of a save that was made from an older revision. The object of the
-- revisions is an association list with one entry for each key.
pub mod Laws
mod Tests
use majestan_backend.Prelude.{
  ℕ, Bool, true, false, not, ◌&&◌, ◌||◌, Option, none, some, List, [], ◌∷◌, ◌++◌, map, ltb,
  if◌then◌else◌, any, filter,
}
use majestan_backend.Prelude.Text.{Text, codes, ◌=t◌}

-- `FieldRevisions`
abbrev pub FieldRevisions : Type 0
FieldRevisions = List (Text × ℕ)

-- `unitKey`
abbrev pub unit_key : Text → Text
unit_key code = codes "unit:" ++ code

-- `seen[key] ?? 0`
unfoldable pub revision_of : Text → FieldRevisions → ℕ
revision_of key [] = 0
revision_of key ((k, r) ∷ rest) = if k =t key then r else revision_of key rest

-- `after(key)`
abbrev pub is_after : ℕ → FieldRevisions → Text → Bool
is_after base seen key = ltb base (revision_of key seen)

abbrev pub includes : Text → List Text → Bool
includes key = any (λ k. k =t key)

-- `key.startsWith('unit:')`
abbrev pub is_unit_key : Text → Bool
is_unit_key (a ∷ b ∷ c ∷ d ∷ e ∷ s) = (a ∷ b ∷ c ∷ d ∷ e ∷ []) =t codes "unit:"
is_unit_key _ = false

-- The conflicts of the units, where the save changes them.
unfoldable pub unit_conflicts : FieldRevisions → ℕ → Option (List Text) → List Text
unit_conflicts seen base (some changed) =
    map unit_key (filter (λ code. is_after base seen (unit_key code)) changed)
unit_conflicts seen base none =
    if is_after base seen (codes "units")
      || any (λ entry. is_unit_key entry.0 && is_after base seen entry.0) seen
    then codes "units" ∷ []
    else []

-- `findConflicts`
unfoldable pub find_conflicts : FieldRevisions → ℕ → List Text → Option (List Text) → List Text
find_conflicts seen base changed_fields changed_unit_codes =
    filter (λ field. not (field =t codes "units") && is_after base seen field) changed_fields
    ++ (if includes (codes "units") changed_fields
        then unit_conflicts seen base changed_unit_codes
        else [])

-- `next[key] = revision`
unfoldable pub put : Text → ℕ → FieldRevisions → FieldRevisions
put key revision [] = (key, revision) ∷ []
put key revision ((k, r) ∷ rest) =
    if k =t key then (k, revision) ∷ rest else (k, r) ∷ put key revision rest

-- `for (const key of keys) next[key] = revision`
unfoldable pub stamp : ℕ → List Text → FieldRevisions → FieldRevisions
stamp revision [] next = next
stamp revision (key ∷ keys) next = stamp revision keys (put key revision next)

-- `nextFieldRevisions`
unfoldable pub next_field_revisions : FieldRevisions → ℕ → List Text → List Text → FieldRevisions
next_field_revisions revisions revision changed_fields unit_codes =
    stamp revision (map unit_key unit_codes) (stamp revision changed_fields revisions)
