-- ===== src/Projects/Merge/Laws.antt =====
-- Two saves of a project that were made from the same revision: what they have in common is a
-- conflict, and what they do not merges.
use majestan_backend.Prelude.{
  ℕ, ◌<◌, Bool, true, false, not, ◌&&◌, ◌||◌, Option, some, List, [], ◌∷◌, ◌++◌, ◌≡◌, refl, ap, ◌∙◌,
  arith, map, if◌then◌else◌, filter, All, All-mono, Bool-cases, inl, inr,
}
use majestan_backend.Prelude.Text.{Text, codes, ◌=t◌, =t_iff}
use majestan_backend.Projects.Merge.{
  FieldRevisions, unit_key, revision_of, is_after, includes, unit_conflicts, find_conflicts, put,
  stamp, next_field_revisions,
}

revision_of-put :
    (key k : Text) (revision : ℕ) (seen : FieldRevisions)
    → revision_of key (put k revision seen) ≡ (if k =t key then revision else revision_of key seen)
unfolding revision_of put
revision_of-put key k revision [] = refl
revision_of-put key k revision ((k', r) ∷ rest) =
    ground (arith, revision_of-put key k revision rest, =t_iff k' k, =t_iff k' key, =t_iff k key)

revision_of-stamp :
    (key : Text) (revision : ℕ) (keys : List Text) (seen : FieldRevisions)
    → revision_of key (stamp revision keys seen)
      ≡ (if includes key keys then revision else revision_of key seen)
unfolding stamp
revision_of-stamp key revision [] seen = refl
revision_of-stamp key revision (k ∷ keys) seen = ground (
  arith,
  revision_of-stamp key revision keys (put k revision seen),
  revision_of-put key k revision seen,
)

-- The keys that a save stamps.
abbrev pub written : List Text → List Text → List Text
written changed_fields unit_codes = changed_fields ++ map unit_key unit_codes

includes-append :
    (key : Text) (xs ys : List Text)
    → includes key (xs ++ ys) ≡ (includes key xs || includes key ys)
includes-append key [] ys = refl
includes-append key (x ∷ xs) ys = ground (arith, includes-append key xs ys)

-- After a save every field and unit that it wrote has the revision of the save, and every other one the
-- revision that it had.
pub revision_of-next_field_revisions :
    (key : Text) (seen : FieldRevisions) (revision : ℕ) (changed_fields unit_codes : List Text)
    → revision_of key (next_field_revisions seen revision changed_fields unit_codes) ≡ (
        if includes key (written changed_fields unit_codes) then revision else revision_of key seen)
unfolding next_field_revisions
revision_of-next_field_revisions key seen revision fields units = ground (
  arith,
  revision_of-stamp key revision (map unit_key units) (stamp revision fields seen),
  revision_of-stamp key revision fields seen,
  includes-append key fields (map unit_key units),
)

includes-filter :
    (key : Text) (p : Text → Bool) (xs : List Text)
    → p key ≡ true
    → includes key xs ≡ true
    → includes key (filter p xs) ≡ true
includes-filter key p [] pk h = absurd (ground arith)
includes-filter key p (x ∷ xs) pk h = elim (Bool-cases (x =t key)) [
  | inl here ↦
      let same : x ≡ key = ground (arith, =t_iff x key) in
      let px : p x ≡ true = ap p same ∙ pk in ground arith
  | inr other ↦ ground (arith, includes-filter key p xs pk)
]

-- A field, other than the list of units, that two saves from the same revision both change is a conflict
-- of the second one.
pub find_conflicts-detects :
    (seen : FieldRevisions) (base revision : ℕ) (fields units theirs : List Text)
    (their_units : Option (List Text)) (field : Text)
    → base < revision
    → (field =t codes "units") ≡ false
    → includes field fields ≡ true
    → includes field theirs ≡ true
    → includes field
        (find_conflicts (next_field_revisions seen revision fields units) base theirs their_units)
      ≡ true
unfolding find_conflicts
find_conflicts-detects seen base revision fields units theirs their_units field lt named mine
      yours =
    let next = next_field_revisions seen revision fields units in
    let stamped = revision_of-next_field_revisions field seen revision fields units in
    let after : is_after base next field ≡ true =
      ground (arith, includes-append field fields (map unit_key units)) in
    let kept =
      includes-filter field (λ f. not (f =t codes "units") && is_after base next f) theirs
        (ground arith) yours in
    let rest =
      if includes (codes "units") theirs then unit_conflicts next base their_units else [] in
    ground (
      arith,
      includes-append field (filter (λ f. not (f =t codes "units") && is_after base next f) theirs)
          rest,
    )

includes-map :
    (code : Text) (xs : List Text)
    → includes code xs ≡ true
    → includes (unit_key code) (map unit_key xs) ≡ true
includes-map code [] h = absurd (ground arith)
includes-map code (x ∷ xs) h = ground (arith, includes-map code xs)

-- A unit that two saves from the same revision both change, both unit by unit, is a conflict of the
-- second one.
pub find_conflicts-detects_unit :
    (seen : FieldRevisions) (base revision : ℕ) (fields units theirs their_units : List Text)
    (unit : Text)
    → base < revision
    → includes (codes "units") theirs ≡ true
    → includes unit units ≡ true
    → includes unit their_units ≡ true
    → includes (unit_key unit) (
        find_conflicts
          (next_field_revisions seen revision fields units)
          base
          theirs
          (some their_units))
      ≡ true
unfolding find_conflicts unit_conflicts
find_conflicts-detects_unit seen base revision fields units theirs their_units unit lt whole mine
      yours =
    let next = next_field_revisions seen revision fields units in
    let stamped = revision_of-next_field_revisions (unit_key unit) seen revision fields units in
    let after : is_after base next (unit_key unit) ≡ true = ground (
      arith,
      includes-append (unit_key unit) fields (map unit_key units),
      includes-map unit units mine,
    ) in
    let changed = filter (λ code. is_after base next (unit_key code)) their_units in
    let kept =
      includes-map unit changed (
        includes-filter unit (λ code. is_after base next (unit_key code)) their_units after
          yours) in
    ground (
      arith,
      includes-append (unit_key unit)
          (filter (λ f. not (f =t codes "units") && is_after base next f) theirs)
          (map unit_key changed),
    )

filter-congr :
    (p q : Text → Bool) (xs : List Text) → All (λ x. p x ≡ q x) xs → filter p xs ≡ filter q xs
filter-congr p q [] h = refl
filter-congr p q (x ∷ xs) (h, hs) = ground (arith, filter-congr p q xs hs)

-- A save that names its units, and changes no field but the list of units, and no unit, that another save
-- wrote, has the conflicts that it had before: edits of different fields, or of different units, merge.
pub find_conflicts-merges :
    (seen : FieldRevisions) (base revision : ℕ) (fields units theirs their_units : List Text)
    → All (λ f. (not (f =t codes "units") && includes f (written fields units)) ≡ false) theirs
    → All (λ code. includes (unit_key code) (written fields units) ≡ false) their_units
    → find_conflicts
        (next_field_revisions seen revision fields units)
        base
        theirs
        (some their_units)
      ≡ find_conflicts seen base theirs (some their_units)
unfolding find_conflicts unit_conflicts
find_conflicts-merges seen base revision fields units theirs their_units apart apart_units =
    let next = next_field_revisions seen revision fields units in
    let same =
      filter-congr (λ f. not (f =t codes "units") && is_after base next f)
        (λ f. not (f =t codes "units") && is_after base seen f) theirs
        (All-mono theirs
          (λ f other. ground (arith, revision_of-next_field_revisions f seen revision fields units))
          apart) in
    let same_units =
      filter-congr (λ code. is_after base next (unit_key code))
        (λ code. is_after base seen (unit_key code)) their_units
        (All-mono their_units
          (λ code other.
            ground
              (arith, revision_of-next_field_revisions (unit_key code) seen revision fields units))
          apart_units) in
    rw (same, same_units) refl
