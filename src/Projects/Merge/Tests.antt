-- ===== src/Projects/Merge/Tests.antt =====
-- Two saves of one project at concrete revisions.
use majestan_backend.Prelude.{true, some, [], ◌∷◌, ◌≡◌, refl, arith}
use majestan_backend.Prelude.Text.{codes}
use majestan_backend.Projects.Merge.{
  FieldRevisions, unit_key, includes, find_conflicts, next_field_revisions,
}
use majestan_backend.Projects.Merge.Laws.{find_conflicts-detects, find_conflicts-merges}

abbrev seen : FieldRevisions
seen = (codes "name", 4) ∷ (unit_key (codes "A-101"), 3) ∷ []

find_conflicts-detects_example :
    includes (codes "name") (
      find_conflicts
        (next_field_revisions seen 6 (codes "name" ∷ []) [])
        5
        (codes "city" ∷ codes "name" ∷ [])
        (some []))
    ≡ true
find_conflicts-detects_example =
    find_conflicts-detects seen 5 6 (codes "name" ∷ []) [] (codes "city" ∷ codes "name" ∷ [])
      (some []) (codes "name") (omega arith) refl refl refl

-- Both saves change units, and different ones.
find_conflicts-merges_example :
    find_conflicts
      (next_field_revisions seen 6 (codes "name" ∷ codes "units" ∷ []) (codes "A-101" ∷ []))
      5
      (codes "city" ∷ codes "units" ∷ [])
      (some (codes "A-102" ∷ []))
    ≡ find_conflicts seen 5 (codes "city" ∷ codes "units" ∷ []) (some (codes "A-102" ∷ []))
find_conflicts-merges_example =
    find_conflicts-merges seen 5 6 (codes "name" ∷ codes "units" ∷ []) (codes "A-101" ∷ [])
      (codes "city" ∷ codes "units" ∷ []) (codes "A-102" ∷ []) (refl, (refl, tt)) (refl, tt)
