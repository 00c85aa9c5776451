-- ===== src/Similar/Tests.antt =====
-- The ranking at three flats and two criteria.
use majestan_backend.Prelude.{ℕ, none, some, List, [], ◌∷◌, ◌≡◌, ltb, ◌==◌}
use majestan_backend.Prelude.Text.{codes}
use majestan_backend.Similar.{Criterion, Listing, score, rank_by_priority}
use majestan_backend.Similar.Laws.{beats, score_iff_beats, IsRanked, rank_by_priority-IsRanked}
use majestan_backend.Similar.Criteria.{PropertyTraits}
use majestan_backend.Prelude.Text.{Text}

record Flat : Type 0 where
  id : ℕ
  created_at : ℕ
  city : ℕ
  bedrooms : ℕ

abbrev flats : Listing Flat
flats = record { id = λ f. f.id; created_at = λ f. f.created_at }

abbrev criteria : List (Criterion Flat)
criteria =
    record { match_of = λ b c. b.bedrooms == c.bedrooms; label = λ b c. some (codes "Same size") }
    ∷ record { match_of = λ b c. b.city == c.city; label = λ b c. none }
    ∷ []

abbrev flat : ℕ → ℕ → ℕ → ℕ → Flat
flat id created city bedrooms = record {
  id = id;
  created_at = created;
  city = city;
  bedrooms = bedrooms;
}

abbrev candidates : List Flat
candidates = flat 1 10 1 2 ∷ flat 2 20 1 3 ∷ flat 3 30 2 2 ∷ []

score_iff_beats_example :
    ltb
      (score (flat 1 10 1 2) (flat 2 20 1 3) criteria)
      (score (flat 1 10 1 2) (flat 3 30 2 2) criteria)
    ≡ beats (flat 1 10 1 2) criteria (flat 3 30 2 2) (flat 2 20 1 3)
score_iff_beats_example = score_iff_beats (flat 1 10 1 2) (flat 2 20 1 3) (flat 3 30 2 2) criteria

rank_by_priority-IsRanked_example :
    IsRanked flats
      (flat 1 10 1 2)
      criteria
      (rank_by_priority flats (flat 1 10 1 2) candidates criteria 8)
rank_by_priority-IsRanked_example =
    rank_by_priority-IsRanked flats (flat 1 10 1 2) criteria candidates 8

abbrev villa : ℕ → Text → ℕ → PropertyTraits
villa id possession price = record {
  id = id;
  property_type = codes "villa";
  listing_type = some (codes "sale");
  possession = some possession;
  bedrooms = some 3;
  sublocation = none;
  city = some (codes "Chennai");
  price = some price;
  condition = none;
  created_at = 5;
}
