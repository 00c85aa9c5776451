-- ===== src/Similar.antt =====
-- src/modules/similar/similar-ranking.ts: the ranking of similar listings, for any type of listing with
-- an id and a time of creation and any list of criteria.
pub mod Laws
pub mod Complete
pub mod Criteria
pub mod Priority
mod Tests
use majestan_backend.Prelude.{
  ℕ, ◌+◌, ◌^◌, Bool, true, false, not, ◌&&◌, ◌||◌, Option, none, some, List, [], ◌∷◌, map, ltb,
  ◌==◌, if◌then◌else◌, filter, length, take,
}
use majestan_backend.Prelude.Text.{Text, is_empty}

abbrev pub similar_limit : ℕ
similar_limit = 8

-- `Criterion`; a label that is null is `none`
pub record Criterion (T : Type 0) : Type 0 where
  pub match_of : T → T → Bool
  pub label : T → T → Option Text

-- `Ranked`
pub record Ranked (T : Type 0) : Type 0 where
  pub item : T
  pub matches : List Text

pub record Scored (T : Type 0) : Type 0 where
  pub item : T
  pub matches : List Text
  pub score : ℕ

-- What a listing is to the ranking.
pub record Listing (T : Type 0) : Type 0 where
  pub id : T → ℕ
  pub created_at : T → ℕ

-- `if (label) matches.push(label)`
abbrev pub with_label : Option Text → List Text → List Text
with_label none rest = rest
with_label (some label) rest = if is_empty label then rest else label ∷ rest

module _ {T : Type 0} where
  -- The score: each criterion outweighs every criterion below it combined.
  unfoldable pub score : T → T → List (Criterion T) → ℕ
  score base c [] = 0
  score base c (criterion ∷ below) =
      let rest = score base c below in
      if criterion.match_of base c then 2 ^ length below + rest else rest

  unfoldable pub labels : T → T → List (Criterion T) → List Text
  labels base c [] = []
  labels base c (criterion ∷ below) =
      let rest = labels base c below in
      if criterion.match_of base c then with_label (criterion.label base c) rest else rest

  abbrev pub scored : T → List (Criterion T) → T → Scored T
  scored base criteria c = record {
    item = c;
    matches = labels base c criteria;
    score = score base c criteria;
  }

  abbrev pub ranked : Scored T → Ranked T
  ranked s = record { item = s.item; matches = s.matches }

module _ {T : Type 0} (listing : Listing T) where
  -- The comparison of `sort` is positive: `a` goes after `b`.
  unfoldable pub goes_after : Scored T → Scored T → Bool
  goes_after a b =
      ltb a.score b.score
      || a.score == b.score && ltb (listing.created_at a.item) (listing.created_at b.item)

  -- `sort`, which is stable
  unfoldable pub insert : Scored T → List (Scored T) → List (Scored T)
  insert x [] = x ∷ []
  insert x (y ∷ ys) = let rest = insert x ys in if goes_after x y then y ∷ rest else x ∷ y ∷ ys

  unfoldable pub sort : List (Scored T) → List (Scored T)
  sort [] = []
  sort (x ∷ xs) = insert x (sort xs)

  -- `rankByPriority`
  unfoldable pub rank_by_priority : T → List T → List (Criterion T) → ℕ → List (Ranked T)
  rank_by_priority base candidates criteria limit = map ranked (
      take limit (
        sort (
          map (scored base criteria)
            (filter (λ c. not (listing.id c == listing.id base)) candidates))))
