-- ===== src/Similar/Laws.antt =====
-- The ranking of similar listings is a strict priority list.
use majestan_backend.Prelude.{
  ℕ, zero, suc, ◌^◌, ◌<◌, Bool, true, false, not, ◌&&◌, ◌||◌, List, [], ◌∷◌, ◌≡◌, refl, arith, map,
  ltb, ◌==◌, if◌then◌else◌, filter, length, take, All, All-mono, Bool-cases, inl, inr,
}
use majestan_backend.Similar.{
  Criterion, Ranked, Scored, Listing, score, scored, ranked, goes_after, insert, sort,
  rank_by_priority,
}

module _ {T : Type 0} where
  -- `y` has the first criterion in which the two differ.
  unfoldable pub beats : T → List (Criterion T) → T → T → Bool
  beats base [] y x = false
  beats base (criterion ∷ below) y x =
      let rest = beats base below y x in
      if criterion.match_of base y
      then (if criterion.match_of base x then rest else true)
      else (if criterion.match_of base x then false else rest)

  score_below : (base c : T) (ks : List (Criterion T)) → score base c ks < 2 ^ length ks
  unfolding score
  score_below base c [] = omega arith
  score_below base c (k ∷ ks) = ground (arith, score_below base c ks)

  -- A candidate has the higher score exactly when it has the first criterion in which the two differ,
  -- whatever the criteria below that one say.
  pub score_iff_beats :
      (base x y : T) (ks : List (Criterion T))
      → ltb (score base x ks) (score base y ks) ≡ beats base ks y x
  unfolding score beats
  score_iff_beats base x y [] = refl
  score_iff_beats base x y (k ∷ ks) =
      ground (arith, score_iff_beats base x y ks, score_below base x ks, score_below base y ks)

module _ {κ} {T : Type 0} (P : Scored T → Type κ) (listing : Listing T) where
  All-insert : (x : Scored T) (ys : List (Scored T)) → P x → All P ys → All P (insert listing x ys)
  unfolding insert
  All-insert x [] px h = (px, tt)
  All-insert x (y ∷ ys) px (py, h) = elim (Bool-cases (goes_after listing x y)) [
    | inl after ↦ rw after (py, All-insert x ys px h)
    | inr before ↦ rw before (px, (py, h))
  ]

  All-sort : (xs : List (Scored T)) → All P xs → All P (sort listing xs)
  unfolding sort
  All-sort [] h = tt
  All-sort (x ∷ xs) (px, h) = All-insert x (sort listing xs) px (All-sort xs h)

  All-take : (n : ℕ) (xs : List (Scored T)) → All P xs → All P (take n xs)
  All-take zero xs h = tt
  All-take (suc n) [] h = tt
  All-take (suc n) (x ∷ xs) (px, h) = (px, All-take n xs h)

module _ {T : Type 0} (listing : Listing T) where
  -- No one in the list goes after one that stands behind it.
  abbrev IsSorted : List (Scored T) → Type 0
  IsSorted [] = Unit
  IsSorted (s ∷ rest) = All (λ t. goes_after listing s t ≡ false) rest × IsSorted rest

  goes_after_trans :
      (a b c : Scored T)
      → goes_after listing a b ≡ false
      → goes_after listing b c ≡ false
      → goes_after listing a c ≡ false
  unfolding goes_after
  goes_after_trans a b c h k = ground arith

  goes_after_asym :
      (a b : Scored T) → goes_after listing a b ≡ true → goes_after listing b a ≡ false
  unfolding goes_after
  goes_after_asym a b h = ground arith

  insert-IsSorted :
      (x : Scored T) (ys : List (Scored T)) → IsSorted ys → IsSorted (insert listing x ys)
  unfolding insert
  insert-IsSorted x [] h = (tt, tt)
  insert-IsSorted x (y ∷ ys) (first, h) = elim (Bool-cases (goes_after listing x y)) [
    | inl after ↦ rw after (
      All-insert (λ t. goes_after listing y t ≡ false) listing x ys (goes_after_asym x y after)
          first,
      insert-IsSorted x ys h,
    )
    | inr before ↦
        rw before ((before, All-mono ys (λ t k. goes_after_trans x y t before k) first), (first, h))
  ]

  sort-IsSorted : (xs : List (Scored T)) → IsSorted (sort listing xs)
  unfolding sort
  sort-IsSorted [] = tt
  sort-IsSorted (x ∷ xs) = insert-IsSorted x (sort listing xs) (sort-IsSorted xs)

  take-IsSorted : (n : ℕ) (xs : List (Scored T)) → IsSorted xs → IsSorted (take n xs)
  take-IsSorted zero xs h = tt
  take-IsSorted (suc n) [] h = tt
  take-IsSorted (suc n) (x ∷ xs) (first, h) =
      (All-take (λ t. goes_after listing x t ≡ false) listing n xs first, take-IsSorted n xs h)

  module _ (base : T) (ks : List (Criterion T)) where
    -- `y` is closer to the base than `x`: by the first criterion in which they differ, or, where they
    -- differ in none, by being newer.
    unfoldable pub outranks : T → T → Bool
    outranks y x =
        beats base ks y x
        || not (beats base ks x y) && ltb (listing.created_at x) (listing.created_at y)

    -- No one in the list is outranked by one that stands behind it.
    abbrev pub IsRanked : List (Ranked T) → Type 0
    IsRanked [] = Unit
    IsRanked (r ∷ rest) = All (λ t. outranks t.item r.item ≡ false) rest × IsRanked rest

    abbrev IsScored : Scored T → Type 0
    IsScored s = s.score ≡ score base s.item ks

    outranks_of_goes_after :
        (a b : Scored T)
        → IsScored a
        → IsScored b
        → goes_after listing a b ≡ false
        → outranks b.item a.item ≡ false
    unfolding goes_after outranks
    outranks_of_goes_after a b sa sb h =
        ground (arith, score_iff_beats base a.item b.item ks, score_iff_beats base b.item a.item ks)

    All-ranked :
        (s : Scored T) (rest : List (Scored T))
        → IsScored s
        → All IsScored rest
        → All (λ t. goes_after listing s t ≡ false) rest
        → All (λ (t : Ranked T). outranks t.item s.item ≡ false) (map ranked rest)
    All-ranked s [] ps hs h = tt
    All-ranked s (t ∷ rest) ps (pt, hs) (k, h) =
        (outranks_of_goes_after s t ps pt k, All-ranked s rest ps hs h)

    map-IsRanked : (xs : List (Scored T)) → All IsScored xs → IsSorted xs → IsRanked (map ranked xs)
    map-IsRanked [] hs h = tt
    map-IsRanked (s ∷ rest) (ps, hs) (first, h) =
        (All-ranked s rest ps hs first, map-IsRanked rest hs h)

    map-IsScored : (xs : List T) → All IsScored (map (scored base ks) xs)
    map-IsScored [] = tt
    map-IsScored (x ∷ xs) = (refl, map-IsScored xs)

    -- No listing of the answer is outranked by one that stands behind it.
    pub rank_by_priority-IsRanked :
        (candidates : List T) (limit : ℕ)
        → IsRanked (rank_by_priority listing base candidates ks limit)
    unfolding rank_by_priority
    rank_by_priority-IsRanked candidates limit =
        let xs =
          map (scored base ks) (filter (λ c. not (listing.id c == listing.id base)) candidates) in
        map-IsRanked (take limit (sort listing xs))
          (All-take IsScored listing limit (sort listing xs) (
            All-sort IsScored listing xs
              (map-IsScored (filter (λ c. not (listing.id c == listing.id base)) candidates))))
          (take-IsSorted limit (sort listing xs) (sort-IsSorted xs))
