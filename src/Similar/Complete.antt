-- ===== src/Similar/Complete.antt =====
-- The ranking of similar listings shows every candidate but the base, as far as the limit reaches.
use majestan_backend.Prelude.{
  ℕ, zero, suc, ◌≤◌, Bool, not, List, [], ◌∷◌, ◌≡◌, refl, ap, sym, ◌∙◌, arith, map, ◌==◌, filter,
  length, take, count,
}
use majestan_backend.Similar.{
  Criterion, Scored, Listing, scored, ranked, insert, sort, rank_by_priority,
}

module _ {A : Type 0} {B : Type 0} where
  count-map :
      (q : B → Bool) (f : A → B) (xs : List A) → count q (map f xs) ≡ count (λ x. q (f x)) xs
  count-map q f [] = refl
  count-map q f (x ∷ xs) = ground (arith, count-map q f xs)

  length-map : (f : A → B) (xs : List A) → length (map f xs) ≡ length xs
  length-map f [] = refl
  length-map f (x ∷ xs) = ap suc (length-map f xs)

  map-take : (f : A → B) (n : ℕ) (xs : List A) → map f (take n xs) ≡ take n (map f xs)
  map-take f zero xs = refl
  map-take f (suc n) [] = refl
  map-take f (suc n) (x ∷ xs) = ap (λ (ys : List B). f x ∷ ys) (map-take f n xs)

module _ {A : Type 0} where
  take_all : (n : ℕ) (xs : List A) → length xs ≤ n → take n xs ≡ xs
  take_all zero [] h = refl
  take_all zero (x ∷ xs) h = absurd (omega arith)
  take_all (suc n) [] h = refl
  take_all (suc n) (x ∷ xs) h = ap (λ (ys : List A). x ∷ ys) (take_all n xs (omega arith))

  length-filter : (p : A → Bool) (xs : List A) → length (filter p xs) ≤ length xs
  length-filter p [] = omega arith
  length-filter p (x ∷ xs) = ground (arith, length-filter p xs)

module _ {T : Type 0} (listing : Listing T) where
  count-insert :
      (q : Scored T → Bool) (x : Scored T) (ys : List (Scored T))
      → count q (insert listing x ys) ≡ count q (x ∷ ys)
  unfolding insert
  count-insert q x [] = refl
  count-insert q x (y ∷ ys) = ground (arith, count-insert q x ys)

  count-sort : (q : Scored T → Bool) (xs : List (Scored T)) → count q (sort listing xs) ≡ count q xs
  unfolding sort
  count-sort q [] = refl
  count-sort q (x ∷ xs) = ground (arith, count-sort q xs, count-insert q x (sort listing xs))

  length-insert :
      (x : Scored T) (ys : List (Scored T)) → length (insert listing x ys) ≡ suc (length ys)
  unfolding insert
  length-insert x [] = refl
  length-insert x (y ∷ ys) = ground (arith, length-insert x ys)

  length-sort : (xs : List (Scored T)) → length (sort listing xs) ≡ length xs
  unfolding sort
  length-sort [] = refl
  length-sort (x ∷ xs) = ground (arith, length-sort xs, length-insert x (sort listing xs))

  module _ (base : T) (ks : List (Criterion T)) (candidates : List T) where
    -- A shorter answer is the beginning of a longer one, and the answer that is as long as the list of
    -- candidates has every candidate but the base, as often as the list has it, and no other: so a limit
    -- cuts off the last ones of the ranking only.
    pub rank_by_priority-take :
        (limit : ℕ) (p : T → Bool)
        → (rank_by_priority listing base candidates ks limit
            ≡ take limit (rank_by_priority listing base candidates ks (length candidates)))
          × (count (λ r. p r.item) (rank_by_priority listing base candidates ks (length candidates))
              ≡ count p (filter (λ c. not (listing.id c == listing.id base)) candidates))
    unfolding rank_by_priority
    rank_by_priority-take limit p =
        let kept = filter (λ c. not (listing.id c == listing.id base)) candidates in
        let xs = map (scored base ks) kept in
        let whole : take (length candidates) (sort listing xs) ≡ sort listing xs =
          take_all (length candidates) (sort listing xs) (
            ground (
              arith,
              length-sort xs,
              length-map (scored base ks) kept,
              length-filter (λ c. not (listing.id c == listing.id base)) candidates,
            )) in
        (
          map-take ranked limit (sort listing xs)
              ∙ ap (λ (ys : List (Scored T)). take limit (map ranked ys)) (sym whole),
          ap (λ (ys : List (Scored T)). count (λ r. p r.item) (map ranked ys)) whole
              ∙ count-map (λ r. p r.item) ranked (sort listing xs)
              ∙ count-sort (λ s. p s.item) xs
              ∙ count-map (λ s. p s.item) (scored base ks) kept,
        )
