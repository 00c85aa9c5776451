-- ===== src/Prelude/Counts.antt =====
-- How an update of a table changes the number of the rows that a condition selects.
use Prim.Native.Nat.{suc, ◌+◌, ◌≤◌}
use mathlib.Core.Path.{◌≡◌, refl, ap}
use mathlib.Core.Bool.{Bool, true, false}
use mathlib.Core.List.{List, [], ◌∷◌, ◌++◌}
use native.Mathlib.Omega.{arith}
use majestan_backend.Prelude.Tests.{Bool-cases}
use mathlib.Core.Logic.{inl, inr}
use mathlib.Core.Option.{some, none}
use majestan_backend.Prelude.Lists.{count, update_where, length, find?, any, filter, All, All-mono}

module _ {ℓ} {A : Type ℓ} where
  pub count_mono :
      (p q : A → Bool) (xs : List A) → ((x : A) → p x ≡ true → q x ≡ true) → count p xs ≤ count q xs
  count_mono p q [] h = omega arith
  count_mono p q (x ∷ xs) h = ground (arith, count_mono p q xs h, h x)

  pub count-congr : (p q : A → Bool) (xs : List A) → ((x : A) → p x ≡ q x) → count p xs ≡ count q xs
  count-congr p q [] h = refl
  count-congr p q (x ∷ xs) h = ground (arith, count-congr p q xs h, h x)

  pub count-update_where-le :
      (p q : A → Bool) (f : A → A) (xs : List A)
      → ((x : A) → p (f x) ≡ true → p x ≡ true)
      → count p (update_where q f xs) ≤ count p xs
  count-update_where-le p q f [] h = omega arith
  count-update_where-le p q f (x ∷ xs) h = ground (arith, count-update_where-le p q f xs h, h x)

  pub count-update_where_self :
      (p : A → Bool) (f : A → A) (xs : List A)
      → ((x : A) → p (f x) ≡ false)
      → count p (update_where p f xs) ≡ 0
  count-update_where_self p f [] h = refl
  count-update_where_self p f (x ∷ xs) h = ground (arith, count-update_where_self p f xs h, h x)

  pub length-update_where :
      (q : A → Bool) (f : A → A) (xs : List A) → length (update_where q f xs) ≡ length xs
  length-update_where q f [] = refl
  length-update_where q f (x ∷ xs) = ap suc (length-update_where q f xs)

  pub length-append : (xs ys : List A) → length (xs ++ ys) ≡ length xs + length ys
  length-append [] ys = omega arith
  length-append (x ∷ xs) ys = omega (arith, length-append xs ys)

module _ {ℓ} {A : Type ℓ} where
  pub count-zero-All : (g : A → Bool) (xs : List A) → count g xs ≡ 0 → All (λ x. g x ≡ false) xs
  count-zero-All g [] h = tt
  count-zero-All g (x ∷ xs) h = elim (Bool-cases (g x)) [
    | inl here ↦ absurd (ground arith)
    | inr other ↦ (other, count-zero-All g xs (ground arith))
  ]

  pub count-pos_of_find? :
      (f g : A → Bool) (xs : List A) (l : A) → find? f xs ≡ some l → g l ≡ true → 1 ≤ count g xs
  count-pos_of_find? f g [] l h k = absurd (ground arith)
  count-pos_of_find? f g (x ∷ xs) l h k = elim (Bool-cases (f x)) [
    | inl here ↦ ground arith
    | inr other ↦ ground (arith, count-pos_of_find? f g xs l)
  ]

  pub find?_sound : (f : A → Bool) (xs : List A) (l : A) → find? f xs ≡ some l → f l ≡ true
  find?_sound f [] l h = absurd (ground arith)
  find?_sound f (x ∷ xs) l h = elim (Bool-cases (f x)) [
    | inl here ↦ ground arith
    | inr other ↦ ground (arith, find?_sound f xs l)
  ]

  -- Where at most one row has a property, a row that was found with it is the only one.
  pub only_one :
      (f g : A → Bool) (xs : List A) (l : A)
      → find? f xs ≡ some l
      → g l ≡ true
      → count g xs ≤ 1
      → All (λ x. g x ≡ true → x ≡ l) xs
  only_one f g [] l h k c = tt
  only_one f g (x ∷ xs) l h k c = elim (Bool-cases (f x)) [
    | inl here ↦
        let same : x ≡ l = ground arith in
        let none' : count g xs ≡ 0 = ground arith in
        (λ gx. same, All-mono xs (λ y no gy. absurd (ground arith)) (count-zero-All g xs none'))
    | inr other ↦
        let found : find? f xs ≡ some l = ground arith in
        let more = count-pos_of_find? f g xs l found k in
        (λ gx. absurd (ground arith), only_one f g xs l found k (ground arith))
  ]

  pub any_of_find? :
      (f q g : A → Bool) (u : A → A) (xs : List A) (l : A)
      → find? f xs ≡ some l
      → q l ≡ true
      → g (u l) ≡ true
      → any g (update_where q u xs) ≡ true
  any_of_find? f q g u [] l h k e = absurd (ground arith)
  any_of_find? f q g u (x ∷ xs) l h k e = elim (Bool-cases (f x)) [
    | inl here ↦ ground arith
    | inr other ↦ ground (arith, any_of_find? f q g u xs l)
  ]

  pub find?_of_any :
      (g : A → Bool) (xs : List A) → any g xs ≡ true → (x : A) × (find? g xs ≡ some x)
  find?_of_any g [] h = absurd (ground arith)
  find?_of_any g (x ∷ xs) h = elim (Bool-cases (g x)) [
    | inl here ↦ (x, ground arith)
    | inr other ↦ let (y, found) = find?_of_any g xs (ground arith) in (y, ground arith)
  ]

  pub find?-none_of_All :
      (g : A → Bool) (xs : List A) → All (λ x. g x ≡ false) xs → find? g xs ≡ none
  find?-none_of_All g [] h = refl
  find?-none_of_All g (x ∷ xs) (h, hs) = ground (arith, find?-none_of_All g xs hs)

  pub All-of_find?-none :
      (g : A → Bool) (xs : List A) → find? g xs ≡ none → All (λ x. g x ≡ false) xs
  All-of_find?-none g [] h = tt
  All-of_find?-none g (x ∷ xs) h = elim (Bool-cases (g x)) [
    | inl here ↦ absurd (ground arith)
    | inr other ↦ (other, All-of_find?-none g xs (ground arith))
  ]

  -- An update that knows which rows it selects
  pub All-update_split {κ μ} :
      (P : A → Type κ) (Q : A → Type μ) (q : A → Bool) (f : A → A) (xs : List A)
      → ((x : A) → P x → q x ≡ false → Q x)
      → ((x : A) → P x → q x ≡ true → Q (f x))
      → All P xs
      → All Q (update_where q f xs)
  All-update_split P Q q f [] k u h = tt
  All-update_split P Q q f (x ∷ xs) k u (h, hs) = elim (Bool-cases (q x)) [
    | inl here ↦ rw here (u x h here, All-update_split P Q q f xs k u hs)
    | inr other ↦ rw other (k x h other, All-update_split P Q q f xs k u hs)
  ]

  pub All-filter {κ} :
      (P : A → Type κ) (p : A → Bool) (xs : List A) → All P xs → All P (filter p xs)
  All-filter P p [] h = tt
  All-filter P p (x ∷ xs) (h, hs) = elim (Bool-cases (p x)) [
    | inl kept ↦ rw kept (h, All-filter P p xs hs)
    | inr dropped ↦ rw dropped (All-filter P p xs hs)
  ]

  pub find?-All {κ} :
      (P : A → Type κ) (f : A → Bool) (xs : List A) (x : A) → All P xs → find? f xs ≡ some x → P x
  find?-All P f [] x h e = absurd (ground arith)
  find?-All P f (y ∷ ys) x (h, hs) e = elim (Bool-cases (f y)) [
    | inl here ↦ let same : y ≡ x = ground arith in rw same at h
    | inr other ↦ find?-All P f ys x hs (ground arith)
  ]
