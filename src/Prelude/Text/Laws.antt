-- ===== src/Prelude/Text/Laws.antt =====
-- `trim` and `toLowerCase` may be repeated and exchanged.
use majestan_backend.Prelude.Tests.{Bool-cases}
use majestan_backend.Prelude.Text.{
  Text, is_space, lower_code, lower, trim_start, trim_end_cons, trim_end, trim,
}
use Prim.Native.Nat.{ℕ}
use mathlib.Core.Path.{◌≡◌, refl, ap, ◌∙◌}
use mathlib.Core.Logic.{inl, inr}
use mathlib.Core.Bool.{false}
use mathlib.Core.List.{[], ◌∷◌}
use native.Mathlib.Omega.{arith}

lower_code_idem : (c : ℕ) → lower_code (lower_code c) ≡ lower_code c
unfolding lower_code
lower_code_idem c = ground arith

pub lower_idem : (s : Text) → lower (lower s) ≡ lower s
unfolding lower
lower_idem [] = refl
lower_idem (c ∷ s) = rw (lower_code_idem c, lower_idem s)

is_space-lower_code : (c : ℕ) → is_space (lower_code c) ≡ is_space c
unfolding is_space lower_code
is_space-lower_code c = ground arith

trim_start-lower : (s : Text) → trim_start (lower s) ≡ lower (trim_start s)
unfolding trim_start lower
trim_start-lower [] = refl
trim_start-lower (c ∷ s) = elim (Bool-cases (is_space c)) [
  | inl space ↦ rw (is_space-lower_code c) (rw space (trim_start-lower s))
  | inr other ↦ rw (is_space-lower_code c) (rw other)
]

trim_end_cons-lower :
    (c : ℕ) (s : Text) → trim_end_cons (lower_code c) (lower s) ≡ lower (trim_end_cons c s)
unfolding trim_end_cons lower
trim_end_cons-lower c [] = elim (Bool-cases (is_space c)) [
  | inl space ↦ rw (is_space-lower_code c) (rw space)
  | inr other ↦ rw (is_space-lower_code c) (rw other)
]
trim_end_cons-lower c (d ∷ s) = refl

trim_end-lower : (s : Text) → trim_end (lower s) ≡ lower (trim_end s)
unfolding trim_end lower
trim_end-lower [] = refl
trim_end-lower (c ∷ s) =
    ap (trim_end_cons (lower_code c)) (trim_end-lower s) ∙ trim_end_cons-lower c (trim_end s)

pub trim-lower : (s : Text) → trim (lower s) ≡ lower (trim s)
unfolding trim
trim-lower s = ap trim_end (trim_start-lower s) ∙ trim_end-lower (trim_start s)

trim_end-trim_end_cons :
    (c : ℕ) (t : Text) → trim_end t ≡ t → trim_end (trim_end_cons c t) ≡ trim_end_cons c t
unfolding trim_end trim_end_cons
trim_end-trim_end_cons c [] h = elim (Bool-cases (is_space c)) [
  | inl space ↦ rw space
  | inr other ↦ rw other (rw other)
]
trim_end-trim_end_cons c (d ∷ t) h = ap (trim_end_cons c) h

trim_end_idem : (s : Text) → trim_end (trim_end s) ≡ trim_end s
unfolding trim_end
trim_end_idem [] = refl
trim_end_idem (c ∷ s) = trim_end-trim_end_cons c (trim_end s) (trim_end_idem s)

-- A text that does not begin with a space.
abbrev StartsPlain : Text → Type 0
StartsPlain [] = Unit
StartsPlain (c ∷ s) = is_space c ≡ false

trim_start-StartsPlain : (s : Text) → StartsPlain (trim_start s)
unfolding trim_start
trim_start-StartsPlain [] = tt
trim_start-StartsPlain (c ∷ s) = elim (Bool-cases (is_space c)) [
  | inl space ↦ rw space (trim_start-StartsPlain s)
  | inr other ↦ rw other other
]

trim_end_cons-StartsPlain :
    (c : ℕ) (s : Text) → is_space c ≡ false → StartsPlain (trim_end_cons c s)
unfolding trim_end_cons
trim_end_cons-StartsPlain c [] h = rw h h
trim_end_cons-StartsPlain c (d ∷ s) h = h

trim_end-StartsPlain : (s : Text) → StartsPlain s → StartsPlain (trim_end s)
unfolding trim_end
trim_end-StartsPlain [] h = tt
trim_end-StartsPlain (c ∷ s) h = trim_end_cons-StartsPlain c (trim_end s) h

trim_start_of_StartsPlain : (s : Text) → StartsPlain s → trim_start s ≡ s
unfolding trim_start
trim_start_of_StartsPlain [] h = refl
trim_start_of_StartsPlain (c ∷ s) h = rw h

pub trim_idem : (s : Text) → trim (trim s) ≡ trim s
unfolding trim
trim_idem s =
    ap trim_end (
      trim_start_of_StartsPlain (trim_end (trim_start s))
        (trim_end-StartsPlain (trim_start s) (trim_start-StartsPlain s)))
    ∙ trim_end_idem (trim_start s)

-- `s.trim().toLowerCase()`, the form in which e-mail addresses are stored and looked up.
unfoldable pub normal : Text → Text
normal s = lower (trim s)

pub normal_idem : (s : Text) → normal (normal s) ≡ normal s
unfolding normal
normal_idem s = ap lower (trim-lower (trim s)) ∙ lower_idem (trim (trim s)) ∙ ap lower (trim_idem s)

pub lower-normal : (s : Text) → lower (normal s) ≡ normal s
unfolding normal
lower-normal s = lower_idem (trim s)

abbrev pub NoSpace : Text → Type 0
NoSpace [] = Unit
NoSpace (c ∷ s) = (is_space c ≡ false) × NoSpace s

trim_end_of_NoSpace : (s : Text) → NoSpace s → trim_end s ≡ s
unfolding trim_end
trim_end_of_NoSpace [] h = refl
trim_end_of_NoSpace (c ∷ []) (h, hs) = unfold trim_end_cons in rw h
trim_end_of_NoSpace (c ∷ d ∷ s) (h, hs) = ap (trim_end_cons c) (trim_end_of_NoSpace (d ∷ s) hs)

-- A text with no space in it is its own trimmed form.
pub trim_of_NoSpace : (s : Text) → NoSpace s → trim s ≡ s
unfolding trim
trim_of_NoSpace [] h = unfold trim_start trim_end in refl
trim_of_NoSpace (c ∷ s) h =
    ap trim_end (trim_start_of_StartsPlain (c ∷ s) h.0) ∙ trim_end_of_NoSpace (c ∷ s) h
