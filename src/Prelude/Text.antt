-- ===== src/Prelude/Text.antt =====
-- Text that the program walks: a list of code points, with JavaScript's `===`, `trim` and
-- `toLowerCase` on it. Letter case is that of the ASCII letters.
pub mod Laws
use Prim.Native.Nat.{ℕ, ◌+◌}
use Prim.Native.Char.{code}
use Prim.Native.String.{String}
use mathlib.Core.Path.{◌≡◌, refl}
use mathlib.Core.Logic.{◌↔◌}
use mathlib.Core.Bool.{Bool, true, false, ◌&&◌, ◌||◌}
use mathlib.Core.List.{List, [], ◌∷◌, map}
use native.Mathlib.Omega.{arith}
use majestan_backend.Prelude.Tests.{leb, ◌==◌, if◌then◌else◌}

abbrev pub Text : Type 0
Text = List ℕ

-- The code points of a literal.
abbrev pub codes : String → Text
codes String.[] = []
codes (String.◌∷◌ c s) = code c ∷ codes s

infix 50 ◌=t◌
abbrev pub ◌=t◌ : Text → Text → Bool
[] =t [] = true
[] =t (d ∷ t) = false
(c ∷ s) =t [] = false
(c ∷ s) =t (d ∷ t) = c == d && s =t t

pub eq_of_=t : (s t : Text) → (s =t t) ≡ true → s ≡ t
eq_of_=t [] [] h = refl
eq_of_=t [] (d ∷ t) h = ground arith
eq_of_=t (c ∷ s) [] h = ground arith
eq_of_=t (c ∷ s) (d ∷ t) h = ground (arith, eq_of_=t s t)

pub =t_refl : (s : Text) → (s =t s) ≡ true
=t_refl [] = refl
=t_refl (c ∷ s) = ground (arith, =t_refl s)

pub =t_iff : (s t : Text) → ((s =t t) ≡ true) ↔ (s ≡ t)
=t_iff s t = (eq_of_=t s t, λ e. ground (arith, =t_refl s))

abbrev pub is_empty : Text → Bool
is_empty [] = true
is_empty (c ∷ s) = false

-- The white space and line ends of `String.prototype.trim`.
unfoldable pub is_space : ℕ → Bool
is_space c =
    leb 9 c && leb c 13
    || c == 32
    || c == 160
    || c == 5760
    || leb 8192 c && leb c 8202
    || c == 8232
    || c == 8233
    || c == 8239
    || c == 8287
    || c == 12288
    || c == 65279

unfoldable pub lower_code : ℕ → ℕ
lower_code c = if leb 65 c && leb c 90 then c + 32 else c

unfoldable pub lower : Text → Text
unfolding lower_code
lower = map lower_code

unfoldable pub trim_start : Text → Text
unfolding is_space
trim_start [] = []
trim_start (c ∷ s) = if is_space c then trim_start s else c ∷ s

trim_end_cons : ℕ → Text → Text
unfolding is_space
trim_end_cons c [] = if is_space c then [] else c ∷ []
trim_end_cons c (d ∷ s) = c ∷ d ∷ s

unfoldable pub trim_end : Text → Text
unfolding trim_end_cons
trim_end [] = []
trim_end (c ∷ s) = trim_end_cons c (trim_end s)

unfoldable pub trim : Text → Text
unfolding trim_start trim_end
trim s = trim_end (trim_start s)
