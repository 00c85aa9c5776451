-- ===== src/Phone/OtpCode.antt =====
-- `generateOtp` of src/common/utils/otp-generator.util.ts, with the number that `randomInt` drew, and
-- JavaScript's `String` and `padStart` for it.
use native.Mathlib.Nat.{pow-suc}
use majestan_backend.Prelude.{
  ℕ, zero, suc, ◌+◌, ◌-◌, ◌*◌, ◌/◌, ◌%◌, ◌^◌, ◌≤◌, ◌<◌, true, [], ◌∷◌, ◌++◌, ◌≡◌, refl, arith, ltb,
  if◌then◌else◌, length, length-append, Bool-cases, inl, inr, ◌∙◌,
}
use majestan_backend.Prelude.Text.{Text}
use majestan_backend.Phone.{all_digits}
use majestan_backend.Phone.Canonical.{all_digits-append}

-- The decimal digits of a number; a number below `fuel` has as many rounds as it needs.
unfoldable pub decimal_digits : ℕ → ℕ → Text
decimal_digits zero n = []
decimal_digits (suc fuel) n =
    let front = decimal_digits fuel (n / 10) in
    if ltb n 10 then (48 + n) ∷ [] else front ++ (48 + n % 10) ∷ []

-- `String(n)`
unfoldable pub decimal : ℕ → Text
unfolding decimal_digits
decimal n = decimal_digits (suc n) n

unfoldable pub zeros : ℕ → Text
zeros zero = []
zeros (suc n) = b'0' ∷ zeros n

-- `padStart(width, '0')`
unfoldable pub pad_start : ℕ → Text → Text
unfolding zeros
pad_start width s = zeros (width - length s) ++ s

unfoldable pub generate_otp : ℕ → Text
unfolding pad_start decimal
generate_otp drawn = pad_start 6 (decimal drawn)

-- The number that a text of digits spells.
value_from : ℕ → Text → ℕ
value_from acc [] = acc
value_from acc (c ∷ s) = value_from (acc * 10 + (c - 48)) s

unfoldable pub value : Text → ℕ
unfolding value_from
value s = value_from 0 s

value_from-concat :
    (acc : ℕ) (s : Text) (c : ℕ) → value_from acc (s ++ c ∷ []) ≡ value_from acc s * 10 + (c - 48)
unfolding value_from
value_from-concat acc [] c = refl
value_from-concat acc (d ∷ s) c = value_from-concat (acc * 10 + (d - 48)) s c

value-zeros : (n : ℕ) (s : Text) → value_from 0 (zeros n ++ s) ≡ value_from 0 s
unfolding value_from zeros
value-zeros zero s = refl
value-zeros (suc n) s = value-zeros n s

value-decimal_digits : (fuel n : ℕ) → n < fuel → value_from 0 (decimal_digits fuel n) ≡ n
unfolding decimal_digits value_from
value-decimal_digits zero n h = absurd (omega arith)
value-decimal_digits (suc fuel) n h = elim (Bool-cases (ltb n 10)) [
  | inl small ↦ rw small (omega arith)
  | inr large ↦
      let ten : 10 ≤ n = ground arith in
      let front = value-decimal_digits fuel (n / 10) (omega arith) in
      rw large (rw (value_from-concat 0 (decimal_digits fuel (n / 10)) (48 + n % 10)) (omega arith))
]

length-decimal_digits : (fuel n k : ℕ) → n < 10 ^ suc k → length (decimal_digits fuel n) ≤ suc k
unfolding decimal_digits
length-decimal_digits zero n k h = omega arith
length-decimal_digits (suc fuel) n zero h = ground arith
length-decimal_digits (suc fuel) n (suc k) h = elim (Bool-cases (ltb n 10)) [
  | inl small ↦ rw small (omega arith)
  | inr large ↦
      let less : n < 10 ^ suc k * 10 = rw pow-suc at h in
      let front = length-decimal_digits fuel (n / 10) k (omega arith) in
      rw large (omega (arith, length-append (decimal_digits fuel (n / 10)) ((48 + n % 10) ∷ [])))
]

all_digits-decimal_digits : (fuel n : ℕ) → all_digits (decimal_digits fuel n) ≡ true
unfolding decimal_digits
all_digits-decimal_digits zero n = refl
all_digits-decimal_digits (suc fuel) n = elim (Bool-cases (ltb n 10)) [
  | inl small ↦ rw small (ground arith)
  | inr large ↦ rw large (
      all_digits-append (decimal_digits fuel (n / 10)) ((48 + n % 10) ∷ [])
        (all_digits-decimal_digits fuel (n / 10)) (ground arith))
]

length-decimal_digits_pos : (fuel n : ℕ) → 1 ≤ length (decimal_digits (suc fuel) n)
unfolding decimal_digits
length-decimal_digits_pos fuel n = elim (Bool-cases (ltb n 10)) [
  | inl small ↦ rw small (omega arith)
  | inr large ↦
      rw large (omega (arith, length-append (decimal_digits fuel (n / 10)) ((48 + n % 10) ∷ [])))
]

-- `String(n)` is digits, and one at least.
pub decimal_lem : (n : ℕ) → (all_digits (decimal n) ≡ true) × (1 ≤ length (decimal n))
unfolding decimal
decimal_lem n = (all_digits-decimal_digits (suc n) n, length-decimal_digits_pos n n)

pub value-decimal : (n : ℕ) → value (decimal n) ≡ n
unfolding decimal value
value-decimal n = value-decimal_digits (suc n) n (omega arith)

zeros_facts : (n : ℕ) → (length (zeros n) ≡ n) × (all_digits (zeros n) ≡ true)
unfolding zeros
zeros_facts zero = (refl, refl)
zeros_facts (suc n) = (omega (arith, (zeros_facts n).0), ground (arith, (zeros_facts n).1))

-- A number that is padded is digits, one at least, and spells the number.
pub pad_start_lem :
    (width n : ℕ)
    → (all_digits (pad_start width (decimal n)) ≡ true)
      × (1 ≤ length (pad_start width (decimal n)))
      × (value (pad_start width (decimal n)) ≡ n)
unfolding pad_start value
pad_start_lem width n =
    let (digits, some_digit) = decimal_lem n in
    let front = zeros (width - length (decimal n)) in
    (
      all_digits-append front (decimal n) (zeros_facts (width - length (decimal n))).1 digits,
      omega (arith, length-append front (decimal n), some_digit),
      value-zeros (width - length (decimal n)) (decimal n) ∙ value-decimal n,
    )

-- Whatever number below a million is drawn, the code is six digits, which the DTO's
-- `^[0-9]{6}$` admits, and it spells the number: distinct draws give distinct codes.
pub generate_otp_lem :
    (drawn : ℕ)
    → drawn < 1000000
    → (length (generate_otp drawn) ≡ 6)
      × (all_digits (generate_otp drawn) ≡ true)
      × (value (generate_otp drawn) ≡ drawn)
unfolding generate_otp value
generate_otp_lem drawn h =
    let text = decimal_digits (suc drawn) drawn in
    let short : length text ≤ 6 = length-decimal_digits (suc drawn) drawn 5 h in
    let (count_zeros, zero_digits) = zeros_facts (6 - length text) in
    (
      omega (arith, length-append (zeros (6 - length text)) text),
      all_digits-append (zeros (6 - length text)) text zero_digits
          (all_digits-decimal_digits (suc drawn) drawn),
      value-zeros (6 - length text) text ∙ value-decimal_digits (suc drawn) drawn (omega arith),
    )
