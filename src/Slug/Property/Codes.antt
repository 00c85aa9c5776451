-- ===== src/Slug/Property/Codes.antt =====
-- The id codes in a text: letters and digits behind a hyphen.
use majestan_backend.Prelude.{
  ℕ, ◌≤◌, Bool, true, false, ◌&&◌, none, [], ◌∷◌, ◌++◌, ◌==◌, ◌≡◌, refl, ap, arith, length,
  Bool-cases, inl, inr,
}
use majestan_backend.Prelude.Text.{Text, is_empty}
use majestan_backend.Phone.{all_digits}
use majestan_backend.Slug.Property.{is_letter, leading_letters, after_letters, is_id_code, id_code}

unfoldable pub all_letters : Text → Bool
all_letters [] = true
all_letters (c ∷ s) = is_letter c && all_letters s

-- Letters before digits
pub letters_before :
    (code digits : Text)
    → all_letters code ≡ true
    → all_digits digits ≡ true
    → (leading_letters (code ++ digits) ≡ code) × (after_letters (code ++ digits) ≡ digits)
unfolding leading_letters after_letters all_letters
letters_before [] [] h k = (refl, refl)
letters_before [] (d ∷ digits) h k =
    let no_letter : is_letter d ≡ false = ground arith in rw no_letter (refl, refl)
letters_before (c ∷ code) digits h k =
    let (front, back) = letters_before code digits (ground arith) k in
    let letter : is_letter c ≡ true = ground arith in rw letter (ap (λ s. c ∷ s) front, back)

digits_hyphen : (front rest : Text) → all_digits (front ++ b'-' ∷ rest) ≡ false
digits_hyphen [] rest = refl
digits_hyphen (c ∷ front) rest = ground (arith, digits_hyphen front rest)

after_letters_hyphen :
    (front rest : Text) → all_digits (after_letters (front ++ b'-' ∷ rest)) ≡ false
unfolding after_letters
after_letters_hyphen [] rest = refl
after_letters_hyphen (c ∷ front) rest = elim (Bool-cases (is_letter c)) [
  | inl letter ↦ rw letter (after_letters_hyphen front rest)
  | inr other ↦ rw other (digits_hyphen (c ∷ front) rest)
]

-- A text with a hyphen is no code.
no_hyphen_code :
    (least most : ℕ) (front rest : Text) → is_id_code least most (front ++ b'-' ∷ rest) ≡ false
unfolding is_id_code
no_hyphen_code least most front rest = ground (arith, after_letters_hyphen front rest)

pub id_code-append :
    (least most : ℕ) (front code : Text)
    → id_code least most (front ++ b'-' ∷ code) ≡ id_code least most (b'-' ∷ code)
unfolding id_code
id_code-append least most [] code = refl
id_code-append least most (c ∷ front) code =
    let rest = id_code-append least most front code in
    rw (no_hyphen_code least most front code)
      (elim (Bool-cases (c == b'-')) [ inl hyphen ↦ rw hyphen rest | inr other ↦ rw other rest ])

-- Letters and digits alone have no code behind a hyphen.
pub id_code-none :
    (least most : ℕ) (code digits : Text)
    → all_letters code ≡ true
    → all_digits digits ≡ true
    → id_code least most (code ++ digits) ≡ none
unfolding id_code all_letters
id_code-none least most [] [] h k = refl
id_code-none least most [] (d ∷ digits) h k =
    let rest = id_code-none least most [] digits refl (ground arith) in
    let no_hyphen : (d == b'-') ≡ false = ground arith in rw (no_hyphen, rest) refl
id_code-none least most (c ∷ code) digits h k =
    let rest = id_code-none least most code digits (ground arith) k in
    let no_hyphen : (c == b'-') ≡ false = ground arith in rw (no_hyphen, rest) refl

pub is_id_code-append :
    (code digits : Text)
    → all_letters code ≡ true
    → all_digits digits ≡ true
    → 1 ≤ length digits
    → is_id_code 2 2 (code ++ digits) ≡ (length code == 2)
unfolding is_id_code
is_id_code-append code digits l d some_digit =
    let (front, back) = letters_before code digits l d in
    rw (front, back) (ground (arith, full digits some_digit))
  where
    full : (s : Text) → 1 ≤ length s → is_empty s ≡ false
    full [] h = absurd (omega arith)
    full (c ∷ s) h = refl
