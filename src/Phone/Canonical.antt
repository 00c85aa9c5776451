-- ===== src/Phone/Canonical.antt =====
-- Laws of `normalizePhone`.
use mathlib.Core.Path.{subst}
use majestan_backend.Prelude.{
  true, false, Option, none, some, [], ◌∷◌, ◌++◌, ◌≡◌, refl, arith, length, filter, Bool-cases, inl,
  inr, ap, sym, ◌∙◌, if◌then◌else◌,
}
use majestan_backend.Prelude.Text.{Text, codes, is_space, trim, ◌=t◌}
use majestan_backend.Prelude.Text.Laws.{NoSpace, trim_of_NoSpace}
use majestan_backend.Phone.{
  PhoneNumber, is_digit, all_digits, is_country_code, is_indian_mobile, is_trunk_mobile,
  strip_prefix, or_else, slice_one, phone_of, finish, normalize_phone,
}

pub filter-all_digits : (s : Text) → all_digits s ≡ true → filter is_digit s ≡ s
filter-all_digits [] h = refl
filter-all_digits (c ∷ s) h = ground (arith, filter-all_digits s)

all_digits-filter : (s : Text) → all_digits (filter is_digit s) ≡ true
all_digits-filter [] = refl
all_digits-filter (c ∷ s) = ground (arith, all_digits-filter s)

pub all_digits-append :
    (s t : Text) → all_digits s ≡ true → all_digits t ≡ true → all_digits (s ++ t) ≡ true
all_digits-append [] t h k = k
all_digits-append (c ∷ s) t h k = ground (arith, all_digits-append s t)

strip_prefix-append : (p s : Text) → strip_prefix p (p ++ s) ≡ some s
unfolding strip_prefix
strip_prefix-append [] s = refl
strip_prefix-append (c ∷ p) s = ground (arith, strip_prefix-append p s)

-- What a successful call returns: the code, then digits in their final form.
record IsFinal (cc : Text) (n : PhoneNumber) (digits : Text) : Type 0 where
  same : phone_of cc digits ≡ n
  are_digits : all_digits digits ≡ true
  again : finish cc digits ≡ some (phone_of cc digits)

all_digits_of_mobile : (s : Text) → is_indian_mobile s ≡ true → all_digits s ≡ true
unfolding is_indian_mobile
all_digits_of_mobile [] h = refl
all_digits_of_mobile (c ∷ s) h = ground arith

not_trunk_of_mobile : (s : Text) → is_indian_mobile s ≡ true → is_trunk_mobile s ≡ false
unfolding is_indian_mobile is_trunk_mobile
not_trunk_of_mobile [] h = refl
not_trunk_of_mobile (c ∷ s) h = ground arith

finish-india :
    (cc local : Text)
    → (cc =t codes "+91") ≡ true
    → is_indian_mobile local ≡ true
    → finish cc local ≡ some (phone_of cc local)
unfolding finish
finish-india cc local india mobile = rw (india, not_trunk_of_mobile local mobile) (rw mobile)

finish-IsFinal :
    (cc digits : Text) (n : PhoneNumber)
    → finish cc digits ≡ some n
    → (local : Text) × IsFinal cc n local
unfolding finish
finish-IsFinal cc digits n h = elim (Bool-cases (cc =t codes "+91")) [
  | inl india ↦
      let local = if is_trunk_mobile digits then slice_one digits else digits in
      let h' : (if is_indian_mobile local then some (phone_of cc local) else none) ≡ some n =
        rw india at h in
      let mobile : is_indian_mobile local ≡ true = ground arith in
      let same : phone_of cc local ≡ n = ground arith in
      (
        local,
        record {
          same = same;
          are_digits = all_digits_of_mobile local mobile;
          again = finish-india cc local india mobile;
        },
      )
  | inr abroad ↦
      (digits, record { same = ground arith; are_digits = ground arith; again = ground arith })
]

country_code_digits :
    (cc : Text)
    → is_country_code cc ≡ true
    → (cc ≡ b'+' ∷ slice_one cc) × (all_digits (slice_one cc) ≡ true)
unfolding is_country_code
country_code_digits [] h = absurd (ground arith)
country_code_digits (p ∷ []) h = absurd (ground arith)
country_code_digits (p ∷ c ∷ s) h = (ground arith, ground arith)

normalize_of_digits :
    (country_code cc phone local : Text) (n : PhoneNumber)
    → trim country_code ≡ cc
    → is_country_code cc ≡ true
    → IsFinal cc n local
    → filter is_digit phone ≡ slice_one cc ++ local
    → normalize_phone country_code phone ≡ some n
unfolding normalize_phone
normalize_of_digits country_code cc phone local n same valid final e =
    rw (same, valid)
      (rw (e, strip_prefix-append (slice_one cc) local)
        (final.again ∙ ap {B = Option PhoneNumber} some final.same))

-- The number sent to the provider is the canonical one without its plus sign, and to normalise
-- either of the two again, with the same country code, gives the same pair: a number is stored, looked
-- up and throttled under one key, however often it has been normalised.
pub normalize_phone_canonical :
    (country_code phone : Text) (n : PhoneNumber)
    → normalize_phone country_code phone ≡ some n
    → (n.canonical ≡ b'+' ∷ n.provider_number)
      × (all_digits n.provider_number ≡ true)
      × (normalize_phone country_code n.provider_number ≡ some n)
      × (normalize_phone country_code n.canonical ≡ some n)
normalize_phone_canonical country_code phone n h =
    let cc = trim country_code in
    let digits = filter is_digit phone in
    let valid : is_country_code cc ≡ true = unfold normalize_phone in ground arith in
    let finished : finish cc (or_else (strip_prefix (slice_one cc) digits) digits) ≡ some n =
      unfold normalize_phone in ground arith in
    let (local, final) =
      finish-IsFinal cc (or_else (strip_prefix (slice_one cc) digits) digits) n finished in
    let (plus, code_digits) = country_code_digits cc valid in
    let number_digits = all_digits-append (slice_one cc) local code_digits final.are_digits in
    let keep = filter-all_digits (slice_one cc ++ local) number_digits in
    let provider : slice_one cc ++ local ≡ n.provider_number =
      ap (λ (m : PhoneNumber). m.provider_number) final.same in
    let full : cc ++ local ≡ n.canonical = ap (λ (m : PhoneNumber). m.canonical) final.same in
    let shape : b'+' ∷ (slice_one cc ++ local) ≡ n.canonical =
      ap (λ (c : Text). c ++ local) (sym plus) ∙ full in
    (
      sym shape ∙ ap (λ (s : Text). b'+' ∷ s) provider,
      subst (λ s. all_digits s ≡ true) provider number_digits,
      normalize_of_digits country_code cc n.provider_number local n refl valid final
          (subst (λ s. filter is_digit s ≡ slice_one cc ++ local) provider keep),
      normalize_of_digits country_code cc n.canonical local n refl valid final
          (subst (λ s. filter is_digit s ≡ slice_one cc ++ local) shape keep),
    )

-- Every ten-digit Indian number that begins with 91 is refused, though `^[6-9]\d{9}$` admits it: its
-- first two digits are taken for the country code.
pub normalize_phone_rejects_91 :
    (s : Text)
    → all_digits s ≡ true
    → length s ≡ 8
    → (is_indian_mobile (codes "91" ++ s) ≡ true)
      × (normalize_phone (codes "+91") (codes "91" ++ s) ≡ none)
unfolding normalize_phone is_indian_mobile trim
normalize_phone_rejects_91 [] h eight = absurd (omega arith)
normalize_phone_rejects_91 (c ∷ s) h eight =
    (ground arith, rw (filter-all_digits (c ∷ s) h) (ground arith))

NoSpace-of_digits : (s : Text) → all_digits s ≡ true → NoSpace s
NoSpace-of_digits [] h = tt
NoSpace-of_digits (c ∷ s) h = (unfold is_space in ground arith, NoSpace-of_digits s (ground arith))

-- A canonical number is looked up as it stands.
pub trim-canonical :
    (country_code phone : Text) (n : PhoneNumber)
    → normalize_phone country_code phone ≡ some n
    → trim n.canonical ≡ n.canonical
trim-canonical country_code phone n h =
    let (shape, digits, _, _) = normalize_phone_canonical country_code phone n h in
    rw shape (
      trim_of_NoSpace (b'+' ∷ n.provider_number)
        (unfold is_space in refl, NoSpace-of_digits n.provider_number digits))
