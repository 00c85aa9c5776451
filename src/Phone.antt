-- ===== src/Phone.antt =====
-- src/common/utils/phone.util.ts and otp-generator.util.ts. A text is a list of code points; a
-- regular expression is written as the test that it makes.
pub mod Canonical
pub mod OtpCode
mod Tests
use majestan_backend.Prelude.{
  ℕ, zero, suc, ◌+◌, ◌-◌, ◌*◌, ◌/◌, ◌%◌, Bool, true, false, not, ◌&&◌, Option, none, some, List, [],
  ◌∷◌, ◌++◌, leb, ltb, ◌==◌, if◌then◌else◌, filter, length, take,
}
use majestan_backend.Prelude.Text.{Text, codes, trim, ◌=t◌}

-- `\d`
abbrev pub is_digit : ℕ → Bool
is_digit c = leb 48 c && leb c 57

-- `[6-9]`
abbrev pub is_mobile_digit : ℕ → Bool
is_mobile_digit c = leb 54 c && leb c 57

abbrev pub all_digits : Text → Bool
all_digits [] = true
all_digits (c ∷ s) = is_digit c && all_digits s

-- COUNTRY_CODE_RE, `^\+[1-9]\d{0,4}$`
unfoldable pub is_country_code : Text → Bool
is_country_code (p ∷ c ∷ s) =
    p == b'+' && (leb 49 c && leb c 57) && all_digits s && leb (length s) 4
is_country_code _ = false

-- `^[6-9]\d{9}$`
unfoldable pub is_indian_mobile : Text → Bool
is_indian_mobile [] = false
is_indian_mobile (c ∷ s) = is_mobile_digit c && all_digits s && length s == 9

-- `^0[6-9]\d{9}$`
unfoldable pub is_trunk_mobile : Text → Bool
unfolding is_indian_mobile
is_trunk_mobile [] = false
is_trunk_mobile (c ∷ s) = c == b'0' && is_indian_mobile s

-- `digits.startsWith(prefix)` and then `digits.slice(prefix.length)`; else `digits`
unfoldable pub strip_prefix : Text → Text → Option Text
strip_prefix [] s = some s
strip_prefix (c ∷ p) [] = none
strip_prefix (c ∷ p) (d ∷ s) = if c == d then strip_prefix p s else none

abbrev pub or_else : Option Text → Text → Text
or_else none s = s
or_else (some t) s = t

-- `slice(1)`
abbrev pub slice_one : Text → Text
slice_one [] = []
slice_one (c ∷ s) = s

pub record PhoneNumber : Type 0 where
  pub canonical : Text
  pub provider_number : Text

abbrev pub phone_of : Text → Text → PhoneNumber
phone_of cc digits = record { canonical = cc ++ digits; provider_number = slice_one cc ++ digits }

-- The branch of `normalizePhone` after the country code is stripped.
unfoldable pub finish : Text → Text → Option PhoneNumber
unfolding is_indian_mobile is_trunk_mobile
finish cc digits =
    if cc =t codes "+91"
    then (let local = if is_trunk_mobile digits then slice_one digits else digits in
        if is_indian_mobile local then some (phone_of cc local) else none)
    else if all_digits digits && leb 5 (length digits) && leb (length digits) 15
    then some (phone_of cc digits)
    else none

-- `normalizePhone`; `none` is the thrown error
unfoldable pub normalize_phone : Text → Text → Option PhoneNumber
unfolding is_country_code strip_prefix finish
normalize_phone country_code phone =
    let cc = trim country_code in
    let digits = filter is_digit phone in
    if is_country_code cc
    then finish cc (or_else (strip_prefix (slice_one cc) digits) digits)
    else none

abbrev pub drop : ℕ → Text → Text
drop zero s = s
drop (suc n) [] = []
drop (suc n) (c ∷ s) = drop n s

-- `slice(-4)`
abbrev pub last_four : Text → Text
last_four s = drop (length s - 4) s

-- `maskPhone`
unfoldable pub mask_phone : Text → Text
mask_phone canonical =
    let digits = filter is_digit canonical in
    if leb (length digits) 7
    then codes "*******"
    else take 3 digits ++ (codes "****" ++ last_four digits)
