-- ===== src/Phone/Tests.antt =====
-- The laws of phone numbers and codes at concrete texts.
use majestan_backend.Prelude.{true, none, some, ◌∷◌, ◌≡◌, refl, arith, length}
use majestan_backend.Prelude.Text.{codes, trim}
use majestan_backend.Phone.{PhoneNumber, all_digits, normalize_phone, is_indian_mobile, finish}
use majestan_backend.Phone.Canonical.{normalize_phone_canonical, normalize_phone_rejects_91}
use majestan_backend.Phone.OtpCode.{generate_otp, value, generate_otp_lem}

abbrev number : PhoneNumber
number = record { canonical = codes "+919876543210"; provider_number = codes "919876543210" }

normalize_phone_canonical_example :
    (codes "+919876543210" ≡ b'+' ∷ codes "919876543210")
    × (all_digits (codes "919876543210") ≡ true)
    × (normalize_phone (codes "+91") (codes "919876543210") ≡ some number)
    × (normalize_phone (codes "+91") (codes "+919876543210") ≡ some number)
unfolding normalize_phone trim finish
normalize_phone_canonical_example =
    normalize_phone_canonical (codes "+91") (codes "098765 43210") number refl

normalize_phone_rejects_91_example :
    (is_indian_mobile (codes "9187654321") ≡ true)
    × (normalize_phone (codes "+91") (codes "9187654321") ≡ none)
normalize_phone_rejects_91_example = normalize_phone_rejects_91 (codes "87654321") refl refl

generate_otp_lem_example :
    (length (generate_otp 4211) ≡ 6)
    × (all_digits (generate_otp 4211) ≡ true)
    × (value (generate_otp 4211) ≡ 4211)
generate_otp_lem_example = generate_otp_lem 4211 (omega arith)
