-- ===== src/OwnerPost/Media.antt =====
-- src/modules/owner-post/owner-post-policy.ts `assertOwnerMediaKey`, and the uploads of
-- owner-post.controller.ts.
pub mod Laws
use majestan_backend.Prelude.{
  ℕ, ◌+◌, ◌*◌, Bool, true, false, not, ◌&&◌, ◌||◌, Option, none, some, List, [], ◌∷◌, ◌++◌, ◌==◌,
  ltb, leb, if◌then◌else◌, length, take,
}
use majestan_backend.Prelude.Text.{Text, codes, is_empty}
use majestan_backend.Phone.{strip_prefix, drop, all_digits, is_digit}
use majestan_backend.Phone.OtpCode.{decimal, value}
use majestan_backend.Http.{Outcome, ok, fail}
use majestan_backend.Storage.{StorageEnv, starts_with}
use majestan_backend.Storage.Upload.{all_key_codes, safe_name, presigned_key, write_local_temp_file}
use majestan_backend.OwnerPost.{leading_digits, after_digits, is_in}

-- `[a-f0-9-]`
abbrev pub is_uuid_code : ℕ → Bool
is_uuid_code c = leb 97 c && leb c 102 || is_digit c || c == b'-'

unfoldable pub all_uuid_codes : Text → Bool
all_uuid_codes [] = true
all_uuid_codes (c ∷ s) = is_uuid_code c && all_uuid_codes s

-- `-[A-Za-z0-9._-]+$`
unfoldable pub is_named : Text → Bool
unfolding all_key_codes
is_named [] = false
is_named (c ∷ s) = c == b'-' && not (is_empty s) && all_key_codes s

-- `[a-f0-9-]{36}-[A-Za-z0-9._-]+$`
unfoldable pub is_uuid_named : Text → Bool
unfolding all_uuid_codes is_named
is_uuid_named s = length (take 36 s) == 36 && all_uuid_codes (take 36 s) && is_named (drop 36 s)

abbrev pub owner_tag : ℕ → Text
owner_tag user_id = codes "-owner-" ++ (decimal user_id ++ b'-' ∷ [])

-- `[0-9]+-owner-…` of the name of a file
unfoldable pub is_owner_file : ℕ → Text → Bool
unfolding leading_digits after_digits strip_prefix is_uuid_named
is_owner_file user_id name =
    not (is_empty (leading_digits name))
    && elim (strip_prefix (owner_tag user_id) (after_digits name)) [
      | none ↦ false
      | some rest ↦ is_uuid_named rest
    ]

-- The test of `assertOwnerMediaKey`
unfoldable pub is_owner_media_key : ℕ → Text → Bool
unfolding strip_prefix is_owner_file
is_owner_media_key user_id key = elim (strip_prefix (codes "uploads/temp/") key) [
  | some name ↦ is_owner_file user_id name
  | none ↦ elim (strip_prefix (codes "local/temp/") key) [
    | some name ↦ is_owner_file user_id name
    | none ↦ false
  ]
]

abbrev pub media_types : List Text
media_types =
    codes "image/jpeg" ∷ codes "image/png" ∷ codes "image/webp" ∷ codes "application/pdf" ∷ []

-- `fileSizeBytes`, if it is given
unfoldable pub is_media_size : Option Text → Bool
unfolding value
is_media_size none = true
is_media_size (some size) =
    not (is_empty size)
    && all_digits size
    && leb 1 (value size)
    && leb (value size) (15 * 1024 * 1024)

-- The number of UTF-16 units, which JavaScript's `length` counts.
unfoldable pub utf16_length : Text → ℕ
utf16_length [] = 0
utf16_length (c ∷ s) = (if ltb c 65536 then 1 else 2) + utf16_length s

-- The name under which the file of a user is stored, with the drawn UUID.
unfoldable pub owner_file_name : ℕ → Text → Text → Text
unfolding safe_name
owner_file_name user_id uuid file_name =
    codes "owner-" ++ (decimal user_id ++ b'-' ∷ (uuid ++ b'-' ∷ safe_name file_name))

-- `presignedUrl`, once the account is admitted: the key.
unfoldable pub media_presigned : StorageEnv → ℕ → Text → Text → Text → Option Text → Outcome Text
unfolding is_media_size utf16_length owner_file_name presigned_key
media_presigned env user_id uuid file_name file_type size =
    if is_empty file_name || ltb 200 (utf16_length file_name) || not (is_in file_type media_types)
    then fail 400 "Choose a JPG, PNG, WebP or PDF file."
    else if not (is_media_size size)
    then fail 400 "Files must be 15 MB or smaller."
    else ok (presigned_key env (owner_file_name user_id uuid file_name))

-- `localUpload`, once the account is admitted
unfoldable pub media_upload :
    StorageEnv → ℕ → Text → Text → List ℕ → List Text → Outcome Text × List Text
unfolding starts_with is_owner_media_key write_local_temp_file
media_upload env user_id key content_type body objects =
    if not env.is_local_driver || not (starts_with (codes "local/") key)
    then (fail 400 "Local uploads are disabled.", objects)
    else if not (is_owner_media_key user_id key)
    then (
      fail 400
          "Use files uploaded from your own account. Please remove and upload this file again.",
      objects,
    )
    else if not (is_in content_type media_types)
    then (fail 400 "Choose a JPG, PNG, WebP or PDF file.", objects)
    else write_local_temp_file key body objects
