-- ===== src/Storage/Upload.antt =====
-- src/modules/storage/storage.service.ts: the temporary keys, and the upload of a file under one.
use majestan_backend.Prelude.{
  ℕ, ◌+◌, ◌*◌, Bool, true, false, ◌&&◌, ◌||◌, Option, none, some, List, [], ◌∷◌, ◌++◌, ◌==◌, leb,
  ltb, if◌then◌else◌,
}
use majestan_backend.Prelude.Text.{Text, codes}
use majestan_backend.Phone.{drop}
use majestan_backend.Phone.OtpCode.{decimal}
use majestan_backend.Http.{Outcome, ok, fail}
use majestan_backend.Storage.{StorageEnv, starts_with, local_temp_prefix, write_object}

-- `MAX_LOCAL_UPLOAD_BYTES`
abbrev pub max_local_upload_bytes : ℕ
max_local_upload_bytes = 15 * 1024 * 1024

unfoldable pub is_alphanumeric : ℕ → Bool
is_alphanumeric c = leb 48 c && leb c 57 || leb 65 c && leb c 90 || leb 97 c && leb c 122

-- `[A-Za-z0-9._-]`
unfoldable pub is_key_code : ℕ → Bool
is_key_code c = is_alphanumeric c || c == b'.' || c == b'_' || c == b'-'

unfoldable pub all_key_codes : Text → Bool
all_key_codes [] = true
all_key_codes (c ∷ s) = is_key_code c && all_key_codes s

-- `[A-Za-z0-9][A-Za-z0-9._-]*`
unfoldable pub is_file_name : Text → Bool
is_file_name [] = false
is_file_name (c ∷ s) = is_alphanumeric c && all_key_codes s

-- `TEMP_KEY_PATTERN`
unfoldable pub is_temp_upload_key : Text → Bool
unfolding starts_with is_file_name
is_temp_upload_key key = starts_with local_temp_prefix key && is_file_name (drop 11 key)

-- What replaces a character: itself, or an underscore for each of its UTF-16 units.
unfoldable pub safe_codes : ℕ → Text
safe_codes c =
    if is_alphanumeric c || c == b'.' || c == b'-'
    then c ∷ []
    else if ltb c 65536
    then b'_' ∷ []
    else b'_' ∷ b'_' ∷ []

-- `fileName.replace(/[^a-zA-Z0-9.-]/g, '_')`
unfoldable pub safe_name : Text → Text
unfolding safe_codes
safe_name [] = []
safe_name (c ∷ s) = safe_codes c ++ safe_name s

-- The key of `generatePresignedUrl`
unfoldable pub presigned_key : StorageEnv → Text → Text
presigned_key env file_name =
    (if env.is_local_driver then local_temp_prefix else codes "uploads/temp/")
    ++ decimal env.now
    ++ b'-' ∷ safe_name file_name

-- The loop over the body, by the sizes of its chunks; `none` once the limit is passed.
unfoldable pub read_body : ℕ → ℕ → List ℕ → Option ℕ
read_body limit bytes [] = some bytes
read_body limit bytes (chunk ∷ body) =
    let rest = read_body limit (bytes + chunk) body in
    if ltb limit (bytes + chunk) then none else rest

abbrev pub accept_body : Text → List Text → Option ℕ → Outcome Text × List Text
accept_body key objects none = (fail 413 "File too large (max 15MB)", objects)
accept_body key objects (some bytes) =
    if bytes == 0
    then (fail 400 "Empty upload body", objects)
    else (ok key, write_object key objects)

-- `writeLocalTempFile`
unfoldable pub write_local_temp_file : Text → List ℕ → List Text → Outcome Text × List Text
unfolding is_temp_upload_key
write_local_temp_file key body objects =
    if is_temp_upload_key key
    then accept_body key objects (read_body max_local_upload_bytes 0 body)
    else (fail 400 "Invalid upload key", objects)
