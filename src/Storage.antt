-- ===== src/Storage.antt =====
-- src/modules/storage/storage.service.ts: the keys of the stored files, and the image processing that
-- moves a temporary file to its place. What sharp, imgproxy and the object store answer is the
-- environment's.
pub mod Upload
pub mod Laws
mod Tests
use majestan_backend.Prelude.{
  ℕ, ◌+◌, ◌-◌, ◌*◌, Bool, true, false, not, ◌&&◌, ◌||◌, Option, none, some, List, [], ◌∷◌, ◌++◌,
  ◌==◌, leb, ltb, if◌then◌else◌, any, filter,
}
use majestan_backend.Prelude.Text.{Text, codes, ◌=t◌, is_empty}
use majestan_backend.Phone.{drop}
use majestan_backend.Phone.OtpCode.{decimal}
use majestan_backend.Http.{Outcome, ok, fail}

-- The configuration, the clock, and the answers of the services: whether a conversion by sharp or
-- imgproxy (with the writing of its result) succeeds, whether a deletion is carried out, and the
-- width and height that an image is measured at, if it can be read.
pub record StorageEnv : Type 0 where
  pub is_local_driver : Bool
  pub public_url : Text
  pub now : ℕ
  pub converts : Text → Bool
  pub deletes : Text → Bool
  pub dimensions : Text → Option (ℕ × ℕ)

-- `startsWith`
unfoldable pub starts_with : Text → Text → Bool
starts_with [] s = true
starts_with (c ∷ p) [] = false
starts_with (c ∷ p) (d ∷ s) = c == d && starts_with p s

-- `includes`
unfoldable pub contains : Text → Text → Bool
unfolding starts_with
contains p [] = is_empty p
contains p (c ∷ s) = starts_with p (c ∷ s) || contains p s

abbrev pub is_slash : ℕ → Bool
is_slash c = c == b'/'

-- `split('/').pop()`
unfoldable pub last_segment : Text → Text
last_segment [] = []
last_segment (c ∷ s) = if any is_slash (c ∷ s) then last_segment s else c ∷ s

abbrev pub ends_extension : ℕ → Bool
ends_extension c = c == b'.' || is_slash c

-- `replace(/\.[^/.]+$/, '')`
unfoldable pub strip_extension : Text → Text
strip_extension [] = []
strip_extension (c ∷ s) =
    let rest = strip_extension s in
    if c == b'.' && not (is_empty s) && not (any ends_extension s) then [] else c ∷ rest

abbrev pub local_temp_prefix : Text
local_temp_prefix = codes "local/temp/"

abbrev pub stored : Text → List Text → Bool
stored key = any (λ object. object =t key)

abbrev pub write_object : Text → List Text → List Text
write_object key objects = if stored key objects then objects else key ∷ objects

abbrev pub is_url : Text → Bool
is_url key = starts_with (codes "http://") key || starts_with (codes "https://") key

-- `deleteFile`; its errors are only logged
unfoldable pub delete_file : StorageEnv → Text → List Text → List Text
unfolding starts_with
delete_file env key objects =
    if is_empty key || is_url key || not (env.deletes key)
    then objects
    else filter (λ object. not (object =t key)) objects

-- The name of a file under a folder, as `webp`.
unfoldable pub final_key : StorageEnv → Text → Text → Text
unfolding last_segment strip_extension
final_key env folder original_key =
    let segment = last_segment original_key in
    let filename = if is_empty segment then decimal env.now else segment in
    folder ++ strip_extension filename ++ codes ".webp"

abbrev pub is_processed : Text → Bool
is_processed key = contains (codes "uploads/temp/") key || starts_with local_temp_prefix key

abbrev pub internal_error : Outcome Text
internal_error = fail 500 "Internal server error"

abbrev pub convert : StorageEnv → Text → Outcome Text → Text → List Text → Outcome Text × List Text
convert env folder failed key objects =
    if env.converts key
    then (
      ok (final_key env folder key),
      delete_file env key (write_object (final_key env folder key) objects),
    )
    else (failed, objects)

-- `processAdImage`: under the local driver a failing conversion is an error, otherwise the temporary
-- key stays.
unfoldable pub process_ad_image : StorageEnv → Text → List Text → Outcome Text × List Text
unfolding contains starts_with
process_ad_image env key objects =
    if not (is_processed key)
    then (ok key, objects)
    else if env.is_local_driver
    then convert env (codes "local/ads/") internal_error key objects
    else if is_empty env.public_url
    then (ok key, objects)
    else convert env (codes "uploads/ads/") (ok key) key objects

-- `processCoverImage`
unfoldable pub process_cover_image : StorageEnv → Text → List Text → Outcome Text × List Text
unfolding contains starts_with
process_cover_image env key objects =
    if not (is_processed key)
    then (ok key, objects)
    else if env.is_local_driver
    then convert env (codes "local/properties/") internal_error key objects
    else if is_empty env.public_url
    then (ok key, objects)
    else convert env (codes "uploads/properties/") (ok key) key objects

-- `processBuilderLogo`: a failing conversion is an error.
unfoldable pub process_builder_logo : StorageEnv → Text → List Text → Outcome Text × List Text
unfolding contains starts_with
process_builder_logo env key objects =
    if not (is_processed key)
    then (ok key, objects)
    else if env.is_local_driver
    then convert env (codes "local/builders/") internal_error key objects
    else if is_empty env.public_url
    then (ok key, objects)
    else convert env (codes "uploads/builders/") internal_error key objects

-- `deleteFiles`
unfoldable pub delete_files : StorageEnv → List Text → List Text → List Text
unfolding delete_file
delete_files env [] objects = objects
delete_files env (key ∷ keys) objects = delete_files env keys (delete_file env key objects)

-- `moveFile`; a copy that fails is an error
unfoldable pub move_file : StorageEnv → Text → Bool → List Text → Outcome Text × List Text
unfolding starts_with last_segment delete_file
move_file env key retain_original objects =
    let is_local = starts_with local_temp_prefix key in
    let segment = last_segment key in
    let filename = if is_empty segment then decimal env.now else segment in
    let moved =
      (if is_local then codes "local" else codes "uploads") ++ (codes "/properties/" ++ filename) in
    let written = write_object moved objects in
    if not (starts_with (codes "uploads/temp/") key) && not is_local
    then (ok key, objects)
    else if not (env.converts key)
    then (internal_error, objects)
    else (ok moved, if retain_original then written else delete_file env key written)

-- `processAndUploadImage`: the local driver keeps the original.
unfoldable pub process_and_upload_image :
    StorageEnv → Text → Bool → List Text → Outcome Text × List Text
unfolding contains starts_with last_segment strip_extension final_key delete_file
process_and_upload_image env key retain_original objects =
    let local =
      codes "local/properties/" ++ (strip_extension (last_segment key) ++ codes ".webp") in
    let final = final_key env (codes "uploads/properties/") key in
    let written = write_object final objects in
    if starts_with local_temp_prefix key && env.is_local_driver
    then (if env.converts key
        then (ok local, write_object local objects)
        else (internal_error, objects))
    else if not (contains (codes "uploads/temp/") key) || is_empty env.public_url
    then (ok key, objects)
    else if not (env.converts key)
    then (ok key, objects)
    else (ok final, if retain_original then written else delete_file env key written)
