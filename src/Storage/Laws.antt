-- ===== src/Storage/Laws.antt =====
-- What an upload under a temporary key needs, and that the keys that are handed out have it.
use majestan_backend.Prelude.{
  ℕ, ◌+◌, ◌≤◌, true, none, some, List, [], ◌∷◌, ◌++◌, ◌≡◌, ◌↔◌, ◌⊎◌, String, false, ◌==◌, refl,
  arith, leb, ltb, if◌then◌else◌, length, Bool-cases, inl, inr,
}
use majestan_backend.Prelude.Text.{Text, ◌=t◌, =t_refl}
use majestan_backend.Phone.{all_digits}
use majestan_backend.Phone.OtpCode.{decimal, decimal_lem}
use majestan_backend.Http.{ok, fail}
use majestan_backend.Storage.{StorageEnv, starts_with, stored, write_object}
use majestan_backend.Storage.Upload.{
  max_local_upload_bytes, is_alphanumeric, is_key_code, all_key_codes, is_file_name,
  is_temp_upload_key, safe_codes, safe_name, presigned_key, read_body, accept_body,
  write_local_temp_file,
}

abbrev pub total : List ℕ → ℕ
total [] = 0
total (chunk ∷ body) = chunk + total body

read_body-total :
    (limit bytes : ℕ) (body : List ℕ)
    → bytes ≤ limit
    → read_body limit bytes body
      ≡ (if leb (bytes + total body) limit then some (bytes + total body) else none)
unfolding read_body
read_body-total limit bytes [] h = ground arith
read_body-total limit bytes (chunk ∷ body) h = elim (Bool-cases (ltb limit (bytes + chunk))) [
  | inl over ↦ ground arith
  | inr within ↦ ground (arith, read_body-total limit (bytes + chunk) body)
]

-- What a body and its key need
abbrev pub IsAccepted : Text → List ℕ → Type 0
IsAccepted key body =
    (is_temp_upload_key key ≡ true) × (1 ≤ total body) × (total body ≤ max_local_upload_bytes)

write_local_temp_file_cases :
    (key : Text) (body : List ℕ) (objects : List Text)
    → (IsAccepted key body
        × (write_local_temp_file key body objects ≡ (ok key, write_object key objects)))
      ⊎ ((IsAccepted key body → ⊥)
          × ((status : ℕ) × (message : String) × (write_local_temp_file key body objects
                ≡ (fail status message, objects))))
unfolding write_local_temp_file
write_local_temp_file_cases key body objects =
    let read = read_body-total max_local_upload_bytes 0 body (omega arith) in
    elim (Bool-cases (is_temp_upload_key key)) [
      | inr bad ↦ inr (
        λ h. ground (arith, h.0, bad),
        (400, "Invalid upload key", rw (bad, write_local_temp_file) refl),
      )
      | inl good ↦ elim (Bool-cases (leb (0 + total body) max_local_upload_bytes)) [
        | inr large ↦ inr (
          λ h. ground (arith, h.1, large),
          (413, "File too large (max 15MB)", rw (good, write_local_temp_file, read, large) refl),
        )
        | inl small ↦ elim (Bool-cases (0 + total body == 0)) [
          | inl empty ↦ inr (
            λ h. ground (arith, h.1, empty),
            (400, "Empty upload body", rw (good, write_local_temp_file, read, small, empty) refl),
          )
          | inr some_byte ↦ inl (
            (good, ground (arith, some_byte), ground (arith, small)),
            rw (good, write_local_temp_file, read, small, some_byte) refl,
          )
        ]
      ]
    ]

stored-write_other :
    (key other : Text) (objects : List Text)
    → (key =t other) ≡ false
    → stored other (write_object key objects) ≡ stored other objects
stored-write_other key other objects h = ground (arith, h)

stored-write_object :
    (key : Text) (objects : List Text) → stored key (write_object key objects) ≡ true
stored-write_object key objects = ground (arith, =t_refl key)

-- A body is stored under a key that no file has exactly if the key is a well-formed temporary one and the
-- body has one byte to 15 MB; the answer is the key exactly if the body is stored; and no other file
-- comes or goes.
pub write_local_temp_file_iff :
    (key : Text) (body : List ℕ) (objects : List Text)
    → stored key objects ≡ false
    → ((stored key (write_local_temp_file key body objects).1 ≡ true) ↔ IsAccepted key body)
      × (((write_local_temp_file key body objects).0 ≡ ok key)
          ↔ (stored key (write_local_temp_file key body objects).1 ≡ true))
      × ((other : Text)
          → (key =t other) ≡ false
          → stored other (write_local_temp_file key body objects).1 ≡ stored other objects)
write_local_temp_file_iff key body objects absent =
    elim (write_local_temp_file_cases key body objects) [
      | inl (accepted, e) ↦
          let there = stored-write_object key objects in
          rw e (
            (λ h. accepted, λ h. there),
            (λ h. there, λ h. refl),
            λ other h. stored-write_other key other objects h,
          )
      | inr (refused, (status, message, e)) ↦ rw e (
        (λ h. ground (arith, h, absent), λ h. absurd (refused h)),
        (λ h. ground (arith, h), λ h. ground (arith, h, absent)),
        λ other h. refl,
      )
    ]

pub all_key_codes-append :
    (s t : Text) → all_key_codes s ≡ true → all_key_codes t ≡ true → all_key_codes (s ++ t) ≡ true
unfolding all_key_codes
all_key_codes-append [] t h k = k
all_key_codes-append (c ∷ s) t h k = ground (arith, all_key_codes-append s t)

pub all_key_codes_of_digits : (s : Text) → all_digits s ≡ true → all_key_codes s ≡ true
unfolding all_key_codes is_key_code is_alphanumeric
all_key_codes_of_digits [] h = refl
all_key_codes_of_digits (c ∷ s) h = ground (arith, all_key_codes_of_digits s)

safe_codes_fine : (c : ℕ) → all_key_codes (safe_codes c) ≡ true
unfolding all_key_codes safe_codes is_key_code
safe_codes_fine c = ground arith

pub safe_name_fine : (s : Text) → all_key_codes (safe_name s) ≡ true
unfolding all_key_codes safe_name
safe_name_fine [] = refl
safe_name_fine (c ∷ s) =
    all_key_codes-append (safe_codes c) (safe_name s) (safe_codes_fine c) (safe_name_fine s)

is_file_name-append :
    (s t : Text)
    → all_digits s ≡ true
    → 1 ≤ length s
    → all_key_codes t ≡ true
    → is_file_name (s ++ t) ≡ true
unfolding is_file_name is_alphanumeric
is_file_name-append [] t h l k = absurd (omega arith)
is_file_name-append (c ∷ s) t h l k =
    ground (arith, all_key_codes-append s t (all_key_codes_of_digits s (ground arith)) k)

presigned_key-IsTemp :
    (env : StorageEnv) (file_name : Text)
    → env.is_local_driver ≡ true
    → is_temp_upload_key (presigned_key env file_name) ≡ true
unfolding safe_name all_key_codes is_key_code is_alphanumeric is_temp_upload_key is_file_name
    presigned_key decimal starts_with
presigned_key-IsTemp env file_name h =
    let (digits, some_digit) = decimal_lem env.now in
    rw h (
      is_file_name-append (decimal env.now) (b'-' ∷ safe_name file_name) digits some_digit
        (safe_name_fine file_name))

-- Under the local driver a body of between one byte and 15 MB is stored under the key that was handed
-- out for it, whatever its file is called.
pub upload_presigned :
    (env : StorageEnv) (file_name : Text) (body : List ℕ) (objects : List Text)
    → env.is_local_driver ≡ true
    → 1 ≤ total body
    → total body ≤ max_local_upload_bytes
    → ((write_local_temp_file (presigned_key env file_name) body objects).0
        ≡ ok (presigned_key env file_name))
      × (stored
            (presigned_key env file_name)
            (write_local_temp_file (presigned_key env file_name) body objects).1
          ≡ true)
unfolding write_local_temp_file
upload_presigned env file_name body objects local some_byte small =
    let key = presigned_key env file_name in
    let valid = presigned_key-IsTemp env file_name local in
    let read = read_body-total max_local_upload_bytes 0 body (omega arith) in
    let accepted : accept_body key objects
          (if leb (0 + total body) max_local_upload_bytes then some (0 + total body) else none)
        ≡ (ok key, write_object key objects) =
      ground arith in
    rw (valid, read) (rw accepted (refl, stored-write_object key objects))
