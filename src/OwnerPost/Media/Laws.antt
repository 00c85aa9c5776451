-- ===== src/OwnerPost/Media/Laws.antt =====
-- The keys of the files of an owner: a key is good for the one user for whom it was made.
use majestan_backend.Prelude.{
  ℕ, zero, suc, ◌≤◌, true, false, not, ◌&&◌, ◌||◌, some, [], ◌∷◌, ◌++◌, ◌==◌, ◌≡◌, refl, sym, ap,
  ◌∙◌, arith, ltb, length, take, Bool-cases, Option-cases, inl, inr,
}
use majestan_backend.Prelude.Text.{Text, codes, is_empty}
use majestan_backend.Phone.{strip_prefix, drop, is_digit, all_digits}
use majestan_backend.Phone.OtpCode.{decimal, value, decimal_lem, value-decimal}
use majestan_backend.Storage.{StorageEnv}
use majestan_backend.Storage.Upload.{
  is_alphanumeric, is_key_code, all_key_codes, safe_codes, safe_name, presigned_key,
}
use majestan_backend.Storage.Laws.{all_key_codes-append, all_key_codes_of_digits, safe_name_fine}
use majestan_backend.OwnerPost.{leading_digits, after_digits}
use majestan_backend.OwnerPost.Media.{
  all_uuid_codes, is_named, is_uuid_named, owner_tag, is_owner_file, is_owner_media_key,
  owner_file_name,
}

strip_prefix_sound : (p s r : Text) → strip_prefix p s ≡ some r → s ≡ p ++ r
unfolding strip_prefix
strip_prefix_sound [] s r h = ground arith
strip_prefix_sound (c ∷ p) [] r h = absurd (ground arith)
strip_prefix_sound (c ∷ p) (d ∷ s) r h = elim (Bool-cases (c == d)) [
  | inl same ↦ ground (arith, strip_prefix_sound p s r)
  | inr other ↦ absurd (ground arith)
]

strip_prefix-append : (p r : Text) → strip_prefix p (p ++ r) ≡ some r
unfolding strip_prefix
strip_prefix-append [] r = refl
strip_prefix-append (c ∷ p) r = ground (arith, strip_prefix-append p r)

-- Digits before a hyphen
digits_before :
    (d r : Text)
    → all_digits d ≡ true
    → (leading_digits (d ++ b'-' ∷ r) ≡ d) × (after_digits (d ++ b'-' ∷ r) ≡ b'-' ∷ r)
unfolding leading_digits after_digits
digits_before [] r h = (refl, refl)
digits_before (c ∷ d) r h =
    let (front, back) = digits_before d r (ground arith) in
    let digit : is_digit c ≡ true = ground arith in rw digit (ap (λ s. c ∷ s) front, back)

append_assoc : (s t u : Text) → (s ++ t) ++ u ≡ s ++ (t ++ u)
append_assoc [] t u = refl
append_assoc (c ∷ s) t u = ap (λ x. c ∷ x) (append_assoc s t u)

-- The id behind the tag
tag_id :
    (user_id : ℕ) (r : Text) → leading_digits (drop 7 (owner_tag user_id ++ r)) ≡ decimal user_id
tag_id user_id r =
    rw (append_assoc (decimal user_id) (b'-' ∷ []) r)
      (digits_before (decimal user_id) r (decimal_lem user_id).0).0

tag_unique : (u v : ℕ) (r r' : Text) → owner_tag u ++ r ≡ owner_tag v ++ r' → u ≡ v
tag_unique u v r r' h =
    sym (value-decimal u)
    ∙ ap value (sym (tag_id u r) ∙ ap (λ s. leading_digits (drop 7 s)) h ∙ tag_id v r')
    ∙ value-decimal v

owner_file_tag :
    (u : ℕ) (name : Text)
    → is_owner_file u name ≡ true
    → (r : Text) × (after_digits name ≡ owner_tag u ++ r)
unfolding is_owner_file
owner_file_tag u name h = elim (Option-cases (strip_prefix (owner_tag u) (after_digits name))) [
  | inl none' ↦
      let h' : (not (is_empty (leading_digits name)) && false) ≡ true =
        rw (none', is_owner_file) at h in
      absurd (ground arith)
  | inr (r, e) ↦ (r, strip_prefix_sound (owner_tag u) (after_digits name) r e)
]

owner_file_unique :
    (u v : ℕ) (name : Text) → is_owner_file u name ≡ true → is_owner_file v name ≡ true → u ≡ v
owner_file_unique u v name h k =
    let (r, e) = owner_file_tag u name h in
    let (r', e') = owner_file_tag v name k in tag_unique u v r r' (sym e ∙ e')

is_owner_media_key_unique :
    (u v : ℕ) (key : Text)
    → is_owner_media_key u key ≡ true
    → is_owner_media_key v key ≡ true
    → u ≡ v
unfolding is_owner_media_key
is_owner_media_key_unique u v key h k =
    elim (Option-cases (strip_prefix (codes "uploads/temp/") key)) [
      | inr (name, e) ↦
          let h' : is_owner_file u name ≡ true = rw (e, is_owner_media_key) at h in
          let k' : is_owner_file v name ≡ true = rw (e, is_owner_media_key) at k in
          owner_file_unique u v name h' k'
      | inl none' ↦ elim (Option-cases (strip_prefix (codes "local/temp/") key)) [
        | inl none'' ↦
            let h' : false ≡ true = rw (none', none'', is_owner_media_key) at h in
            absurd (ground arith)
        | inr (name, e) ↦
            let h' : is_owner_file u name ≡ true = rw (none', e, is_owner_media_key) at h in
            let k' : is_owner_file v name ≡ true = rw (none', e, is_owner_media_key) at k in
            owner_file_unique u v name h' k'
      ]
    ]

-- A key that is accepted for one user is refused for every other.
pub is_owner_media_key_exclusive :
    (u v : ℕ) (key : Text)
    → is_owner_media_key u key ≡ true
    → (u == v) ≡ false
    → is_owner_media_key v key ≡ false
is_owner_media_key_exclusive u v key h different = elim (Bool-cases (is_owner_media_key v key)) [
  | inr refused ↦ refused
  | inl accepted ↦
      let same = is_owner_media_key_unique u v key h accepted in
      absurd (ground (arith, same, different))
]

safe_name-all_key_codes : (s : Text) → all_key_codes s ≡ true → safe_name s ≡ s
unfolding safe_name safe_codes is_key_code all_key_codes
safe_name-all_key_codes [] h = refl
safe_name-all_key_codes (c ∷ s) h =
    let rest = safe_name-all_key_codes s (ground arith) in
    let one : safe_codes c ≡ c ∷ [] = ground arith in rw (one, rest) refl

take-drop_append :
    (n : ℕ) (s t : Text) → length s ≡ n → (take n (s ++ t) ≡ s) × (drop n (s ++ t) ≡ t)
take-drop_append n [] t h = rw (← h) (refl, refl)
take-drop_append zero (c ∷ s) t h = absurd (omega arith)
take-drop_append (suc n) (c ∷ s) t h =
    let (front, back) = take-drop_append n s t (omega arith) in (ap (λ x. c ∷ x) front, back)

all_key_codes_of_uuid : (s : Text) → all_uuid_codes s ≡ true → all_key_codes s ≡ true
unfolding all_uuid_codes all_key_codes is_key_code is_alphanumeric
all_key_codes_of_uuid [] h = refl
all_key_codes_of_uuid (c ∷ s) h = ground (arith, all_key_codes_of_uuid s)

is_empty-safe_codes : (c : ℕ) (t : Text) → is_empty (safe_codes c ++ t) ≡ false
unfolding safe_codes
is_empty-safe_codes c t = elim (Bool-cases (is_alphanumeric c || c == b'.' || c == b'-')) [
  | inl kept ↦ rw kept refl
  | inr other ↦ elim (Bool-cases (ltb c 65536)) [
    | inl one ↦ rw (other, one) refl
    | inr two ↦ rw (other, two) refl
  ]
]

is_named-safe_name : (s : Text) → is_empty s ≡ false → is_named (b'-' ∷ safe_name s) ≡ true
unfolding is_named safe_name
is_named-safe_name [] h = absurd (ground arith)
is_named-safe_name (c ∷ s) h =
    let fine : all_key_codes (safe_codes c ++ safe_name s) ≡ true = safe_name_fine (c ∷ s) in
    rw (is_empty-safe_codes c (safe_name s), fine) refl

is_uuid_named-append :
    (uuid file_name : Text)
    → length uuid ≡ 36
    → all_uuid_codes uuid ≡ true
    → is_empty file_name ≡ false
    → is_uuid_named (uuid ++ b'-' ∷ safe_name file_name) ≡ true
unfolding is_uuid_named
is_uuid_named-append uuid file_name l u n =
    let (front, back) = take-drop_append 36 uuid (b'-' ∷ safe_name file_name) l in
    let named = is_named-safe_name file_name n in
    rw (front, back, is_uuid_named) (ground (arith, l, u, named))

-- The name that `owner_file_name` makes has only characters that stay.
owner_file_name_fine :
    (user_id : ℕ) (uuid file_name : Text)
    → all_uuid_codes uuid ≡ true
    → all_key_codes (owner_file_name user_id uuid file_name) ≡ true
unfolding owner_file_name all_key_codes is_key_code is_alphanumeric decimal
owner_file_name_fine user_id uuid file_name u =
    let digits = all_key_codes_of_digits (decimal user_id) (decimal_lem user_id).0 in
    let tail : all_key_codes (uuid ++ b'-' ∷ safe_name file_name) ≡ true =
      all_key_codes-append uuid (b'-' ∷ safe_name file_name) (all_key_codes_of_uuid uuid u)
        (safe_name_fine file_name) in
    all_key_codes-append (codes "owner-")
      (decimal user_id ++ b'-' ∷ (uuid ++ b'-' ∷ safe_name file_name)) refl
      (all_key_codes-append (decimal user_id) (b'-' ∷ (uuid ++ b'-' ∷ safe_name file_name)) digits
        tail)

strip_owner_tag :
    (user_id : ℕ) (uuid file_name : Text)
    → strip_prefix (owner_tag user_id) (b'-' ∷ owner_file_name user_id uuid file_name)
      ≡ some (uuid ++ b'-' ∷ safe_name file_name)
unfolding owner_file_name
strip_owner_tag user_id uuid file_name =
    let rest = uuid ++ b'-' ∷ safe_name file_name in
    let split : b'-' ∷ owner_file_name user_id uuid file_name ≡ owner_tag user_id ++ rest =
      ap (λ s. codes "-owner-" ++ s) (sym (append_assoc (decimal user_id) (b'-' ∷ []) rest)) in
    ap (strip_prefix (owner_tag user_id)) split ∙ strip_prefix-append (owner_tag user_id) rest

presigned_owner_file :
    (now user_id : ℕ) (uuid file_name : Text)
    → length uuid ≡ 36
    → all_uuid_codes uuid ≡ true
    → is_empty file_name ≡ false
    → is_owner_file user_id
        (decimal now ++ b'-' ∷ safe_name (owner_file_name user_id uuid file_name))
      ≡ true
unfolding owner_file_name decimal is_owner_file
presigned_owner_file now user_id uuid file_name l u n =
    let name = owner_file_name user_id uuid file_name in
    let rest = uuid ++ b'-' ∷ safe_name file_name in
    let same : safe_name name ≡ name =
      safe_name-all_key_codes name (owner_file_name_fine user_id uuid file_name u) in
    let (digits, some_digit) = decimal_lem now in
    let (front, back) = digits_before (decimal now) name digits in
    let tagged = strip_owner_tag user_id uuid file_name in
    let named : is_uuid_named rest ≡ true = is_uuid_named-append uuid file_name l u n in
    let full : is_empty (decimal now) ≡ false = by_length (decimal now) some_digit in
    rw same (rw (front, back, tagged, full, named, is_owner_file) refl)
  where
    by_length : (s : Text) → 1 ≤ length s → is_empty s ≡ false
    by_length [] h = absurd (omega arith)
    by_length (c ∷ s) h = refl

-- The key that is handed out to a user for a file with a name is accepted for that user.
pub is_owner_media_key-presigned_key :
    (env : StorageEnv) (user_id : ℕ) (uuid file_name : Text)
    → length uuid ≡ 36
    → all_uuid_codes uuid ≡ true
    → is_empty file_name ≡ false
    → is_owner_media_key user_id (presigned_key env (owner_file_name user_id uuid file_name)) ≡ true
unfolding is_owner_media_key presigned_key strip_prefix
is_owner_media_key-presigned_key env user_id uuid file_name l u n =
    let own = presigned_owner_file env.now user_id uuid file_name l u n in
    elim (Bool-cases env.is_local_driver) [ inl local ↦ rw local own | inr remote ↦ rw remote own ]
