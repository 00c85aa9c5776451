-- ===== src/Ads/Keeps.antt =====
-- The files of the advertisements: what no request of an administrator deletes.
pub mod Create
pub mod Requests
use majestan_backend.Prelude.{
  ℕ, Bool, true, false, not, ◌&&◌, ◌||◌, Option, none, some, List, [], ◌∷◌, ◌==◌, ◌≡◌, refl, sym,
  ap, ◌∙◌, arith, if◌then◌else◌, any, filter, count, Bool-cases, Option-cases, inl, inr,
}
use majestan_backend.Prelude.Text.{Text, codes, ◌=t◌, =t_iff, =t_refl, is_empty}
use majestan_backend.Http.{Outcome, ok, fail, Outcome-cases}
use majestan_backend.Storage.{
  StorageEnv, stored, delete_file, write_object, final_key, convert, internal_error, is_processed,
  process_ad_image,
}
use majestan_backend.Ads.{
  AdPlacement, hero, placement_number, Ad, AdDb, AdPlacementSpec, placement_spec,
}
use majestan_backend.Ads.Images.{
  Slot, is_temp_key, truthy, cleanup_temp_keys, validate_uploads, check_uploads, finalize, uses,
  delete_unreferenced, distinct_keys, delete_unreferenced_keys,
}
use majestan_backend.Ads.Save.{
  CreateAd, UpdateAd, Patch, create_ad, update_ad, update_ad_status, remove_ad,
}
use majestan_backend.Ads.Order.{reorder}

pub data AdRequest : Type 0 where
  create : CreateAd → Option Text → AdRequest
  update : ℕ → UpdateAd → AdRequest
  switch : ℕ → Bool → AdRequest
  delete : ℕ → AdRequest
  arrange : List ℕ → AdRequest

-- The state after a request, refused or not.
unfoldable pub handle_ad : StorageEnv → AdRequest → AdDb → AdDb
unfolding create_ad update_ad update_ad_status remove_ad reorder
handle_ad env (create dto created_by) db = (create_ad env dto created_by db).1
handle_ad env (update id dto) db = (update_ad env id dto db).1
handle_ad env (switch id is_active) db = (update_ad_status id is_active db).1
handle_ad env (delete id) db = (remove_ad env id db).1
handle_ad env (arrange ids) db = (reorder ids db).1

stored-filter :
    (key other : Text) (objects : List Text)
    → (key =t other) ≡ false
    → stored key objects ≡ true
    → stored key (filter (λ object. not (object =t other)) objects) ≡ true
stored-filter key other [] h s = s
stored-filter key other (object ∷ objects) h s = elim (Bool-cases (object =t key)) [
  | inl here ↦
      let same : object ≡ key = (=t_iff object key).0 here in
      rw same (rw h (ground (arith, =t_refl key)))
  | inr elsewhere ↦ ground (arith, stored-filter key other objects)
]

delete_file-keeps :
    (env : StorageEnv) (key other : Text) (objects : List Text)
    → (key =t other) ≡ false
    → stored key objects ≡ true
    → stored key (delete_file env other objects) ≡ true
unfolding delete_file
delete_file-keeps env key other objects h s = ground (arith, stored-filter key other objects)

stored-write_object :
    (key other : Text) (objects : List Text)
    → stored key objects ≡ true
    → stored key (write_object other objects) ≡ true
stored-write_object key other objects s = ground arith

other_key :
    (key other : Text)
    → is_temp_key (some key) ≡ false
    → is_temp_key (some other) ≡ true
    → (key =t other) ≡ false
other_key key other h t = elim (Bool-cases (key =t other)) [
  | inr different ↦ different
  | inl same ↦
      let e : key ≡ other = (=t_iff key other).0 same in
      absurd (ground (arith, ap (λ k. is_temp_key (some k)) e))
]

any_of_count : (p : Ad → Bool) (ads : List Ad) → count p ads ≡ 0 → any p ads ≡ false
any_of_count p [] h = refl
any_of_count p (ad ∷ ads) h = ground (arith, any_of_count p ads)

used_key :
    (key other : Text) (ads : List Ad)
    → any (uses key) ads ≡ true
    → count (uses other) ads ≡ 0
    → (key =t other) ≡ false
used_key key other ads u c = elim (Bool-cases (key =t other)) [
  | inr different ↦ different
  | inl same ↦
      let e : key ≡ other = (=t_iff key other).0 same in
      absurd (ground (arith, any_of_count (uses other) ads c, ap (λ k. any (uses k) ads) e))
]

pub delete_unreferenced-keeps :
    (env : StorageEnv) (key : Text) (keys : List Text) (ads : List Ad) (objects : List Text)
    → any (uses key) ads ≡ true
    → stored key objects ≡ true
    → stored key (delete_unreferenced env keys ads objects) ≡ true
unfolding delete_unreferenced
delete_unreferenced-keeps env key [] ads objects u s = s
delete_unreferenced-keeps env key (other ∷ keys) ads objects u s =
    elim (Bool-cases (count (uses other) ads == 0)) [
      | inl unused ↦
          let zero' : count (uses other) ads ≡ 0 = ground arith in
          rw unused (
            delete_unreferenced-keeps env key keys ads (delete_file env other objects) u
              (delete_file-keeps env key other objects (used_key key other ads u zero') s))
      | inr used ↦ rw used (delete_unreferenced-keeps env key keys ads objects u s)
    ]

module _ (env : StorageEnv) (key : Text) (final : is_temp_key (some key) ≡ false) where
  cleanup_temp_keys-keeps :
      (keys : List (Option Text)) (objects : List Text)
      → stored key objects ≡ true
      → stored key (cleanup_temp_keys env keys objects) ≡ true
  unfolding cleanup_temp_keys
  cleanup_temp_keys-keeps [] objects s = s
  cleanup_temp_keys-keeps (none ∷ keys) objects s = cleanup_temp_keys-keeps keys objects s
  cleanup_temp_keys-keeps (some other ∷ keys) objects s =
      elim (Bool-cases (is_temp_key (some other))) [
        | inl temp ↦ rw temp (
            cleanup_temp_keys-keeps keys (delete_file env other objects)
              (delete_file-keeps env key other objects (other_key key other final temp) s))
        | inr kept ↦ rw kept (cleanup_temp_keys-keeps keys objects s)
      ]

  convert-keeps :
      (folder other : Text) (failed : Outcome Text) (objects : List Text)
      → (key =t other) ≡ false
      → stored key objects ≡ true
      → stored key (convert env folder failed other objects).1 ≡ true
  convert-keeps folder other failed objects h s = elim (Bool-cases (env.converts other)) [
    | inr no' ↦ rw no' s
    | inl yes' ↦
        let name = final_key env folder other in
        rw yes' (
          delete_file-keeps env key other (write_object name objects) h
            (stored-write_object key name objects s))
  ]

  process_ad_image-keeps :
      (other : Text) (objects : List Text)
      → (key =t other) ≡ false
      → stored key objects ≡ true
      → stored key (process_ad_image env other objects).1 ≡ true
  unfolding process_ad_image final_key delete_file
  process_ad_image-keeps other objects h s = elim (Bool-cases (is_processed other)) [
    | inr kept ↦ rw (kept, process_ad_image) s
    | inl new ↦ elim (Bool-cases env.is_local_driver) [
      | inl local ↦
          rw (new, local, process_ad_image)
            (convert-keeps (codes "local/ads/") other internal_error objects h s)
      | inr remote ↦ elim (Bool-cases (is_empty env.public_url)) [
        | inl unset ↦ rw (new, remote, unset, process_ad_image) s
        | inr set ↦
            rw (new, remote, set, process_ad_image)
              (convert-keeps (codes "uploads/ads/") other (ok other) objects h s)
      ]
    ]
  ]

  finalize-keeps :
      (other : Text) (slot : Slot) (objects : List Text)
      → stored key objects ≡ true
      → stored key (finalize env other slot objects).1 ≡ true
  unfolding finalize
  finalize-keeps other slot objects s = elim (Bool-cases (is_empty other)) [
    | inl empty ↦ rw (empty, finalize) s
    | inr full ↦ elim (Bool-cases (is_temp_key (some other))) [
      | inr kept ↦ rw (full, kept, finalize) s
      | inl temp ↦
          rw (full, temp, finalize)
            (process_ad_image-keeps other objects (other_key key other final temp) s)
    ]
  ]

  validate_uploads-keeps :
      (desktop_key mobile_key : Option Text) (spec : AdPlacementSpec) (objects : List Text)
      → stored key objects ≡ true
      → stored key (validate_uploads env desktop_key mobile_key spec objects).1 ≡ true
  unfolding validate_uploads
  validate_uploads-keeps desktop_key mobile_key spec objects s =
      elim (Outcome-cases (check_uploads env desktop_key mobile_key spec)) [
        | inl (status, message, e) ↦
            rw (e, validate_uploads)
              (cleanup_temp_keys-keeps (desktop_key ∷ mobile_key ∷ []) objects s)
        | inr (u, e) ↦ rw (e, validate_uploads) s
      ]
