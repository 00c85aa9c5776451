-- ===== src/Ads/Keeps/Create.antt =====
-- Creating and removing an advertisement deletes no finished file that one refers to.
use majestan_backend.Prelude.{
  ℕ, true, false, not, ◌&&◌, Option, some, List, [], ◌∷◌, ◌≡◌, any, Bool-cases, Option-cases, inl,
  inr,
}
use majestan_backend.Prelude.Text.{Text}
use majestan_backend.Http.{Outcome-cases}
use majestan_backend.Storage.{StorageEnv, stored}
use majestan_backend.Ads.{hero, Ad, AdDb, AdPlacementSpec, placement_spec}
use majestan_backend.Ads.Images.{
  desktop_slot, mobile_slot, is_temp_key, truthy, is_some, validate_uploads, finalize, uses,
  distinct_keys, delete_unreferenced_keys, normalize_audience,
}
use majestan_backend.Ads.Save.{
  CreateAd, or_else, find_ad, mobile_required, has_mobile, kept_mobile, without_mobile,
  finalize_mobile, finalize_images, create_checked, create_ad, remove_ad,
}
use majestan_backend.Ads.Keeps.{
  delete_unreferenced-keeps, cleanup_temp_keys-keeps, finalize-keeps, validate_uploads-keeps,
}

pub delete_unreferenced_keys-keeps :
    (env : StorageEnv) (key : Text) (keys : List (Option Text)) (ads : List Ad)
    (objects : List Text)
    → any (uses key) ads ≡ true
    → stored key objects ≡ true
    → stored key (delete_unreferenced_keys env keys ads objects) ≡ true
unfolding delete_unreferenced_keys
delete_unreferenced_keys-keeps env key keys ads objects =
    delete_unreferenced-keeps env key (distinct_keys keys) ads objects

pub remove_ad-keeps :
    (env : StorageEnv) (key : Text) (id : ℕ) (db : AdDb)
    → stored key db.objects ≡ true
    → any (uses key) (remove_ad env id db).1.ads ≡ true
    → stored key (remove_ad env id db).1.objects ≡ true
unfolding remove_ad
remove_ad-keeps env key id db s = elim (Option-cases (find_ad id db.ads)) [
  | inl none' ↦ rw (none', remove_ad) (λ u. s)
  | inr (ad, found) ↦
      rw (found, remove_ad)
        (λ u.
          delete_unreferenced_keys-keeps env key
            (some ad.desktop_image_key ∷ ad.mobile_image_key ∷ []) _ db.objects u s)
]

module _ (env : StorageEnv) (key : Text) (final : is_temp_key (some key) ≡ false) where
  pub without_mobile-keeps :
      (spec : AdPlacementSpec) (other : Option Text) (objects : List Text)
      → stored key objects ≡ true
      → stored key (without_mobile env spec other objects) ≡ true
  without_mobile-keeps spec other objects s = elim (Bool-cases (has_mobile spec)) [
    | inl two ↦ rw two s
    | inr one ↦ rw one (cleanup_temp_keys-keeps env key final (truthy other ∷ []) objects s)
  ]

  finalize_mobile-keeps :
      (other : Option Text) (objects : List Text)
      → stored key objects ≡ true
      → stored key (finalize_mobile env other objects).1 ≡ true
  unfolding finalize_mobile
  finalize_mobile-keeps other objects s = elim (Option-cases (truthy other)) [
    | inl none' ↦ rw (none', finalize_mobile) s
    | inr (name, given') ↦
        let kept = finalize-keeps env key final name mobile_slot objects s in
        elim (Outcome-cases (finalize env name mobile_slot objects).0) [
          | inl (status, message, e) ↦ rw (given', e, finalize_mobile) kept
          | inr (done, e) ↦ rw (given', e, finalize_mobile) kept
        ]
  ]

  finalize_images-keeps :
      (desktop_key : Text) (mobile_key : Option Text) (objects : List Text)
      → stored key objects ≡ true
      → stored key (finalize_images env desktop_key mobile_key objects).1 ≡ true
  unfolding finalize_images
  finalize_images-keeps desktop_key mobile_key objects s =
      let desktop = finalize env desktop_key desktop_slot objects in
      let kept = finalize-keeps env key final desktop_key desktop_slot objects s in
      let both = finalize_mobile-keeps mobile_key desktop.1 kept in
      elim (Outcome-cases desktop.0) [
        | inl (status, message, e) ↦ rw (e, finalize_images) kept
        | inr (done, e) ↦ elim (Outcome-cases (finalize_mobile env mobile_key desktop.1).0) [
          | inl (status, message, f) ↦ rw (e, f, finalize_images) both
          | inr (also, f) ↦ rw (e, f, finalize_images) both
        ]
      ]

  create_checked-keeps :
      (dto : CreateAd) (created_by audience mobile_key : Option Text) (spec : AdPlacementSpec)
      (objects : List Text) (db : AdDb)
      → stored key objects ≡ true
      → stored key (create_checked env dto created_by audience mobile_key spec objects db).1.objects
        ≡ true
  unfolding create_checked
  create_checked-keeps dto created_by audience mobile_key spec objects db s =
      let valid =
        validate_uploads env (some dto.desktop_image_key) (truthy mobile_key) spec objects in
      let kept =
        validate_uploads-keeps env key final (some dto.desktop_image_key) (truthy mobile_key) spec
          objects s in
      let images = finalize_images-keeps dto.desktop_image_key mobile_key valid.1 kept in
      elim (Outcome-cases valid.0) [
        | inl (status, message, e) ↦ rw (e, create_checked) kept
        | inr (u, e) ↦
            elim (Outcome-cases (finalize_images env dto.desktop_image_key mobile_key valid.1).0) [
              | inl (status, message, f) ↦ rw (e, f, create_checked) images
              | inr (keys, f) ↦ rw (e, f, create_checked) images
            ]
      ]

  pub create_ad-keeps :
      (dto : CreateAd) (created_by : Option Text) (db : AdDb)
      → stored key db.objects ≡ true
      → stored key (create_ad env dto created_by db).1.objects ≡ true
  unfolding create_ad
  create_ad-keeps dto created_by db s =
      let spec = placement_spec (or_else dto.placement hero) in
      let mobile_key = kept_mobile spec dto.mobile_image_key in
      let objects = without_mobile env spec dto.mobile_image_key db.objects in
      let kept = without_mobile-keeps spec dto.mobile_image_key db.objects s in
      elim (Outcome-cases (normalize_audience dto.audience spec)) [
        | inl (status, message, e) ↦ rw (e, create_ad) s
        | inr (audience, e) ↦
            elim (Bool-cases (mobile_required spec && not (is_some (truthy mobile_key)))) [
              | inl refused ↦
                  rw (e, refused, create_ad)
                    (cleanup_temp_keys-keeps env key final (some dto.desktop_image_key ∷ []) objects
                      kept)
              | inr fine ↦
                  rw (e, fine, create_ad)
                    (create_checked-keeps dto created_by audience mobile_key spec objects db kept)
            ]
      ]
