-- ===== src/Ads/Keeps/Requests.antt =====
-- No request deletes a finished file that an advertisement shows.
use majestan_backend.Prelude.{
  ℕ, Bool, true, false, not, ◌&&◌, ◌||◌, Option, none, some, List, [], ◌∷◌, ◌==◌, ◌≡◌, arith, any,
  Bool-cases, Option-cases, inl, inr,
}
use majestan_backend.Prelude.Text.{Text, ◌=t◌}
use majestan_backend.Http.{Outcome-cases}
use majestan_backend.Storage.{StorageEnv, stored}
use majestan_backend.Ads.{AdPlacement, placement_number, Ad, AdDb, AdPlacementSpec, placement_spec}
use majestan_backend.Ads.Images.{
  desktop_slot, mobile_slot, is_temp_key, truthy, is_some, validate_uploads, finalize, uses,
}
use majestan_backend.Ads.Save.{
  UpdateAd, Patch, NewKeys, or_else, value_of, is_null, same_key, find_ad, has_mobile,
  without_mobile, update_error, next_audience, update_desktop, replace_mobile, update_mobile,
  save_update, save_ad, changed_ad, keys_of, update_images, mobile_patch, update_found, update_ad,
  update_ad_status,
}
use majestan_backend.Ads.Order.{reorder}
use majestan_backend.Ads.Keeps.Create.{
  delete_unreferenced_keys-keeps, without_mobile-keeps, create_ad-keeps, remove_ad-keeps,
}
use majestan_backend.Ads.Keeps.{
  AdRequest, create, update, switch, delete, arrange, handle_ad, cleanup_temp_keys-keeps,
  finalize-keeps, validate_uploads-keeps,
}

module _ (env : StorageEnv) (key : Text) (final : is_temp_key (some key) ≡ false) where
  update_desktop-keeps :
      (other : Option Text) (keys : NewKeys) (objects : List Text)
      → stored key objects ≡ true
      → stored key (update_desktop env other keys objects).1 ≡ true
  unfolding update_desktop
  update_desktop-keeps none keys objects s = s
  update_desktop-keeps (some other) keys objects s =
      let kept = finalize-keeps env key final other desktop_slot objects s in
      elim (Outcome-cases (finalize env other desktop_slot objects).0) [
        | inl (status, message, e) ↦ rw (e, update_desktop) kept
        | inr (done, e) ↦ elim (Bool-cases (done =t keys.desktop_image_key)) [
          | inl same ↦ rw (e, same, update_desktop) kept
          | inr new ↦ rw (e, new, update_desktop) kept
        ]
      ]

  replace_mobile-keeps :
      (other : Text) (keys : NewKeys) (objects : List Text)
      → stored key objects ≡ true
      → stored key (replace_mobile env other keys objects).1 ≡ true
  unfolding replace_mobile
  replace_mobile-keeps other keys objects s =
      let kept = finalize-keeps env key final other mobile_slot objects s in
      elim (Outcome-cases (finalize env other mobile_slot objects).0) [
        | inl (status, message, e) ↦ rw (e, replace_mobile) kept
        | inr (done, e) ↦ elim (Bool-cases (same_key done keys.mobile_image_key)) [
          | inl same ↦ rw (e, same, replace_mobile) kept
          | inr new ↦ rw (e, new, replace_mobile) kept
        ]
      ]

  update_mobile-keeps :
      (other : Patch Text) (spec : AdPlacementSpec) (changed : Bool) (keys : NewKeys)
      (objects : List Text)
      → stored key objects ≡ true
      → stored key (update_mobile env other spec changed keys objects).1 ≡ true
  unfolding update_mobile
  update_mobile-keeps other spec changed keys objects s =
      elim (Bool-cases (
        not (has_mobile spec)
        || changed && not (is_some (truthy (value_of other)))
        || is_null other)) [
          | inl cleared ↦ rw (cleared, update_mobile) s
          | inr kept ↦ elim (Option-cases (value_of other)) [
            | inl none' ↦ rw (kept, none', update_mobile) s
            | inr (name, e) ↦ rw (kept, e, update_mobile) (replace_mobile-keeps name keys objects s)
          ]
        ]

  save_update-keeps :
      (dto : UpdateAd) (placement : AdPlacement) (audience : Option Text) (ad : Ad) (keys : NewKeys)
      (objects : List Text) (db : AdDb)
      → stored key objects ≡ true
      → any (uses key) (save_update env dto placement audience ad keys objects db).1.ads ≡ true
      → stored key (save_update env dto placement audience ad keys objects db).1.objects ≡ true
  unfolding save_update
  save_update-keeps dto placement audience ad keys objects db s u =
      delete_unreferenced_keys-keeps env key keys.old_keys
        (save_ad (changed_ad dto placement audience keys ad) db.ads) objects u s

  update_images-keeps :
      (dto : UpdateAd) (mobile_key : Patch Text) (placement : AdPlacement) (audience : Option Text)
      (ad : Ad) (objects : List Text) (db : AdDb)
      → stored key objects ≡ true
      → any (uses key) (update_images env dto mobile_key placement audience ad objects db).1.ads
        ≡ true
      → stored key (update_images env dto mobile_key placement audience ad objects db).1.objects
        ≡ true
  unfolding update_images
  update_images-keeps dto mobile_key placement audience ad objects db s =
      let changed = not (placement_number placement == placement_number ad.placement) in
      let spec = placement_spec placement in
      let desktop = update_desktop env dto.desktop_image_key (keys_of ad) objects in
      let kept = update_desktop-keeps dto.desktop_image_key (keys_of ad) objects s in
      elim (Outcome-cases desktop.0) [
        | inl (status, message, e) ↦ rw (e, update_images) (λ u. kept)
        | inr (keys, e) ↦
            let both = update_mobile-keeps mobile_key spec changed keys desktop.1 kept in
            let mobile = update_mobile env mobile_key spec changed keys desktop.1 in
            elim (Outcome-cases mobile.0) [
              | inl (status, message, f) ↦ rw (e, f, update_images) (λ u. both)
              | inr (final_keys, f) ↦
                  rw (e, f, update_images)
                    (save_update-keeps dto placement audience ad final_keys mobile.1 db both)
            ]
      ]

  update_found-keeps :
      (dto : UpdateAd) (placement : AdPlacement) (ad : Ad) (db : AdDb)
      → stored key db.objects ≡ true
      → any (uses key) (update_found env dto placement ad db).1.ads ≡ true
      → stored key (update_found env dto placement ad db).1.objects ≡ true
  unfolding update_found
  update_found-keeps dto placement ad db s =
      let spec = placement_spec placement in
      let changed = not (placement_number placement == placement_number ad.placement) in
      let mobile_key = mobile_patch spec dto.mobile_image_key in
      let objects = without_mobile env spec (value_of dto.mobile_image_key) db.objects in
      let kept =
        without_mobile-keeps env key final spec (value_of dto.mobile_image_key) db.objects s in
      let valid = validate_uploads env dto.desktop_image_key (value_of mobile_key) spec objects in
      let checked =
        validate_uploads-keeps env key final dto.desktop_image_key (value_of mobile_key) spec
          objects kept in
      elim (Option-cases (update_error dto ad spec changed)) [
        | inr (message, e) ↦
            rw (e, update_found)
              (λ u.
                cleanup_temp_keys-keeps env key final
                  (dto.desktop_image_key ∷ value_of dto.mobile_image_key ∷ []) db.objects s)
        | inl fine ↦ elim (Outcome-cases (next_audience dto ad spec changed)) [
          | inl (status, message, e) ↦ rw (fine, e, update_found) (λ u. kept)
          | inr (audience, e) ↦ elim (Outcome-cases valid.0) [
            | inl (status, message, f) ↦ rw (fine, e, f, update_found) (λ u. checked)
            | inr (v, f) ↦
                rw (fine, e, f, update_found)
                  (update_images-keeps dto mobile_key placement audience ad valid.1 db checked)
          ]
        ]
      ]

  update_ad-keeps :
      (id : ℕ) (dto : UpdateAd) (db : AdDb)
      → stored key db.objects ≡ true
      → any (uses key) (update_ad env id dto db).1.ads ≡ true
      → stored key (update_ad env id dto db).1.objects ≡ true
  unfolding update_ad
  update_ad-keeps id dto db s = elim (Option-cases (find_ad id db.ads)) [
    | inl none' ↦ rw (none', update_ad) (λ u. s)
    | inr (ad, found) ↦
        rw (found, update_ad) (update_found-keeps dto (or_else dto.placement ad.placement) ad db s)
  ]

update_ad_status-keeps :
    (id : ℕ) (is_active : Bool) (db : AdDb)
    → (update_ad_status id is_active db).1.objects ≡ db.objects
unfolding update_ad_status
update_ad_status-keeps id is_active db = ground arith

reorder-keeps : (ids : List ℕ) (db : AdDb) → (reorder ids db).1.objects ≡ db.objects
unfolding reorder
reorder-keeps ids db = ground arith

-- No request on an advertisement, refused or not, deletes a stored file outside the temporary folders
-- that an advertisement refers to after the request.
pub handle_ad-keeps_files :
    (env : StorageEnv) (request : AdRequest) (db : AdDb) (key : Text)
    → is_temp_key (some key) ≡ false
    → stored key db.objects ≡ true
    → any (uses key) (handle_ad env request db).ads ≡ true
    → stored key (handle_ad env request db).objects ≡ true
unfolding handle_ad
handle_ad-keeps_files env (create dto created_by) db key final s u =
    create_ad-keeps env key final dto created_by db s
handle_ad-keeps_files env (update id dto) db key final s u =
    update_ad-keeps env key final id dto db s u
handle_ad-keeps_files env (switch id is_active) db key final s u =
    rw (update_ad_status-keeps id is_active db) s
handle_ad-keeps_files env (delete id) db key final s u = remove_ad-keeps env key id db s u
handle_ad-keeps_files env (arrange ids) db key final s u = rw (reorder-keeps ids db) s
