-- ===== src/Ads/Save/Create.antt =====
-- src/modules/admin/ads/admin-ads.service.ts: `create`.
use majestan_backend.Prelude.{
  ℕ, ◌+◌, true, not, ◌&&◌, Option, none, some, List, [], ◌∷◌, if◌then◌else◌,
}
use majestan_backend.Prelude.Text.{Text}
use majestan_backend.Http.{Outcome, ok, fail}
use majestan_backend.Storage.{StorageEnv}
use majestan_backend.Ads.{hero, preset, Ad, AdDb, AdPlacementSpec, placement_spec}
use majestan_backend.Ads.Images.{
  desktop_slot, mobile_slot, truthy, is_some, cleanup_temp_keys, validate_uploads, finalize,
  normalize_audience,
}
use majestan_backend.Ads.Save.Fields.{
  CreateAd, or_else, mobile_required, kept_mobile, without_mobile, with_objects,
}

-- `dto.mobileImageKey ? await this.finalize(…) : null`
unfoldable pub finalize_mobile :
    StorageEnv → Option Text → List Text → Outcome (Option Text) × List Text
unfolding finalize truthy
finalize_mobile env key objects = elim (truthy key) [
  | none ↦ (ok none, objects)
  | some name ↦
      let done = finalize env name mobile_slot objects in
      elim done.0 [
        | fail status message ↦ (fail status message, done.1)
        | ok final ↦ (ok (some final), done.1)
      ]
]

abbrev pub new_ad : CreateAd → Option Text → Option Text → Text → Option Text → ℕ → Ad
new_ad dto created_by audience desktop_key mobile_key id = record {
  id = id;
  placement = or_else dto.placement hero;
  title = dto.title;
  desktop_image_key = desktop_key;
  mobile_image_key = mobile_key;
  audience = audience;
  link_type = or_else dto.link_type preset;
  link_preset = dto.link_preset;
  link_custom = dto.link_custom;
  sort_order = or_else dto.sort_order 0;
  is_active = or_else dto.is_active true;
  created_by = created_by;
}

abbrev pub insert_ad : (ℕ → Ad) → List Text → AdDb → Outcome Ad × AdDb
insert_ad row objects db = (
  ok (row db.next_id),
  record { ads = row db.next_id ∷ db.ads; next_id = db.next_id + 1; objects = objects },
)

-- The images of `create`, once they are valid: the keys of the row.
unfoldable pub finalize_images :
    StorageEnv → Text → Option Text → List Text → Outcome (Text × Option Text) × List Text
unfolding finalize finalize_mobile
finalize_images env desktop_key mobile_key objects =
    let done = finalize env desktop_key desktop_slot objects in
    elim done.0 [
      | fail status message ↦ (fail status message, done.1)
      | ok desktop ↦
          let also = finalize_mobile env mobile_key done.1 in
          elim also.0 [
            | fail status message ↦ (fail status message, also.1)
            | ok mobile ↦ (ok (desktop, mobile), also.1)
          ]
    ]

-- `create` from the validation of the uploads on
unfoldable pub create_checked :
    StorageEnv
    → CreateAd
    → Option Text
    → Option Text
    → Option Text
    → AdPlacementSpec
    → List Text
    → AdDb
    → Outcome Ad × AdDb
unfolding validate_uploads finalize_images
create_checked env dto created_by audience mobile_key spec objects db =
    let valid =
      validate_uploads env (some dto.desktop_image_key) (truthy mobile_key) spec objects in
    elim valid.0 [
      | fail status message ↦ (fail status message, with_objects valid.1 db)
      | ok u ↦
          let final = finalize_images env dto.desktop_image_key mobile_key valid.1 in
          elim final.0 [
            | fail status message ↦ (fail status message, with_objects final.1 db)
            | ok keys ↦ insert_ad (new_ad dto created_by audience keys.0 keys.1) final.1 db
          ]
    ]

-- `create`
unfoldable pub create_ad : StorageEnv → CreateAd → Option Text → AdDb → Outcome Ad × AdDb
unfolding placement_spec normalize_audience create_checked cleanup_temp_keys truthy
create_ad env dto created_by db =
    let spec = placement_spec (or_else dto.placement hero) in
    let mobile_key = kept_mobile spec dto.mobile_image_key in
    let objects = without_mobile env spec dto.mobile_image_key db.objects in
    elim (normalize_audience dto.audience spec) [
      | fail status message ↦ (fail status message, db)
      | ok audience ↦
          if mobile_required spec && not (is_some (truthy mobile_key))
          then (
            fail 400 "mobile image is required",
            with_objects (cleanup_temp_keys env (some dto.desktop_image_key ∷ []) objects) db,
          )
          else create_checked env dto created_by audience mobile_key spec objects db
    ]
