-- ===== src/Ads/Save/Update.antt =====
-- src/modules/admin/ads/admin-ads.service.ts: `update`.
use majestan_backend.Prelude.{
  String, ℕ, Bool, false, not, ◌&&◌, ◌||◌, Option, none, some, List, [], ◌∷◌, ◌++◌, ◌==◌,
  if◌then◌else◌, update_where,
}
use majestan_backend.Prelude.Text.{Text, ◌=t◌}
use majestan_backend.Http.{Outcome, ok, fail}
use majestan_backend.Storage.{StorageEnv}
use majestan_backend.Ads.{AdPlacement, placement_number, Ad, AdDb, AdPlacementSpec, placement_spec}
use majestan_backend.Ads.Images.{
  desktop_slot, mobile_slot, truthy, is_some, is_temp_key, cleanup_temp_keys, validate_uploads,
  finalize, normalize_audience, delete_unreferenced_keys,
}
use majestan_backend.Ads.Save.Fields.{
  Patch, UpdateAd, or_else, value_of, is_null, find_ad, mobile_required, has_mobile, without_mobile,
  with_objects, missing, null, given,
}

-- The guards of `update`, in their order.
unfoldable pub update_error : UpdateAd → Ad → AdPlacementSpec → Bool → Option String
unfolding is_temp_key
update_error dto ad spec placement_changed =
    if placement_changed && not (is_temp_key dto.desktop_image_key)
    then some "Upload a new image when changing the placement (each placement has its own size)."
    else if placement_changed
        && mobile_required spec
        && not (is_temp_key (value_of dto.mobile_image_key))
    then some "Upload a new mobile image when changing the placement."
    else if mobile_required spec && is_null dto.mobile_image_key
    then some "mobile image is required"
    else none

-- `nextAudience`
unfoldable pub next_audience : UpdateAd → Ad → AdPlacementSpec → Bool → Outcome (Option Text)
unfolding normalize_audience
next_audience dto ad spec placement_changed = elim dto.audience [
  | missing ↦ if placement_changed then normalize_audience ad.audience spec else ok ad.audience
  | null ↦ normalize_audience none spec
  | given name ↦ normalize_audience (some name) spec
]

-- The keys of the row that `update` builds, with those that it takes out of use.
pub record NewKeys : Type 0 where
  pub desktop_image_key : Text
  pub mobile_image_key : Option Text
  pub old_keys : List (Option Text)

abbrev pub replaced : Bool → Option Text → List (Option Text) → List (Option Text)
replaced is_new key old_keys = if is_new then old_keys ++ key ∷ [] else old_keys

-- `update`: the desktop image
unfoldable pub update_desktop :
    StorageEnv → Option Text → NewKeys → List Text → Outcome NewKeys × List Text
unfolding finalize is_temp_key
update_desktop env none keys objects = (ok keys, objects)
update_desktop env (some key) keys objects =
    let done = finalize env key desktop_slot objects in
    elim done.0 [
      | fail status message ↦ (fail status message, done.1)
      | ok final ↦ if final =t keys.desktop_image_key then (ok keys, done.1) else (
        ok (record keys {
          desktop_image_key = final;
          old_keys = replaced (is_temp_key (some key)) (some keys.desktop_image_key) keys.old_keys;
        }),
        done.1,
      )
    ]

abbrev pub no_mobile : NewKeys → NewKeys
no_mobile keys = record keys {
  mobile_image_key = none;
  old_keys = keys.old_keys ++ keys.mobile_image_key ∷ [];
}

abbrev pub same_key : Text → Option Text → Bool
same_key key none = false
same_key key (some other) = key =t other

-- `update`: the new mobile image of a slot that takes one
unfoldable pub replace_mobile :
    StorageEnv → Text → NewKeys → List Text → Outcome NewKeys × List Text
unfolding finalize is_temp_key
replace_mobile env key keys objects =
    let done = finalize env key mobile_slot objects in
    elim done.0 [
      | fail status message ↦ (fail status message, done.1)
      | ok final ↦ if same_key final keys.mobile_image_key then (ok keys, done.1) else (
        ok (record keys {
          mobile_image_key = some final;
          old_keys = replaced (is_temp_key (some key)) keys.mobile_image_key keys.old_keys;
        }),
        done.1,
      )
    ]

-- `update`: the mobile image
unfoldable pub update_mobile :
    StorageEnv
    → Patch Text
    → AdPlacementSpec
    → Bool
    → NewKeys
    → List Text
    → Outcome NewKeys × List Text
unfolding replace_mobile truthy
update_mobile env key spec placement_changed keys objects =
    if not (has_mobile spec)
      || placement_changed && not (is_some (truthy (value_of key)))
      || is_null key
    then (ok (no_mobile keys), objects)
    else elim (value_of key) [
      | none ↦ (ok keys, objects)
      | some name ↦ replace_mobile env name keys objects
    ]

-- The assignments of `update`; `??` with the old value is a field that is missing.
abbrev pub changed_ad : UpdateAd → AdPlacement → Option Text → NewKeys → Ad → Ad
changed_ad dto placement audience keys ad = record {
  id = ad.id;
  placement = placement;
  title = or_else dto.title ad.title;
  desktop_image_key = keys.desktop_image_key;
  mobile_image_key = keys.mobile_image_key;
  audience = audience;
  link_type = or_else dto.link_type ad.link_type;
  link_preset = elim dto.link_preset [ none ↦ ad.link_preset | some name ↦ some name ];
  link_custom = elim dto.link_custom [ none ↦ ad.link_custom | some path ↦ some path ];
  sort_order = or_else dto.sort_order ad.sort_order;
  is_active = or_else dto.is_active ad.is_active;
  created_by = ad.created_by;
}

-- `save` of a row that has an id
abbrev pub save_ad : Ad → List Ad → List Ad
save_ad ad = update_where (λ row. row.id == ad.id) (λ row. ad)

unfoldable pub save_update :
    StorageEnv
    → UpdateAd
    → AdPlacement
    → Option Text
    → Ad
    → NewKeys
    → List Text
    → AdDb
    → Outcome Ad × AdDb
unfolding delete_unreferenced_keys
save_update env dto placement audience ad keys objects db =
    let ads = save_ad (changed_ad dto placement audience keys ad) db.ads in
    (
      ok (changed_ad dto placement audience keys ad),
      record {
        ads = ads;
        next_id = db.next_id;
        objects = delete_unreferenced_keys env keys.old_keys ads objects;
      },
    )

abbrev pub keys_of : Ad → NewKeys
keys_of ad = record {
  desktop_image_key = ad.desktop_image_key;
  mobile_image_key = ad.mobile_image_key;
  old_keys = [];
}

-- `update` from the finalizing of the images on
unfoldable pub update_images :
    StorageEnv
    → UpdateAd
    → Patch Text
    → AdPlacement
    → Option Text
    → Ad
    → List Text
    → AdDb
    → Outcome Ad × AdDb
unfolding update_desktop update_mobile save_update placement_spec
update_images env dto mobile_key placement audience ad objects db =
    let changed = not (placement_number placement == placement_number ad.placement) in
    let desktop = update_desktop env dto.desktop_image_key (keys_of ad) objects in
    elim desktop.0 [
      | fail status message ↦ (fail status message, with_objects desktop.1 db)
      | ok some_keys ↦
          let mobile =
            update_mobile env mobile_key (placement_spec placement) changed some_keys desktop.1 in
          elim mobile.0 [
            | fail status message ↦ (fail status message, with_objects mobile.1 db)
            | ok keys ↦ save_update env dto placement audience ad keys mobile.1 db
          ]
    ]

-- `if (!spec.mobile && dto.mobileImageKey) … dto.mobileImageKey = undefined`
unfoldable pub mobile_patch : AdPlacementSpec → Patch Text → Patch Text
unfolding truthy
mobile_patch spec key =
    if not (has_mobile spec) && is_some (truthy (value_of key)) then missing else key

-- `update` of a row that exists
unfoldable pub update_found : StorageEnv → UpdateAd → AdPlacement → Ad → AdDb → Outcome Ad × AdDb
unfolding update_error next_audience validate_uploads update_images mobile_patch placement_spec
    cleanup_temp_keys truthy
update_found env dto placement ad db =
    let spec = placement_spec placement in
    let changed = not (placement_number placement == placement_number ad.placement) in
    let mobile_key = mobile_patch spec dto.mobile_image_key in
    let objects = without_mobile env spec (value_of dto.mobile_image_key) db.objects in
    elim (update_error dto ad spec changed) [
      | some message ↦ (
        fail 400 message,
        with_objects
            (cleanup_temp_keys env (dto.desktop_image_key ∷ value_of dto.mobile_image_key ∷ [])
              db.objects)
            db,
      )
      | none ↦ elim (next_audience dto ad spec changed) [
        | fail status message ↦ (fail status message, with_objects objects db)
        | ok audience ↦
            let valid =
              validate_uploads env dto.desktop_image_key (value_of mobile_key) spec objects in
            elim valid.0 [
              | fail status message ↦ (fail status message, with_objects valid.1 db)
              | ok u ↦ update_images env dto mobile_key placement audience ad valid.1 db
            ]
      ]
    ]

-- `update`
unfoldable pub update_ad : StorageEnv → ℕ → UpdateAd → AdDb → Outcome Ad × AdDb
unfolding update_found
update_ad env id dto db = elim (find_ad id db.ads) [
  | none ↦ (fail 404 "Ad not found", db)
  | some ad ↦ update_found env dto (or_else dto.placement ad.placement) ad db
]
