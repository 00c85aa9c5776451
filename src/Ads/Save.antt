-- ===== src/Ads/Save.antt =====
-- src/modules/admin/ads/admin-ads.service.ts: creating, changing and removing an advertisement.
pub mod Fields
pub mod Create
pub mod Update
unfoldable pub use Fields.*
unfoldable pub use Create.*
unfoldable pub use Update.*
use majestan_backend.Prelude.{
  String, ℕ, ◌+◌, Bool, true, false, not, ◌&&◌, ◌||◌, Option, none, some, List, [], ◌∷◌, ◌++◌, ◌==◌,
  if◌then◌else◌, find?, filter, update_where,
}
use majestan_backend.Prelude.Text.{Text, ◌=t◌}
use majestan_backend.Http.{Outcome, ok, fail}
use majestan_backend.Storage.{StorageEnv}
use majestan_backend.Ads.{
  AdPlacement, hero, placement_number, AdLinkType, preset, Ad, AdDb, AdPlacementSpec,
  placement_spec,
}
use majestan_backend.Ads.Images.{
  desktop_slot, mobile_slot, truthy, is_some, is_temp_key, cleanup_temp_keys, validate_uploads,
  finalize, normalize_audience, delete_unreferenced_keys,
}

abbrev pub with_active : Bool → Ad → Ad
with_active is_active ad = record ad { is_active = is_active }

-- `updateStatus`
unfoldable pub update_ad_status : ℕ → Bool → AdDb → Outcome Ad × AdDb
update_ad_status id is_active db = elim (find_ad id db.ads) [
  | none ↦ (fail 404 "Ad not found", db)
  | some ad ↦
      (ok (with_active is_active ad), record db { ads = save_ad (with_active is_active ad) db.ads })
]

-- `remove`
unfoldable pub remove_ad : StorageEnv → ℕ → AdDb → Outcome ℕ × AdDb
unfolding delete_unreferenced_keys
remove_ad env id db = elim (find_ad id db.ads) [
  | none ↦ (fail 404 "Ad not found", db)
  | some ad ↦
      let ads = filter (λ row. not (row.id == id)) db.ads in
      (
        ok ad.id,
        record {
          ads = ads;
          next_id = db.next_id;
          objects =
              delete_unreferenced_keys env (some ad.desktop_image_key ∷ ad.mobile_image_key ∷ [])
                ads db.objects;
        },
      )
]
