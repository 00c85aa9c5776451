-- ===== src/Ads/Tests.antt =====
-- Two advertisements of the offers carousel and one of the menu.
use majestan_backend.Prelude.{
  ℕ, true, false, none, some, List, [], ◌∷◌, ◌==◌, ◌≡◌, refl, any, count, All,
}
use majestan_backend.Prelude.Text.{Text, codes}
use majestan_backend.Storage.{StorageEnv, stored}
use majestan_backend.Ads.{AdPlacement, offers, mega_menu, hero, preset, Ad, AdDb}
use majestan_backend.Ads.Images.{uses}
use majestan_backend.Ads.Save.{CreateAd, UpdateAd, missing, given, update_ad}
use majestan_backend.Ads.Order.{reorder, list_active}
use majestan_backend.Ads.Order.Laws.{position}
use majestan_backend.Ads.Order.Shown.{IsAscending, reorder-list_active}
use majestan_backend.Ads.Keeps.{AdRequest, create, update, switch, delete, arrange, handle_ad}
use majestan_backend.Ads.Keeps.Requests.{handle_ad-keeps_files}
use majestan_backend.Ads.Valid.{fits, handle_ads}
use majestan_backend.Ads.Valid.Requests.{handle_ads_fit}

abbrev env : StorageEnv
env = record {
  is_local_driver = false;
  public_url = codes "https://cdn";
  now = 5;
  converts = λ key. true;
  deletes = λ key. true;
  dimensions = λ key. some (1200, 300);
}

-- The image processing is out of reach, and the mobile images are of the wrong size.
abbrev broken_env : StorageEnv
broken_env = record env { converts = λ key. false }

abbrev offer : ℕ → Text → ℕ → Ad
offer id key order = record {
  id = id;
  placement = offers;
  title = codes "Offer";
  desktop_image_key = key;
  mobile_image_key = none;
  audience = none;
  link_type = preset;
  link_preset = some (codes "buy");
  link_custom = none;
  sort_order = order;
  is_active = true;
  created_by = none;
}

abbrev two_ads : AdDb
two_ads = record {
  ads = offer 2 (codes "uploads/ads/b.webp") 1 ∷ offer 1 (codes "uploads/ads/a.webp") 0 ∷ [];
  next_id = 3;
  objects =
      codes "uploads/ads/a.webp" ∷ codes "uploads/ads/b.webp" ∷ codes "uploads/temp/n.png" ∷ [];
}

abbrev new_image : UpdateAd
new_image = record {
  placement = none;
  title = none;
  desktop_image_key = some (codes "uploads/temp/n.png");
  mobile_image_key = missing;
  audience = missing;
  link_type = none;
  link_preset = none;
  link_custom = none;
  sort_order = none;
  is_active = none;
}

-- The old file goes, the new one is under the advertisements.
replaced_image :
    (handle_ad env (update 1 new_image) two_ads).objects
    ≡ codes "uploads/ads/n.webp" ∷ codes "uploads/ads/b.webp" ∷ []
unfolding handle_ad majestan_backend.Storage.final_key majestan_backend.Storage.delete_file
replaced_image = refl

handle_ad-keeps_files_example :
    stored (codes "uploads/ads/b.webp") (handle_ad env (update 1 new_image) two_ads).objects ≡ true
unfolding majestan_backend.Ads.Images.is_temp_key majestan_backend.Storage.contains handle_ad
    majestan_backend.Storage.final_key
handle_ad-keeps_files_example =
    handle_ad-keeps_files env (update 1 new_image) two_ads (codes "uploads/ads/b.webp") refl refl
      refl

abbrev menu_ad : CreateAd
menu_ad = record {
  placement = some mega_menu;
  title = codes "Menu";
  desktop_image_key = codes "uploads/ads/m.webp";
  mobile_image_key = some (codes "uploads/temp/x.png");
  audience = some (codes "rent");
  link_type = none;
  link_preset = none;
  link_custom = none;
  sort_order = none;
  is_active = none;
}

abbrev requests : List AdRequest
requests =
    create menu_ad none
    ∷ update 3 (record new_image { placement = some offers })
    ∷ update 1 (record new_image { audience = given (codes "rent") })
    ∷ arrange (2 ∷ 1 ∷ [])
    ∷ switch 2 false
    ∷ delete 1
    ∷ []

handle_ads_fit_example : All (λ ad. fits ad ≡ true) (handle_ads env requests two_ads).ads
unfolding fits
handle_ads_fit_example = handle_ads_fit env requests two_ads (refl, (refl, tt))

reorder-list_active_example :
    IsAscending
      (λ item. position item.id (2 ∷ 1 ∷ []))
      (list_active offers (reorder (2 ∷ 1 ∷ []) two_ads).1.ads)
    × ((id : ℕ)
        → count (λ item. item.id == id) (list_active offers (reorder (2 ∷ 1 ∷ []) two_ads).1.ads)
          ≡ count (λ item. item.id == id) (list_active offers two_ads.ads))
unfolding reorder
reorder-list_active_example =
    reorder-list_active offers (2 ∷ 1 ∷ []) two_ads refl (refl, (refl, tt))

-- While the processing is out of reach, an advertisement keeps its temporary file; a later refused
-- request that sends the key again deletes the file that the advertisement still refers to.
abbrev bad_mobile : UpdateAd
bad_mobile = record new_image { mobile_image_key = given (codes "uploads/temp/mobile.png") }

abbrev kept_temporary : AdDb
kept_temporary = (update_ad broken_env 1 new_image two_ads).1

refers_to_temporary : any (uses (codes "uploads/temp/n.png")) kept_temporary.ads ≡ true
unfolding update_ad
refers_to_temporary = refl

lost_image :
    (update_ad broken_env 1 bad_mobile kept_temporary).1.objects ≡ codes "uploads/ads/b.webp" ∷ []
unfolding update_ad majestan_backend.Storage.delete_file
lost_image = refl
