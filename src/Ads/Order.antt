-- ===== src/Ads/Order.antt =====
-- src/modules/admin/ads/admin-ads.service.ts `reorder` and `list`, and src/modules/ads/ads.service.ts:
-- the order in which advertisements are shown.
pub mod Laws
pub mod Shown
use majestan_backend.Prelude.{
  String, ℕ, zero, suc, ◌+◌, Bool, true, false, not, ◌&&◌, ◌||◌, Option, none, some, List, [], ◌∷◌,
  ◌==◌, ltb, leb, if◌then◌else◌, any, filter, update_where, map,
}
use majestan_backend.Prelude.Text.{Text}
use majestan_backend.Http.{Outcome, ok, fail}
use majestan_backend.Ads.{AdPlacement, placement_number, AdLinkType, Ad, AdDb}

-- `new Set(ids).size !== ids.length`
unfoldable pub has_repeat : List ℕ → Bool
has_repeat [] = false
has_repeat (id ∷ ids) = any (λ other. other == id) ids || has_repeat ids

abbrev pub is_empty_list {ℓ} : {A : Type ℓ} → List A → Bool
is_empty_list [] = true
is_empty_list (x ∷ xs) = false

-- `ids.some(id => !byId.has(id))`
unfoldable pub is_missing : List ℕ → List Ad → Bool
is_missing [] ads = false
is_missing (id ∷ ids) ads = not (any (λ ad. ad.id == id) ads) || is_missing ids ads

-- `new Set(ads.map(ad => ad.placement)).size > 1`
unfoldable pub has_two_placements : List Ad → Bool
has_two_placements [] = false
has_two_placements (ad ∷ ads) =
    any (λ other. not (placement_number other.placement == placement_number ad.placement)) ads

abbrev pub with_order : ℕ → Ad → Ad
with_order index ad = record ad { sort_order = index }

-- The loop over the ids
unfoldable pub save_orders : ℕ → List ℕ → List Ad → List Ad
save_orders index [] ads = ads
save_orders index (id ∷ ids) ads =
    save_orders (suc index) ids (update_where (λ ad. ad.id == id) (with_order index) ads)

-- `reorder`, which is one transaction
unfoldable pub reorder : List ℕ → AdDb → Outcome (List ℕ) × AdDb
unfolding has_repeat is_missing has_two_placements save_orders
reorder ids db =
    let ads = filter (λ ad. any (λ id. id == ad.id) ids) db.ads in
    if is_empty_list ids || has_repeat ids || any (λ id. id == 0) ids
    then (fail 400 "Provide unique positive advertisement IDs", db)
    else if is_missing ids ads
    then (fail 404 "Ads not found", db)
    else if has_two_placements ads
    then (fail 400 "Reorder one placement at a time", db)
    else (ok ids, record db { ads = save_orders 0 ids db.ads })

-- `ORDER BY sort_order, id` and the comparison of `sort`: `a` goes after `b`.
unfoldable pub ad_goes_after : Ad → Ad → Bool
ad_goes_after a b = ltb b.sort_order a.sort_order || a.sort_order == b.sort_order && ltb b.id a.id

unfoldable pub insert_sorted : Ad → List Ad → List Ad
unfolding ad_goes_after
insert_sorted ad [] = ad ∷ []
insert_sorted ad (other ∷ ads) =
    let rest = insert_sorted ad ads in
    if ad_goes_after ad other then other ∷ rest else ad ∷ other ∷ ads

unfoldable pub sort_ads : List Ad → List Ad
unfolding insert_sorted
sort_ads [] = []
sort_ads (ad ∷ ads) = insert_sorted ad (sort_ads ads)

abbrev pub is_shown : AdPlacement → Ad → Bool
is_shown placement ad = placement_number ad.placement == placement_number placement && ad.is_active

-- The rows of `listActive`, in their order
unfoldable pub active_ads : AdPlacement → List Ad → List Ad
unfolding sort_ads
active_ads placement ads = sort_ads (filter (is_shown placement) ads)

-- An item of `listActive`, with the keys in place of their addresses.
pub record AdItem : Type 0 where
  pub id : ℕ
  pub title : Text
  pub desktop_image : Text
  pub mobile_image : Text
  pub audience : Option Text
  pub link_type : AdLinkType
  pub link_preset : Option Text
  pub link_custom : Option Text

abbrev pub ad_item : Ad → AdItem
ad_item ad = record {
  id = ad.id;
  title = ad.title;
  desktop_image = ad.desktop_image_key;
  mobile_image = elim ad.mobile_image_key [ none ↦ ad.desktop_image_key | some key ↦ key ];
  audience = ad.audience;
  link_type = ad.link_type;
  link_preset = ad.link_preset;
  link_custom = ad.link_custom;
}

-- `listActive`
unfoldable pub list_active : AdPlacement → List Ad → List AdItem
unfolding active_ads
list_active placement ads = map ad_item (active_ads placement ads)
