-- ===== src/Ads/Valid/Requests.antt =====
-- Every advertisement fits its placement, whatever the administrators do.
use majestan_backend.Prelude.{
  sym, ap, ◌∙◌, zero, suc, find?-All, ℕ, Bool, true, false, not, Option, none, List, [], ◌∷◌, ◌==◌,
  ◌≡◌, refl, arith, update_where, All, All-filter, All-update_where, Option-cases, inl, inr,
}
use majestan_backend.Prelude.Text.{Text}
use majestan_backend.Http.{Outcome-cases}
use majestan_backend.Storage.{StorageEnv}
use majestan_backend.Ads.{
  AdPlacement, hero, offers, mega_menu, listing_feed, announcement, popup, placement_number, Ad,
  AdDb, placement_spec,
}
use majestan_backend.Ads.Images.{validate_uploads}
use majestan_backend.Ads.Save.{
  UpdateAd, or_else, value_of, find_ad, without_mobile, create_ad, update_error, next_audience,
  update_desktop, update_mobile, changed_ad, keys_of, update_images, mobile_patch, update_found,
  update_ad, update_ad_status, remove_ad, with_active,
}
use majestan_backend.Ads.Order.{reorder, save_orders, with_order}
use majestan_backend.Ads.Order.Laws.{reorder_cases}
use majestan_backend.Ads.Keeps.{AdRequest, create, update, switch, delete, arrange, handle_ad}
use majestan_backend.Ads.Valid.{
  audience_fits, mobile_fits, fits, handle_ads, AllFit, next_audience_fits,
}
use majestan_backend.Ads.Valid.Images.{create_ad_fits, update_desktop_mobile, update_mobile_fits}

abbrev pub placement_of : ℕ → AdPlacement
placement_of zero = hero
placement_of (suc zero) = offers
placement_of (suc (suc zero)) = mega_menu
placement_of (suc (suc (suc zero))) = listing_feed
placement_of (suc (suc (suc (suc zero)))) = announcement
placement_of (suc (suc (suc (suc (suc n))))) = popup

placement_of-placement_number : (p : AdPlacement) → placement_of (placement_number p) ≡ p
placement_of-placement_number hero = refl
placement_of-placement_number offers = refl
placement_of-placement_number mega_menu = refl
placement_of-placement_number listing_feed = refl
placement_of-placement_number announcement = refl
placement_of-placement_number popup = refl

same_placement :
    (p q : AdPlacement) → not (placement_number p == placement_number q) ≡ false → p ≡ q
same_placement p q h =
    let same : placement_number p ≡ placement_number q = ground arith in
    sym (placement_of-placement_number p) ∙ ap placement_of same ∙ placement_of-placement_number q

module _ (env : StorageEnv) where
  update_images_fit :
      (dto : UpdateAd) (placement : AdPlacement) (audience : Option Text) (ad : Ad)
      (objects : List Text) (db : AdDb)
      → update_error dto ad
          (placement_spec placement)
          (not (placement_number placement == placement_number ad.placement))
        ≡ none
      → audience_fits (placement_spec placement) audience ≡ true
      → fits ad ≡ true
      → AllFit db
      → AllFit
          (update_images env dto
            (mobile_patch (placement_spec placement) dto.mobile_image_key)
            placement
            audience
            ad
            objects
            db).1
  unfolding fits update_images
  update_images_fit dto placement audience ad objects db guards a fit all =
      let changed = not (placement_number placement == placement_number ad.placement) in
      let spec = placement_spec placement in
      let key = mobile_patch spec dto.mobile_image_key in
      let old : changed ≡ false → mobile_fits spec ad.mobile_image_key ≡ true =
        λ stays. rw (same_placement placement ad.placement stays) (ground arith) in
      let desktop = update_desktop env dto.desktop_image_key (keys_of ad) objects in
      elim (Outcome-cases desktop.0) [
        | inl (status, message, e) ↦ rw (e, update_images) all
        | inr (keys, e) ↦
            let kept : changed ≡ false → mobile_fits spec keys.mobile_image_key ≡ true = λ stays.
              let q =
                update_desktop_mobile env (mobile_fits spec) dto.desktop_image_key (keys_of ad)
                  objects (old stays) in
              rw e at q in
            let fine = update_mobile_fits env dto ad spec changed keys desktop.1 guards kept in
            let mobile = update_mobile env key spec changed keys desktop.1 in
            elim (Outcome-cases mobile.0) [
              | inl (status, message, f) ↦ rw (e, f, update_images) all
              | inr (final_keys, f) ↦
                  let m : mobile_fits spec final_keys.mobile_image_key ≡ true = rw f at fine in
                  rw (e, f, update_images)
                    (All-update_where (λ row. row.id == ad.id)
                      (λ row. changed_ad dto placement audience final_keys ad) db.ads (λ row h. h)
                      (λ row h. ground (arith, a, m)) all)
            ]
      ]

  update_ad_fits :
      (id : ℕ) (dto : UpdateAd) (db : AdDb) → AllFit db → AllFit (update_ad env id dto db).1
  unfolding fits update_ad
  update_ad_fits id dto db all = elim (Option-cases (find_ad id db.ads)) [
    | inl none' ↦ rw (none', update_ad) all
    | inr (ad, found) ↦
        let placement = or_else dto.placement ad.placement in
        let spec = placement_spec placement in
        let changed = not (placement_number placement == placement_number ad.placement) in
        let fit : fits ad ≡ true =
          find?-All (λ row. fits row ≡ true) (λ row. row.id == id) db.ads ad all found in
        let audiences =
          next_audience_fits dto ad spec changed
            (λ stays. rw (same_placement placement ad.placement stays) (ground arith)) in
        elim (Option-cases (update_error dto ad spec changed)) [
          | inr (message, e) ↦ rw (found, e, update_ad, update_found) all
          | inl fine ↦ elim (Outcome-cases (next_audience dto ad spec changed)) [
            | inl (status, message, e) ↦ rw (found, fine, e, update_ad, update_found) all
            | inr (audience, e) ↦
                let a : audience_fits spec audience ≡ true = rw e at audiences in
                let valid =
                  validate_uploads env dto.desktop_image_key
                    (value_of (mobile_patch spec dto.mobile_image_key)) spec
                    (without_mobile env spec (value_of dto.mobile_image_key) db.objects) in
                elim (Outcome-cases valid.0) [
                  | inl (status, message, f) ↦ rw (found, fine, e, f, update_ad, update_found) all
                  | inr (v, f) ↦
                      rw (found, fine, e, f, update_ad, update_found)
                        (update_images_fit dto placement audience ad valid.1 db fine a fit all)
                ]
          ]
        ]
  ]

  remove_ad_fits : (id : ℕ) (db : AdDb) → AllFit db → AllFit (remove_ad env id db).1
  unfolding remove_ad
  remove_ad_fits id db all = elim (Option-cases (find_ad id db.ads)) [
    | inl none' ↦ rw (none', remove_ad) all
    | inr (ad, found) ↦
        rw (found, remove_ad)
          (All-filter (λ row. fits row ≡ true) (λ row. not (row.id == id)) db.ads all)
  ]

update_ad_status_fits :
    (id : ℕ) (is_active : Bool) (db : AdDb)
    → AllFit db
    → AllFit (update_ad_status id is_active db).1
unfolding update_ad_status fits
update_ad_status_fits id is_active db all = elim (Option-cases (find_ad id db.ads)) [
  | inl none' ↦ rw (none', update_ad_status) all
  | inr (ad, found) ↦
      let fit : fits ad ≡ true =
        find?-All (λ row. fits row ≡ true) (λ row. row.id == id) db.ads ad all found in
      rw (found, update_ad_status)
        (All-update_where (λ row. row.id == ad.id) (λ row. with_active is_active ad) db.ads
          (λ row h. h) (λ row h. fit) all)
]

save_orders_fit :
    (index : ℕ) (ids : List ℕ) (ads : List Ad)
    → All (λ ad. fits ad ≡ true) ads
    → All (λ ad. fits ad ≡ true) (save_orders index ids ads)
unfolding save_orders fits
save_orders_fit index [] ads all = all
save_orders_fit index (id ∷ ids) ads all =
    save_orders_fit (suc index) ids (update_where (λ ad. ad.id == id) (with_order index) ads)
      (All-update_where (λ ad. ad.id == id) (with_order index) ads (λ row h. h) (λ row h. h) all)

reorder_fits : (ids : List ℕ) (db : AdDb) → AllFit db → AllFit (reorder ids db).1
reorder_fits ids db all = elim (reorder_cases ids db) [
  | inl (status, message, e) ↦ rw e all
  | inr (unique, found, e) ↦ rw e (save_orders_fit 0 ids db.ads all)
]

handle_ad_fits :
    (env : StorageEnv) (request : AdRequest) (db : AdDb)
    → AllFit db
    → AllFit (handle_ad env request db)
unfolding handle_ad create_ad
handle_ad_fits env (create dto created_by) db = create_ad_fits env dto created_by db
handle_ad_fits env (update id dto) db = update_ad_fits env id dto db
handle_ad_fits env (switch id is_active) db = update_ad_status_fits id is_active db
handle_ad_fits env (delete id) db = remove_ad_fits env id db
handle_ad_fits env (arrange ids) db = reorder_fits ids db

-- If every advertisement fits its placement, so does every one after any requests: its audience is one
-- of the placement's, it has a mobile image where the placement needs one, and none where the
-- placement takes none.
pub handle_ads_fit :
    (env : StorageEnv) (requests : List AdRequest) (db : AdDb)
    → All (λ ad. fits ad ≡ true) db.ads
    → All (λ ad. fits ad ≡ true) (handle_ads env requests db).ads
unfolding handle_ads
handle_ads_fit env [] db all = all
handle_ads_fit env (request ∷ requests) db all =
    handle_ads_fit env requests (handle_ad env request db) (handle_ad_fits env request db all)
