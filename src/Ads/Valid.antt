-- ===== src/Ads/Valid.antt =====
-- That an advertisement fits its placement, and the results of the checks and of the processing that
-- make it so.
pub mod Images
pub mod Requests
use majestan_backend.Prelude.{
  ℕ, Bool, true, false, not, ◌&&◌, ◌||◌, Option, none, some, List, [], ◌∷◌, ◌==◌, ◌≡◌, refl, arith,
  if◌then◌else◌, any, filter, update_where, All, All-mono, All-filter, All-update_where,
  All-update_split, find?, Bool-cases, Option-cases, inl, inr,
}
use majestan_backend.Prelude.Text.{Text, ◌=t◌, is_empty}
use majestan_backend.Http.{Outcome, ok, fail, Outcome-cases}
use majestan_backend.Storage.{StorageEnv}
use majestan_backend.Ads.{
  AdPlacement, hero, placement_number, Ad, AdDb, AdPlacementSpec, placement_spec,
}
use majestan_backend.Ads.Images.{
  desktop_slot, mobile_slot, is_temp_key, truthy, is_some, validate_uploads, finalize,
  normalize_audience,
}
use majestan_backend.Ads.Save.{
  CreateAd, UpdateAd, Patch, missing, null, given, NewKeys, or_else, value_of, is_null, same_key,
  find_ad, mobile_required, has_mobile, kept_mobile, without_mobile, finalize_mobile,
  finalize_images, create_checked, create_ad, update_error, next_audience, update_desktop,
  replace_mobile, update_mobile, save_update, save_ad, changed_ad, keys_of, update_images,
  mobile_patch, update_found, update_ad, update_ad_status, remove_ad, with_active,
}
use majestan_backend.Ads.Order.{reorder, save_orders, with_order}
use majestan_backend.Ads.Keeps.{AdRequest, create, update, switch, delete, arrange, handle_ad}

-- The audience is one of the placement's.
abbrev pub audience_fits : AdPlacementSpec → Option Text → Bool
audience_fits spec none = true
audience_fits spec (some name) = any (λ allowed. allowed =t name) spec.audiences

-- A mobile image is there if the placement needs one, and none if it takes none.
abbrev pub mobile_fits : AdPlacementSpec → Option Text → Bool
mobile_fits spec key =
    if has_mobile spec then not (mobile_required spec) || is_some key else not (is_some key)

unfoldable pub fits : Ad → Bool
unfolding placement_spec
fits ad =
    audience_fits (placement_spec ad.placement) ad.audience
    && mobile_fits (placement_spec ad.placement) ad.mobile_image_key

unfoldable pub handle_ads : StorageEnv → List AdRequest → AdDb → AdDb
unfolding handle_ad
handle_ads env [] db = db
handle_ads env (request ∷ requests) db = handle_ads env requests (handle_ad env request db)

abbrev pub AllFit : AdDb → Type 0
AllFit db = All (λ ad. fits ad ≡ true) db.ads

-- What a result satisfies, if there is one.
abbrev pub holds {ℓ} : {A : Type ℓ} → (A → Bool) → Outcome A → Bool
holds p (ok a) = p a
holds p (fail status message) = true

pub normalize_audience_fits :
    (audience : Option Text) (spec : AdPlacementSpec)
    → holds (audience_fits spec) (normalize_audience audience spec) ≡ true
unfolding normalize_audience
normalize_audience_fits audience spec = elim (Option-cases (truthy audience)) [
  | inl none' ↦ rw (none', normalize_audience) refl
  | inr (name, e) ↦ elim (Bool-cases (any (λ allowed. allowed =t name) spec.audiences)) [
    | inl allowed ↦ rw (e, allowed, normalize_audience) allowed
    | inr refused ↦ rw (e, refused, normalize_audience) refl
  ]
]

pub next_audience_fits :
    (dto : UpdateAd) (ad : Ad) (spec : AdPlacementSpec) (changed : Bool)
    → (changed ≡ false → audience_fits spec ad.audience ≡ true)
    → holds (audience_fits spec) (next_audience dto ad spec changed) ≡ true
unfolding next_audience normalize_audience
next_audience_fits dto ad spec changed old = by_patch dto.audience refl
  where
    by_patch :
        (patch : Patch Text)
        → dto.audience ≡ patch
        → holds (audience_fits spec) (next_audience dto ad spec changed) ≡ true
    by_patch missing e = elim (Bool-cases changed) [
      | inl moved ↦ rw (e, moved, next_audience) (normalize_audience_fits ad.audience spec)
      | inr stays ↦ rw (e, stays, next_audience) (old stays)
    ]
    by_patch null e = rw (e, next_audience) (normalize_audience_fits none spec)
    by_patch (given name) e = rw (e, next_audience) (normalize_audience_fits (some name) spec)

finalize_mobile_fits :
    (env : StorageEnv) (spec : AdPlacementSpec) (key : Option Text) (objects : List Text)
    → mobile_fits spec (truthy key) ≡ true
    → holds (mobile_fits spec) (finalize_mobile env key objects).0 ≡ true
unfolding finalize_mobile
finalize_mobile_fits env spec key objects h = elim (Option-cases (truthy key)) [
  | inl none' ↦
      let h' : mobile_fits spec none ≡ true = rw none' at h in rw (none', finalize_mobile) h'
  | inr (name, e) ↦
      let h' : mobile_fits spec (some name) ≡ true = rw e at h in
      elim (Outcome-cases (finalize env name mobile_slot objects).0) [
        | inl (status, message, f) ↦ rw (e, f, finalize_mobile) refl
        | inr (done, f) ↦ rw (e, f, finalize_mobile) h'
      ]
]

pub finalize_images_fits :
    (env : StorageEnv) (spec : AdPlacementSpec) (desktop_key : Text) (key : Option Text)
    (objects : List Text)
    → mobile_fits spec (truthy key) ≡ true
    → holds (λ keys. mobile_fits spec keys.1) (finalize_images env desktop_key key objects).0 ≡ true
unfolding finalize_images
finalize_images_fits env spec desktop_key key objects h =
    let desktop = finalize env desktop_key desktop_slot objects in
    let mobile = finalize_mobile_fits env spec key desktop.1 h in
    elim (Outcome-cases desktop.0) [
      | inl (status, message, e) ↦ rw (e, finalize_images) refl
      | inr (done, e) ↦ elim (Outcome-cases (finalize_mobile env key desktop.1).0) [
        | inl (status, message, f) ↦ rw (e, f, finalize_images) refl
        | inr (also, f) ↦
            let m : mobile_fits spec also ≡ true = rw f at mobile in rw (e, f, finalize_images) m
      ]
    ]
