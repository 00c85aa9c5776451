-- ===== src/Ads/Valid/Images.antt =====
-- The images of an advertisement fit its placement.
use majestan_backend.Prelude.{
  Bool, true, false, not, ◌&&◌, ◌||◌, Option, none, some, List, [], ◌∷◌, ◌≡◌, refl, arith,
  Bool-cases, Option-cases, inl, inr,
}
use majestan_backend.Prelude.Text.{Text, ◌=t◌}
use majestan_backend.Http.{Outcome-cases}
use majestan_backend.Storage.{StorageEnv, contains, starts_with}
use majestan_backend.Ads.{hero, Ad, AdDb, AdPlacementSpec, placement_spec}
use majestan_backend.Ads.Images.{
  desktop_slot, mobile_slot, is_temp_key, truthy, is_some, validate_uploads, finalize,
  normalize_audience,
}
use majestan_backend.Ads.Save.{
  CreateAd, UpdateAd, Patch, NewKeys, or_else, value_of, is_null, same_key, mobile_required,
  has_mobile, kept_mobile, without_mobile, finalize_images, create_checked, create_ad, update_error,
  update_desktop, replace_mobile, update_mobile, mobile_patch,
}
use majestan_backend.Ads.Valid.{
  audience_fits, mobile_fits, fits, AllFit, holds, normalize_audience_fits, finalize_images_fits,
}

kept_mobile_fits :
    (spec : AdPlacementSpec) (key : Option Text)
    → (mobile_required spec && not (is_some (truthy (kept_mobile spec key)))) ≡ false
    → mobile_fits spec (truthy (kept_mobile spec key)) ≡ true
unfolding truthy
kept_mobile_fits spec key h = elim (Bool-cases (has_mobile spec)) [
  | inl two ↦ ground arith
  | inr one ↦ rw one refl
]

module _ (env : StorageEnv) where
  create_checked_fits :
      (dto : CreateAd) (created_by audience mobile_key : Option Text) (objects : List Text)
      (db : AdDb)
      → audience_fits (placement_spec (or_else dto.placement hero)) audience ≡ true
      → mobile_fits (placement_spec (or_else dto.placement hero)) (truthy mobile_key) ≡ true
      → AllFit db
      → AllFit
          (create_checked env dto created_by audience mobile_key
            (placement_spec (or_else dto.placement hero))
            objects
            db).1
  unfolding fits create_checked
  create_checked_fits dto created_by audience mobile_key objects db a m all =
      let spec = placement_spec (or_else dto.placement hero) in
      let valid =
        validate_uploads env (some dto.desktop_image_key) (truthy mobile_key) spec objects in
      let images = finalize_images_fits env spec dto.desktop_image_key mobile_key valid.1 m in
      elim (Outcome-cases valid.0) [
        | inl (status, message, e) ↦ rw (e, create_checked) all
        | inr (u, e) ↦
            elim (Outcome-cases (finalize_images env dto.desktop_image_key mobile_key valid.1).0) [
              | inl (status, message, f) ↦ rw (e, f, create_checked) all
              | inr (keys, f) ↦
                  let k : mobile_fits spec keys.1 ≡ true = rw f at images in
                  rw (e, f, create_checked) (ground (arith, a, k), all)
            ]
      ]

  pub create_ad_fits :
      (dto : CreateAd) (created_by : Option Text) (db : AdDb)
      → AllFit db
      → AllFit (create_ad env dto created_by db).1
  unfolding create_ad
  create_ad_fits dto created_by db all =
      let spec = placement_spec (or_else dto.placement hero) in
      let mobile_key = kept_mobile spec dto.mobile_image_key in
      let objects = without_mobile env spec dto.mobile_image_key db.objects in
      let checked = normalize_audience_fits dto.audience spec in
      elim (Outcome-cases (normalize_audience dto.audience spec)) [
        | inl (status, message, e) ↦ rw (e, create_ad) all
        | inr (audience, e) ↦
            let a : audience_fits spec audience ≡ true = rw e at checked in
            elim (Bool-cases (mobile_required spec && not (is_some (truthy mobile_key)))) [
              | inl refused ↦ rw (e, refused, create_ad) all
              | inr fine ↦
                  rw (e, fine, create_ad)
                    (create_checked_fits dto created_by audience mobile_key objects db a
                      (kept_mobile_fits spec dto.mobile_image_key fine) all)
            ]
      ]

  pub update_desktop_mobile :
      (q : Option Text → Bool) (other : Option Text) (keys : NewKeys) (objects : List Text)
      → q keys.mobile_image_key ≡ true
      → holds (λ k. q k.mobile_image_key) (update_desktop env other keys objects).0 ≡ true
  unfolding update_desktop
  update_desktop_mobile q none keys objects h = h
  update_desktop_mobile q (some other) keys objects h =
      elim (Outcome-cases (finalize env other desktop_slot objects).0) [
        | inl (status, message, e) ↦ rw (e, update_desktop) refl
        | inr (done, e) ↦ elim (Bool-cases (done =t keys.desktop_image_key)) [
          | inl same ↦ rw (e, same, update_desktop) h
          | inr new ↦ rw (e, new, update_desktop) h
        ]
      ]

  replace_mobile_some :
      (other : Text) (keys : NewKeys) (objects : List Text)
      → holds (λ k. is_some k.mobile_image_key) (replace_mobile env other keys objects).0 ≡ true
  unfolding replace_mobile
  replace_mobile_some other keys objects =
      elim (Outcome-cases (finalize env other mobile_slot objects).0) [
        | inl (status, message, e) ↦ rw (e, replace_mobile) refl
        | inr (done, e) ↦ elim (Bool-cases (same_key done keys.mobile_image_key)) [
          | inl same ↦ elim (Option-cases keys.mobile_image_key) [
            | inl none' ↦ absurd (ground arith)
            | inr (key, f) ↦ rw (e, same, replace_mobile) (ground arith)
          ]
          | inr new ↦ rw (e, new, replace_mobile) refl
        ]
      ]

-- A temporary key is not empty.
truthy-is_temp_key : (key : Option Text) → is_temp_key key ≡ true → is_some (truthy key) ≡ true
unfolding truthy is_temp_key contains starts_with
truthy-is_temp_key none h = absurd (ground arith)
truthy-is_temp_key (some []) h = absurd (ground arith)
truthy-is_temp_key (some (c ∷ s)) h = refl

-- What the guards of `update` leave for the mobile image.
passed_guards :
    (dto : UpdateAd) (ad : Ad) (spec : AdPlacementSpec) (changed : Bool)
    → update_error dto ad spec changed ≡ none
    → (changed ≡ true
        → mobile_required spec ≡ true
        → is_temp_key (value_of dto.mobile_image_key) ≡ true)
      × (mobile_required spec ≡ true → is_null dto.mobile_image_key ≡ false)
unfolding update_error
passed_guards dto ad spec changed h = (λ c r. ground arith, λ r. ground arith)

mobile_required-has_mobile :
    (spec : AdPlacementSpec) → mobile_required spec ≡ true → has_mobile spec ≡ true
mobile_required-has_mobile spec h = ground arith

module _ (env : StorageEnv) where
  two_images_fit :
      (key : Patch Text) (spec : AdPlacementSpec) (changed : Bool) (keys : NewKeys)
      (objects : List Text)
      → has_mobile spec ≡ true
      → (changed ≡ true → mobile_required spec ≡ true → is_some (truthy (value_of key)) ≡ true)
      → (mobile_required spec ≡ true → is_null key ≡ false)
      → (changed ≡ false → mobile_fits spec keys.mobile_image_key ≡ true)
      → holds
          (λ k. mobile_fits spec k.mobile_image_key)
          (update_mobile env key spec changed keys objects).0
        ≡ true
  unfolding update_mobile
  two_images_fit key spec changed keys objects two moved nulled old =
      let new = replace_mobile_some env in
      elim (Bool-cases (changed && not (is_some (truthy (value_of key))) || is_null key)) [
        | inl cleared ↦
            let needless : mobile_required spec ≡ false = ground arith in
            rw (two, cleared, update_mobile) (ground arith)
        | inr kept ↦ elim (Option-cases (value_of key)) [
          | inl none' ↦
              let no_key : is_some (truthy (value_of key)) ≡ false = rw (none', truthy) refl in
              let stays : changed ≡ false = ground arith in
              rw (two, kept, none', update_mobile) (ground (arith, old stays))
          | inr (name, e) ↦
              let some' = new name keys objects in
              elim (Outcome-cases (replace_mobile env name keys objects).0) [
                | inl (status, message, f) ↦ rw (two, kept, e, f, update_mobile) refl
                | inr (done, f) ↦
                    let has : is_some done.mobile_image_key ≡ true = rw f at some' in
                    rw (two, kept, e, f, update_mobile) (ground arith)
              ]
        ]
      ]

  pub update_mobile_fits :
      (dto : UpdateAd) (ad : Ad) (spec : AdPlacementSpec) (changed : Bool) (keys : NewKeys)
      (objects : List Text)
      → update_error dto ad spec changed ≡ none
      → (changed ≡ false → mobile_fits spec keys.mobile_image_key ≡ true)
      → holds
          (λ k. mobile_fits spec k.mobile_image_key)
          (update_mobile env (mobile_patch spec dto.mobile_image_key) spec changed keys objects).0
        ≡ true
  unfolding mobile_patch update_mobile
  update_mobile_fits dto ad spec changed keys objects guards old =
      let (moved, nulled) = passed_guards dto ad spec changed guards in
      elim (Bool-cases (has_mobile spec)) [
        | inr one ↦ rw (one, update_mobile) refl
        | inl two ↦
            let same : mobile_patch spec dto.mobile_image_key ≡ dto.mobile_image_key =
              rw (two, mobile_patch) refl in
            rw same (
              two_images_fit dto.mobile_image_key spec changed keys objects two
                (λ c r. truthy-is_temp_key (value_of dto.mobile_image_key) (moved c r)) nulled old)
      ]
