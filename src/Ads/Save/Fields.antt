-- ===== src/Ads/Save/Fields.antt =====
-- src/modules/admin/ads: the fields of a request on an advertisement.
use majestan_backend.Prelude.{
  ℕ, Bool, true, false, Option, none, some, List, [], ◌∷◌, ◌==◌, if◌then◌else◌, find?,
}
use majestan_backend.Prelude.Text.{Text}
use majestan_backend.Storage.{StorageEnv}
use majestan_backend.Ads.{AdPlacement, AdLinkType, Ad, AdDb, AdPlacementSpec}
use majestan_backend.Ads.Images.{truthy, cleanup_temp_keys}

-- A field of a request that is missing, null, or given.
pub data Patch {ℓ} (A : Type ℓ) : Type ℓ where
  missing : Patch A
  null : Patch A
  given : A → Patch A

-- CreateAdDto, in its declared types
pub record CreateAd : Type 0 where
  pub placement : Option AdPlacement
  pub title : Text
  pub desktop_image_key : Text
  pub mobile_image_key : Option Text
  pub audience : Option Text
  pub link_type : Option AdLinkType
  pub link_preset : Option Text
  pub link_custom : Option Text
  pub sort_order : Option ℕ
  pub is_active : Option Bool

-- UpdateAdDto, in its declared types
pub record UpdateAd : Type 0 where
  pub placement : Option AdPlacement
  pub title : Option Text
  pub desktop_image_key : Option Text
  pub mobile_image_key : Patch Text
  pub audience : Patch Text
  pub link_type : Option AdLinkType
  pub link_preset : Option Text
  pub link_custom : Option Text
  pub sort_order : Option ℕ
  pub is_active : Option Bool

-- `??`
abbrev pub or_else {ℓ} : {A : Type ℓ} → Option A → A → A
or_else none a = a
or_else (some b) a = b

-- `?? null` of a field that may be missing
abbrev pub value_of {ℓ} : {A : Type ℓ} → Patch A → Option A
value_of missing = none
value_of null = none
value_of (given a) = some a

abbrev pub is_null {ℓ} : {A : Type ℓ} → Patch A → Bool
is_null missing = false
is_null null = true
is_null (given a) = false

-- `findEntity`
abbrev pub find_ad : ℕ → List Ad → Option Ad
find_ad id = find? (λ ad. ad.id == id)

-- `spec.mobile?.required`
abbrev pub mobile_required : AdPlacementSpec → Bool
mobile_required spec = elim spec.mobile [ none ↦ false | some mobile ↦ mobile.is_required ]

abbrev pub has_mobile : AdPlacementSpec → Bool
has_mobile spec = elim spec.mobile [ none ↦ false | some mobile ↦ true ]

-- A single-image slot ignores a mobile upload.
abbrev pub kept_mobile : AdPlacementSpec → Option Text → Option Text
kept_mobile spec key = if has_mobile spec then key else none

abbrev pub without_mobile : StorageEnv → AdPlacementSpec → Option Text → List Text → List Text
without_mobile env spec key objects =
    if has_mobile spec then objects else cleanup_temp_keys env (truthy key ∷ []) objects

abbrev pub with_objects : List Text → AdDb → AdDb
with_objects objects db = record db { objects = objects }
