-- ===== src/Ads.antt =====
-- src/database/entities/ad.entity.ts and src/modules/ads/ad-placement-specs.ts: the advertisements, and
-- what each slot of the site takes.
pub mod Images
pub mod Save
pub mod Order
pub mod Valid
pub mod Keeps
mod Tests
use majestan_backend.Prelude.{ℕ, Bool, true, false, Option, none, some, List, [], ◌∷◌}
use majestan_backend.Prelude.Text.{Text, codes}

pub data AdPlacement : Type 0 where
  hero : AdPlacement
  offers : AdPlacement
  mega_menu : AdPlacement
  listing_feed : AdPlacement
  announcement : AdPlacement
  popup : AdPlacement

-- The position of a placement in its enumeration
abbrev pub placement_number : AdPlacement → ℕ
placement_number hero = 0
placement_number offers = 1
placement_number mega_menu = 2
placement_number listing_feed = 3
placement_number announcement = 4
placement_number popup = 5

pub data AdLinkType : Type 0 where
  preset : AdLinkType
  custom : AdLinkType

pub record Ad : Type 0 where
  pub id : ℕ
  pub placement : AdPlacement
  pub title : Text
  pub desktop_image_key : Text
  pub mobile_image_key : Option Text
  pub audience : Option Text
  pub link_type : AdLinkType
  pub link_preset : Option Text
  pub link_custom : Option Text
  pub sort_order : ℕ
  pub is_active : Bool
  pub created_by : Option Text

-- The rows, and the keys of the stored files.
pub record AdDb : Type 0 where
  pub ads : List Ad
  pub next_id : ℕ
  pub objects : List Text

-- `AdSlotSpec`; the ratio and the bounds are width and height
pub record AdSlotSpec : Type 0 where
  pub ratio : ℕ × ℕ
  pub bounds : ℕ × ℕ

pub record MobileSlotSpec : Type 0 where
  pub slot : AdSlotSpec
  pub is_required : Bool

pub record AdPlacementSpec : Type 0 where
  pub desktop : AdSlotSpec
  pub mobile : Option MobileSlotSpec
  pub audiences : List Text

abbrev pub slot_spec : ℕ × ℕ → ℕ × ℕ → AdSlotSpec
slot_spec ratio bounds = record { ratio = ratio; bounds = bounds }

abbrev pub tall_mobile : Bool → Option MobileSlotSpec
tall_mobile is_required =
    some (record { slot = slot_spec (4, 5) (1080, 1350); is_required = is_required })

-- `HERO`
abbrev pub hero_spec : AdPlacementSpec
hero_spec = record {
  desktop = slot_spec (32, 9) (1920, 540);
  mobile = tall_mobile true;
  audiences = [];
}

-- `AD_PLACEMENT_SPECS` and `placementSpec`
unfoldable pub placement_spec : AdPlacement → AdPlacementSpec
placement_spec hero = hero_spec
placement_spec offers = record {
  desktop = slot_spec (4, 1) (1920, 480);
  mobile = tall_mobile false;
  audiences = [];
}
placement_spec mega_menu = record {
  desktop = slot_spec (3, 2) (900, 600);
  mobile = none;
  audiences = codes "buy" ∷ codes "rent" ∷ codes "services" ∷ [];
}
placement_spec listing_feed = record {
  desktop = slot_spec (3, 1) (1800, 600);
  mobile = tall_mobile false;
  audiences = codes "buy" ∷ codes "rent" ∷ codes "projects" ∷ [];
}
placement_spec announcement = hero_spec
placement_spec popup = hero_spec
