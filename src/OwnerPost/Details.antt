-- ===== src/OwnerPost/Details.antt =====
-- src/modules/owner-post/owner-post-policy.ts: the details of a property that an owner may give, by
-- category. A number is a sign and hundredths.
use majestan_backend.Prelude.{
  ℕ, ◌*◌, ◌%◌, Bool, false, not, ◌&&◌, ◌||◌, Option, none, some, List, [], ◌∷◌, ◌++◌, ◌==◌, ltb,
  if◌then◌else◌, any, filter,
}
use majestan_backend.Prelude.Text.{Text, codes, ◌=t◌}
use majestan_backend.OwnerPost.{is_in}
use majestan_backend.OwnerPost.Media.{utf16_length}

pub data DetailValue : Type 0 where
  number : Bool → ℕ → DetailValue
  text : Text → DetailValue
  flag : Bool → DetailValue

-- `Object.entries(dto.details)`
pub record Detail : Type 0 where
  pub key : Text
  pub value : DetailValue

-- `OWNER_CATEGORIES`
abbrev pub owner_categories : List Text
owner_categories =
    codes "apartment"
    ∷ codes "villa"
    ∷ codes "individual_portion"
    ∷ codes "plot"
    ∷ codes "farmland"
    ∷ codes "commercial"
    ∷ codes "industrial"
    ∷ codes "coworking"
    ∷ []

abbrev pub common : List Text
common = codes "areaSqft" ∷ codes "facing" ∷ []

abbrev pub building : List Text
building =
    codes "carpetArea"
    ∷ codes "buildUpArea"
    ∷ codes "floorNumber"
    ∷ codes "totalFloors"
    ∷ codes "furnishingStatus"
    ∷ codes "furnished"
    ∷ codes "propertyAge"
    ∷ codes "parking"
    ∷ codes "parkingType"
    ∷ codes "waterSupply"
    ∷ codes "powerBackup"
    ∷ []

abbrev pub residential : List Text
residential =
    codes "bedrooms"
    ∷ codes "bathrooms"
    ∷ codes "balconies"
    ∷ codes "poojaRoom"
    ∷ codes "studyRoom"
    ∷ codes "unitType"
    ∷ []

abbrev pub land : List Text
land =
    codes "plotArea"
    ∷ codes "areaUnit"
    ∷ codes "plotSizeCents"
    ∷ codes "plotLength"
    ∷ codes "plotWidth"
    ∷ codes "roadWidth"
    ∷ codes "boundaryWall"
    ∷ codes "waterSources"
    ∷ []

abbrev pub farmland : List Text
farmland =
    codes "landType"
    ∷ codes "soilType"
    ∷ codes "existingPlantation"
    ∷ codes "fencing"
    ∷ codes "boreWell"
    ∷ []

abbrev pub commercial : List Text
commercial =
    codes "propertyUse"
    ∷ codes "noOfLifts"
    ∷ codes "sharedWashrooms"
    ∷ codes "individualWashrooms"
    ∷ codes "hasPantry"
    ∷ codes "fireSafety"
    ∷ codes "ceilingHeightFt"
    ∷ codes "hasRestroom"
    ∷ []

abbrev pub industrial : List Text
industrial =
    codes "propertyUse"
    ∷ codes "fireSafety"
    ∷ codes "ceilingHeightFt"
    ∷ codes "coveredArea"
    ∷ codes "openArea"
    ∷ codes "powerSupplyHp"
    ∷ codes "truckParking"
    ∷ codes "heavyVehicleAccess"
    ∷ codes "craneAvailable"
    ∷ codes "hasRestroom"
    ∷ []

abbrev pub coworking : List Text
coworking =
    codes "hasPantry"
    ∷ codes "availableWorkstations"
    ∷ codes "minSeats"
    ∷ codes "privateCabins"
    ∷ codes "meetingRooms"
    ∷ codes "rentPerSeat"
    ∷ codes "highSpeedWifi"
    ∷ codes "airConditioning"
    ∷ codes "hasRestroom"
    ∷ []

-- `categoryKeys`
unfoldable pub category_keys : Text → List Text
category_keys category =
    if category =t codes "apartment"
    then building ++ residential ++ codes "superBuiltUpArea" ∷ []
    else if category =t codes "villa"
    then building ++ residential ++ codes "plotArea" ∷ []
    else if category =t codes "individual_portion"
    then building ++ residential ++ codes "plotArea" ∷ []
    else if category =t codes "plot"
    then land
    else if category =t codes "farmland"
    then land ++ farmland
    else if category =t codes "commercial"
    then building ++ commercial
    else if category =t codes "industrial"
    then building ++ industrial
    else if category =t codes "coworking"
    then building ++ coworking
    else []

-- `countKeys`
abbrev pub count_keys : List Text
count_keys =
    codes "bedrooms"
    ∷ codes "bathrooms"
    ∷ codes "balconies"
    ∷ codes "parking"
    ∷ codes "totalFloors"
    ∷ codes "noOfLifts"
    ∷ codes "sharedWashrooms"
    ∷ codes "individualWashrooms"
    ∷ codes "truckParking"
    ∷ codes "availableWorkstations"
    ∷ codes "minSeats"
    ∷ codes "privateCabins"
    ∷ codes "meetingRooms"
    ∷ []

abbrev pub is_land : Text → Bool
is_land category = is_in category (codes "plot" ∷ codes "farmland" ∷ [])

-- The keys of `allowed`; a sale has no rent for a seat.
unfoldable pub is_allowed : Text → Bool → Text → Bool
unfolding category_keys
is_allowed category is_rent key =
    (is_in key common
      || is_in key (category_keys category)
      || not is_rent && not (is_land category) && key =t codes "possessionStatus")
    && not (not is_rent && key =t codes "rentPerSeat")

-- The loop over the details: one is out of range.
unfoldable pub is_bad_detail : Detail → Bool
unfolding utf16_length
is_bad_detail detail = elim detail.value [
  | number negative hundredths ↦
      negative && not (hundredths == 0)
      || ltb (9999999999 * 100) hundredths
      || is_in detail.key count_keys
        && (not (hundredths % 100 == 0) || ltb (10000 * 100) hundredths)
  | text s ↦ ltb 255 (utf16_length s)
  | flag b ↦ false
]

abbrev pub has_detail : Text → List Detail → Bool
has_detail key = any (λ detail. detail.key =t key)

abbrev pub number_value : DetailValue → Option ℕ
number_value (number negative hundredths) = if negative then none else some hundredths
number_value (text s) = none
number_value (flag b) = none

abbrev pub text_value : DetailValue → Text
text_value (number negative hundredths) = []
text_value (text s) = s
text_value (flag b) = []

-- The hundredths of a number that is given and not negative
unfoldable pub number_at : Text → List Detail → Option ℕ
number_at key [] = none
number_at key (detail ∷ details) =
    let rest = number_at key details in
    if detail.key =t key then number_value detail.value else rest

abbrev pub positive_at : Text → List Detail → Option ℕ
positive_at key details = elim (number_at key details) [
  | none ↦ none
  | some n ↦ if n == 0 then none else some n
]

-- A text that is given, else the empty one
unfoldable pub text_at : Text → List Detail → Text
text_at key [] = []
text_at key (detail ∷ details) =
    let rest = text_at key details in if detail.key =t key then text_value detail.value else rest

abbrev pub without_detail : Text → List Detail → List Detail
without_detail key = filter (λ detail. not (detail.key =t key))

abbrev pub with_detail : Text → DetailValue → List Detail → List Detail
with_detail key value details = record { key = key; value = value } ∷ without_detail key details
