-- ===== src/OwnerPost/Policy.antt =====
-- src/modules/owner-post/owner-post-policy.ts: `ownerPayload`, for requests that class-validator admits.
pub mod Laws
pub mod Charges
use majestan_backend.Prelude.{
  String, ℕ, ◌+◌, ◌*◌, ◌/◌, ◌%◌, Bool, true, false, not, ◌&&◌, ◌||◌, Option, none, some, List, [],
  ◌∷◌, ◌++◌, ◌==◌, ltb, leb, if◌then◌else◌, any, filter, length, map,
}
use majestan_backend.Prelude.Text.{Text, codes, ◌=t◌, is_empty, trim}
use majestan_backend.Phone.{all_digits}
use majestan_backend.Phone.OtpCode.{decimal, value}
use majestan_backend.Http.{Outcome, ok, fail}
use majestan_backend.OwnerPost.{leading_digits, after_digits, is_in}
use majestan_backend.OwnerPost.Amounts.{rupees, is_bad_price, is_date, is_bad_money, is_bad_date}
use majestan_backend.OwnerPost.Details.{
  DetailValue, number, text, flag, Detail, owner_categories, is_land, is_allowed, is_bad_detail,
  has_detail, number_at, positive_at, text_at, without_detail, with_detail,
}

-- A floor plan
pub record FloorPlan : Type 0 where
  pub file_key : Text
  pub file_name : Option Text

-- SubmitOwnerPropertyDto; prices are texts, and `is_rent` is `listingType === 'Rent'`
pub record SubmitOwnerProperty : Type 0 where
  pub title : Text
  pub description : Text
  pub price : Text
  pub is_rent : Bool
  pub city_id : ℕ
  pub sublocation_id : ℕ
  pub address : Text
  pub pincode : Option Text
  pub details : List Detail
  pub project_name : Option Text
  pub negotiable : Option Bool
  pub rera_number : Option Text
  pub ownership_type : Option Text
  pub transaction_type : Option Text
  pub booking_amount : Option Text
  pub security_deposit : Option Text
  pub maintenance_charges : Option Text
  pub lock_in_period : Option Text
  pub available_from : Option Text
  pub amenities : Option (List ℕ)
  pub furnishing_items : Option (List ℕ)
  pub files : List Text
  pub floor_plans : List FloorPlan

-- A document of the payload; its type is `floor_plan` and it is public
pub record Document : Type 0 where
  pub file_key : Text
  pub title : Text

-- What `ownerPayload` returns
pub record OwnerPayload : Type 0 where
  pub title : Text
  pub description : Text
  pub price : Text
  pub is_rent : Bool
  pub city_id : ℕ
  pub sublocation_id : ℕ
  pub project_name : Option Text
  pub negotiable : Bool
  pub rera_number : Option Text
  pub ownership_type : Option Text
  pub transaction_type : Option Text
  pub expected_sale_price : Option Text
  pub monthly_rent : Option Text
  pub booking_amount : Option Text
  pub security_deposit : Option Text
  pub maintenance_charges : Option Text
  pub lock_in_period : Option Text
  pub available_from : Option Text
  pub details : List Detail
  pub address : Text
  pub pincode : Option Text
  pub amenities : Option (List ℕ)
  pub furnishing_items : Option (List ℕ)
  pub files : List Text
  pub documents : List Document

-- The exceptions in their order: the first whose test holds is thrown.
abbrev pub first_error : List (Bool × String) → Option String
first_error [] = none
first_error (check ∷ checks) = if check.0 then some check.1 else first_error checks

abbrev pub is_none {ℓ} : {A : Type ℓ} → Option A → Bool
is_none none = true
is_none (some a) = false

-- The checks before the details are filtered.
unfoldable pub request_checks : Text → SubmitOwnerProperty → List (Bool × String)
unfolding is_bad_price number_at
request_checks category dto =
    (not (is_in category owner_categories), "Choose a supported property category.")
    ∷ (category =t codes "farmland" && dto.is_rent, "Farmland is available for sale listings only.")
    ∷ (
      is_empty (trim dto.title) || is_empty (trim dto.description),
      "Enter a listing title and description.",
    )
    ∷ (is_bad_price dto.price, "Enter a positive price in rupees.")
    ∷ (is_empty (trim dto.address), "Enter the property address.")
    ∷ (dto.city_id == 0 || dto.sublocation_id == 0, "Choose a city and locality.")
    ∷ (
      is_none (positive_at (codes "areaSqft") dto.details),
      "Enter a valid property area in square feet.",
    )
    ∷ []

unfoldable pub allowed_details : Text → SubmitOwnerProperty → List Detail
unfolding is_allowed
allowed_details category dto =
    filter (λ detail. is_allowed category dto.is_rent detail.key) dto.details

abbrev pub residential_categories : List Text
residential_categories = codes "apartment" ∷ codes "villa" ∷ codes "individual_portion" ∷ []

abbrev pub bedrooms_at : List Detail → ℕ
bedrooms_at details = elim (number_at (codes "bedrooms") details) [ none ↦ 0 | some n ↦ n / 100 ]

-- `details.carpetArea > (details.buildUpArea || details.areaSqft)`
unfoldable pub is_carpet_too_large : List Detail → Bool
unfolding number_at
is_carpet_too_large details = elim (positive_at (codes "carpetArea") details) [
  | none ↦ false
  | some carpet ↦ elim (positive_at (codes "buildUpArea") details) [
    | some built ↦ ltb built carpet
    | none ↦ elim (number_at (codes "areaSqft") details) [
      | none ↦ false
      | some area ↦ ltb area carpet
    ]
  ]
]

abbrev pub area_units : List Text
area_units = codes "Sq Ft" ∷ codes "Cents" ∷ codes "Acres" ∷ codes "Grounds" ∷ []

-- The checks of the allowed details and of the charges.
unfoldable pub detail_checks : Text → SubmitOwnerProperty → List Detail → List (Bool × String)
unfolding is_bad_detail number_at text_at is_carpet_too_large is_bad_money is_date
detail_checks category dto details =
    (any is_bad_detail details, "Enter a valid value.")
    ∷ (
      is_in category residential_categories
          && (bedrooms_at details == 0 || not (has_detail (codes "bathrooms") details)),
      "Enter bedrooms and bathrooms.",
    )
    ∷ (is_carpet_too_large details, "Carpet area cannot exceed the built up area.")
    ∷ (
      category =t codes "coworking"
          && is_none (positive_at (codes "availableWorkstations") details),
      "Enter the available workstations.",
    )
    ∷ (
      is_land category
          && not (is_empty (text_at (codes "areaUnit") details))
          && not (is_in (text_at (codes "areaUnit") details) area_units),
      "Choose a supported land area unit.",
    )
    ∷ (dto.is_rent && is_bad_date dto.available_from, "Choose a valid availability date.")
    ∷ (
      not dto.is_rent && is_bad_money dto.booking_amount
          || dto.is_rent && is_bad_money dto.security_deposit
          || not (is_land category) && is_bad_money dto.maintenance_charges,
      "Enter charges in rupees with at most 2 decimal places.",
    )
    ∷ []

abbrev pub furnishing_of : List Detail → Text
furnishing_of details = text_at (codes "furnishingStatus") details

-- `details.unitType = …`
unfoldable pub set_unit_type : Text → List Detail → List Detail
unfolding number_at
set_unit_type category details =
    if is_in category residential_categories
    then with_detail (codes "unitType") (text (decimal (bedrooms_at details) ++ codes "BHK"))
        details
    else details

-- `if (!details.parking) delete details.parkingType`
unfoldable pub drop_parking_type : List Detail → List Detail
unfolding number_at
drop_parking_type details = elim (positive_at (codes "parking") details) [
  | none ↦ without_detail (codes "parkingType") details
  | some n ↦ details
]

-- `details.furnished = …`
unfoldable pub set_furnished : List Detail → List Detail
unfolding text_at
set_furnished details =
    if is_empty (furnishing_of details)
    then without_detail (codes "furnished") details
    else with_detail (codes "furnished") (flag (furnishing_of details =t codes "FULLY FURNISHED"))
        details

unfoldable pub final_details : Text → List Detail → List Detail
unfolding set_unit_type drop_parking_type set_furnished
final_details category details = set_furnished (drop_parking_type (set_unit_type category details))

abbrev pub some_text : Option Text → Option Text
some_text none = none
some_text (some s) = if is_empty s then none else some s

abbrev pub when {ℓ} : {A : Type ℓ} → Bool → Option A → Option A
when b o = if b then o else none

-- A trimmed text that is not empty
abbrev pub trimmed : Option Text → Option Text
trimmed none = none
trimmed (some s) = some_text (some (trim s))

abbrev pub document : FloorPlan → Document
document plan = record {
  file_key = plan.file_key;
  title = elim (some_text plan.file_name) [ none ↦ codes "Floor plan" | some name ↦ name ];
}

-- What `ownerPayload` returns after the checks
unfoldable pub payload_of : Text → SubmitOwnerProperty → List Detail → OwnerPayload
unfolding final_details text_at
payload_of category dto details =
    let is_built = not (is_land category) in
    let is_sale = not dto.is_rent in
    record {
      title = trim dto.title;
      description = trim dto.description;
      price = dto.price;
      is_rent = dto.is_rent;
      city_id = dto.city_id;
      sublocation_id = dto.sublocation_id;
      project_name = when is_built dto.project_name;
      negotiable = elim dto.negotiable [ none ↦ false | some b ↦ b ];
      rera_number = when is_sale (trimmed dto.rera_number);
      ownership_type = when is_sale dto.ownership_type;
      transaction_type = when (is_sale && is_built) dto.transaction_type;
      expected_sale_price = when is_sale (some dto.price);
      monthly_rent = when dto.is_rent (some dto.price);
      booking_amount = when is_sale (some_text dto.booking_amount);
      security_deposit = when dto.is_rent (some_text dto.security_deposit);
      maintenance_charges = when is_built (some_text dto.maintenance_charges);
      lock_in_period = when dto.is_rent dto.lock_in_period;
      available_from = when dto.is_rent dto.available_from;
      details = final_details category details;
      address = trim dto.address;
      pincode = some_text dto.pincode;
      amenities = if is_built then dto.amenities else some [];
      furnishing_items =
          if is_in (furnishing_of details) (codes "FULLY FURNISHED" ∷ codes "SEMI FURNISHED" ∷ [])
          then dto.furnishing_items
          else some [];
      files = dto.files;
      documents = map document dto.floor_plans;
    }

-- `ownerPayload`
unfoldable pub owner_payload : Text → SubmitOwnerProperty → Outcome OwnerPayload
unfolding request_checks allowed_details detail_checks payload_of
owner_payload category dto = elim (first_error (request_checks category dto)) [
  | some message ↦ fail 400 message
  | none ↦
      let details = allowed_details category dto in
      elim (first_error (detail_checks category dto details)) [
        | some message ↦ fail 400 message
        | none ↦ ok (payload_of category dto details)
      ]
]
