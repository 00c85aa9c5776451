-- ===== src/OwnerPost/Policy/Laws.antt =====
-- What an accepted request of an owner comes to.
use majestan_backend.Prelude.{
  String, Bool, true, false, not, none, some, List, [], ◌∷◌, ◌++◌, ◌≡◌, refl, arith, filter, All,
  All-filter, Bool-cases, Option-cases, inl, inr,
}
use majestan_backend.Prelude.Text.{Text, codes, ◌=t◌, =t_iff, is_empty}
use majestan_backend.Phone.OtpCode.{decimal}
use majestan_backend.Http.{ok, fail}
use majestan_backend.OwnerPost.{is_in}
use majestan_backend.OwnerPost.Details.{
  DetailValue, text, flag, Detail, is_allowed, owner_categories, positive_at, text_at, with_detail,
}
use majestan_backend.OwnerPost.Policy.{
  SubmitOwnerProperty, OwnerPayload, first_error, request_checks, allowed_details, detail_checks,
  residential_categories, bedrooms_at, furnishing_of, set_unit_type, drop_parking_type,
  set_furnished, final_details, payload_of, owner_payload,
}

-- An accepted request passes all checks.
pub owner_payload_ok :
    (category : Text) (dto : SubmitOwnerProperty) (payload : OwnerPayload)
    → owner_payload category dto ≡ ok payload
    → (first_error (request_checks category dto) ≡ none)
      × (first_error (detail_checks category dto (allowed_details category dto)) ≡ none)
      × (payload ≡ payload_of category dto (allowed_details category dto))
unfolding owner_payload
owner_payload_ok category dto payload h =
    elim (Option-cases (first_error (request_checks category dto))) [
      | inr (message, e) ↦
          let h' : fail 400 message ≡ ok payload = rw (e, owner_payload) at h in
          absurd (ground arith)
      | inl fine ↦
          elim (Option-cases
            (first_error (detail_checks category dto (allowed_details category dto)))) [
              | inr (message, e) ↦
                  let h' : fail 400 message ≡ ok payload = rw (fine, e, owner_payload) at h in
                  absurd (ground arith)
              | inl good ↦
                  let h' : ok (payload_of category dto (allowed_details category dto))
                      ≡ ok payload =
                    rw (fine, good, owner_payload) at h in
                  (fine, good, ground arith)
            ]
    ]

All-filtered : (p : Detail → Bool) (xs : List Detail) → All (λ d. p d ≡ true) (filter p xs)
All-filtered p [] = tt
All-filtered p (x ∷ xs) = elim (Bool-cases (p x)) [
  | inl kept ↦ rw kept (kept, All-filtered p xs)
  | inr dropped ↦ rw dropped (All-filtered p xs)
]

All-is_in :
    (P : Text → Type 0) (names : List Text) (name : Text)
    → All P names
    → is_in name names ≡ true
    → P name
All-is_in P [] name all h = absurd (ground arith)
All-is_in P (other ∷ names) name (first, all) h = elim (Bool-cases (other =t name)) [
  | inl here ↦ rw (← (=t_iff other name).0 here) first
  | inr elsewhere ↦ All-is_in P names name all (ground arith)
]

unit_types :
    (is_rent : Bool)
    → All (λ c. is_allowed c is_rent (codes "unitType") ≡ true) residential_categories
unfolding is_allowed
unit_types true = (refl, (refl, (refl, tt)))
unit_types false = (refl, (refl, (refl, tt)))

-- A category that is furnished has the flag for it.
furnished_buildings :
    (is_rent : Bool)
    → All
        (λ c.
          is_allowed c is_rent (codes "furnishingStatus") ≡ true
          → is_allowed c is_rent (codes "furnished") ≡ true)
        owner_categories
unfolding is_allowed
furnished_buildings true = (
  λ h. refl,
  (
    λ h. refl,
    (
      λ h. refl,
      (
        λ h. absurd (ground arith),
        (λ h. absurd (ground arith), (λ h. refl, (λ h. refl, (λ h. refl, tt)))),
      ),
    ),
  ),
)
furnished_buildings false = (
  λ h. refl,
  (
    λ h. refl,
    (
      λ h. refl,
      (
        λ h. absurd (ground arith),
        (λ h. absurd (ground arith), (λ h. refl, (λ h. refl, (λ h. refl, tt)))),
      ),
    ),
  ),
)

-- Where no exception is thrown every test fails.
pub first_error-none :
    (checks : List (Bool × String))
    → first_error checks ≡ none
    → All (λ check. check.0 ≡ false) checks
first_error-none [] h = tt
first_error-none ((b, message) ∷ checks) h = elim (Bool-cases b) [
  | inl bad ↦ let h' : some message ≡ none = rw bad at h in absurd (ground arith)
  | inr good ↦
      let h' : first_error checks ≡ none = rw good at h in (good, first_error-none checks h')
]

true_of_not : (b : Bool) → not b ≡ false → b ≡ true
true_of_not true h = refl
true_of_not false h = absurd (ground arith)

known_category :
    (category : Text) (dto : SubmitOwnerProperty)
    → first_error (request_checks category dto) ≡ none
    → is_in category owner_categories ≡ true
unfolding request_checks
known_category category dto h =
    true_of_not (is_in category owner_categories)
      (first_error-none (request_checks category dto) h).0

module _ (category : Text) (is_rent : Bool) where
  allowed_of_text_at :
      (key : Text) (details : List Detail)
      → All (λ d. is_allowed category is_rent d.key ≡ true) details
      → is_empty (text_at key details) ≡ false
      → is_allowed category is_rent key ≡ true
  unfolding text_at
  allowed_of_text_at key [] all h = absurd (ground arith)
  allowed_of_text_at key (detail ∷ details) (first, all) h = elim (Bool-cases (detail.key =t key)) [
    | inl here ↦ rw (← (=t_iff detail.key key).0 here) first
    | inr other ↦
        let h' : is_empty (text_at key details) ≡ false = rw other at h in
        allowed_of_text_at key details all h'
  ]

  All-with_detail :
      (key : Text) (value : DetailValue) (details : List Detail)
      → is_allowed category is_rent key ≡ true
      → All (λ d. is_allowed category is_rent d.key ≡ true) details
      → All (λ d. is_allowed category is_rent d.key ≡ true) (with_detail key value details)
  All-with_detail key value details h all = (
    h,
    All-filter (λ d. is_allowed category is_rent d.key ≡ true) (λ d. not (d.key =t key)) details
        all,
  )

  set_unit_type-allowed :
      (details : List Detail)
      → All (λ d. is_allowed category is_rent d.key ≡ true) details
      → All (λ d. is_allowed category is_rent d.key ≡ true) (set_unit_type category details)
  unfolding set_unit_type
  set_unit_type-allowed details all = elim (Bool-cases (is_in category residential_categories)) [
    | inr other ↦ rw (other, set_unit_type) all
    | inl flat ↦
        rw (flat, set_unit_type)
          (All-with_detail (codes "unitType") (text (decimal (bedrooms_at details) ++ codes "BHK"))
            details
            (All-is_in (λ c. is_allowed c is_rent (codes "unitType") ≡ true) residential_categories
              category (unit_types is_rent) flat)
            all)
  ]

  drop_parking_type-allowed :
      (details : List Detail)
      → All (λ d. is_allowed category is_rent d.key ≡ true) details
      → All (λ d. is_allowed category is_rent d.key ≡ true) (drop_parking_type details)
  unfolding drop_parking_type
  drop_parking_type-allowed details all =
      elim (Option-cases (positive_at (codes "parking") details)) [
        | inr (n, e) ↦ rw (e, drop_parking_type) all
        | inl none' ↦
            rw (none', drop_parking_type)
              (All-filter (λ d. is_allowed category is_rent d.key ≡ true)
                (λ d. not (d.key =t codes "parkingType")) details all)
      ]

  set_furnished-allowed :
      (details : List Detail)
      → is_in category owner_categories ≡ true
      → All (λ d. is_allowed category is_rent d.key ≡ true) details
      → All (λ d. is_allowed category is_rent d.key ≡ true) (set_furnished details)
  unfolding set_furnished
  set_furnished-allowed details known all = elim (Bool-cases (is_empty (furnishing_of details))) [
    | inl unset ↦
        rw (unset, set_furnished)
          (All-filter (λ d. is_allowed category is_rent d.key ≡ true)
            (λ d. not (d.key =t codes "furnished")) details all)
    | inr set ↦
        rw (set, set_furnished)
          (All-with_detail (codes "furnished")
            (flag (furnishing_of details =t codes "FULLY FURNISHED")) details
            (All-is_in
              (λ c.
                is_allowed c is_rent (codes "furnishingStatus") ≡ true
                → is_allowed c is_rent (codes "furnished") ≡ true)
              owner_categories category (furnished_buildings is_rent) known
              (allowed_of_text_at (codes "furnishingStatus") details all set))
            all)
  ]

-- Every detail of an accepted payload, those included that the policy adds, is one that the category
-- and the kind of listing allow.
pub owner_payload-allowed :
    (category : Text) (dto : SubmitOwnerProperty) (payload : OwnerPayload)
    → owner_payload category dto ≡ ok payload
    → All (λ detail. is_allowed category dto.is_rent detail.key ≡ true) payload.details
unfolding payload_of final_details allowed_details
owner_payload-allowed category dto payload h =
    let (fine, good, same) = owner_payload_ok category dto payload h in
    let details = allowed_details category dto in
    let all = All-filtered (λ d. is_allowed category dto.is_rent d.key) dto.details in
    let typed = set_unit_type-allowed category dto.is_rent details all in
    let parked =
      drop_parking_type-allowed category dto.is_rent (set_unit_type category details) typed in
    rw same (
      set_furnished-allowed category dto.is_rent
        (drop_parking_type (set_unit_type category details)) (known_category category dto fine)
        parked)
