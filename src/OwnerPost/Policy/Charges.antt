-- ===== src/OwnerPost/Policy/Charges.antt =====
-- The amounts of an accepted payload.
use majestan_backend.Prelude.{
  ℕ, ◌≤◌, Bool, true, false, not, ◌&&◌, ◌||◌, Option, none, some, List, ◌==◌, ltb, ◌≡◌, refl, arith,
  Bool-cases, Option-cases, inl, inr,
}
use majestan_backend.Prelude.Text.{Text, is_empty}
use majestan_backend.Http.{ok}
use majestan_backend.OwnerPost.Details.{Detail, is_land}
use majestan_backend.OwnerPost.Amounts.{is_rupees, rupees, is_bad_price, is_bad_money}
use majestan_backend.OwnerPost.Policy.{
  SubmitOwnerProperty, OwnerPayload, first_error, request_checks, allowed_details, detail_checks,
  some_text, when, payload_of, owner_payload,
}
use majestan_backend.OwnerPost.Policy.Laws.{owner_payload_ok, first_error-none}

-- A charge is missing, or an amount with at most two decimals.
abbrev pub is_charge : Option Text → Bool
is_charge none = true
is_charge (some s) = is_rupees s

price_fine :
    (category : Text) (dto : SubmitOwnerProperty)
    → first_error (request_checks category dto) ≡ none
    → is_bad_price dto.price ≡ false
unfolding request_checks
price_fine category dto h =
    let (known, (sold, (titled, (priced, others)))) =
      first_error-none (request_checks category dto) h in
    priced

price_bounds :
    (price : Text)
    → is_bad_price price ≡ false
    → (p : ℕ) × (rupees price ≡ some p) × (1 ≤ p) × (p ≤ 999999999999)
unfolding is_bad_price
price_bounds price h = elim (Option-cases (rupees price)) [
  | inl none' ↦ let h' : true ≡ false = rw (none', is_bad_price) at h in absurd (ground arith)
  | inr (p, e) ↦
      let h' : (p == 0 || ltb 999999999999 p) ≡ false = rw (e, is_bad_price) at h in
      (p, e, ground arith, ground arith)
]

charges_fine :
    (category : Text) (dto : SubmitOwnerProperty) (details : List Detail)
    → first_error (detail_checks category dto details) ≡ none
    → (not dto.is_rent && is_bad_money dto.booking_amount
        || dto.is_rent && is_bad_money dto.security_deposit
        || not (is_land category) && is_bad_money dto.maintenance_charges)
      ≡ false
unfolding detail_checks
charges_fine category dto details h =
    let (values, (rooms, (carpet, (seats, (unit, (day, (charges, others))))))) =
      first_error-none (detail_checks category dto details) h in
    charges

is_charge-when :
    (b : Bool) (amount : Option Text)
    → (b && is_bad_money amount) ≡ false
    → is_charge (when b (some_text amount)) ≡ true
unfolding is_bad_money
is_charge-when false amount h = refl
is_charge-when true none h = refl
is_charge-when true (some s) h = elim (Bool-cases (is_empty s)) [
  | inl empty ↦ rw empty refl
  | inr full ↦
      let h' : (true && (not false && not (is_rupees s))) ≡ false = rw (full, is_bad_money) at h in
      rw full (ground arith)
]

-- An accepted payload has a price of between one paisa and 9999999999.99 rupees, and each of its charges
-- is missing or an amount with at most ten digits before the point and two behind it.
pub owner_payload-charges :
    (category : Text) (dto : SubmitOwnerProperty) (payload : OwnerPayload)
    → owner_payload category dto ≡ ok payload
    → (p : ℕ) × (rupees payload.price ≡ some p)
      × (1 ≤ p)
      × (p ≤ 999999999999)
      × (is_charge payload.booking_amount ≡ true)
      × (is_charge payload.security_deposit ≡ true)
      × (is_charge payload.maintenance_charges ≡ true)
unfolding payload_of
owner_payload-charges category dto payload h =
    let (fine, good, same) = owner_payload_ok category dto payload h in
    let charges = charges_fine category dto (allowed_details category dto) good in
    let (p, price, some', large) = price_bounds dto.price (price_fine category dto fine) in
    rw same (
      p,
      price,
      some',
      large,
      is_charge-when (not dto.is_rent) dto.booking_amount (ground arith),
      is_charge-when dto.is_rent dto.security_deposit (ground arith),
      is_charge-when (not (is_land category)) dto.maintenance_charges (ground arith),
    )
