-- ===== src/Ads/Order/Laws.antt =====
-- After a reordering the visitors see the advertisements in the order that was asked for.
use majestan_backend.Prelude.{
  String, ℕ, suc, ◌+◌, Bool, true, false, not, ◌||◌, List, [], ◌∷◌, ◌==◌, ==_refl, ◌≡◌, ◌⊎◌, refl,
  arith, if◌then◌else◌, any, filter, update_where, All, All-update_split, Bool-cases, inl, inr,
}
use majestan_backend.Http.{ok, fail}
use majestan_backend.Ads.{Ad, AdDb}
use majestan_backend.Ads.Order.{
  has_repeat, is_empty_list, is_missing, has_two_placements, with_order, save_orders, reorder,
}

-- A reordering is refused, or it has distinct ids and writes their positions.
pub reorder_cases :
    (ids : List ℕ) (db : AdDb)
    → ((status : ℕ) × (message : String) × (reorder ids db ≡ (fail status message, db)))
      ⊎ ((has_repeat ids ≡ false)
          × (is_missing ids (filter (λ ad. any (λ id. id == ad.id) ids) db.ads) ≡ false)
          × (reorder ids db ≡ (ok ids, record db { ads = save_orders 0 ids db.ads })))
unfolding reorder
reorder_cases ids db =
    let ads = filter (λ ad. any (λ id. id == ad.id) ids) db.ads in
    elim (Bool-cases (is_empty_list ids || has_repeat ids || any (λ id. id == 0) ids)) [
      | inl bad ↦ inl (400, "Provide unique positive advertisement IDs", rw (bad, reorder) refl)
      | inr good ↦ elim (Bool-cases (is_missing ids ads)) [
        | inl missing ↦ inl (404, "Ads not found", rw (good, missing, reorder) refl)
        | inr found ↦ elim (Bool-cases (has_two_placements ads)) [
          | inl two ↦
              inl (400, "Reorder one placement at a time", rw (good, found, two, reorder) refl)
          | inr one ↦ inr (ground arith, found, rw (good, found, one, reorder) refl)
        ]
      ]
    ]

-- The position of an id in a list
unfoldable pub position : ℕ → List ℕ → ℕ
position id [] = 0
position id (other ∷ ids) = let rest = position id ids in if other == id then 0 else suc rest

abbrev pub is_id : ℕ → Ad → Bool
is_id id ad = ad.id == id

-- Each asked for row has its position, counted from `index`.
abbrev pub has_position : ℕ → List ℕ → Ad → Bool
has_position index ids ad =
    not (any (λ id. id == ad.id) ids) || ad.sort_order == index + position ad.id ids

save_orders-keeps :
    (index : ℕ) (ids : List ℕ) (order id : ℕ) (ads : List Ad)
    → any (λ other. other == id) ids ≡ false
    → All (λ ad. (not (ad.id == id) || ad.sort_order == order) ≡ true) ads
    → All (λ ad. (not (ad.id == id) || ad.sort_order == order) ≡ true) (save_orders index ids ads)
unfolding save_orders
save_orders-keeps index [] order id ads h all = all
save_orders-keeps index (other ∷ ids) order id ads h all =
    save_orders-keeps (suc index) ids order id
      (update_where (λ ad. ad.id == other) (with_order index) ads) (ground arith)
      (All-update_split (λ ad. (not (ad.id == id) || ad.sort_order == order) ≡ true)
        (λ ad. (not (ad.id == id) || ad.sort_order == order) ≡ true) (λ ad. ad.id == other)
        (with_order index) ads (λ ad p q. p) (λ ad p q. ground arith) all)

set_order :
    (index id : ℕ) (ads : List Ad)
    → All
        (λ ad. (not (ad.id == id) || ad.sort_order == index) ≡ true)
        (update_where (λ ad. ad.id == id) (with_order index) ads)
set_order index id [] = tt
set_order index id (ad ∷ ads) = (
  elim (Bool-cases (ad.id == id)) [
    | inl here ↦ rw here (ground (arith, ==_refl index))
    | inr other ↦ rw other (ground arith)
  ],
  set_order index id ads,
)

All-both :
    (p q r : Ad → Bool) (ads : List Ad)
    → ((ad : Ad) → p ad ≡ true → q ad ≡ true → r ad ≡ true)
    → All (λ ad. p ad ≡ true) ads
    → All (λ ad. q ad ≡ true) ads
    → All (λ ad. r ad ≡ true) ads
All-both p q r [] f h k = tt
All-both p q r (ad ∷ ads) f (h, hs) (k, ks) = (f ad h k, All-both p q r ads f hs ks)

position-cons :
    (other id : ℕ) (ids : List ℕ)
    → ((other == id) ≡ true → position id (other ∷ ids) ≡ 0)
      × ((other == id) ≡ false → position id (other ∷ ids) ≡ suc (position id ids))
unfolding position
position-cons other id ids = (λ h. rw h refl, λ h. rw h refl)

next_position :
    (index id : ℕ) (ids : List ℕ) (ad : Ad)
    → (not (ad.id == id) || ad.sort_order == index) ≡ true
    → has_position (suc index) ids ad ≡ true
    → has_position index (id ∷ ids) ad ≡ true
next_position index id ids ad h k =
    let (here, there) = position-cons id ad.id ids in ground (arith, here, there)

pub save_orders-has_position :
    (index : ℕ) (ids : List ℕ) (ads : List Ad)
    → has_repeat ids ≡ false
    → All (λ ad. has_position index ids ad ≡ true) (save_orders index ids ads)
unfolding save_orders has_repeat
save_orders-has_position index [] ads h = always ads
  where
    always : (xs : List Ad) → All (λ ad. has_position index [] ad ≡ true) xs
    always [] = tt
    always (x ∷ xs) = (refl, always xs)
save_orders-has_position index (id ∷ ids) ads h =
    let rows = update_where (λ ad. ad.id == id) (with_order index) ads in
    All-both (λ ad. not (ad.id == id) || ad.sort_order == index) (has_position (suc index) ids)
      (has_position index (id ∷ ids)) (save_orders (suc index) ids rows)
      (next_position index id ids)
      (save_orders-keeps (suc index) ids index id rows (ground arith) (set_order index id ads))
      (save_orders-has_position (suc index) ids rows (ground arith))
