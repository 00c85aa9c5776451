-- ===== src/Ads/Order/Shown.antt =====
-- After a reordering the visitors see the advertisements in the order that was asked for.
use majestan_backend.Prelude.{
  ℕ, suc, ◌≤◌, Bool, true, false, not, ◌&&◌, ◌||◌, List, [], ◌∷◌, ◌==◌, ◌≡◌, refl, sym, ◌∙◌, arith,
  if◌then◌else◌, any, filter, map, count, update_where, All, All-mono, All-update_where, Bool-cases,
  inl, inr,
}
use majestan_backend.Http.{ok}
use majestan_backend.Ads.{AdPlacement, Ad, AdDb}
use majestan_backend.Ads.Order.{
  with_order, save_orders, reorder, ad_goes_after, insert_sorted, sort_ads, is_shown, active_ads,
  ad_item, list_active,
}
use majestan_backend.Ads.Order.Laws.{
  reorder_cases, position, has_position, save_orders-has_position,
}

-- A key does not fall along a list.
abbrev pub IsAscending {ℓ} : {A : Type ℓ} → (A → ℕ) → List A → Type 0
IsAscending f [] = Unit
IsAscending f (x ∷ xs) = All (λ y. f x ≤ f y) xs × IsAscending f xs

All-insert_sorted {κ} :
    (P : Ad → Type κ) (ad : Ad) (ads : List Ad) → P ad → All P ads → All P (insert_sorted ad ads)
unfolding insert_sorted
All-insert_sorted P ad [] h all = (h, tt)
All-insert_sorted P ad (other ∷ ads) h (k, all) = elim (Bool-cases (ad_goes_after ad other)) [
  | inl after ↦ rw after (k, All-insert_sorted P ad ads h all)
  | inr before ↦ rw before (h, (k, all))
]

All-sort_ads {κ} : (P : Ad → Type κ) (ads : List Ad) → All P ads → All P (sort_ads ads)
unfolding sort_ads
All-sort_ads P [] all = tt
All-sort_ads P (ad ∷ ads) (h, all) =
    All-insert_sorted P ad (sort_ads ads) h (All-sort_ads P ads all)

goes_after_order :
    (a b : Ad)
    → (ad_goes_after a b ≡ true → b.sort_order ≤ a.sort_order)
      × (ad_goes_after a b ≡ false → a.sort_order ≤ b.sort_order)
unfolding ad_goes_after
goes_after_order a b = (λ h. ground arith, λ h. ground arith)

insert_sorted-IsAscending :
    (ad : Ad) (ads : List Ad)
    → IsAscending (λ row. row.sort_order) ads
    → IsAscending (λ row. row.sort_order) (insert_sorted ad ads)
unfolding insert_sorted
insert_sorted-IsAscending ad [] h = (tt, tt)
insert_sorted-IsAscending ad (other ∷ ads) (h, hs) = elim (Bool-cases (ad_goes_after ad other)) [
  | inl after ↦ rw after (
    All-insert_sorted (λ row. other.sort_order ≤ row.sort_order) ad ads
        ((goes_after_order ad other).0 after) h,
    insert_sorted-IsAscending ad ads hs,
  )
  | inr before ↦
      let least : ad.sort_order ≤ other.sort_order = (goes_after_order ad other).1 before in
      rw before ((least, All-mono ads (λ row k. omega (arith, least, k)) h), (h, hs))
]

sort_ads-IsAscending : (ads : List Ad) → IsAscending (λ row. row.sort_order) (sort_ads ads)
unfolding sort_ads
sort_ads-IsAscending [] = tt
sort_ads-IsAscending (ad ∷ ads) =
    insert_sorted-IsAscending ad (sort_ads ads) (sort_ads-IsAscending ads)

count-insert_sorted :
    (q : Ad → Bool) (ad : Ad) (ads : List Ad)
    → count q (insert_sorted ad ads) ≡ (if q ad then suc (count q ads) else count q ads)
unfolding insert_sorted
count-insert_sorted q ad [] = refl
count-insert_sorted q ad (other ∷ ads) = ground (arith, count-insert_sorted q ad ads)

-- What is shown of an id
count-list_active :
    (placement : AdPlacement) (id : ℕ) (ads : List Ad)
    → count (λ item. item.id == id) (list_active placement ads)
      ≡ count (λ ad. is_shown placement ad && ad.id == id) ads
unfolding sort_ads list_active
count-list_active placement id ads =
    mapped (sort_ads (filter (is_shown placement) ads)) ∙ sorted ads
  where
    mapped :
        (xs : List Ad)
        → count (λ item. item.id == id) (map ad_item xs) ≡ count (λ ad. ad.id == id) xs
    mapped [] = refl
    mapped (x ∷ xs) = ground (arith, mapped xs)

    sorted :
        (xs : List Ad)
        → count (λ ad. ad.id == id) (sort_ads (filter (is_shown placement) xs))
          ≡ count (λ ad. is_shown placement ad && ad.id == id) xs
    sorted [] = refl
    sorted (x ∷ xs) = ground (
      arith,
      sorted xs,
      count-insert_sorted (λ ad. ad.id == id) x (sort_ads (filter (is_shown placement) xs)),
    )

count-save_orders :
    (q : Ad → Bool) (index : ℕ) (ids : List ℕ) (ads : List Ad)
    → ((order : ℕ) (ad : Ad) → q (with_order order ad) ≡ q ad)
    → count q (save_orders index ids ads) ≡ count q ads
unfolding save_orders
count-save_orders q index [] ads same = refl
count-save_orders q index (id ∷ ids) ads same =
    count-save_orders q (suc index) ids (update_where (λ ad. ad.id == id) (with_order index) ads)
      same
    ∙ updated ads
  where
    updated :
        (xs : List Ad)
        → count q (update_where (λ ad. ad.id == id) (with_order index) xs) ≡ count q xs
    updated [] = refl
    updated (x ∷ xs) = ground (arith, updated xs, same index x)

-- The shown ones that are asked for, with the position in place of the sort order.
IsAscending-positions :
    (ids : List ℕ) (ads : List Ad)
    → IsAscending (λ ad. ad.sort_order) ads
    → All (λ ad. ad.sort_order ≡ position ad.id ids) ads
    → IsAscending (λ item. position item.id ids) (map ad_item ads)
IsAscending-positions ids [] h all = tt
IsAscending-positions ids (ad ∷ ads) (h, hs) (e, es) =
    (first ads h es, IsAscending-positions ids ads hs es)
  where
    first :
        (xs : List Ad)
        → All (λ x. ad.sort_order ≤ x.sort_order) xs
        → All (λ x. x.sort_order ≡ position x.id ids) xs
        → All (λ item. position ad.id ids ≤ position item.id ids) (map ad_item xs)
    first [] k u = tt
    first (x ∷ xs) (k, ks) (u, us) = (omega (arith, e, k, u), first xs ks us)

-- The shown rows are asked for, and have their positions.
shown_positions :
    (placement : AdPlacement) (ids : List ℕ) (ads : List Ad)
    → All (λ ad. (not (is_shown placement ad) || any (λ id. id == ad.id) ids) ≡ true) ads
    → All (λ ad. has_position 0 ids ad ≡ true) ads
    → All (λ ad. ad.sort_order ≡ position ad.id ids) (filter (is_shown placement) ads)
shown_positions placement ids [] h k = tt
shown_positions placement ids (ad ∷ ads) (h, hs) (k, ks) =
    elim (Bool-cases (is_shown placement ad)) [
      | inl shown ↦ rw shown (ground arith, shown_positions placement ids ads hs ks)
      | inr hidden ↦ rw hidden (shown_positions placement ids ads hs ks)
    ]

save_orders-asked :
    (placement : AdPlacement) (asked : List ℕ) (index : ℕ) (ids : List ℕ) (ads : List Ad)
    → All (λ ad. (not (is_shown placement ad) || any (λ id. id == ad.id) asked) ≡ true) ads
    → All
        (λ ad. (not (is_shown placement ad) || any (λ id. id == ad.id) asked) ≡ true)
        (save_orders index ids ads)
unfolding save_orders
save_orders-asked placement asked index [] ads h = h
save_orders-asked placement asked index (id ∷ ids) ads h =
    save_orders-asked placement asked (suc index) ids
      (update_where (λ ad. ad.id == id) (with_order index) ads)
      (All-update_where (λ ad. ad.id == id) (with_order index) ads (λ row u. u) (λ row u. u) h)

-- If every active advertisement of a placement is among the ids of an accepted reordering, the site
-- then shows them in the order of the ids, and no advertisement is shown more or less often.
pub reorder-list_active :
    (placement : AdPlacement) (ids : List ℕ) (db : AdDb)
    → (reorder ids db).0 ≡ ok ids
    → All (λ ad. (not (is_shown placement ad) || any (λ id. id == ad.id) ids) ≡ true) db.ads
    → IsAscending (λ item. position item.id ids) (list_active placement (reorder ids db).1.ads)
      × ((id : ℕ)
          → count (λ item. item.id == id) (list_active placement (reorder ids db).1.ads)
            ≡ count (λ item. item.id == id) (list_active placement db.ads))
unfolding list_active active_ads
reorder-list_active placement ids db accepted asked = elim (reorder_cases ids db) [
  | inl (status, message, e) ↦ absurd (ground arith)
  | inr (unique, found, e) ↦
      let rows = save_orders 0 ids db.ads in
      let shown = filter (is_shown placement) rows in
      let positions : All (λ ad. ad.sort_order ≡ position ad.id ids) shown =
        shown_positions placement ids rows (save_orders-asked placement ids 0 ids db.ads asked)
          (save_orders-has_position 0 ids db.ads unique) in
      rw e (
        IsAscending-positions ids (sort_ads shown) (sort_ads-IsAscending shown)
            (All-sort_ads (λ ad. ad.sort_order ≡ position ad.id ids) shown positions),
        λ id.
            count-list_active placement id rows
            ∙ count-save_orders (λ ad. is_shown placement ad && ad.id == id) 0 ids db.ads
                (λ order ad. refl)
            ∙ sym (count-list_active placement id db.ads),
      )
]
