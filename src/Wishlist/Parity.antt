-- ===== src/Wishlist/Parity.antt =====
-- What is saved after any toggles: a listing is saved or not by the number of its accepted toggles.
use majestan_backend.Prelude.{
  ℕ, ◌≤◌, Bool, true, false, not, List, [], ◌∷◌, ◌==◌, ==_iff, ◌≡◌, refl, ◌∙◌, arith, any, filter,
  some, zero, suc, ◌&&◌, find?, find?_sound, count-pos_of_find?, if◌then◌else◌, ==_refl, count,
  Bool-cases, inl, inr,
}
use majestan_backend.Prelude.Text.{Text, ◌=t◌, =t_iff}
use majestan_backend.Http.{Outcome, ok, fail}
use majestan_backend.Wishlist.{
  SavedListingKind, kind_eq, kind_of, SavedListing, WishlistDb, ToggleWishlist, has_key,
  delete_saved, toggle,
}
use majestan_backend.Wishlist.Laws.{saved_row, key_of, toggle-Writes}
use majestan_backend.Wishlist.Indexed.{IsIndexed, kind_eq_sound, same_key, toggle-IsIndexed}

filter_absent :
    (id : ℕ) (xs : List SavedListing)
    → count (λ r. r.id == id) xs ≡ 0
    → filter (λ r. not (r.id == id)) xs ≡ xs
filter_absent id [] h = refl
filter_absent id (x ∷ xs) h = ground (arith, filter_absent id xs)

any-false_of_count :
    (q : SavedListing → Bool) (xs : List SavedListing) → count q xs ≡ 0 → any q xs ≡ false
any-false_of_count q [] h = refl
any-false_of_count q (x ∷ xs) h = ground (arith, any-false_of_count q xs)

-- The deletion of a row that was found takes that row only.
any_without :
    (p q : SavedListing → Bool) (xs : List SavedListing) (row : SavedListing)
    → find? p xs ≡ some row
    → count (λ r. r.id == row.id) xs ≤ 1
    → count q xs ≤ 1
    → any q (filter (λ r. not (r.id == row.id)) xs) ≡ (if q row then false else any q xs)
any_without p q [] row found one_id one_key = absurd (ground arith)
any_without p q (x ∷ xs) row found one_id one_key = elim (Bool-cases (p x)) [
  | inl here ↦
      let same : x ≡ row = ground arith in
      let mine : (x.id == row.id) ≡ true = rw same (==_refl row.id) in
      let none' : count (λ r. r.id == row.id) xs ≡ 0 = ground arith in
      rw (mine, filter_absent row.id xs none', ← same)
        (elim (Bool-cases (q x)) [
          | inl yes' ↦ rw yes' (any-false_of_count q xs (ground arith))
          | inr no' ↦ rw no' refl
        ])
  | inr other ↦
      let found' : find? p xs ≡ some row = ground arith in
      let more = count-pos_of_find? p (λ r. r.id == row.id) xs row found' (==_refl row.id) in
      let away : (x.id == row.id) ≡ false = ground arith in
      let rest = any_without p q xs row found' (ground arith) (ground arith) in
      rw (away, rest)
        (elim (Bool-cases (q row)) [
          | inl yes' ↦ let more' = count-pos_of_find? p q xs row found' yes' in ground arith
          | inr no' ↦ rw no' refl
        ])
]

-- The toggle is of the visitor's listing with a kind and an id.
abbrev pub asks : Text → SavedListingKind → ℕ → ToggleWishlist → Bool
asks owner kind id payload =
    payload.guest_id =t owner
    && kind_eq (kind_of payload.property_type) kind
    && payload.property_id == id

abbrev pub is_ok {ℓ} : {A : Type ℓ} → Outcome A → Bool
is_ok (ok a) = true
is_ok (fail status message) = false

any-congr :
    (p q : SavedListing → Bool) (xs : List SavedListing)
    → ((x : SavedListing) → p x ≡ q x)
    → any p xs ≡ any q xs
any-congr p q [] h = refl
any-congr p q (x ∷ xs) h = ground (arith, any-congr p q xs h, h x)

-- A row with the key of a request has another key exactly if the request asks for that key.
has_key-asks :
    (owner : Text) (kind : SavedListingKind) (id : ℕ) (payload : ToggleWishlist) (x : SavedListing)
    → key_of payload x ≡ true
    → has_key owner kind id x ≡ asks owner kind id payload
unfolding has_key kind_of
has_key-asks owner kind id payload x h =
    let same_owner : x.owner_key ≡ payload.guest_id =
      ground (arith, =t_iff x.owner_key payload.guest_id) in
    let same_kind = kind_eq_sound x.listing_kind (kind_of payload.property_type) (ground arith) in
    let same_id : x.listing_id ≡ payload.property_id =
      ground (arith, ==_iff x.listing_id payload.property_id) in
    rw (same_owner, same_kind, same_id) refl

any_of_found :
    (p q : SavedListing → Bool) (xs : List SavedListing) (row : SavedListing)
    → find? p xs ≡ some row
    → q row ≡ true
    → any q xs ≡ true
any_of_found p q [] row h k = absurd (ground arith)
any_of_found p q (x ∷ xs) row h k = elim (Bool-cases (p x)) [
  | inl here ↦ ground arith
  | inr other ↦ ground (arith, any_of_found p q xs row)
]

-- An accepted toggle turns the listing it asks for over, and every other toggle leaves it.
toggle-turns :
    (owner : Text) (kind : SavedListingKind) (id : ℕ) (payload : ToggleWishlist) (db : WishlistDb)
    → IsIndexed db
    → any (has_key owner kind id) (toggle payload db).1.saved ≡ (
        if is_ok (toggle payload db).0 && asks owner kind id payload
        then not (any (has_key owner kind id) db.saved)
        else any (has_key owner kind id) db.saved)
unfolding delete_saved
toggle-turns owner kind id payload db valid = elim (toggle-Writes payload db) [
  | inl (status, message, e) ↦ rw e refl
  | inr (inl (row, found, e)) ↦
      let mine =
        has_key-asks owner kind id payload row (find?_sound (key_of payload) db.saved row found) in
      let left =
        any_without (key_of payload) (has_key owner kind id) db.saved row found
          (valid.one_id row.id) (valid.one_key owner kind id) in
      rw (e, left, mine)
        (elim (Bool-cases (asks owner kind id payload)) [
          | inl asked ↦
              let there =
                any_of_found (key_of payload) (has_key owner kind id) db.saved row found
                  (mine ∙ asked) in
              rw (asked, there) refl
          | inr other ↦ rw other refl
        ])
  | inr (inr (type, new, e)) ↦
      let row = saved_row payload db.next_id type in
      let asks_row : has_key owner kind id row ≡ asks owner kind id payload =
        unfold has_key in refl in
      rw (e, asks_row)
        (elim (Bool-cases (asks owner kind id payload)) [
          | inl asked ↦
              let absent =
                any-congr (has_key owner kind id) (key_of payload) db.saved
                  (λ x. same_key owner kind id payload db.next_id type x (asks_row ∙ asked))
                ∙ new in
              rw (asked, absent) refl
          | inr other ↦ rw other refl
        ])
]

-- The tables after a list of toggles, and those of the toggles that are accepted.
unfoldable pub toggle_all : List ToggleWishlist → WishlistDb → WishlistDb
toggle_all [] db = db
toggle_all (payload ∷ rest) db = toggle_all rest (toggle payload db).1

unfoldable pub accepted : List ToggleWishlist → WishlistDb → List ToggleWishlist
accepted [] db = []
accepted (payload ∷ rest) db =
    let later = accepted rest (toggle payload db).1 in
    if is_ok (toggle payload db).0 then payload ∷ later else later

unfoldable pub turned : ℕ → Bool → Bool
turned zero b = b
turned (suc n) b = turned n (not b)

-- In a table whose ids and keys are distinct and whose next id is new, after any toggles by any visitors a
-- listing is saved for a visitor exactly if it was saved before and turned over an even number of times, or
-- was not and an odd number: by the accepted toggles of that visitor for that listing, and no others. It is
-- then in one row at most.
pub toggle_all_parity :
    (payloads : List ToggleWishlist) (db : WishlistDb) (owner : Text) (kind : SavedListingKind)
    (id : ℕ)
    → IsIndexed db
    → (any (has_key owner kind id) (toggle_all payloads db).saved
        ≡ turned
            (count (asks owner kind id) (accepted payloads db))
            (any (has_key owner kind id) db.saved))
      × (count (has_key owner kind id) (toggle_all payloads db).saved ≤ 1)
unfolding toggle_all accepted turned
toggle_all_parity [] db owner kind id valid = (refl, valid.one_key owner kind id)
toggle_all_parity (payload ∷ rest) db owner kind id valid =
    let after = (toggle payload db).1 in
    let (parity, one) =
      toggle_all_parity rest after owner kind id (toggle-IsIndexed payload db valid) in
    let turn = toggle-turns owner kind id payload db valid in
    (
      parity ∙ (elim (Bool-cases (is_ok (toggle payload db).0)) [
        | inr refused ↦
            let same : any (has_key owner kind id) after.saved
                ≡ any (has_key owner kind id) db.saved =
              turn ∙ (rw refused refl) in
            rw (same, refused) refl
        | inl taken ↦ elim (Bool-cases (asks owner kind id payload)) [
          | inl asked ↦
              let flipped : any (has_key owner kind id) after.saved
                  ≡ not (any (has_key owner kind id) db.saved) =
                turn ∙ (rw (taken, asked) refl) in
              rw (flipped, taken, asked) refl
          | inr other ↦
              let same : any (has_key owner kind id) after.saved
                  ≡ any (has_key owner kind id) db.saved =
                turn ∙ (rw (taken, other) refl) in
              rw (same, taken, other) refl
        ]
      ]),
      one,
    )
