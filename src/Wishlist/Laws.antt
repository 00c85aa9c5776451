-- ===== src/Wishlist/Laws.antt =====
-- Toggling a listing: what a call writes, and that twice is nothing.
use majestan_backend.Prelude.{
  String, ℕ, ◌+◌, Bool, true, false, not, none, some, List, [], ◌∷◌, ◌==◌, ==_refl, ◌≡◌, ◌⊎◌, refl,
  ap, ◌∙◌, arith, ltb, find?, any, filter, All, Option-cases, inl, inr,
}
use majestan_backend.Prelude.Text.{Text, =t_refl}
use majestan_backend.Http.{Outcome, ok, fail}
use majestan_backend.Wishlist.{
  SavedListingKind, property, project, kind_eq, kind_of, SavedListing, WishlistDb, ToggleWishlist,
  Toggled, has_key, count_of, live_listing_type, insert_ignore, delete_saved, add, toggle,
}

abbrev pub saved_row : ToggleWishlist → ℕ → Text → SavedListing
saved_row payload id type = record {
  id = id;
  owner_key = payload.guest_id;
  listing_kind = kind_of payload.property_type;
  listing_id = payload.property_id;
  listing_type = type;
}

abbrev pub key_of : ToggleWishlist → SavedListing → Bool
key_of payload = has_key payload.guest_id (kind_of payload.property_type) payload.property_id

kind_eq_refl : (k : SavedListingKind) → kind_eq k k ≡ true
kind_eq_refl property = refl
kind_eq_refl project = refl

key_of-saved_row :
    (payload : ToggleWishlist) (id : ℕ) (type : Text)
    → key_of payload (saved_row payload id type) ≡ true
unfolding has_key
key_of-saved_row payload id type = ground (
  arith,
  =t_refl payload.guest_id,
  kind_eq_refl (kind_of payload.property_type),
  ==_refl payload.property_id,
)

any_of_find?-none :
    (p : SavedListing → Bool) (xs : List SavedListing) → find? p xs ≡ none → any p xs ≡ false
any_of_find?-none p [] h = refl
any_of_find?-none p (x ∷ xs) h = ground (arith, any_of_find?-none p xs)

-- What a call does to the table: nothing, one row less, or one row more that the key admits.
abbrev pub Writes : ToggleWishlist → WishlistDb → Outcome Toggled × WishlistDb → Type 0
Writes payload db end =
    ((status : ℕ) × (message : String) × (end ≡ (fail status message, db)))
    ⊎ ((row : SavedListing) × (find? (key_of payload) db.saved ≡ some row)
        × (end ≡ (
          ok (record {
            wished = false;
            total = count_of payload.guest_id (delete_saved row.id db);
          }),
          delete_saved row.id db,
        )))
    ⊎ ((type : Text) × (any (key_of payload) db.saved ≡ false)
        × (end ≡ (
          ok (record {
            wished = true;
            total = count_of payload.guest_id (record db {
              saved = saved_row payload db.next_id type ∷ db.saved;
              next_id = db.next_id + 1;
            });
          }),
          record db {
            saved = saved_row payload db.next_id type ∷ db.saved;
            next_id = db.next_id + 1;
          },
        )))

abbrev pub with_saved : ToggleWishlist → WishlistDb → Text → WishlistDb
with_saved payload db type = record db {
  saved = saved_row payload db.next_id type ∷ db.saved;
  next_id = db.next_id + 1;
}

add-Writes :
    (payload : ToggleWishlist) (db : WishlistDb) (answer : Outcome Text)
    → find? (key_of payload) db.saved ≡ none
    → toggle payload db ≡ add payload db answer
    → Writes payload db (toggle payload db)
unfolding add insert_ignore
add-Writes payload db (fail status message) absent e = inl (status, message, e)
add-Writes payload db (ok type) absent e =
    let new = any_of_find?-none (key_of payload) db.saved absent in
    let inserted : insert_ignore payload.guest_id (kind_of payload.property_type)
          payload.property_id type db
        ≡ with_saved payload db type =
      rw (new, insert_ignore) refl in
    inr (
      inr (
        type,
        new,
        e
            ∙ ap {B = Outcome Toggled × WishlistDb}
                (λ (d : WishlistDb).
                  (ok (record { wished = true; total = count_of payload.guest_id d }), d))
                inserted,
      ))

pub toggle-Writes :
    (payload : ToggleWishlist) (db : WishlistDb) → Writes payload db (toggle payload db)
unfolding toggle
toggle-Writes payload db = elim (Option-cases (find? (key_of payload) db.saved)) [
  | inr (row, found) ↦ inr (inl (row, found, rw (found, toggle) refl))
  | inl none' ↦
      add-Writes payload db
        (live_listing_type (kind_of payload.property_type) payload.property_id db) none'
        (rw (none', toggle) refl)
]

filter-All :
    (id : ℕ) (xs : List SavedListing)
    → All (λ row. ltb row.id id ≡ true) xs
    → filter (λ row. not (row.id == id)) xs ≡ xs
filter-All id [] h = refl
filter-All id (x ∷ xs) (h, hs) = ground (arith, filter-All id xs hs)

-- Toggling a listing that was not saved, and then again, leaves the list of saved listings as it was,
-- and answers with the number of listings that the visitor had: if ids are given in ascending order.
pub toggle-twice :
    (payload : ToggleWishlist) (db : WishlistDb) (n : ℕ)
    → All (λ row. ltb row.id db.next_id ≡ true) db.saved
    → (toggle payload db).0 ≡ ok (record { wished = true; total = n })
    → ((toggle payload (toggle payload db).1).0
        ≡ ok (record { wished = false; total = count_of payload.guest_id db }))
      × ((toggle payload (toggle payload db).1).1.saved ≡ db.saved)
unfolding toggle delete_saved count_of
toggle-twice payload db n ascending wished = elim (toggle-Writes payload db) [
  | inl (status, message, e) ↦ absurd (ground arith)
  | inr (inl (row, found, e)) ↦ absurd (ground arith)
  | inr (inr (type, new, e)) ↦
      let row = saved_row payload db.next_id type in
      let found : find? (key_of payload) (row ∷ db.saved) ≡ some row =
        ground (arith, key_of-saved_row payload db.next_id type) in
      let back : filter (λ r. not (r.id == db.next_id)) (row ∷ db.saved) ≡ db.saved =
        ground (arith, ==_refl db.next_id, filter-All db.next_id db.saved ascending) in
      rw e (rw (found, toggle) (rw (back, delete_saved, count_of) (refl, refl)))
]
