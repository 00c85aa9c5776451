-- ===== src/Wishlist/Indexed.antt =====
-- The indexes of `saved_listings` hold after every toggle.
use mathlib.Core.Path.{subst}
use majestan_backend.Prelude.{
  ℕ, ◌≤◌, Bool, true, false, not, List, [], ◌∷◌, ◌==◌, ==_iff, ◌≡◌, refl, ◌∙◌, arith, any, filter,
  ltb, All, All-mono, All-filter, count, count-congr, Bool-cases, inl, inr,
}
use majestan_backend.Prelude.Text.{Text, =t_iff}
use majestan_backend.Wishlist.{
  SavedListingKind, property, project, kind_eq, kind_of, SavedListing, WishlistDb, ToggleWishlist,
  has_key, delete_saved, toggle,
}
use majestan_backend.Wishlist.Laws.{saved_row, key_of, toggle-Writes}

count-filter_le :
    (p q : SavedListing → Bool) (xs : List SavedListing) → count p (filter q xs) ≤ count p xs
count-filter_le p q [] = omega arith
count-filter_le p q (x ∷ xs) = ground (arith, count-filter_le p q xs)

count_zero : (p : SavedListing → Bool) (xs : List SavedListing) → any p xs ≡ false → count p xs ≡ 0
count_zero p [] h = refl
count_zero p (x ∷ xs) h = ground (arith, count_zero p xs)

pub kind_eq_sound : (k l : SavedListingKind) → kind_eq k l ≡ true → k ≡ l
kind_eq_sound property property h = refl
kind_eq_sound project project h = refl
kind_eq_sound property project h = absurd (ground arith)
kind_eq_sound project property h = absurd (ground arith)

-- A key that the new row has is the key of the request.
pub same_key :
    (owner : Text) (kind : SavedListingKind) (id : ℕ) (payload : ToggleWishlist) (new : ℕ)
    (type : Text) (x : SavedListing)
    → has_key owner kind id (saved_row payload new type) ≡ true
    → has_key owner kind id x ≡ key_of payload x
unfolding has_key
same_key owner kind id payload new type x h =
    let same_owner : payload.guest_id ≡ owner = ground (arith, =t_iff payload.guest_id owner) in
    let same_kind = kind_eq_sound (kind_of payload.property_type) kind (ground arith) in
    let same_id : payload.property_id ≡ id = ground (arith, ==_iff payload.property_id id) in
    rw (same_owner, same_kind, same_id) refl

toggle-keeps_keys :
    (owner : Text) (kind : SavedListingKind) (id : ℕ) (payload : ToggleWishlist) (db : WishlistDb)
    → count (has_key owner kind id) db.saved ≤ 1
    → count (has_key owner kind id) (toggle payload db).1.saved ≤ 1
unfolding delete_saved
toggle-keeps_keys owner kind id payload db one = elim (toggle-Writes payload db) [
  | inl (status, message, e) ↦ rw e one
  | inr (inl (row, found, e)) ↦
      rw e (
        omega (arith, count-filter_le (has_key owner kind id) (λ r. not (r.id == row.id)) db.saved))
  | inr (inr (type, new, e)) ↦
      rw e (elim (Bool-cases (has_key owner kind id (saved_row payload db.next_id type))) [
        | inl mine ↦
            let none' : count (has_key owner kind id) db.saved ≡ 0 =
              count-congr (has_key owner kind id) (key_of payload) db.saved
                (λ x. same_key owner kind id payload db.next_id type x mine)
              ∙ count_zero (key_of payload) db.saved new in
            ground arith
        | inr other ↦ ground arith
      ])
]

-- No two rows have an id, or a key, and the next id is new: as the indexes of the table have it.
pub record IsIndexed (db : WishlistDb) : Type 0 where
  pub fresh : All (λ row. ltb row.id db.next_id ≡ true) db.saved
  pub one_id : (id : ℕ) → count (λ row. row.id == id) db.saved ≤ 1
  pub one_key :
      (owner : Text) (kind : SavedListingKind) (id : ℕ) → count (has_key owner kind id) db.saved ≤ 1

count_fresh :
    (id : ℕ) (xs : List SavedListing)
    → All (λ row. ltb row.id id ≡ true) xs
    → count (λ row. row.id == id) xs ≡ 0
count_fresh id [] h = refl
count_fresh id (x ∷ xs) (h, hs) = ground (arith, count_fresh id xs hs)

pub toggle-IsIndexed :
    (payload : ToggleWishlist) (db : WishlistDb) → IsIndexed db → IsIndexed (toggle payload db).1
unfolding delete_saved
toggle-IsIndexed payload db valid = record {
  fresh = elim (toggle-Writes payload db) [
    | inl (status, message, e) ↦ rw e valid.fresh
    | inr (inl (row, found, e)) ↦ rw e (
        All-filter (λ r. ltb r.id db.next_id ≡ true) (λ r. not (r.id == row.id)) db.saved
          valid.fresh)
    | inr (inr (type, new, e)) ↦
        rw e (ground arith, All-mono db.saved (λ r h. ground (arith, h)) valid.fresh)
  ];
  one_id = λ id. elim (toggle-Writes payload db) [
    | inl (status, message, e) ↦ rw e (valid.one_id id)
    | inr (inl (row, found, e)) ↦ rw e (
        omega (
          arith,
          valid.one_id id,
          count-filter_le (λ r. r.id == id) (λ r. not (r.id == row.id)) db.saved,
        ))
    | inr (inr (type, new, e)) ↦ rw e (elim (Bool-cases (db.next_id == id)) [
      | inl mine ↦
          let same : db.next_id ≡ id = (==_iff db.next_id id).0 mine in
          let none' = count_fresh db.next_id db.saved valid.fresh in
          let none'' = subst (λ i. count (λ r. r.id == i) db.saved ≡ 0) same none' in
          rw (mine, none'') (omega arith)
      | inr other ↦ rw other (valid.one_id id)
    ])
  ];
  one_key =
      λ owner kind id. toggle-keeps_keys owner kind id payload db (valid.one_key owner kind id);
}
