-- ===== src/Wishlist.antt =====
-- src/modules/wishlist/wishlist.service.ts: the listings that a visitor saved. The tables `properties`
-- and `projects` are what the queries of `liveListingType` read of them.
pub mod Laws
pub mod Indexed
pub mod Parity
mod Tests
use majestan_backend.Prelude.{
  ℕ, ◌+◌, Bool, true, false, not, ◌&&◌, Option, none, some, List, [], ◌∷◌, ◌==◌, if◌then◌else◌,
  find?, any, filter, count,
}
use majestan_backend.Prelude.Text.{Text, codes, ◌=t◌, lower, trim, is_empty}
use majestan_backend.Http.{Outcome, ok, fail}

-- `SavedListingKind`
pub data SavedListingKind : Type 0 where
  property project : SavedListingKind

abbrev pub kind_eq : SavedListingKind → SavedListingKind → Bool
kind_eq property property = true
kind_eq project project = true
kind_eq _ _ = false

-- `kindOf`
unfoldable pub kind_of : Text → SavedListingKind
kind_of type = if lower (trim type) =t codes "project" then project else property

pub record SavedListing : Type 0 where
  pub id : ℕ
  pub owner_key : Text
  pub listing_kind : SavedListingKind
  pub listing_id : ℕ
  pub listing_type : Text

-- What the queries read of a listing: whether it is live, and its type (null as the empty text).
pub record LiveListing : Type 0 where
  pub id : ℕ
  pub is_live : Bool
  pub property_type : Text

pub record WishlistDb : Type 0 where
  pub saved : List SavedListing
  pub next_id : ℕ
  pub properties : List LiveListing
  pub projects : List LiveListing

-- ToggleWishlistDto
pub record ToggleWishlist : Type 0 where
  pub guest_id : Text
  pub property_id : ℕ
  pub property_type : Text

-- The answer of `toggle`
pub record Toggled : Type 0 where
  pub wished : Bool
  pub total : ℕ

-- The unique key of the table
unfoldable pub has_key : Text → SavedListingKind → ℕ → SavedListing → Bool
has_key owner kind id row =
    row.owner_key =t owner && kind_eq row.listing_kind kind && row.listing_id == id

-- `count`
unfoldable pub count_of : Text → WishlistDb → ℕ
count_of guest_id db = count (λ row. row.owner_key =t guest_id) db.saved

-- `liveListingType`
unfoldable pub live_listing_type : SavedListingKind → ℕ → WishlistDb → Outcome Text
live_listing_type project id db =
    if any (λ p. p.id == id && p.is_live) db.projects
    then ok (codes "project")
    else fail 404 "Project not found"
live_listing_type property id db = elim (find? (λ p. p.id == id && p.is_live) db.properties) [
  | none ↦ fail 404 "Property not found"
  | some p ↦
      let type = trim p.property_type in
      if is_empty type then fail 400 "Unsupported property type" else ok type
]

-- `INSERT IGNORE`
unfoldable pub insert_ignore : Text → SavedListingKind → ℕ → Text → WishlistDb → WishlistDb
insert_ignore owner kind id type db =
    if any (has_key owner kind id) db.saved then db else record db {
      saved =
          record {
            id = db.next_id;
            owner_key = owner;
            listing_kind = kind;
            listing_id = id;
            listing_type = type;
          }
          ∷ db.saved;
      next_id = db.next_id + 1;
    }

-- `DELETE … WHERE id = ?`
unfoldable pub delete_saved : ℕ → WishlistDb → WishlistDb
delete_saved id db = record db { saved = filter (λ row. not (row.id == id)) db.saved }

abbrev pub answer : Bool → Text → WishlistDb → Outcome Toggled × WishlistDb
answer wished guest_id db = (ok (record { wished = wished; total = count_of guest_id db }), db)

-- The rest of `toggle`, where the listing was not saved.
unfoldable pub add : ToggleWishlist → WishlistDb → Outcome Text → Outcome Toggled × WishlistDb
add payload db (fail status message) = (fail status message, db)
add payload db (ok type) =
    answer true payload.guest_id
      (insert_ignore payload.guest_id (kind_of payload.property_type) payload.property_id type db)

-- `toggle`
unfoldable pub toggle : ToggleWishlist → WishlistDb → Outcome Toggled × WishlistDb
toggle payload db =
    let kind = kind_of payload.property_type in
    elim (find? (has_key payload.guest_id kind payload.property_id) db.saved) [
      | some existing ↦ answer false payload.guest_id (delete_saved existing.id db)
      | none ↦ add payload db (live_listing_type kind payload.property_id db)
    ]
