-- ===== src/Wishlist/Tests.antt =====
-- One visitor toggles one live property.
use majestan_backend.Prelude.{Bool, ◌==◌, any, ◌≤◌, true, false, [], ◌∷◌, ◌≡◌, refl, arith, count}
use majestan_backend.Prelude.Text.{codes, lower, trim}
use majestan_backend.Http.{ok}
use majestan_backend.Wishlist.{
  property, SavedListing, WishlistDb, ToggleWishlist, has_key, kind_of, count_of, toggle,
  live_listing_type, insert_ignore, add,
}
use majestan_backend.Wishlist.Laws.{toggle-twice}
use majestan_backend.Wishlist.Indexed.{IsIndexed}
use majestan_backend.Wishlist.Parity.{asks, toggle_all, accepted, turned, toggle_all_parity}

abbrev other : SavedListing
other = record {
  id = 1;
  owner_key = codes "guest-1";
  listing_kind = property;
  listing_id = 8;
  listing_type = codes "villa";
}

abbrev tables : WishlistDb
tables = record {
  saved = other ∷ [];
  next_id = 2;
  properties = record { id = 9; is_live = true; property_type = codes "apartment" } ∷ [];
  projects = [];
}

abbrev request : ToggleWishlist
request = record { guest_id = codes "guest-1"; property_id = 9; property_type = codes "Apartment" }

abbrev missing : ToggleWishlist
missing = record { guest_id = codes "guest-1"; property_id = 77; property_type = codes "villa" }

count_one : (p : SavedListing → Bool) (row : SavedListing) → count p (row ∷ []) ≤ 1
count_one p row = ground arith

toggle-twice_example :
    ((toggle request (toggle request tables).1).0
      ≡ ok (record { wished = false; total = count_of (codes "guest-1") tables }))
    × ((toggle request (toggle request tables).1).1.saved ≡ other ∷ [])
unfolding toggle kind_of lower trim has_key live_listing_type add insert_ignore count_of
toggle-twice_example = toggle-twice request tables 2 (refl, tt) refl

tables-IsIndexed : IsIndexed tables
unfolding has_key
tables-IsIndexed = record {
  fresh = (refl, tt);
  one_id = λ id. count_one (λ row. row.id == id) other;
  one_key = λ owner kind id. count_one (has_key owner kind id) other;
}

-- Two toggles of one listing and one of a listing that is not there.
toggle_all_parity_example :
    (any
        (has_key (codes "guest-1") property 9)
        (toggle_all (request ∷ missing ∷ request ∷ []) tables).saved
      ≡ turned
          (count
            (asks (codes "guest-1") property 9)
            (accepted (request ∷ missing ∷ request ∷ []) tables))
          (any (has_key (codes "guest-1") property 9) tables.saved))
    × (count
          (has_key (codes "guest-1") property 9)
          (toggle_all (request ∷ missing ∷ request ∷ []) tables).saved
        ≤ 1)
toggle_all_parity_example =
    toggle_all_parity (request ∷ missing ∷ request ∷ []) tables (codes "guest-1") property 9
      tables-IsIndexed
