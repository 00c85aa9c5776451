-- ===== src/Cities.antt =====
-- src/modules/admin/cities/admin-cities.service.ts: the cities that the administrators keep.
pub mod Unique
mod Tests
use majestan_backend.Prelude.{
  ℕ, ◌+◌, Bool, true, false, not, ◌&&◌, ◌||◌, Option, none, some, List, [], ◌∷◌, ◌==◌,
  if◌then◌else◌, find?, any, filter, update_where,
}
use majestan_backend.Prelude.Text.{Text, codes, ◌=t◌, lower}
use majestan_backend.Http.{Outcome, ok, fail}

-- The entity; `is_active` is 0 or 1
pub record City : Type 0 where
  pub id : ℕ
  pub country_code : Text
  pub country_name : Text
  pub state_name : Text
  pub city_name : Text
  pub is_active : ℕ

pub record CityTable : Type 0 where
  pub rows : List City
  pub next_id : ℕ

-- CityDataDto; its country is a constant
pub record CityData : Type 0 where
  pub city_name : Text
  pub state_name : Text
  pub is_active : ℕ

-- `LOWER(city_name) = LOWER(…) AND LOWER(state_name) = LOWER(…)`
unfoldable pub is_place : Text → Text → City → Bool
is_place name state city =
    lower city.city_name =t lower name && lower city.state_name =t lower state

-- `getCity`
abbrev pub get_city : ℕ → List City → Option City
get_city id = find? (λ city. city.id == id)

-- `ensureUnique`: a row stands in the way.
unfoldable pub is_taken : Text → Text → Option ℕ → List City → Bool
is_taken name state none rows = any (is_place name state) rows
is_taken name state (some excluded) rows =
    any (λ city. is_place name state city && not (city.id == excluded)) rows

-- `details`
unfoldable pub city_details : ℕ → CityTable → Outcome City
city_details id db = elim (get_city id db.rows) [
  | none ↦ fail 404 "City not found"
  | some city ↦ ok city
]

-- The assignments of `create` and `update`.
abbrev pub write_city : CityData → City → City
write_city payload city = record {
  id = city.id;
  country_code = codes "IN";
  country_name = codes "India";
  state_name = payload.state_name;
  city_name = payload.city_name;
  is_active = payload.is_active;
}

abbrev pub new_city : ℕ → City
new_city id = record {
  id = id;
  country_code = [];
  country_name = [];
  state_name = [];
  city_name = [];
  is_active = 0;
}

-- `save` of a row that has an id
abbrev pub save_city : ℕ → (City → City) → CityTable → CityTable
save_city id f db = record db { rows = update_where (λ city. city.id == id) f db.rows }

abbrev pub answered : ℕ → CityTable → Outcome City × CityTable
answered id db = (city_details id db, db)

-- `create`
unfoldable pub create_city : CityData → CityTable → Outcome City × CityTable
create_city payload db =
    if is_taken payload.city_name payload.state_name none db.rows
    then (fail 409 "This city already exists in the selected state", db)
    else answered db.next_id (record {
      rows = write_city payload (new_city db.next_id) ∷ db.rows;
      next_id = db.next_id + 1;
    })

-- `update`
unfoldable pub update_city : ℕ → CityData → CityTable → Outcome City × CityTable
update_city id payload db = elim (get_city id db.rows) [
  | none ↦ (fail 404 "City not found", db)
  | some city ↦
      if is_taken payload.city_name payload.state_name (some id) db.rows
      then (fail 409 "This city already exists in the selected state", db)
      else answered id (save_city id (write_city payload) db)
]

abbrev pub set_active : ℕ → City → City
set_active status city = record city { is_active = if status == 1 then 1 else 0 }

-- `updateStatus`
unfoldable pub update_status : ℕ → ℕ → CityTable → Outcome City × CityTable
update_status id status db = elim (get_city id db.rows) [
  | none ↦ (fail 404 "City not found", db)
  | some city ↦ answered id (save_city id (set_active status) db)
]

-- `remove`
unfoldable pub remove_city : ℕ → CityTable → Outcome (Unit {0}) × CityTable
remove_city id db = elim (get_city id db.rows) [
  | none ↦ (fail 404 "City not found", db)
  | some city ↦ (ok tt, record db { rows = filter (λ row. not (row.id == city.id)) db.rows })
]
