-- ===== src/Cities/Tests.antt =====
-- An administrator enters one city twice and renames another.
use majestan_backend.Prelude.{◌≤◌, List, [], ◌∷◌, count}
use majestan_backend.Prelude.Text.{codes}
use majestan_backend.Cities.{CityData, is_place}
use majestan_backend.Cities.Unique.{
  CityRequest, create, update, switch, delete, handle_cities, no_cities, handle_cities_unique,
}

abbrev chennai : CityData
chennai = record { city_name = codes "Chennai"; state_name = codes "Tamil Nadu"; is_active = 1 }

abbrev madurai : CityData
madurai = record { city_name = codes "Madurai"; state_name = codes "Tamil Nadu"; is_active = 1 }

abbrev requests : List CityRequest
requests =
    create chennai ∷ create chennai ∷ create madurai ∷ update 2 chennai ∷ switch 1 0 ∷ delete 2 ∷ []

handle_cities_unique_example :
    count (is_place (codes "chennai") (codes "tamil nadu")) (handle_cities requests no_cities).rows
    ≤ 1
handle_cities_unique_example = handle_cities_unique requests (codes "chennai") (codes "tamil nadu")
