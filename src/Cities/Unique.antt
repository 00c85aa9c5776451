-- ===== src/Cities/Unique.antt =====
-- No state has a city twice, whatever the administrators do.
use majestan_backend.Prelude.{
  ℕ, ◌≤◌, Bool, true, false, not, ◌&&◌, List, [], ◌∷◌, ◌==◌, ◌≡◌, refl, ap, sym, ◌∙◌, arith, ltb,
  any, filter, update_where, count, count-update_where-le, All, All-mono, All-filter,
  All-update_where, Bool-cases, Option-cases, inl, inr,
}
use majestan_backend.Prelude.Text.{Text, =t_iff, lower}
use majestan_backend.Cities.{
  City, CityTable, CityData, is_place, get_city, is_taken, write_city, new_city, save_city,
  set_active, create_city, update_city, update_status, remove_city,
}

pub data CityRequest : Type 0 where
  create : CityData → CityRequest
  update : ℕ → CityData → CityRequest
  switch : ℕ → ℕ → CityRequest
  delete : ℕ → CityRequest

unfoldable pub handle_city : CityRequest → CityTable → CityTable
handle_city (create payload) db = (create_city payload db).1
handle_city (update id payload) db = (update_city id payload db).1
handle_city (switch id status) db = (update_status id status db).1
handle_city (delete id) db = (remove_city id db).1

unfoldable pub handle_cities : List CityRequest → CityTable → CityTable
handle_cities [] db = db
handle_cities (request ∷ rest) db = handle_cities rest (handle_city request db)

abbrev pub no_cities : CityTable
no_cities = record { rows = []; next_id = 1 }

pub record IsValid (db : CityTable) : Type 0 where
  pub fresh : All (λ city. ltb city.id db.next_id ≡ true) db.rows
  pub one_id : (id : ℕ) → count (λ city. city.id == id) db.rows ≤ 1
  pub one_place : (name state : Text) → count (is_place name state) db.rows ≤ 1

count-filter_le : (p q : City → Bool) (xs : List City) → count p (filter q xs) ≤ count p xs
count-filter_le p q [] = omega arith
count-filter_le p q (x ∷ xs) = ground (arith, count-filter_le p q xs)

count_fresh :
    (id : ℕ) (xs : List City)
    → All (λ city. ltb city.id id ≡ true) xs
    → count (λ city. city.id == id) xs ≡ 0
count_fresh id [] h = refl
count_fresh id (x ∷ xs) (h, hs) = ground (arith, count_fresh id xs hs)

-- A place that two texts name is the same place.
same_place :
    (name state name' state' : Text) (x y : City)
    → y.city_name ≡ name'
    → y.state_name ≡ state'
    → is_place name state y ≡ true
    → is_place name' state' x ≡ is_place name state x
unfolding is_place
same_place name state name' state' x y n s h =
    let same_name : lower name' ≡ lower name =
      ap lower (sym n) ∙ (=t_iff (lower y.city_name) (lower name)).0 (ground arith) in
    let same_state : lower state' ≡ lower state =
      ap lower (sym s) ∙ (=t_iff (lower y.state_name) (lower state)).0 (ground arith) in
    rw (same_name, same_state) refl

count_absent :
    (p q : City → Bool) (xs : List City)
    → ((x : City) → p x ≡ q x)
    → any q xs ≡ false
    → count p xs ≡ 0
count_absent p q [] same h = refl
count_absent p q (x ∷ xs) same h = ground (arith, count_absent p q xs same, same x)

-- The rows of a place after an update of one row, if no other row has the place.
count_updated :
    (p q : City → Bool) (id : ℕ) (f : City → City) (xs : List City)
    → ((x : City) → p x ≡ q x)
    → any (λ city. q city && not (city.id == id)) xs ≡ false
    → count p (update_where (λ city. city.id == id) f xs) ≤ count (λ city. city.id == id) xs
count_updated p q id f [] same h = omega arith
count_updated p q id f (x ∷ xs) same h = ground (arith, count_updated p q id f xs same, same x)

create-IsValid :
    (payload : CityData) (db : CityTable) → IsValid db → IsValid (create_city payload db).1
unfolding create_city is_taken
create-IsValid payload db v =
    elim (Bool-cases (any (is_place payload.city_name payload.state_name) db.rows)) [
      | inl taken ↦ rw (taken, create_city) v
      | inr free ↦
          rw (free, create_city)
            (record {
              fresh = (
                ground arith,
                All-mono db.rows (λ city (h : ltb city.id db.next_id ≡ true). ground arith) v.fresh,
              );
              one_id = λ id. ground (arith, v.one_id id, count_fresh db.next_id db.rows v.fresh);
              one_place = λ name state.
                  elim (Bool-cases
                    (is_place name state (write_city payload (new_city db.next_id)))) [
                      | inr other ↦ ground (arith, v.one_place name state)
                      | inl mine ↦ ground (
                        arith,
                        count_absent (is_place name state)
                            (is_place payload.city_name payload.state_name) db.rows
                            (λ x. sym (
                              same_place name state payload.city_name payload.state_name x
                                (write_city payload (new_city db.next_id)) refl refl mine))
                            free,
                      )
                    ];
            })
    ]

-- A change of one row that keeps its id.
save-IsValid :
    (id : ℕ) (f : City → City) (db : CityTable)
    → ((x : City) → (f x).id ≡ x.id)
    → ((name state : Text)
        → count (is_place name state) (update_where (λ city. city.id == id) f db.rows) ≤ 1)
    → IsValid db
    → IsValid (save_city id f db)
save-IsValid id f db same places v = record {
  fresh =
      All-update_where (λ city. city.id == id) f db.rows (λ x h. h)
        (λ x (h : ltb x.id db.next_id ≡ true). ground (arith, same x)) v.fresh;
  one_id = λ i.
      let fewer =
        count-update_where-le (λ city. city.id == i) (λ city. city.id == id) f db.rows
          (λ x h. ground (arith, same x)) in
      omega (arith, v.one_id i);
  one_place = places;
}

update-IsValid :
    (id : ℕ) (payload : CityData) (db : CityTable)
    → IsValid db
    → IsValid (update_city id payload db).1
unfolding update_city is_taken
update-IsValid id payload db v = elim (Option-cases (get_city id db.rows)) [
  | inl none' ↦ rw (none', update_city) v
  | inr (city, found) ↦
      elim (Bool-cases
        (any (λ c. is_place payload.city_name payload.state_name c && not (c.id == id)) db.rows)) [
          | inl taken ↦ rw (found, taken, update_city) v
          | inr free ↦
              rw (found, free, update_city)
                (save-IsValid id (write_city payload) db (λ x. refl)
                  (λ name state. elim (Bool-cases (is_place name state (write_city payload city))) [
                    | inl mine ↦
                        let few =
                          count_updated (is_place name state)
                            (is_place payload.city_name payload.state_name) id (write_city payload)
                            db.rows
                            (λ x. sym (
                              same_place name state payload.city_name payload.state_name x
                                (write_city payload city) refl refl mine))
                            free in
                        omega (arith, v.one_id id)
                    | inr other ↦
                        let few =
                          count-update_where-le (is_place name state) (λ c. c.id == id)
                            (write_city payload) db.rows
                            (λ x h. absurd (unfold is_place in ground arith)) in
                        omega (arith, v.one_place name state)
                  ])
                  v)
        ]
]

switch-IsValid :
    (id status : ℕ) (db : CityTable) → IsValid db → IsValid (update_status id status db).1
unfolding update_status is_place
switch-IsValid id status db v = elim (Option-cases (get_city id db.rows)) [
  | inl none' ↦ rw (none', update_status) v
  | inr (city, found) ↦
      rw (found, update_status)
        (save-IsValid id (set_active status) db (λ x. refl)
          (λ name state.
            let few =
              count-update_where-le (is_place name state) (λ c. c.id == id) (set_active status)
                db.rows (λ x h. h) in
            omega (arith, v.one_place name state))
          v)
]

delete-IsValid : (id : ℕ) (db : CityTable) → IsValid db → IsValid (remove_city id db).1
unfolding remove_city
delete-IsValid id db v = elim (Option-cases (get_city id db.rows)) [
  | inl none' ↦ rw (none', remove_city) v
  | inr (city, found) ↦
      rw (found, remove_city)
        (record {
          fresh =
              All-filter (λ c. ltb c.id db.next_id ≡ true) (λ row. not (row.id == city.id)) db.rows
                v.fresh;
          one_id = λ i. omega (
            arith,
            v.one_id i,
            count-filter_le (λ c. c.id == i) (λ row. not (row.id == city.id)) db.rows,
          );
          one_place = λ name state. omega (
            arith,
            v.one_place name state,
            count-filter_le (is_place name state) (λ row. not (row.id == city.id)) db.rows,
          );
        })
]

handle_cities-IsValid :
    (requests : List CityRequest) (db : CityTable)
    → IsValid db
    → IsValid (handle_cities requests db)
unfolding handle_cities handle_city
handle_cities-IsValid [] db v = v
handle_cities-IsValid (create payload ∷ rest) db v =
    handle_cities-IsValid rest (create_city payload db).1 (create-IsValid payload db v)
handle_cities-IsValid (update id payload ∷ rest) db v =
    handle_cities-IsValid rest (update_city id payload db).1 (update-IsValid id payload db v)
handle_cities-IsValid (switch id status ∷ rest) db v =
    handle_cities-IsValid rest (update_status id status db).1 (switch-IsValid id status db v)
handle_cities-IsValid (delete id ∷ rest) db v =
    handle_cities-IsValid rest (remove_city id db).1 (delete-IsValid id db v)

-- After any requests, in any order, at most one city has a name and a state, compared without case.
pub handle_cities_unique :
    (requests : List CityRequest) (name state : Text)
    → count (is_place name state) (handle_cities requests no_cities).rows ≤ 1
handle_cities_unique requests name state =
    (handle_cities-IsValid requests no_cities (record {
      fresh = tt;
      one_id = λ id. omega arith;
      one_place = λ name' state'. omega arith;
    })).one_place
      name state
