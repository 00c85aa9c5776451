-- ===== src/Auth/Users/Taken.antt =====
-- An address that was registered stays registered, whatever operations follow.
use mathlib.Core.Path.{subst}
use majestan_backend.Prelude.{
  ℕ, Bool, true, false, List, [], ◌∷◌, ◌++◌, ◌≡◌, refl, arith, ◌==◌, sym, any, find?_of_any, some,
  ◌∙◌, update_where, Bool-cases, Option-cases, inl, inr, ap,
}
use majestan_backend.Prelude.Text.{Text, codes, =t_refl, lower, trim}
use majestan_backend.Prelude.Text.Laws.{normal, normal_idem, lower-normal}
use majestan_backend.Http.{Outcome, ok, fail}
use majestan_backend.Auth.Bcrypt.{Bcrypt}
use majestan_backend.Auth.Users.{
  UserRow, UserTable, AuthResponse, RegisterUser, PhoneAuth, has_email, by_email, by_phone,
  insert_user, inserted, register_user, register_user_with_phone, phone_login_or_register,
  login_user_with_phone, verify_row, auth_response, phone_response, or_default,
}
use majestan_backend.Auth.Users.Laws.{
  new_row, with_row, inserted_row, inserted_duplicate, register_user_ok,
}

-- An operation that writes to the table, with the texts that the program draws at random.
pub data UserCall : Type 0 where
  register : (salt : ℕ) → RegisterUser → UserCall
  register_phone : (salt : ℕ) (suffix name email phone : Text) → UserCall
  phone_login : (salt : ℕ) (random : Text) → PhoneAuth → UserCall
  login_phone : Text → UserCall

-- What a table becomes by a call: itself, one row more that the index admits, or one user verified.
data Write (db : UserTable) (after : UserTable) : Type 0 where
  unchanged : db ≡ after → Write db after
  added :
      (row : UserRow)
      → any (has_email (lower row.email)) db.rows ≡ false
      → with_row row db ≡ after
      → Write db after
  verified :
      (id : ℕ)
      → record db { rows = update_where (λ r. r.id == id) verify_row db.rows } ≡ after
      → Write db after

inserted_writes :
    {A : Type 0} (view : UserRow → A) (name email phone password_hash : Text) (is_verified : Bool)
    (db : UserTable)
    → Write db
        (inserted view db.next_id db (insert_user name email phone password_hash is_verified db)).1
inserted_writes {A} view name email phone password_hash is_verified db =
    elim (Bool-cases (any (has_email (lower email)) db.rows)) [
      | inl taken ↦ unchanged (
          ap (λ (o : Outcome A × UserTable). o.1)
            (sym (inserted_duplicate view name email phone password_hash is_verified db taken)))
      | inr fresh ↦ added (new_row db.next_id name email phone password_hash is_verified) fresh (
          ap (λ (o : Outcome A × UserTable). o.1)
            (sym (inserted_row view name email phone password_hash is_verified db fresh)))
    ]

any-verified :
    (key : Text) (id : ℕ) (rows : List UserRow)
    → any (has_email key) (update_where (λ r. r.id == id) verify_row rows)
      ≡ any (has_email key) rows
any-verified key id [] = refl
any-verified key id (row ∷ rows) = elim (Bool-cases (row.id == id)) [
  | inl here ↦ rw (here, any-verified key id rows) refl
  | inr other ↦ rw (other, any-verified key id rows) refl
]

-- The table has a user with an address.
abbrev pub HasEmail : Text → UserTable → Type 0
HasEmail key db = any (has_email key) db.rows ≡ true

Write-HasEmail :
    (key : Text) (db after : UserTable) → Write db after → HasEmail key db → HasEmail key after
Write-HasEmail key db after (unchanged e) h = subst (HasEmail key) e h
Write-HasEmail key db after (added row fresh e) h = subst (HasEmail key) e (ground (arith, h))
Write-HasEmail key db after (verified id e) h =
    subst (HasEmail key) e (any-verified key id db.rows ∙ h)

by_email_of_HasEmail :
    (email : Text) (db : UserTable)
    → HasEmail (normal email) db
    → (row : UserRow) × (by_email (normal email) db.rows ≡ some row)
unfolding by_email
by_email_of_HasEmail email db h =
    let (row, found) = find?_of_any (has_email (normal email)) db.rows h in
    (row, rw normal_idem found)

module _ (bcrypt : Bcrypt) where
  pub step : UserCall → UserTable → UserTable
  step (register salt p) db = (register_user bcrypt salt p db).1
  step (register_phone salt suffix name email phone) db =
      (register_user_with_phone bcrypt salt suffix name email phone db).1
  step (phone_login salt random credentials) db =
      (phone_login_or_register bcrypt salt random credentials db).1
  step (login_phone canonical) db = (login_user_with_phone canonical db).1

  pub run : List UserCall → UserTable → UserTable
  run [] db = db
  run (c ∷ cs) db = run cs (step c db)

  register_user_writes :
      (salt : ℕ) (p : RegisterUser) (db : UserTable) → Write db (register_user bcrypt salt p db).1
  unfolding register_user
  register_user_writes salt p db = elim (Option-cases (by_email (normal p.email) db.rows)) [
    | inr (row, taken) ↦ rw (taken, register_user) (unchanged refl)
    | inl fresh ↦
        rw (fresh, register_user)
          (inserted_writes auth_response (trim p.name) (normal p.email) (trim p.phone)
            (bcrypt.hash salt p.password) false db)
  ]

  register_phone_writes :
      (salt : ℕ) (suffix name email phone : Text) (db : UserTable)
      → Write db (register_user_with_phone bcrypt salt suffix name email phone db).1
  unfolding register_user_with_phone
  register_phone_writes salt suffix name email phone db =
      elim (Option-cases (by_email (normal email) db.rows)) [
        | inr (row, taken) ↦ rw (taken, register_user_with_phone) (unchanged refl)
        | inl fresh ↦ elim (Option-cases (by_phone phone db.rows)) [
          | inr (row, known) ↦
              rw (fresh, register_user_with_phone)
                (rw (known, register_user_with_phone) (unchanged refl))
          | inl unknown ↦
              rw (fresh, register_user_with_phone)
                (rw (unknown, register_user_with_phone)
                  (inserted_writes auth_response (trim name) (normal email) phone
                    (bcrypt.hash salt suffix) true db))
        ]
      ]

  phone_login_writes :
      (salt : ℕ) (random : Text) (credentials : PhoneAuth) (db : UserTable)
      → Write db (phone_login_or_register bcrypt salt random credentials db).1
  unfolding phone_login_or_register
  phone_login_writes salt random credentials db =
      let full_phone = credentials.country_code ++ credentials.phone in
      elim (Option-cases (by_phone full_phone db.rows)) [
        | inr (row, known) ↦ rw (known, phone_login_or_register) (unchanged refl)
        | inl unknown ↦
            rw (unknown, phone_login_or_register)
              (inserted_writes phone_response (or_default credentials.name (codes "Majestan User"))
                (or_default credentials.email (full_phone ++ codes "@user.majestan.local"))
                full_phone (bcrypt.hash salt random) true db)
      ]

  login_phone_writes :
      (canonical : Text) (db : UserTable) → Write db (login_user_with_phone canonical db).1
  unfolding login_user_with_phone
  login_phone_writes canonical db = elim (Option-cases (by_phone canonical db.rows)) [
    | inl unknown ↦ rw (unknown, login_user_with_phone) (unchanged refl)
    | inr (row, known) ↦ rw (known, login_user_with_phone) (verified row.id refl)
  ]

  step_writes : (c : UserCall) (db : UserTable) → Write db (step c db)
  unfolding step
  step_writes (register salt p) db = register_user_writes salt p db
  step_writes (register_phone salt suffix name email phone) db =
      register_phone_writes salt suffix name email phone db
  step_writes (phone_login salt random credentials) db =
      phone_login_writes salt random credentials db
  step_writes (login_phone canonical) db = login_phone_writes canonical db

  run-HasEmail :
      (key : Text) (cs : List UserCall) (db : UserTable)
      → HasEmail key db
      → HasEmail key (run cs db)
  unfolding run
  run-HasEmail key [] db h = h
  run-HasEmail key (c ∷ cs) db h =
      run-HasEmail key cs (step c db) (Write-HasEmail key db (step c db) (step_writes c db) h)

  register_user-HasEmail :
      (salt : ℕ) (p : RegisterUser) (db : UserTable) (r : AuthResponse)
      → (register_user bcrypt salt p db).0 ≡ ok r
      → HasEmail (normal p.email) (register_user bcrypt salt p db).1
  register_user-HasEmail salt p db r h =
      let (row, address, hash, same, after) = register_user_ok bcrypt salt p db r h in
      let mine : has_email (normal p.email) row ≡ true =
        rw (address, lower-normal) (=t_refl (normal p.email)) in
      subst (HasEmail (normal p.email)) after (ground (arith, mine))

  -- After a successful registration, whatever calls follow, a registration by password or by phone under
  -- the same address, in any spelling of its case and outer spaces, is answered by 409 and changes
  -- nothing.
  pub register_again_refused :
      (salt : ℕ) (p : RegisterUser) (db : UserTable) (r : AuthResponse) (cs : List UserCall)
      (salt' : ℕ) (again : RegisterUser) (suffix phone : Text)
      → (register_user bcrypt salt p db).0 ≡ ok r
      → normal again.email ≡ normal p.email
      → (register_user bcrypt salt' again (run cs (register_user bcrypt salt p db).1) ≡ (
        fail 409 "An account already exists for this email",
        run cs (register_user bcrypt salt p db).1,
      ))
        × (register_user_with_phone bcrypt salt' suffix again.name again.email phone
              (run cs (register_user bcrypt salt p db).1)
            ≡ (
              fail 409 "An account already exists for this email",
              run cs (register_user bcrypt salt p db).1,
            ))
  register_again_refused salt p db r cs salt' again suffix phone h same =
      let first = (register_user bcrypt salt p db).1 in
      let kept = run-HasEmail (normal p.email) cs first (register_user-HasEmail salt p db r h) in
      let known = subst (λ key. HasEmail key (run cs first)) (sym same) kept in
      let (row, found) = by_email_of_HasEmail again.email (run cs first) known in
      (
        unfold register_user in rw (found, register_user) refl,
        unfold register_user_with_phone in rw (found, register_user_with_phone) refl,
      )
