-- ===== src/Auth/Users/Laws.antt =====
-- Registration and login by e-mail and by phone: round trips, and what a refusal leaves alone.
use majestan_backend.Prelude.{
  ℕ, ◌+◌, Bool, true, false, none, List, [], ◌∷◌, ◌≡◌, ◌≢◌, ◌⊎◌, refl, arith, ==_refl, find?, any,
  Bool-cases, Option-cases, inl, inr, ap, sym, ◌∙◌,
}
use majestan_backend.Prelude.Text.{Text, ◌=t◌, =t_iff, =t_refl, lower, trim}
use majestan_backend.Prelude.Text.Laws.{normal, lower-normal, normal_idem}
use majestan_backend.Http.{Outcome, ok, fail}
use majestan_backend.Auth.Bcrypt.{Bcrypt}
use majestan_backend.Auth.Guards.{user}
use majestan_backend.Auth.Users.{
  UserRow, UserTable, RegisterUser, AuthResponse, auth_response, has_email, by_email, by_phone,
  by_id, insert_user, respond, inserted, login_user, register_user, register_user_with_phone,
  login_user_with_phone,
}

-- The row that an insertion writes.
abbrev pub new_row : ℕ → Text → Text → Text → Text → Bool → UserRow
new_row id name email phone password_hash is_verified = record {
  id = id;
  name = name;
  email = email;
  phone = phone;
  password_hash = password_hash;
  role = user;
  is_verified = is_verified;
}

abbrev pub with_row : UserRow → UserTable → UserTable
with_row row db = record { rows = row ∷ db.rows; next_id = db.next_id + 1 }

-- An insertion that the index admits is read back at once.
pub inserted_row :
    {A : Type 0} (view : UserRow → A) (name email phone password_hash : Text) (is_verified : Bool)
    (db : UserTable)
    → any (has_email (lower email)) db.rows ≡ false
    → inserted view db.next_id db (insert_user name email phone password_hash is_verified db) ≡ (
      ok (view (new_row db.next_id name email phone password_hash is_verified)),
      with_row (new_row db.next_id name email phone password_hash is_verified) db,
    )
unfolding inserted insert_user respond by_id
inserted_row view name email phone password_hash is_verified db fresh =
    rw fresh (ground (arith, ==_refl db.next_id))

pub inserted_duplicate :
    {A : Type 0} (view : UserRow → A) (name email phone password_hash : Text) (is_verified : Bool)
    (db : UserTable)
    → any (has_email (lower email)) db.rows ≡ true
    → inserted view db.next_id db (insert_user name email phone password_hash is_verified db)
      ≡ (fail 500 "ER_DUP_ENTRY", db)
unfolding inserted insert_user respond by_id
inserted_duplicate view name email phone password_hash is_verified db taken = rw taken

find?-none-any : {A : Type 0} (p : A → Bool) (xs : List A) → find? p xs ≡ none → any p xs ≡ false
find?-none-any p [] h = refl
find?-none-any p (x ∷ xs) h = ground (arith, find?-none-any p xs)

false_of_ne : (s t : Text) → s ≢ t → (s =t t) ≡ false
false_of_ne s t ne = elim (Bool-cases (s =t t)) [
  | inl same ↦ absurd (ne ((=t_iff s t).0 same))
  | inr other ↦ other
]

-- An address that the lookup does not find is one that the index admits.
fresh_of_by_email :
    (email : Text) (db : UserTable)
    → by_email (normal email) db.rows ≡ none
    → any (has_email (lower (normal email))) db.rows ≡ false
fresh_of_by_email email db h = rw lower-normal (
    rw normal_idem at
      (find?-none-any (has_email (normal (normal email))) db.rows (unfold by_email in h)))

module _ (bcrypt : Bcrypt) where
  -- A registration that the lookup lets pass.
  register_user_new :
      (salt : ℕ) (p : RegisterUser) (db : UserTable)
      → by_email (normal p.email) db.rows ≡ none
      → register_user bcrypt salt p db ≡ (
        ok (
            auth_response (
              new_row db.next_id
                (trim p.name)
                (normal p.email)
                (trim p.phone)
                (bcrypt.hash salt p.password)
                false)),
        with_row
            (new_row db.next_id
              (trim p.name)
              (normal p.email)
              (trim p.phone)
              (bcrypt.hash salt p.password)
              false)
            db,
      )
  unfolding register_user
  register_user_new salt p db none' =
      rw (none', register_user)
        (inserted_row auth_response (trim p.name) (normal p.email) (trim p.phone)
          (bcrypt.hash salt p.password) false db (fresh_of_by_email p.email db none'))

  -- Registration succeeds exactly when no account has the address, up to case and outer spaces; a
  -- refused one is answered by 409 and changes nothing.
  pub register_user_cases :
      (salt : ℕ) (p : RegisterUser) (db : UserTable)
      → (by_email (normal p.email) db.rows ≡ none)
          × ((r : AuthResponse) × ((register_user bcrypt salt p db).0 ≡ ok r))
        ⊎ (register_user bcrypt salt p db
            ≡ (fail 409 "An account already exists for this email", db))
  register_user_cases salt p db = elim (Option-cases (by_email (normal p.email) db.rows)) [
    | inl fresh ↦ inl (
      fresh,
      (
        auth_response (
            new_row db.next_id (trim p.name) (normal p.email) (trim p.phone)
              (bcrypt.hash salt p.password) false),
        ap (λ (r : Outcome AuthResponse × UserTable). r.0) (register_user_new salt p db fresh),
      ),
    )
    | inr (row, taken) ↦ inr (unfold register_user in rw (taken, register_user))
  ]

  login_new_row :
      (email password : Text) (row : UserRow) (db : UserTable)
      → has_email (normal email) row ≡ true
      → bcrypt.compare password row.password_hash ≡ true
      → login_user bcrypt email password (with_row row db) ≡ ok (auth_response row)
  unfolding login_user by_email
  login_new_row email password row db mine right = ground arith

  login_other_row :
      (email password : Text) (row : UserRow) (db : UserTable)
      → has_email (normal email) row ≡ false
      → login_user bcrypt email password (with_row row db) ≡ login_user bcrypt email password db
  unfolding login_user by_email
  login_other_row email password row db other = rw (other, login_user)

  has_email-normal :
      (email email' : Text) (row : UserRow)
      → row.email ≡ normal email
      → has_email (normal email') row ≡ (normal email =t normal email')
  has_email-normal email email' row e = rw (e, lower-normal)

  pub register_user_ok :
      (salt : ℕ) (p : RegisterUser) (db : UserTable) (r : AuthResponse)
      → (register_user bcrypt salt p db).0 ≡ ok r
      → (row : UserRow) × (row.email ≡ normal p.email)
        × (row.password_hash ≡ bcrypt.hash salt p.password)
        × (auth_response row ≡ r)
        × (with_row row db ≡ (register_user bcrypt salt p db).1)
  register_user_ok salt p db r h = elim (Option-cases (by_email (normal p.email) db.rows)) [
    | inr (row, taken) ↦
        let refused : register_user bcrypt salt p db
            ≡ (fail 409 "An account already exists for this email", db) =
          unfold register_user in rw (taken, register_user) in
        absurd (ground arith)
    | inl fresh ↦
        let new = register_user_new salt p db fresh in
        (
          new_row db.next_id (trim p.name) (normal p.email) (trim p.phone)
              (bcrypt.hash salt p.password) false,
          refl,
          refl,
          ground arith,
          ap (λ (o : Outcome AuthResponse × UserTable). o.1) (sym new),
        )
  ]

  -- After a successful registration the same password logs in under the address in any spelling of
  -- its case and outer spaces, with the answer that the registration gave.
  pub register_then_login :
      (salt : ℕ) (p : RegisterUser) (db : UserTable) (r : AuthResponse) (email : Text)
      → (register_user bcrypt salt p db).0 ≡ ok r
      → normal email ≡ normal p.email
      → login_user bcrypt email p.password (register_user bcrypt salt p db).1 ≡ ok r
  register_then_login salt p db r email h e =
      let (row, address, hash, same, after) = register_user_ok salt p db r h in
      rw (← after) (
        login_new_row email p.password row db
          (has_email-normal p.email email row address
            ∙ (=t_iff (normal p.email) (normal email)).1 (sym e))
          (rw hash (bcrypt.compare-hash salt p.password))
        ∙ ap {B = Outcome AuthResponse} ok same)

  -- After a successful registration every login under another address answers what it answered
  -- before.
  pub register_keeps_logins :
      (salt : ℕ) (p : RegisterUser) (db : UserTable) (r : AuthResponse) (email password : Text)
      → (register_user bcrypt salt p db).0 ≡ ok r
      → normal email ≢ normal p.email
      → login_user bcrypt email password (register_user bcrypt salt p db).1
        ≡ login_user bcrypt email password db
  register_keeps_logins salt p db r email password h ne =
      let (row, address, hash, same, after) = register_user_ok salt p db r h in
      rw (← after) (
        login_other_row email password row db (
          has_email-normal p.email email row address
          ∙ false_of_ne (normal p.email) (normal email) (λ e. ne (sym e))))

  register_with_phone_ok :
      (salt : ℕ) (suffix name email phone : Text) (db : UserTable) (r : AuthResponse)
      → (register_user_with_phone bcrypt salt suffix name email phone db).0 ≡ ok r
      → (row : UserRow) × (row.phone ≡ phone)
        × (row.role ≡ user)
        × (row.is_verified ≡ true)
        × (auth_response row ≡ r)
        × (with_row row db ≡ (register_user_with_phone bcrypt salt suffix name email phone db).1)
  register_with_phone_ok salt suffix name email phone db r h =
      elim (Option-cases (by_email (normal email) db.rows)) [
        | inr (row, taken) ↦ absurd (unfold register_user_with_phone in ground arith)
        | inl fresh ↦ elim (Option-cases (by_phone phone db.rows)) [
          | inr (row, taken) ↦ absurd (unfold register_user_with_phone in ground arith)
          | inl unknown ↦
              let new =
                inserted_row auth_response (trim name) (normal email) phone
                  (bcrypt.hash salt suffix) true db (fresh_of_by_email email db fresh) in
              (
                new_row db.next_id (trim name) (normal email) phone (bcrypt.hash salt suffix) true,
                refl,
                refl,
                refl,
                unfold register_user_with_phone in ground arith,
                unfold register_user_with_phone in ground arith,
              )
        ]
      ]

  -- A phone that was registered with a code logs in with a code, as the same verified user, if the canonical number has no outer spaces.
  pub phone_register_then_login :
      (salt : ℕ) (suffix name email phone : Text) (db : UserTable) (r : AuthResponse)
      → (register_user_with_phone bcrypt salt suffix name email phone db).0 ≡ ok r
      → trim phone ≡ phone
      → (login_user_with_phone phone
          (register_user_with_phone bcrypt salt suffix name email phone db).1).0
        ≡ ok r
  phone_register_then_login salt suffix name email phone db r h canonical =
      let (row, same_phone, role, verified, same, after) =
        register_with_phone_ok salt suffix name email phone db r h in
      rw (← after) (unfold login_user_with_phone by_phone in ground (arith, =t_refl phone))
