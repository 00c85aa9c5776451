-- ===== src/Auth/Users.antt =====
-- The site's users of src/modules/auth/auth.service.ts: the table `users`, with the unique index on
-- `email` that src/database/entities/user.entity.ts declares (MySQL compares it without case), and
-- the operations of AuthService on it. A statement that the index refuses is the exception 500.
pub mod Laws
pub mod Taken
use majestan_backend.Prelude.{
  ℕ, ◌+◌, Bool, true, false, ◌&&◌, Option, none, some, List, [], ◌∷◌, ◌++◌, ◌==◌, if◌then◌else◌,
  find?, any, update_where,
}
use majestan_backend.Prelude.Text.{Text, codes, ◌=t◌, lower, trim, is_empty}
use majestan_backend.Prelude.Text.Laws.{normal}
use majestan_backend.Http.{Outcome, ok, fail}
use majestan_backend.Auth.Bcrypt.{Bcrypt}
use majestan_backend.Auth.Guards.{AppRole, user, role_eq}

-- AppUserRow; `role` is not null in the table
pub record UserRow : Type 0 where
  pub id : ℕ
  pub name : Text
  pub email : Text
  pub phone : Text
  pub password_hash : Text
  pub role : AppRole
  pub is_verified : Bool

pub record UserTable : Type 0 where
  pub rows : List UserRow
  pub next_id : ℕ

-- RegisterUserDto
pub record RegisterUser : Type 0 where
  pub name : Text
  pub email : Text
  pub phone : Text
  pub password : Text

-- PhoneAuthDto
pub record PhoneAuth : Type 0 where
  pub country_code : Text
  pub phone : Text
  pub name : Option Text
  pub email : Option Text

pub record JwtPayload : Type 0 where
  pub sub : ℕ
  pub username : Text
  pub role : AppRole

-- The answer of a login: the user without the hash, and the payload that the token signs.
pub record AuthResponse : Type 0 where
  pub id : ℕ
  pub name : Text
  pub email : Text
  pub phone : Text
  pub role : AppRole
  pub is_verified : Bool
  pub payload : JwtPayload

abbrev pub has_email : Text → UserRow → Bool
has_email key row = lower row.email =t key

-- `getAppUserByEmail`
unfoldable pub by_email : Text → List UserRow → Option UserRow
by_email email rows = find? (has_email (normal email)) rows

-- `getAppUserByPhone`, `findAppUserByPhone`
unfoldable pub by_phone : Text → List UserRow → Option UserRow
by_phone phone rows = find? (λ row. row.phone =t trim phone && role_eq row.role user) rows

-- `getAppUserById`
unfoldable pub by_id : ℕ → List UserRow → Option UserRow
by_id id rows = find? (λ row. row.id == id) rows

-- `INSERT INTO users`: `none` where the unique index refuses the row.
unfoldable pub insert_user : Text → Text → Text → Text → Bool → UserTable → Option UserTable
insert_user name email phone password_hash is_verified db =
    if any (has_email (lower email)) db.rows
    then none
    else some (record {
      rows =
          record {
            id = db.next_id;
            name = name;
            email = email;
            phone = phone;
            password_hash = password_hash;
            role = user;
            is_verified = is_verified;
          }
          ∷ db.rows;
      next_id = db.next_id + 1;
    })

-- `buildUserAuthResponse`
abbrev pub auth_response : UserRow → AuthResponse
auth_response row = record {
  id = row.id;
  name = row.name;
  email = row.email;
  phone = row.phone;
  role = row.role;
  is_verified = row.is_verified;
  payload = record { sub = row.id; username = row.email; role = row.role };
}

-- The answer of `phoneLoginOrRegister`
pub record PhoneResponse : Type 0 where
  pub id : ℕ
  pub name : Text
  pub email : Text
  pub phone : Text
  pub role : AppRole
  pub payload : JwtPayload

abbrev pub phone_response : UserRow → PhoneResponse
phone_response row = record {
  id = row.id;
  name = row.name;
  email = row.email;
  phone = row.phone;
  role = row.role;
  payload = record { sub = row.id; username = row.email; role = row.role };
}

abbrev pub or_default : Option Text → Text → Text
or_default none d = d
or_default (some t) d = if is_empty t then d else t

module _ {A : Type 0} (view : UserRow → A) where
  -- The end of every registration: read the new row back and answer with it.
  unfoldable pub respond : ℕ → UserTable → Outcome A × UserTable
  respond id db = elim (by_id id db.rows) [
    | none ↦ (fail 404 "User not found", db)
    | some row ↦ (ok (view row), db)
  ]

  -- The rest of a registration, once the insertion was tried.
  unfoldable pub inserted : ℕ → UserTable → Option UserTable → Outcome A × UserTable
  inserted id db none = (fail 500 "ER_DUP_ENTRY", db)
  inserted id db (some db') = respond id db'

module _ (bcrypt : Bcrypt) where
  -- `loginUser`
  unfoldable pub login_user : Text → Text → UserTable → Outcome AuthResponse
  login_user email password db = elim (by_email email db.rows) [
    | none ↦ fail 401 "Invalid credentials"
    | some row ↦
        if bcrypt.compare password row.password_hash
        then ok (auth_response row)
        else fail 401 "Invalid credentials"
  ]

  -- `registerUser`
  unfoldable pub register_user : ℕ → RegisterUser → UserTable → Outcome AuthResponse × UserTable
  register_user salt p db =
      let email = normal p.email in
      elim (by_email email db.rows) [
        | some existing ↦ (fail 409 "An account already exists for this email", db)
        | none ↦
            inserted auth_response db.next_id db (
              insert_user (trim p.name) email (trim p.phone) (bcrypt.hash salt p.password) false db)
      ]

  -- `registerUserWithPhone`, with the random suffix that is hashed in place of a password
  unfoldable pub register_user_with_phone :
      ℕ → Text → Text → Text → Text → UserTable → Outcome AuthResponse × UserTable
  register_user_with_phone salt suffix name email' phone db =
      let email = normal email' in
      elim (by_email email db.rows) [
        | some existing ↦ (fail 409 "An account already exists for this email", db)
        | none ↦ elim (by_phone phone db.rows) [
          | some existing ↦ (fail 409 "Phone already registered. Please login.", db)
          | none ↦
              inserted auth_response db.next_id db
                (insert_user (trim name) email phone (bcrypt.hash salt suffix) true db)
        ]
      ]

  -- `phoneLoginOrRegister`, with the random text that is hashed in place of a password
  unfoldable pub phone_login_or_register :
      ℕ → Text → PhoneAuth → UserTable → Outcome PhoneResponse × UserTable
  phone_login_or_register salt random credentials db =
      let full_phone = credentials.country_code ++ credentials.phone in
      elim (by_phone full_phone db.rows) [
        | some row ↦ (ok (phone_response row), db)
        | none ↦ inserted phone_response db.next_id db (
            insert_user (or_default credentials.name (codes "Majestan User"))
              (or_default credentials.email (full_phone ++ codes "@user.majestan.local")) full_phone
              (bcrypt.hash salt random) true db)
      ]

abbrev pub verify_row : UserRow → UserRow
verify_row row = record row { is_verified = true }

-- `loginUserWithPhone`
unfoldable pub login_user_with_phone : Text → UserTable → Outcome AuthResponse × UserTable
login_user_with_phone canonical db = elim (by_phone canonical db.rows) [
  | none ↦ (fail 404 "Phone not registered. Please register first.", db)
  | some row ↦ (
    ok (auth_response (verify_row row)),
    record db { rows = update_where (λ r. r.id == row.id) verify_row db.rows },
  )
]
