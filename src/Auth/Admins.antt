-- ===== src/Auth/Admins.antt =====
-- The administrators of src/modules/auth/auth.service.ts: the table `login`, with its unique index on
-- `username`, and the operations of AuthService on it. The password of an old row may be plain text.
pub mod Laws
mod Tests
use majestan_backend.Prelude.{
  ℕ, ◌+◌, Bool, true, false, Option, none, some, List, [], ◌∷◌, ◌==◌, if◌then◌else◌, find?,
  update_where,
}
use majestan_backend.Prelude.Text.{Text, ◌=t◌}
use majestan_backend.Http.{Outcome, ok, fail}
use majestan_backend.Auth.Bcrypt.{Bcrypt, is_bcrypt_hash}
use majestan_backend.Auth.Guards.{AppRole, admin}
use majestan_backend.Auth.Users.{JwtPayload}

-- LegacyUserRow; `status` may be absent
pub record LegacyUser : Type 0 where
  pub id : ℕ
  pub username : Text
  pub password : Text
  pub status : Option ℕ

pub record AdminTable : Type 0 where
  pub rows : List LegacyUser
  pub next_id : ℕ

-- The settings that AuthService reads, and whether the statement that replaces a plain password
-- succeeds: its exception is caught and logged.
pub record AdminConfig : Type 0 where
  pub allow_legacy : Bool
  pub upgrade_works : Bool

-- CreateAdminDto
pub record CreateAdmin : Type 0 where
  pub username : Text
  pub password : Text

-- The answer of `createAdmin`
pub record AdminView : Type 0 where
  pub id : ℕ
  pub username : Text
  pub role : AppRole
  pub status : Option ℕ

-- `getUserByUsername`
unfoldable pub by_username : Text → List LegacyUser → Option LegacyUser
by_username username rows = find? (λ row. row.username =t username) rows

-- `getUserById`; its exception is the `none`
unfoldable pub by_id : ℕ → List LegacyUser → Option LegacyUser
by_id id rows = find? (λ row. row.id == id) rows

abbrev pub set_password : Text → LegacyUser → LegacyUser
set_password hashed row = record row { password = hashed }

-- `UPDATE login SET password = … WHERE id = …`
unfoldable pub write_password : ℕ → Text → AdminTable → AdminTable
write_password id hashed db = record db {
  rows = update_where (λ row. row.id == id) (set_password hashed) db.rows;
}

-- `user.status !== undefined && Number(user.status) !== 1`
unfoldable pub is_disabled : Option ℕ → Bool
is_disabled none = false
is_disabled (some s) = if s == 1 then false else true

module _ (bcrypt : Bcrypt) (config : AdminConfig) where
  -- `upgradePasswordHash`
  unfoldable pub upgrade_password_hash : ℕ → ℕ → Text → AdminTable → AdminTable
  upgrade_password_hash salt id plain_password db =
      if config.upgrade_works then write_password id (bcrypt.hash salt plain_password) db else db

  -- `verifyPassword`; `safePlainCompare` compares the bytes of the two texts
  unfoldable pub verify_password : ℕ → Text → LegacyUser → AdminTable → Bool × AdminTable
  verify_password salt plain_password row db =
      if is_bcrypt_hash row.password
      then (bcrypt.compare plain_password row.password, db)
      else if config.allow_legacy
      then (if plain_password =t row.password
          then (true, upgrade_password_hash salt row.id plain_password db)
          else (false, db))
      else (false, db)

  -- The end of `login`, once the password was checked.
  unfoldable pub admit : LegacyUser → Bool × AdminTable → Outcome JwtPayload × AdminTable
  admit row (valid, db) =
      if valid
      then (ok (record { sub = row.id; username = row.username; role = admin }), db)
      else (fail 401 "Invalid credentials", db)

  -- `login`; the payload is what the token signs
  unfoldable pub login : ℕ → Text → Text → AdminTable → Outcome JwtPayload × AdminTable
  login salt username password db = elim (by_username username db.rows) [
    | none ↦ (fail 401 "Invalid credentials", db)
    | some row ↦
        if is_disabled row.status
        then (fail 401 "Account is disabled", db)
        else admit row (verify_password salt password row db)
  ]

  -- The end of `changePassword`, once the current password was checked.
  unfoldable pub replace_password :
      ℕ → ℕ → Text → Bool × AdminTable → Outcome (Unit {0}) × AdminTable
  replace_password salt id new_password (valid, db) =
      if valid
      then (ok tt, write_password id (bcrypt.hash salt new_password) db)
      else (fail 401 "Current password is invalid", db)

  -- `changePassword`, with the salts of the two hashes that it may make
  unfoldable pub change_password :
      ℕ → ℕ → ℕ → Text → Text → AdminTable → Outcome (Unit {0}) × AdminTable
  change_password salt salt' id current_password new_password db = elim (by_id id db.rows) [
    | none ↦ (fail 404 "Admin user not found", db)
    | some row ↦
        replace_password salt' id new_password (verify_password salt current_password row db)
  ]

  abbrev pub view_of : LegacyUser → AdminView
  view_of row = record { id = row.id; username = row.username; role = admin; status = row.status }

  -- `createAdmin`
  unfoldable pub create_admin : ℕ → CreateAdmin → AdminTable → Outcome AdminView × AdminTable
  create_admin salt p db = elim (by_username p.username db.rows) [
    | some existing ↦ (fail 400 "Username already exists", db)
    | none ↦
        let row : LegacyUser = record {
          id = db.next_id;
          username = p.username;
          password = bcrypt.hash salt p.password;
          status = some 1;
        } in
        (ok (view_of row), record { rows = row ∷ db.rows; next_id = db.next_id + 1 })
  ]
