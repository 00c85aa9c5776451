-- ===== src/Auth/Admins/Tests.antt =====
-- The laws of administrators at a table with a plain password, with the stand-in for bcrypt.
use majestan_backend.Prelude.{true, false, some, [], ◌∷◌, ◌≡◌, refl}
use majestan_backend.Prelude.Text.{codes}
use majestan_backend.Auth.Bcrypt.{plain}
use majestan_backend.Auth.Guards.{admin}
use majestan_backend.Auth.Users.{JwtPayload}
use majestan_backend.Auth.Admins.{
  AdminConfig, AdminTable, CreateAdmin, LegacyUser, admit, by_username, is_disabled, login,
  verify_password,
}
use majestan_backend.Auth.Admins.Laws.{Matches, login_sound}

abbrev legacy : AdminConfig
legacy = record { allow_legacy = true; upgrade_works = true }

abbrev strict : AdminConfig
strict = record { allow_legacy = false; upgrade_works = true }

abbrev root : LegacyUser
root = record { id = 1; username = codes "root"; password = codes "pw"; status = some 1 }

abbrev admins : AdminTable
admins = record { rows = root ∷ []; next_id = 2 }

abbrev payload : JwtPayload
payload = record { sub = 1; username = codes "root"; role = admin }

login_sound_example :
    (row : LegacyUser) × (by_username (codes "root") admins.rows ≡ some row)
    × (is_disabled row.status ≡ false)
    × Matches plain legacy (codes "pw") row.password
    × (payload ≡ record { sub = row.id; username = row.username; role = admin })
unfolding login by_username is_disabled admit verify_password
login_sound_example = login_sound plain legacy 0 (codes "root") (codes "pw") admins payload refl

abbrev new_admin : CreateAdmin
new_admin = record { username = codes "ops"; password = codes "word" }
