-- ===== src/Auth/Admins/Laws.antt =====
-- Who may log in as an administrator, and that a plain password is replaced by its hash.
use majestan_backend.Prelude.{
  ℕ, ◌+◌, true, false, String, some, List, [], ◌∷◌, ◌≡◌, ◌⊎◌, refl, arith, ◌==◌, ==_refl,
  update_where, Bool-cases, Option-cases, inl, inr, ap, sym,
}
use majestan_backend.Prelude.Text.{Text, ◌=t◌, =t_iff, =t_refl}
use majestan_backend.Http.{Outcome, ok, fail}
use majestan_backend.Auth.Bcrypt.{Bcrypt, is_bcrypt_hash}
use majestan_backend.Auth.Guards.{admin}
use majestan_backend.Auth.Users.{JwtPayload}
use majestan_backend.Auth.Admins.{
  LegacyUser, AdminTable, AdminConfig, CreateAdmin, AdminView, by_username, set_password,
  write_password, is_disabled, upgrade_password_hash, verify_password, admit, login,
  replace_password, change_password, create_admin,
}

-- The update of a password under the query by name.
by_username-update :
    (username hashed : Text) (row : LegacyUser) (rows : List LegacyUser)
    → by_username username rows ≡ some row
    → by_username username (update_where (λ r. r.id == row.id) (set_password hashed) rows)
      ≡ some (set_password hashed row)
unfolding by_username
by_username-update username hashed row [] h = absurd (ground arith)
by_username-update username hashed row (r ∷ rs) h = elim (Bool-cases (r.username =t username)) [
  | inl here ↦ ground (arith, ==_refl row.id)
  | inr other ↦ ground (arith, by_username-update username hashed row rs)
]

-- A stored password that matches what is typed: a hash of it, or the text itself where plain
-- passwords are allowed.
abbrev pub Matches : Bcrypt → AdminConfig → Text → Text → Type 0
Matches bcrypt config typed stored =
    (is_bcrypt_hash stored ≡ true) × (bcrypt.compare typed stored ≡ true)
    ⊎ (is_bcrypt_hash stored ≡ false) × (config.allow_legacy ≡ true) × (typed ≡ stored)

module _ (bcrypt : Bcrypt) (config : AdminConfig) where
  verify_password_sound :
      (salt : ℕ) (typed : Text) (row : LegacyUser) (db : AdminTable)
      → (verify_password bcrypt config salt typed row db).0 ≡ true
      → Matches bcrypt config typed row.password
  unfolding verify_password
  verify_password_sound salt typed row db h = ground (arith, =t_iff typed row.password)

  -- A login succeeds only for a row of the name that is not disabled and whose stored password
  -- matches; the payload is the row's, with the role of an administrator.
  pub login_sound :
      (salt : ℕ) (username password : Text) (db : AdminTable) (payload : JwtPayload)
      → (login bcrypt config salt username password db).0 ≡ ok payload
      → (row : LegacyUser) × (by_username username db.rows ≡ some row)
        × (is_disabled row.status ≡ false)
        × Matches bcrypt config password row.password
        × (payload ≡ record { sub = row.id; username = row.username; role = admin })
  unfolding login
  login_sound salt username password db payload h =
      elim (Option-cases (by_username username db.rows)) [
        | inl unknown ↦ absurd (ground arith)
        | inr (row, known) ↦ elim (Bool-cases (is_disabled row.status)) [
          | inl disabled ↦ absurd (ground arith)
          | inr enabled ↦
              let admitted : (admit bcrypt config row
                    (verify_password bcrypt config salt password row db)).0
                  ≡ ok payload =
                ground arith in
              (
                row,
                known,
                enabled,
                verify_password_sound salt password row db (unfold admit in ground arith),
                unfold admit in ground arith,
              )
        ]
      ]

  login_with_hash :
      (salt : ℕ) (username password : Text) (db : AdminTable) (row : LegacyUser)
      → by_username username db.rows ≡ some row
      → is_disabled row.status ≡ false
      → is_bcrypt_hash row.password ≡ true
      → bcrypt.compare password row.password ≡ true
      → login bcrypt config salt username password db
        ≡ (ok (record { sub = row.id; username = row.username; role = admin }), db)
  unfolding login verify_password admit
  login_with_hash salt username password db row known enabled hashed right =
      rw (known, login) (rw enabled (rw (hashed, verify_password) (rw (right, admit))))

  -- What a login with a plain password leaves.
  login_plain :
      (salt : ℕ) (username password : Text) (db : AdminTable) (row : LegacyUser)
      → by_username username db.rows ≡ some row
      → is_disabled row.status ≡ false
      → is_bcrypt_hash row.password ≡ false
      → config.allow_legacy ≡ true
      → password ≡ row.password
      → config.upgrade_works ≡ true
      → (login bcrypt config salt username password db).1
        ≡ write_password row.id (bcrypt.hash salt password) db
  unfolding login verify_password admit upgrade_password_hash
  login_plain salt username password db row known enabled plain allowed same works =
      rw (known, login)
        (rw enabled (rw (plain, allowed, works) (rw ((=t_iff password row.password).1 same))))

  -- A change of password that is refused, for an unknown id or a wrong current password, leaves the
  -- table as it was.
  pub change_password_refused :
      (salt salt' id : ℕ) (current new : Text) (db : AdminTable) (status : ℕ) (message : String)
      → (change_password bcrypt config salt salt' id current new db).0 ≡ fail status message
      → (change_password bcrypt config salt salt' id current new db).1 ≡ db
  unfolding change_password replace_password verify_password
  change_password_refused salt salt' id current new db status message h = ground arith

module _ (bcrypt : Bcrypt) (config strict : AdminConfig) where
  -- Logging in with a plain stored password, where that is allowed and the update works, leaves the
  -- hash in its place: the same login then succeeds under any settings, with plain passwords
  -- forbidden too.
  login_upgrades :
      (salt salt' : ℕ) (username password : Text) (db : AdminTable) (payload : JwtPayload)
      → (login bcrypt config salt username password db).0 ≡ ok payload
      → config.upgrade_works ≡ true
      → (login bcrypt strict salt' username password
          (login bcrypt config salt username password db).1).0
        ≡ ok payload
  login_upgrades salt salt' username password db payload h works =
      let (row, known, enabled, matches, same) =
        login_sound bcrypt config salt username password db payload h in
      elim matches [
        | inl (hashed, right) ↦
            rw
              (login_with_hash bcrypt config salt username password db row known enabled hashed
                right)
              (rw
                (login_with_hash bcrypt strict salt' username password db row known enabled hashed
                  right)
                (ap {B = Outcome JwtPayload} ok (sym same)))
        | inr (plain, allowed, typed) ↦
            let hashed = bcrypt.hash salt password in
            let after =
              login_plain bcrypt config salt username password db row known enabled plain allowed
                typed works in
            let again =
              login_with_hash bcrypt strict salt' username password
                (write_password row.id hashed db) (set_password hashed row)
                (unfold write_password in by_username-update username hashed row db.rows known)
                enabled (bcrypt.hash_format salt password) (bcrypt.compare-hash salt password) in
            rw after (rw again (ap {B = Outcome JwtPayload} ok (sym same)))
      ]

  -- A new administrator can log in at once, under whatever settings.
  pub create_then_login :
      (salt salt' : ℕ) (p : CreateAdmin) (db : AdminTable) (view : AdminView)
      → (create_admin bcrypt config salt p db).0 ≡ ok view
      → (login bcrypt strict salt' p.username p.password (create_admin bcrypt config salt p db).1).0
        ≡ ok (record { sub = view.id; username = p.username; role = admin })
  create_then_login salt salt' p db view h = elim (Option-cases (by_username p.username db.rows)) [
    | inr (row, taken) ↦ absurd (unfold create_admin in ground arith)
    | inl fresh ↦
        let row : LegacyUser = record {
          id = db.next_id;
          username = p.username;
          password = bcrypt.hash salt p.password;
          status = some 1;
        } in
        let id : db.next_id ≡ view.id = unfold create_admin in ground arith in
        let after : (create_admin bcrypt config salt p db).1
            ≡ record { rows = row ∷ db.rows; next_id = db.next_id + 1 } =
          unfold create_admin in ground arith in
        rw after (
          rw
            (login_with_hash bcrypt strict salt' p.username p.password
              (record { rows = row ∷ db.rows; next_id = db.next_id + 1 }) row
              (unfold by_username in rw =t_refl) (unfold is_disabled in refl)
              (bcrypt.hash_format salt p.password) (bcrypt.compare-hash salt p.password))
            (cc id))
  ]
