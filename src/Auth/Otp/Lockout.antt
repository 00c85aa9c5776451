-- ===== src/Auth/Otp/Lockout.antt =====
-- `verifyOtp`: five wrong codes close a row for good.
use majestan_backend.Prelude.{
  ℕ, ◌+◌, ◌≤◌, ◌<◌, true, false, some, List, [], ◌∷◌, ◌≡◌, ◌⊎◌, refl, arith, length, All,
  Bool-cases, leb, ltb, inl, inr,
}
use majestan_backend.Prelude.Text.{Text}
use majestan_backend.Auth.Bcrypt.{Bcrypt}
use majestan_backend.Auth.Otp.{
  PhoneOtp, OtpTable, OtpPurpose, OtpResult, raise, otp_error, is_current, newest, set_attempts,
  check_row, verify_otp, max_verify_attempts, not_null,
}
use majestan_backend.Auth.Otp.Verify.{newest-set_attempts}

-- A guess is the time of the call and the code that it sends.
abbrev pub Guess : Type 0
Guess = ℕ × Text

-- The calls are made one after another, from `start` to `stop`.
abbrev pub IsAscending : ℕ → List Guess → ℕ → Type 0
IsAscending start [] stop = start ≤ stop
IsAscending start (g ∷ gs) stop = (start ≤ g.0) × IsAscending g.0 gs stop

-- The row refuses every code at `now`, and ever after.
abbrev pub IsShut : ℕ → PhoneOtp → Type 0
IsShut now row =
    (not_null row.used_at ≡ true) ⊎ (row.expires_at < now) ⊎ (max_verify_attempts ≤ row.attempts)

abbrev pub IsGone : OtpResult ℕ → Type 0
IsGone r = (r ≡ raise (otp_error 410 "OTP_EXPIRED")) ⊎ (r ≡ raise (otp_error 410 "OTP_LOCKED"))

module _ (bcrypt : Bcrypt) (phone : Text) (purpose : OtpPurpose) where
  -- The table after the calls.
  unfoldable pub guess_all : List Guess → OtpTable → OtpTable
  guess_all [] db = db
  guess_all (g ∷ gs) db = guess_all gs (verify_otp bcrypt g.0 phone purpose g.1 db).1

  verify_otp-shut :
      (now : ℕ) (otp : Text) (db : OtpTable) (row : PhoneOtp)
      → newest (is_current phone purpose) db.rows ≡ some row
      → IsShut now row
      → IsGone (verify_otp bcrypt now phone purpose otp db).0
        × ((verify_otp bcrypt now phone purpose otp db).1 ≡ db)
  unfolding verify_otp check_row
  verify_otp-shut now otp db row e s = (ground arith, ground arith)

  IsShut-later : (now next : ℕ) (row : PhoneOtp) → now ≤ next → IsShut now row → IsShut next row
  IsShut-later now next row le s = ground arith

  guess_all-IsShut :
      (gs : List Guess) (start stop : ℕ) (db : OtpTable) (row : PhoneOtp)
      → newest (is_current phone purpose) db.rows ≡ some row
      → IsShut start row
      → IsAscending start gs stop
      → (guess_all gs db ≡ db) × IsShut stop row
  unfolding guess_all
  guess_all-IsShut [] start stop db row e s asc = (refl, IsShut-later start stop row asc s)
  guess_all-IsShut (g ∷ gs) start stop db row e s (le, asc) =
      let s' = IsShut-later start g.0 row le s in
      let same = (verify_otp-shut g.0 g.1 db row e s').1 in
      rw same (guess_all-IsShut gs g.0 stop db row e s' asc)

  -- A wrong code on an open row counts.
  verify_otp-wrong :
      (now : ℕ) (otp : Text) (db : OtpTable) (row : PhoneOtp)
      → newest (is_current phone purpose) db.rows ≡ some row
      → bcrypt.compare otp row.otp_hash ≡ false
      → IsShut now row
        ⊎ (newest (is_current phone purpose) (verify_otp bcrypt now phone purpose otp db).1.rows
            ≡ some (set_attempts (row.attempts + 1) row))
  unfolding verify_otp check_row
  verify_otp-wrong now otp db row e wrong =
      let counted = newest-set_attempts phone purpose row db.rows e (row.attempts + 1) in
      elim (Bool-cases (not_null row.used_at)) [
        | inl used ↦ inl (inl used)
        | inr unused ↦ elim (Bool-cases (ltb row.expires_at now)) [
          | inl late ↦ inl (inr (ground arith))
          | inr in_time ↦ elim (Bool-cases (leb max_verify_attempts row.attempts)) [
            | inl locked ↦ inl (inr (ground arith))
            | inr open' ↦ inr (rw (e, verify_otp) (rw (unused, in_time, open', wrong) counted))
          ]
        ]
      ]

  lockout :
      (gs : List Guess) (start stop : ℕ) (db : OtpTable) (row : PhoneOtp)
      → newest (is_current phone purpose) db.rows ≡ some row
      → All (λ g. bcrypt.compare g.1 row.otp_hash ≡ false) gs
      → IsAscending start gs stop
      → max_verify_attempts ≤ row.attempts + length gs
      → (end : PhoneOtp) × (newest (is_current phone purpose) (guess_all gs db).rows ≡ some end)
        × IsShut stop end
  unfolding guess_all
  lockout [] start stop db row e wrong asc enough = (row, e, inr (inr (omega arith)))
  lockout (g ∷ gs) start stop db row e (w, ws) (le, asc) enough =
      elim (verify_otp-wrong g.0 g.1 db row e w) [
        | inl shut ↦
            let same = (verify_otp-shut g.0 g.1 db row e shut).1 in
            let (kept, still) = guess_all-IsShut gs g.0 stop db row e shut asc in
            (row, rw (same, guess_all) (rw kept e), still)
        | inr counted ↦
            lockout gs g.0 stop (verify_otp bcrypt g.0 phone purpose g.1 db).1
              (set_attempts (row.attempts + 1) row) counted ws asc (omega arith)
      ]

  -- Once five wrong codes were sent for a row, counting those it had before, every later code, the
  -- right one included, is answered by 410: at whatever times the calls were made, one after
  -- another, and whether or not some of them were made after the row had expired.
  pub lockout_after_five :
      (gs : List Guess) (start now : ℕ) (otp : Text) (db : OtpTable) (row : PhoneOtp)
      → newest (is_current phone purpose) db.rows ≡ some row
      → All (λ g. bcrypt.compare g.1 row.otp_hash ≡ false) gs
      → IsAscending start gs now
      → max_verify_attempts ≤ row.attempts + length gs
      → IsGone (verify_otp bcrypt now phone purpose otp (guess_all gs db)).0
  lockout_after_five gs start now otp db row e wrong asc enough =
      let (end, found, shut) = lockout gs start now db row e wrong asc enough in
      (verify_otp-shut now otp (guess_all gs db) end found shut).0
