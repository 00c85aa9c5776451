-- ===== src/Auth/Otp/Verify.antt =====
-- `verifyOtp`: when a code is accepted, and that it is accepted once.
use majestan_backend.Prelude.{
  ℕ, ◌≤◌, ◌<◌, true, none, some, List, ◌≡◌, refl, arith, ◌==◌, ==_refl, Option-cases, update_where,
  inl, inr,
}
use majestan_backend.Prelude.Text.{Text}
use majestan_backend.Auth.Bcrypt.{Bcrypt}
use majestan_backend.Auth.Otp.{
  PhoneOtp, OtpTable, OtpPurpose, done, raise, otp_error, is_for, is_current, newest, mark_used,
  set_attempts, check_row, verify_otp, max_verify_attempts,
}
use majestan_backend.Auth.Otp.Newest.{newest-update_where}

module _ (phone : Text) (purpose : OtpPurpose) (row : PhoneOtp) (rows : List PhoneOtp)
    (found : newest (is_current phone purpose) rows ≡ some row) where
  pub newest-mark_used :
      (now : ℕ)
      → newest (is_current phone purpose) (update_where (λ r. r.id == row.id) (mark_used now) rows)
        ≡ some (mark_used now row)
  newest-mark_used now =
      rw
        (newest-update_where (is_current phone purpose) (λ r. r.id == row.id) (mark_used now)
          (λ r. unfold is_current is_for in refl) (λ r. refl) rows)
        (rw found (ground (arith, ==_refl row.id)))

  pub newest-set_attempts :
      (n : ℕ)
      → newest (is_current phone purpose) (update_where (λ r. r.id == row.id) (set_attempts n) rows)
        ≡ some (set_attempts n row)
  newest-set_attempts n =
      rw
        (newest-update_where (is_current phone purpose) (λ r. r.id == row.id) (set_attempts n)
          (λ r. unfold is_current is_for in refl) (λ r. refl) rows)
        (rw found (ground (arith, ==_refl row.id)))

module _ (bcrypt : Bcrypt) where
  -- The row that a success rests on.
  pub record Accepts (now : ℕ) (phone : Text) (purpose : OtpPurpose) (otp : Text) (db : OtpTable)
      (row : PhoneOtp) : Type 0 where
    pub found : newest (is_current phone purpose) db.rows ≡ some row
    pub unused : row.used_at ≡ none
    pub in_time : now ≤ row.expires_at
    pub unlocked : row.attempts < max_verify_attempts
    pub matches : bcrypt.compare otp row.otp_hash ≡ true

  check_row_sound :
      (now : ℕ) (otp : Text) (row : PhoneOtp) (db : OtpTable) (id : ℕ)
      → (check_row bcrypt now otp row db).0 ≡ done id
      → (row.used_at ≡ none)
        × (now ≤ row.expires_at)
        × (row.attempts < max_verify_attempts)
        × (bcrypt.compare otp row.otp_hash ≡ true)
        × (row.id ≡ id)
        × ((check_row bcrypt now otp row db).1
            ≡ record db { rows = update_where (λ r. r.id == row.id) (mark_used now) db.rows })
  unfolding check_row
  check_row_sound now otp row db id h =
      (ground arith, ground arith, ground arith, ground arith, ground arith, ground arith)

  -- A code is accepted only against the newest current row of its phone and purpose, which is
  -- unused, not expired, not locked and has the code's hash; the answer is the row's id, and the row
  -- is then marked as used, with no other change to the table.
  pub verify_otp_sound :
      (now : ℕ) (phone : Text) (purpose : OtpPurpose) (otp : Text) (db : OtpTable) (id : ℕ)
      → (verify_otp bcrypt now phone purpose otp db).0 ≡ done id
      → (row : PhoneOtp) × Accepts now phone purpose otp db row
        × (row.id ≡ id)
        × ((verify_otp bcrypt now phone purpose otp db).1
            ≡ record db { rows = update_where (λ r. r.id == row.id) (mark_used now) db.rows })
  unfolding verify_otp
  verify_otp_sound now phone purpose otp db id h =
      elim (Option-cases (newest (is_current phone purpose) db.rows)) [
        | inl e ↦ absurd (ground arith)
        | inr (row, e) ↦
            let (unused, in_time, unlocked, matches, same, after) =
              check_row_sound now otp row db id (ground arith) in
            (
              row,
              record {
                found = e;
                unused = unused;
                in_time = in_time;
                unlocked = unlocked;
                matches = matches;
              },
              same,
              rw (e, verify_otp) after,
            )
      ]

  -- Every row that meets the conditions is accepted.
  pub verify_otp_complete :
      (now : ℕ) (phone : Text) (purpose : OtpPurpose) (otp : Text) (db : OtpTable) (row : PhoneOtp)
      → Accepts now phone purpose otp db row
      → (verify_otp bcrypt now phone purpose otp db).0 ≡ done row.id
  unfolding verify_otp check_row
  verify_otp_complete now phone purpose otp db row a = ground arith

  -- After a code was accepted, no code is accepted for the same phone and purpose at any time
  -- until another one is requested: the answer is 410 OTP_EXPIRED and the table stays as it is.
  pub verify_otp_once :
      (now later : ℕ) (phone : Text) (purpose : OtpPurpose) (otp other : Text) (db : OtpTable)
      (id : ℕ)
      → (verify_otp bcrypt now phone purpose otp db).0 ≡ done id
      → verify_otp bcrypt later phone purpose other (verify_otp bcrypt now phone purpose otp db).1
        ≡ (raise (otp_error 410 "OTP_EXPIRED"), (verify_otp bcrypt now phone purpose otp db).1)
  verify_otp_once now later phone purpose otp other db id h =
      let (row, a, same, after) = verify_otp_sound now phone purpose otp db id h in
      let again = newest-mark_used phone purpose row db.rows a.found now in
      rw after (unfold verify_otp check_row in rw (again, verify_otp))
