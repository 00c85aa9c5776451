-- ===== src/Auth/Otp/Trace.antt =====
-- Any sequence of OTP requests and verifications, from an empty table: how many codes are sent in an
-- hour, and how many are live at once.
use mathlib.Core.Path.{subst}
use majestan_backend.Prelude.{
  ℕ, ◌+◌, ◌-◌, ◌≤◌, ◌<◌, Bool, true, ◌&&◌, Option, none, List, [], ◌∷◌, ◌≡◌, refl, arith, leb, ◌==◌,
  count, count_mono, count-update_where-le, count-update_where_self, Bool-cases, Option-cases,
  update_where, inl, inr, ◌⊎◌,
}
use majestan_backend.Prelude.Text.{Text, =t_iff}
use majestan_backend.Auth.Bcrypt.{Bcrypt}
use majestan_backend.Auth.Otp.{
  PhoneOtp, OtpTable, OtpPurpose, register, login, SendCode, is_for, is_live, newest, issued, issue,
  supersede, mark_used, set_attempts, enforce_resend_limits, request_otp, check_row, is_current,
  verify_otp, resend_hourly_limit,
}
use majestan_backend.Auth.Otp.Issue.{below_limit}

pub data Call : Type 0 where
  request : (now : ℕ) → Text → OtpPurpose → (salt : ℕ) → Text → Option SendCode → Call
  verify : (now : ℕ) → Text → OtpPurpose → Text → Call

-- The rows of a phone and purpose that were created in the hour from `start` on.
unfoldable pub in_hour : ℕ → Text → OtpPurpose → PhoneOtp → Bool
in_hour start phone purpose r =
    is_for phone purpose r && leb start r.created_at && leb r.created_at (start + 3600000)

pub record IsThrottled (db : OtpTable) : Type 0 where
  pub hour :
      (start : ℕ) (phone : Text) (purpose : OtpPurpose)
      → count (in_hour start phone purpose) db.rows ≤ resend_hourly_limit

pub record IsSingle (db : OtpTable) : Type 0 where
  pub live : (phone : Text) (purpose : OtpPurpose) → count (is_live phone purpose) db.rows ≤ 1

is_for-issued :
    (phone phone' : Text) (purpose purpose' : OtpPurpose) (hash : Text) (now id : ℕ)
    → is_for phone' purpose' (issued phone purpose hash now id) ≡ true
    → (phone ≡ phone') × (purpose ≡ purpose')
unfolding is_for
is_for-issued phone phone' register register hash now id h =
    (ground (arith, =t_iff phone phone'), refl)
is_for-issued phone phone' login login hash now id h = (ground (arith, =t_iff phone phone'), refl)
is_for-issued phone phone' register login hash now id h = absurd (ground arith)
is_for-issued phone phone' login register hash now id h = absurd (ground arith)

abbrev pub empty_table : OtpTable
empty_table = record { rows = []; next_id = 1 }

module _ (bcrypt : Bcrypt) where
  pub step : Call → OtpTable → OtpTable
  step (request now phone purpose salt otp sms) db =
      (request_otp bcrypt now phone purpose salt otp sms db).1
  step (verify now phone purpose otp) db = (verify_otp bcrypt now phone purpose otp db).1

  pub run : List Call → OtpTable → OtpTable
  run [] db = db
  run (c ∷ cs) db = run cs (step c db)

  hour_has_room :
      (now start : ℕ) (phone : Text) (purpose : OtpPurpose) (rows : List PhoneOtp)
      → enforce_resend_limits now phone purpose rows ≡ none
      → now ≤ start + 3600000
      → count (in_hour start phone purpose) rows < resend_hourly_limit
  hour_has_room now start phone purpose rows passed le =
      let fewer =
        count_mono (in_hour start phone purpose)
          (λ r. is_for phone purpose r && leb (now - 3600000) r.created_at) rows
          (λ r h. unfold in_hour in ground arith) in
      omega (arith, below_limit now phone purpose rows passed)

  issue-IsThrottled :
      (now : ℕ) (phone : Text) (purpose : OtpPurpose) (salt : ℕ) (otp : Text) (db : OtpTable)
      → enforce_resend_limits now phone purpose db.rows ≡ none
      → IsThrottled db
      → IsThrottled (issue bcrypt now phone purpose salt otp db)
  unfolding issue
  issue-IsThrottled now phone purpose salt otp db passed t = record {
    hour = λ start phone' purpose'.
        let new = issued phone purpose (bcrypt.hash salt otp) now db.next_id in
        let rest =
          count-update_where-le (in_hour start phone' purpose') (is_live phone purpose)
            (supersede now) db.rows (λ r h. unfold in_hour is_for in h) in
        elim (Bool-cases (in_hour start phone' purpose' new)) [
          | inr other ↦ rw other (omega (arith, t.hour start phone' purpose'))
          | inl mine ↦
              let fits : is_for phone' purpose' new ≡ true = unfold in_hour in ground arith in
              let le : now ≤ start + 3600000 = unfold in_hour in ground arith in
              let (same_phone, same_purpose) =
                is_for-issued phone phone' purpose purpose' (bcrypt.hash salt otp) now db.next_id
                  fits in
              let room : count (in_hour start phone' purpose') db.rows < resend_hourly_limit =
                rw (← same_phone, ← same_purpose)
                  (hour_has_room now start phone purpose db.rows passed le) in
              rw mine (omega arith)
        ];
  }

  issue-IsSingle :
      (now : ℕ) (phone : Text) (purpose : OtpPurpose) (salt : ℕ) (otp : Text) (db : OtpTable)
      → IsSingle db
      → IsSingle (issue bcrypt now phone purpose salt otp db)
  unfolding issue
  issue-IsSingle now phone purpose salt otp db s = record {
    live = λ phone' purpose'.
        let new = issued phone purpose (bcrypt.hash salt otp) now db.next_id in
        elim (Bool-cases (is_live phone' purpose' new)) [
          | inr other ↦
              let rest =
                count-update_where-le (is_live phone' purpose') (is_live phone purpose)
                  (supersede now) db.rows (λ r h. unfold is_live in ground arith) in
              rw other (omega (arith, s.live phone' purpose'))
          | inl mine ↦
              let fits : is_for phone' purpose' new ≡ true = unfold is_live in ground arith in
              let (same_phone, same_purpose) =
                is_for-issued phone phone' purpose purpose' (bcrypt.hash salt otp) now db.next_id
                  fits in
              let gone : count (is_live phone' purpose')
                    (update_where (is_live phone purpose) (supersede now) db.rows)
                  ≡ 0 =
                rw (← same_phone, ← same_purpose)
                  (count-update_where_self (is_live phone purpose) (supersede now) db.rows
                    (λ r. unfold is_live in ground arith)) in
              rw mine (omega arith)
        ];
  }

  -- An update that takes no row into a window and makes none live.
  Keeps-IsThrottled :
      (q : PhoneOtp → Bool) (f : PhoneOtp → PhoneOtp) (db : OtpTable)
      → ((phone : Text) (purpose : OtpPurpose) (r : PhoneOtp)
          → is_for phone purpose (f r) ≡ is_for phone purpose r)
      → ((r : PhoneOtp) → (f r).created_at ≡ r.created_at)
      → IsThrottled db
      → IsThrottled (record db { rows = update_where q f db.rows })
  Keeps-IsThrottled q f db same time t = record {
    hour = λ start phone purpose.
        let le =
          count-update_where-le (in_hour start phone purpose) q f db.rows
            (λ r h. unfold in_hour in ground (arith, same phone purpose r, time r)) in
        omega (arith, t.hour start phone purpose);
  }

  Keeps-IsSingle :
      (q : PhoneOtp → Bool) (f : PhoneOtp → PhoneOtp) (db : OtpTable)
      → ((phone : Text) (purpose : OtpPurpose) (r : PhoneOtp)
          → is_live phone purpose (f r) ≡ true
          → is_live phone purpose r ≡ true)
      → IsSingle db
      → IsSingle (record db { rows = update_where q f db.rows })
  Keeps-IsSingle q f db kept s = record {
    live = λ phone purpose.
        let le = count-update_where-le (is_live phone purpose) q f db.rows (kept phone purpose) in
        omega (arith, s.live phone purpose);
  }

  abbrev used_by : PhoneOtp → ℕ → OtpTable → OtpTable
  used_by row now db = record db {
    rows = update_where (λ r. r.id == row.id) (mark_used now) db.rows;
  }

  abbrev counted_by : PhoneOtp → OtpTable → OtpTable
  counted_by row db = record db {
    rows = update_where (λ r. r.id == row.id) (set_attempts (row.attempts + 1)) db.rows;
  }

  check_row_writes :
      (now : ℕ) (otp : Text) (row : PhoneOtp) (db : OtpTable)
      → (db ≡ (check_row bcrypt now otp row db).1)
        ⊎ (used_by row now db ≡ (check_row bcrypt now otp row db).1)
        ⊎ (counted_by row db ≡ (check_row bcrypt now otp row db).1)
  unfolding check_row
  check_row_writes now otp row db = ground arith

  request_otp_writes :
      (now : ℕ) (phone : Text) (purpose : OtpPurpose) (salt : ℕ) (otp : Text)
      (sms : Option SendCode) (db : OtpTable)
      → (db ≡ (request_otp bcrypt now phone purpose salt otp sms db).1)
        ⊎ (enforce_resend_limits now phone purpose db.rows ≡ none)
          × (issue bcrypt now phone purpose salt otp db
              ≡ (request_otp bcrypt now phone purpose salt otp sms db).1)
  unfolding request_otp
  request_otp_writes now phone purpose salt otp sms db = ground arith

  verify_otp_writes :
      (now : ℕ) (phone : Text) (purpose : OtpPurpose) (otp : Text) (db : OtpTable)
      → (db ≡ (verify_otp bcrypt now phone purpose otp db).1)
        ⊎ ((row : PhoneOtp) × ((check_row bcrypt now otp row db).1
              ≡ (verify_otp bcrypt now phone purpose otp db).1))
  unfolding verify_otp
  verify_otp_writes now phone purpose otp db =
      elim (Option-cases (newest (is_current phone purpose) db.rows)) [
        | inl e ↦ inl (rw (e, verify_otp))
        | inr (row, e) ↦ inr (row, rw (e, verify_otp))
      ]

  -- What every write of the two operations keeps, every call keeps.
  module _ (P : OtpTable → Type 0)
      (issues : (now : ℕ) (phone : Text) (purpose : OtpPurpose) (salt : ℕ) (otp : Text)
          (db : OtpTable)
        → enforce_resend_limits now phone purpose db.rows ≡ none
        → P db
        → P (issue bcrypt now phone purpose salt otp db))
      (uses : (row : PhoneOtp) (now : ℕ) (db : OtpTable) → P db → P (used_by row now db))
      (counts : (row : PhoneOtp) (db : OtpTable) → P db → P (counted_by row db)) where
    step_keeps : (c : Call) (db : OtpTable) → P db → P (step c db)
    unfolding step
    step_keeps (request now phone purpose salt otp sms) db h =
        elim (request_otp_writes now phone purpose salt otp sms db) [
          | inl same ↦ subst P same h
          | inr (passed, new) ↦ subst P new (issues now phone purpose salt otp db passed h)
        ]
    step_keeps (verify now phone purpose otp) db h =
        elim (verify_otp_writes now phone purpose otp db) [
          | inl same ↦ subst P same h
          | inr (row, checked) ↦ subst P checked (elim (check_row_writes now otp row db) [
            | inl same ↦ subst P same h
            | inr (inl used) ↦ subst P used (uses row now db h)
            | inr (inr counted) ↦ subst P counted (counts row db h)
          ])
        ]

    run_keeps : (cs : List Call) (db : OtpTable) → P db → P (run cs db)
    unfolding run
    run_keeps [] db h = h
    run_keeps (c ∷ cs) db h = run_keeps cs (step c db) (step_keeps c db h)

  -- After any calls, in any order and at any times, at most five codes were sent for a phone and a
  -- purpose in any hour.
  pub run-hourly_limit :
      (cs : List Call) (start : ℕ) (phone : Text) (purpose : OtpPurpose)
      → count (in_hour start phone purpose) (run cs empty_table).rows ≤ resend_hourly_limit
  run-hourly_limit cs start phone purpose =
      (run_keeps IsThrottled issue-IsThrottled
          (λ row now db.
            Keeps-IsThrottled (λ r. r.id == row.id) (mark_used now) db
              (λ phone purpose r. unfold is_for in refl) (λ r. refl))
          (λ row db.
            Keeps-IsThrottled (λ r. r.id == row.id) (set_attempts (row.attempts + 1)) db
              (λ phone purpose r. unfold is_for in refl) (λ r. refl))
          cs empty_table (record { hour = λ start phone purpose. omega arith })).hour
        start phone purpose

  -- After any calls at most one code of a phone and a purpose is neither used nor superseded.
  pub run-single_live :
      (cs : List Call) (phone : Text) (purpose : OtpPurpose)
      → count (is_live phone purpose) (run cs empty_table).rows ≤ 1
  run-single_live cs phone purpose =
      (run_keeps IsSingle (λ now ph pu salt otp db passed. issue-IsSingle now ph pu salt otp db)
          (λ row now db.
            Keeps-IsSingle (λ r. r.id == row.id) (mark_used now) db
              (λ ph pu r h. absurd (unfold is_live in ground arith)))
          (λ row db.
            Keeps-IsSingle (λ r. r.id == row.id) (set_attempts (row.attempts + 1)) db
              (λ ph pu r h. unfold is_live is_for in h))
          cs empty_table (record { live = λ ph pu. omega arith })).live
        phone purpose
