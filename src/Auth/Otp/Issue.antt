-- ===== src/Auth/Otp/Issue.antt =====
-- `requestOtp`: what a granted request leaves behind, and that a refused one leaves nothing.
use mathlib.Core.Path.{subst}
use majestan_backend.Prelude.{
  ℕ, ◌+◌, ◌-◌, ◌*◌, ◌≤◌, ◌<◌, Bool, true, ◌&&◌, Option, none, some, List, [], ◌∷◌, ◌≡◌, refl, arith,
  ◌⊎◌, ltb, leb, count, All, All-mono, All-update_where, Bool-cases, Option-cases, update_where,
  inl, inr,
}
use majestan_backend.Prelude.Text.{Text, =t_refl}
use majestan_backend.Auth.Bcrypt.{Bcrypt}
use majestan_backend.Auth.Otp.{
  PhoneOtp, OtpTable, OtpPurpose, register, login, OtpError, SendCode, done, raise, is_for, is_live,
  is_current, newest, issued, issue, supersede, ttl_of, enforce_resend_limits, request_otp,
  verify_otp, resend_hourly_limit, resend_min_seconds,
}
use majestan_backend.Auth.Otp.Newest.{newest_latest, newest-none}
use majestan_backend.Auth.Otp.Verify.{verify_otp_complete}

-- No row was created after `now`.
abbrev pub IsPast : ℕ → List PhoneOtp → Type 0
IsPast now = All (λ r. r.created_at ≤ now)

newest_split :
    (p : PhoneOtp → Bool) (s : PhoneOtp) (rs : List PhoneOtp) (r : PhoneOtp)
    → newest p (s ∷ rs) ≡ some r
    → (s ≡ r) ⊎ (newest p rs ≡ some r)
unfolding newest
newest_split p s rs r e = elim (Option-cases (newest p rs)) [
  | inl none' ↦ inl (ground arith)
  | inr (t, found) ↦ elim (Bool-cases (p s)) [
    | inl here ↦ elim (Bool-cases (ltb s.created_at t.created_at)) [
      | inl before ↦ inr (ground arith)
      | inr after ↦ inl (ground arith)
    ]
    | inr other ↦ inr (ground arith)
  ]
]

newest-All :
    (P : PhoneOtp → Type 0) (p : PhoneOtp → Bool) (rs : List PhoneOtp) (r : PhoneOtp)
    → All P rs
    → newest p rs ≡ some r
    → P r
unfolding newest
newest-All P p [] r h e = absurd (ground arith)
newest-All P p (s ∷ rs) r (hs, h) e = elim (newest_split p s rs r e) [
  | inl here ↦ subst P here hs
  | inr there ↦ newest-All P p rs r h there
]

is_current-issued :
    (phone : Text) (purpose : OtpPurpose) (hash : Text) (now id : ℕ)
    → is_current phone purpose (issued phone purpose hash now id) ≡ true
unfolding is_current is_for
is_current-issued phone register hash now id = rw =t_refl
is_current-issued phone login hash now id = rw =t_refl

module _ (now : ℕ) (phone : Text) (purpose : OtpPurpose) (rows : List PhoneOtp)
    (passed : enforce_resend_limits now phone purpose rows ≡ none) where
  -- A request that passes comes at least a minute after every earlier one.
  pub minute_apart :
      All (λ r. is_for phone purpose r ≡ true → r.created_at + resend_min_seconds * 1000 ≤ now) rows
  unfolding enforce_resend_limits
  minute_apart = elim (Option-cases (newest (is_for phone purpose) rows)) [
    | inl e ↦
        All-mono rows (λ r no fits. absurd (ground arith))
          (newest-none (is_for phone purpose) rows e)
    | inr (row, e) ↦
        let gap : row.created_at + resend_min_seconds * 1000 ≤ now = ground arith in
        All-mono rows (λ r le fits. omega (arith, le fits))
          (newest_latest (is_for phone purpose) rows row e)
  ]

  pub below_limit :
      count (λ r. is_for phone purpose r && leb (now - 3600000) r.created_at) rows
      < resend_hourly_limit
  unfolding enforce_resend_limits
  below_limit = ground arith

module _ (bcrypt : Bcrypt) where
  -- The row that a request inserts is the one that the next verification reads.
  newest-issue :
      (now : ℕ) (phone : Text) (purpose : OtpPurpose) (salt : ℕ) (otp : Text) (db : OtpTable)
      → IsPast now db.rows
      → newest (is_current phone purpose) (issue bcrypt now phone purpose salt otp db).rows
        ≡ some (issued phone purpose (bcrypt.hash salt otp) now db.next_id)
  unfolding issue newest
  newest-issue now phone purpose salt otp db past =
      let rest = update_where (is_live phone purpose) (supersede now) db.rows in
      let past' : IsPast now rest =
        All-update_where (is_live phone purpose) (supersede now) db.rows (λ r h. h) (λ r h. h)
          past in
      let mine = is_current-issued phone purpose (bcrypt.hash salt otp) now db.next_id in
      elim (Option-cases (newest (is_current phone purpose) rest)) [
        | inl e ↦ rw (mine, e)
        | inr (s, e) ↦
            let le =
              newest-All (λ r. r.created_at ≤ now) (is_current phone purpose) rest s past' e in
            rw (mine, e) (ground arith)
      ]

  -- A code that was sent is accepted, for its phone and purpose, until its time to live is over.
  pub request_then_verify :
      (now next : ℕ) (phone : Text) (purpose : OtpPurpose) (salt : ℕ) (otp : Text)
      (sms : Option SendCode) (db : OtpTable) (ttl : ℕ)
      → (request_otp bcrypt now phone purpose salt otp sms db).0 ≡ done ttl
      → IsPast now db.rows
      → next ≤ now + ttl * 1000
      → (verify_otp bcrypt next phone purpose otp
          (request_otp bcrypt now phone purpose salt otp sms db).1).0
        ≡ done db.next_id
  unfolding request_otp
  request_then_verify now next phone purpose salt otp sms db ttl h past in_time =
      elim (Option-cases (enforce_resend_limits now phone purpose db.rows)) [
        | inr (e, refused) ↦ absurd (ground arith)
        | inl passed ↦ elim (Option-cases sms) [
          | inr (code, failed) ↦ absurd (ground arith)
          | inl sent ↦
              let same : ttl_of purpose ≡ ttl = ground arith in
              rw (passed, request_otp)
                (rw (sent, request_otp)
                  (verify_otp_complete bcrypt next phone purpose otp
                    (issue bcrypt now phone purpose salt otp db)
                    (issued phone purpose (bcrypt.hash salt otp) now db.next_id)
                    (record {
                      found = newest-issue now phone purpose salt otp db past;
                      unused = refl;
                      in_time = ground arith;
                      unlocked = omega arith;
                      matches = bcrypt.compare-hash salt otp;
                    })))
        ]
      ]

  -- A request that is refused by a limit, or whose message could not be sent, changes nothing.
  pub request_otp_refused :
      (now : ℕ) (phone : Text) (purpose : OtpPurpose) (salt : ℕ) (otp : Text)
      (sms : Option SendCode) (db : OtpTable) (e : OtpError)
      → (request_otp bcrypt now phone purpose salt otp sms db).0 ≡ raise e
      → (request_otp bcrypt now phone purpose salt otp sms db).1 ≡ db
  unfolding request_otp
  request_otp_refused now phone purpose salt otp sms db e h = ground arith
