-- ===== src/Auth/Otp.antt =====
-- src/modules/auth/otp.service.ts and phone-otp.entity.ts. The table `phone_otps` is a list of rows,
-- the last one inserted first. A call reads one clock value, in milliseconds, for all of its
-- `Date.now()`, `new Date()` and the column default of `created_at`.
pub mod Newest
pub mod Trace
pub mod Issue
pub mod Lockout
pub mod Verify
use majestan_backend.Prelude.{
  ℕ, ◌+◌, ◌-◌, ◌*◌, Bool, true, false, ◌&&◌, String, Option, none, some, List, [], ◌∷◌, ltb, leb,
  ◌==◌, if◌then◌else◌, count, update_where,
}
use majestan_backend.Prelude.Text.{Text, ◌=t◌}
use majestan_backend.Auth.Bcrypt.{Bcrypt}

pub data OtpPurpose : Type 0 where
  register login : OtpPurpose

pub record PhoneOtp : Type 0 where
  pub id : ℕ
  pub phone : Text
  pub purpose : OtpPurpose
  pub otp_hash : Text
  pub expires_at : ℕ
  pub attempts : ℕ
  pub used_at : Option ℕ
  pub superseded_at : Option ℕ
  pub created_at : ℕ

pub record OtpTable : Type 0 where
  pub rows : List PhoneOtp
  pub next_id : ℕ

-- `code` of `OtpSendError`, thrown by the SMS provider.
pub data SendCode : Type 0 where
  send_failed dlt_configuration destination_invalid provider_temporary send_rate_limited : SendCode

-- `OtpHttpError` with its status and code, and `OtpSendError`.
pub data OtpError : Type 0 where
  otp_error : ℕ → String → OtpError
  send_error : SendCode → OtpError

pub data OtpResult {ℓ} (A : Type ℓ) : Type ℓ where
  done : A → OtpResult A
  raise : OtpError → OtpResult A

abbrev pub register_ttl_seconds : ℕ
register_ttl_seconds = 900

abbrev pub login_ttl_seconds : ℕ
login_ttl_seconds = 300

abbrev pub max_verify_attempts : ℕ
max_verify_attempts = 5

abbrev pub resend_min_seconds : ℕ
resend_min_seconds = 60

abbrev pub resend_hourly_limit : ℕ
resend_hourly_limit = 5

abbrev pub ttl_of : OtpPurpose → ℕ
ttl_of register = register_ttl_seconds
ttl_of login = login_ttl_seconds

abbrev pub purpose_eq : OtpPurpose → OtpPurpose → Bool
purpose_eq register register = true
purpose_eq login login = true
purpose_eq _ _ = false

abbrev pub is_none {ℓ} : {A : Type ℓ} → Option A → Bool
is_none none = true
is_none (some a) = false

abbrev pub not_null {ℓ} : {A : Type ℓ} → Option A → Bool
not_null none = false
not_null (some a) = true

-- `phone = :phone AND purpose = :purpose`
unfoldable pub is_for : Text → OtpPurpose → PhoneOtp → Bool
is_for phone purpose row = row.phone =t phone && purpose_eq row.purpose purpose

-- `… AND usedAt IS NULL AND supersededAt IS NULL`
unfoldable pub is_live : Text → OtpPurpose → PhoneOtp → Bool
is_live phone purpose row =
    is_for phone purpose row && is_none row.used_at && is_none row.superseded_at

-- `… AND supersededAt IS NULL`
unfoldable pub is_current : Text → OtpPurpose → PhoneOtp → Bool
is_current phone purpose row = is_for phone purpose row && is_none row.superseded_at

-- The later of two rows; at the same instant the one inserted last.
abbrev pub later : PhoneOtp → Option PhoneOtp → Option PhoneOtp
later r none = some r
later r (some s) = if ltb r.created_at s.created_at then some s else some r

-- `WHERE p ORDER BY createdAt DESC`, `getOne()`
unfoldable pub newest : (PhoneOtp → Bool) → List PhoneOtp → Option PhoneOtp
newest p [] = none
newest p (r ∷ rs) = let rest = newest p rs in if p r then later r rest else rest

-- `enforceResendLimits`: the exception, if there is one. A row from the future is too recent, as a
-- negative difference is; here the difference stops at 0.
unfoldable pub enforce_resend_limits : ℕ → Text → OtpPurpose → List PhoneOtp → Option OtpError
enforce_resend_limits now phone purpose rows =
    let too_soon : PhoneOtp → Bool = λ r. ltb (now - r.created_at) (resend_min_seconds * 1000) in
    let since = now - 3600000 in
    let cnt = count (λ r. is_for phone purpose r && leb since r.created_at) rows in
    let hourly : Option OtpError =
      if leb resend_hourly_limit cnt then some (otp_error 429 "OTP_RATE_LIMITED") else none in
    elim (newest (is_for phone purpose) rows) [
      | none ↦ hourly
      | some latest ↦ if too_soon latest then some (otp_error 429 "OTP_RATE_LIMITED") else hourly
    ]

abbrev pub supersede : ℕ → PhoneOtp → PhoneOtp
supersede now r = record r { superseded_at = some now }

abbrev pub mark_used : ℕ → PhoneOtp → PhoneOtp
mark_used now r = record r { used_at = some now }

abbrev pub set_attempts : ℕ → PhoneOtp → PhoneOtp
set_attempts n r = record r { attempts = n }

abbrev pub issued : Text → OtpPurpose → Text → ℕ → ℕ → PhoneOtp
issued phone purpose otp_hash now id = record {
  id = id;
  phone = phone;
  purpose = purpose;
  otp_hash = otp_hash;
  expires_at = now + ttl_of purpose * 1000;
  attempts = 0;
  used_at = none;
  superseded_at = none;
  created_at = now;
}

module _ (bcrypt : Bcrypt) where
  -- The two writes of `requestOtp`: supersede what is live, insert the new row.
  unfoldable pub issue : ℕ → Text → OtpPurpose → ℕ → Text → OtpTable → OtpTable
  issue now phone purpose salt otp db = record {
    rows =
        issued phone purpose (bcrypt.hash salt otp) now db.next_id
        ∷ update_where (is_live phone purpose) (supersede now) db.rows;
    next_id = db.next_id + 1;
  }

  -- `requestOtp`, with the code that `generateOtp` drew and the answer of the SMS provider.
  unfoldable pub request_otp :
      ℕ → Text → OtpPurpose → ℕ → Text → Option SendCode → OtpTable → OtpResult ℕ × OtpTable
  request_otp now phone purpose salt otp sms db =
      elim (enforce_resend_limits now phone purpose db.rows) [
        | some e ↦ (raise e, db)
        | none ↦ elim sms [
          | some code ↦ (raise (send_error code), db)
          | none ↦ (done (ttl_of purpose), issue now phone purpose salt otp db)
        ]
      ]

  -- What `verifyOtp` does with the row that it found.
  unfoldable pub check_row : ℕ → Text → PhoneOtp → OtpTable → OtpResult ℕ × OtpTable
  check_row now otp row db =
      if not_null row.used_at
      then (raise (otp_error 410 "OTP_EXPIRED"), db)
      else if ltb row.expires_at now
      then (raise (otp_error 410 "OTP_EXPIRED"), db)
      else if leb max_verify_attempts row.attempts
      then (raise (otp_error 410 "OTP_LOCKED"), db)
      else if bcrypt.compare otp row.otp_hash
      then (
        done row.id,
        record db { rows = update_where (λ r. r.id == row.id) (mark_used now) db.rows },
      )
      else (
        raise (
            if leb max_verify_attempts (row.attempts + 1)
            then otp_error 410 "OTP_LOCKED"
            else otp_error 401 "INVALID_OTP"),
        record db {
          rows = update_where (λ r. r.id == row.id) (set_attempts (row.attempts + 1)) db.rows;
        },
      )

  -- `verifyOtp`
  unfoldable pub verify_otp : ℕ → Text → OtpPurpose → Text → OtpTable → OtpResult ℕ × OtpTable
  verify_otp now phone purpose otp db = elim (newest (is_current phone purpose) db.rows) [
    | none ↦ (raise (otp_error 404 "OTP_NOT_FOUND"), db)
    | some row ↦ check_row now otp row db
  ]
