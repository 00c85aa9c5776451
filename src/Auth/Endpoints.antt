-- ===== src/Auth/Endpoints.antt =====
-- The OTP endpoints of src/modules/auth/auth.controller.ts, over the two tables that they reach. The
-- throttle of `@Throttle` is not part of a handler.
pub mod Flows
use majestan_backend.Prelude.{ℕ, ◌==◌, String, Option, none, some, if◌then◌else◌}
use majestan_backend.Prelude.Text.{Text}
use majestan_backend.Http.{Outcome, ok, fail}
use majestan_backend.Phone.{PhoneNumber, normalize_phone}
use majestan_backend.Auth.Bcrypt.{Bcrypt}
use majestan_backend.Auth.Otp.{
  OtpTable, OtpPurpose, register, login, OtpResult, done, raise, OtpError, otp_error, send_error,
  SendCode, send_failed, dlt_configuration, destination_invalid, provider_temporary,
  send_rate_limited, request_otp, verify_otp,
}
use majestan_backend.Auth.Users.{
  UserTable, AuthResponse, by_phone, register_user_with_phone, login_user_with_phone,
}

pub record AuthState : Type 0 where
  pub otps : OtpTable
  pub users : UserTable

-- OtpRegisterVerifyDto, and its part that the other three endpoints take
pub record PhoneDto : Type 0 where
  pub country_code : Text
  pub phone : Text

-- `mapOtpError`: the status and message of the exception that the endpoint throws
unfoldable pub map_otp_error {ℓ} : {A : Type ℓ} → OtpError → Outcome A
map_otp_error (otp_error status code) =
    if status == 404
    then fail 404 code
    else if status == 401
    then fail 401 "Invalid OTP"
    else if status == 410
    then fail 410 code
    else if status == 429
    then fail 429 code
    else fail 500 "Internal server error"
map_otp_error (send_error dlt_configuration) = fail 502 "OTP_DLT_CONFIGURATION_ERROR"
map_otp_error (send_error destination_invalid) = fail 400 "OTP_DESTINATION_INVALID"
map_otp_error (send_error send_rate_limited) = fail 429 "OTP_RATE_LIMITED"
map_otp_error (send_error provider_temporary) = fail 502 "OTP_PROVIDER_TEMPORARY_ERROR"
map_otp_error (send_error send_failed) = fail 502 "OTP_SEND_FAILED"

-- The answer of a request for a code: how long the code lives.
unfoldable pub answer_request : UserTable → OtpResult ℕ × OtpTable → Outcome ℕ × AuthState
answer_request users (done ttl, otps) = (ok ttl, record { otps = otps; users = users })
answer_request users (raise e, otps) = (map_otp_error e, record { otps = otps; users = users })

-- The random values of one request: the salt of the hash and the code.
pub record Draw : Type 0 where
  pub salt : ℕ
  pub otp : Text

-- The end of an endpoint that verified a code: what it does to the users.
unfoldable pub after_verify :
    (UserTable → Outcome AuthResponse × UserTable)
    → UserTable
    → OtpResult ℕ × OtpTable
    → Outcome AuthResponse × AuthState
after_verify act users (raise e, otps) = (map_otp_error e, record { otps = otps; users = users })
after_verify act users (done id, otps) =
    let (answer, users') = act users in (answer, record { otps = otps; users = users' })

module _ (bcrypt : Bcrypt) where
  -- `requestRegisterOtp`
  unfoldable pub request_register_otp :
      ℕ → Draw → Option SendCode → PhoneDto → AuthState → Outcome ℕ × AuthState
  request_register_otp now draw sms dto s = elim (normalize_phone dto.country_code dto.phone) [
    | none ↦ (fail 400 "Invalid phone number", s)
    | some n ↦ elim (by_phone n.canonical s.users.rows) [
      | some existing ↦ (fail 409 "Phone already registered. Please login.", s)
      | none ↦
          answer_request s.users
            (request_otp bcrypt now n.canonical register draw.salt draw.otp sms s.otps)
    ]
  ]

  -- `requestLoginOtp`
  unfoldable pub request_login_otp :
      ℕ → Draw → Option SendCode → PhoneDto → AuthState → Outcome ℕ × AuthState
  request_login_otp now draw sms dto s = elim (normalize_phone dto.country_code dto.phone) [
    | none ↦ (fail 400 "Invalid phone number", s)
    | some n ↦ elim (by_phone n.canonical s.users.rows) [
      | none ↦ (fail 404 "Phone not registered. Please register first.", s)
      | some existing ↦
          answer_request s.users
            (request_otp bcrypt now n.canonical login draw.salt draw.otp sms s.otps)
    ]
  ]

  -- `verifyRegisterOtp`, with the random suffix and salt of the password that is never used
  unfoldable pub verify_register_otp :
      ℕ → Draw → PhoneDto → (otp name email : Text) → AuthState → Outcome AuthResponse × AuthState
  verify_register_otp now draw dto otp name email s =
      elim (normalize_phone dto.country_code dto.phone) [
        | none ↦ (fail 400 "Invalid phone number", s)
        | some n ↦
            after_verify (register_user_with_phone bcrypt draw.salt draw.otp name email n.canonical)
              s.users (verify_otp bcrypt now n.canonical register otp s.otps)
      ]

  -- `verifyLoginOtp`
  unfoldable pub verify_login_otp :
      ℕ → PhoneDto → (otp : Text) → AuthState → Outcome AuthResponse × AuthState
  verify_login_otp now dto otp s = elim (normalize_phone dto.country_code dto.phone) [
    | none ↦ (fail 400 "Invalid phone number", s)
    | some n ↦
        after_verify (login_user_with_phone n.canonical) s.users
          (verify_otp bcrypt now n.canonical login otp s.otps)
  ]
