-- ===== src/Auth/Endpoints/Flows.antt =====
-- The flows through the OTP endpoints: a login and a registration from end to end.
use majestan_backend.Prelude.{
  ℕ, ◌+◌, ◌*◌, ◌≤◌, Option, some, ◌≡◌, ◌≢◌, refl, arith, Option-cases, inl, inr, ◌∙◌,
}
use majestan_backend.Prelude.Text.{Text}
use majestan_backend.Http.{Outcome, ok, fail}
use majestan_backend.Phone.{PhoneNumber, normalize_phone}
use majestan_backend.Phone.Canonical.{trim-canonical}
use majestan_backend.Auth.Bcrypt.{Bcrypt}
use majestan_backend.Auth.Otp.{
  OtpTable, OtpResult, OtpError, send_error, dlt_configuration, register, login, done, raise,
  otp_error, SendCode, request_otp, verify_otp,
}
use majestan_backend.Auth.Otp.Issue.{IsPast, request_then_verify}
use majestan_backend.Auth.Otp.Verify.{verify_otp_once}
use majestan_backend.Auth.Users.{
  UserRow, UserTable, AuthResponse, by_phone, auth_response, verify_row, login_user_with_phone,
  register_user_with_phone,
}
use majestan_backend.Auth.Users.Laws.{phone_register_then_login}
use majestan_backend.Auth.Endpoints.{
  AuthState, PhoneDto, Draw, map_otp_error, answer_request, after_verify, request_login_otp,
  verify_register_otp, verify_login_otp,
}

map_otp_error-ne-ok : {A : Type 0} (e : OtpError) (a : A) → map_otp_error e ≢ ok a
unfolding map_otp_error
map_otp_error-ne-ok (otp_error status code) a = ground arith
map_otp_error-ne-ok (send_error dlt_configuration) a = cc
map_otp_error-ne-ok (send_error _) a = cc

answer_request_ok :
    (users : UserTable) (r : OtpResult ℕ × OtpTable) (ttl : ℕ)
    → (answer_request users r).0 ≡ ok ttl
    → (r.0 ≡ done ttl) × ((answer_request users r).1 ≡ record { otps = r.1; users = users })
unfolding answer_request
answer_request_ok users (done t, otps) ttl h = (cc, refl)
answer_request_ok users (raise e, otps) ttl h = absurd (map_otp_error-ne-ok e ttl h)

after_verify_ok :
    (act : UserTable → Outcome AuthResponse × UserTable) (users : UserTable)
    (r : OtpResult ℕ × OtpTable) (a : AuthResponse)
    → (after_verify act users r).0 ≡ ok a
    → (id : ℕ) × (r.0 ≡ done id)
      × ((act users).0 ≡ ok a)
      × ((after_verify act users r).1 ≡ record { otps = r.1; users = (act users).1 })
unfolding after_verify
after_verify_ok act users (done id, otps) a h = (id, refl, h, refl)
after_verify_ok act users (raise e, otps) a h = absurd (map_otp_error-ne-ok e a h)

after_verify_done :
    (act : UserTable → Outcome AuthResponse × UserTable) (users : UserTable)
    (r : OtpResult ℕ × OtpTable) (id : ℕ)
    → r.0 ≡ done id
    → (after_verify act users r).0 ≡ (act users).0
unfolding after_verify
after_verify_done act users (done id', otps) id h = refl
after_verify_done act users (raise e, otps) id h = absurd (cc)

module _ (bcrypt : Bcrypt) where
  -- What a granted request for a login code has found and done.
  pub record Requested (now : ℕ) (draw : Draw) (sms : Option SendCode) (dto : PhoneDto)
      (s : AuthState) (ttl : ℕ) : Type 0 where
    pub n : PhoneNumber
    pub row : UserRow
    pub number : normalize_phone dto.country_code dto.phone ≡ some n
    pub known : by_phone n.canonical s.users.rows ≡ some row
    pub sent : (request_otp bcrypt now n.canonical login draw.salt draw.otp sms s.otps).0 ≡ done ttl
    pub after : (request_login_otp bcrypt now draw sms dto s).1 ≡ record s {
      otps = (request_otp bcrypt now n.canonical login draw.salt draw.otp sms s.otps).1;
    }

  request_login_otp_ok :
      (now : ℕ) (draw : Draw) (sms : Option SendCode) (dto : PhoneDto) (s : AuthState) (ttl : ℕ)
      → (request_login_otp bcrypt now draw sms dto s).0 ≡ ok ttl
      → Requested now draw sms dto s ttl
  unfolding request_login_otp
  request_login_otp_ok now draw sms dto s ttl h =
      elim (Option-cases (normalize_phone dto.country_code dto.phone)) [
        | inl invalid ↦ absurd (ground arith)
        | inr (n, number) ↦ elim (Option-cases (by_phone n.canonical s.users.rows)) [
          | inl unknown ↦ absurd (ground arith)
          | inr (row, known) ↦
              let r = request_otp bcrypt now n.canonical login draw.salt draw.otp sms s.otps in
              let (sent, after) = answer_request_ok s.users r ttl (ground arith) in
              record {
                n = n;
                row = row;
                number = number;
                known = known;
                sent = sent;
                after = rw (number, request_login_otp) (rw (known, request_login_otp) after);
              }
        ]
      ]

  -- The login flow succeeds: when a code was requested for a phone, the same phone in the same
  -- spelling and the code that was sent, within the time to live, log in the user of that phone, who
  -- is then verified.
  pub login_flow :
      (now next : ℕ) (draw : Draw) (sms : Option SendCode) (dto : PhoneDto) (s : AuthState)
      (ttl : ℕ)
      → (request_login_otp bcrypt now draw sms dto s).0 ≡ ok ttl
      → IsPast now s.otps.rows
      → next ≤ now + ttl * 1000
      → (n : PhoneNumber) × (row : UserRow) × (normalize_phone dto.country_code dto.phone ≡ some n)
        × (by_phone n.canonical s.users.rows ≡ some row)
        × ((verify_login_otp bcrypt next dto draw.otp
              (request_login_otp bcrypt now draw sms dto s).1).0
            ≡ ok (auth_response (verify_row row)))
  login_flow now next draw sms dto s ttl h past in_time =
      let q = request_login_otp_ok now draw sms dto s ttl h in
      let r = request_otp bcrypt now q.n.canonical login draw.salt draw.otp sms s.otps in
      let good =
        request_then_verify bcrypt now next q.n.canonical login draw.salt draw.otp sms s.otps ttl
          q.sent past in_time in
      let logged : (login_user_with_phone q.n.canonical s.users).0
          ≡ ok (auth_response (verify_row q.row)) =
        unfold login_user_with_phone in rw (q.known, login_user_with_phone) in
      (
        q.n,
        q.row,
        q.number,
        q.known,
        rw q.after (
            unfold verify_login_otp in
            rw (q.number, verify_login_otp)
              (after_verify_done (login_user_with_phone q.n.canonical) s.users
                  (verify_otp bcrypt next q.n.canonical login draw.otp r.1) s.otps.next_id good
                ∙ logged)),
      )

  -- A code logs in once: after a login, every further attempt for the phone is answered by 410, with
  -- any code and at any time, and changes nothing, until another code is requested.
  pub login_once :
      (now later : ℕ) (dto : PhoneDto) (otp other : Text) (s : AuthState) (r : AuthResponse)
      → (verify_login_otp bcrypt now dto otp s).0 ≡ ok r
      → verify_login_otp bcrypt later dto other (verify_login_otp bcrypt now dto otp s).1
        ≡ (fail 410 "OTP_EXPIRED", (verify_login_otp bcrypt now dto otp s).1)
  login_once now later dto otp other s r h =
      elim (Option-cases (normalize_phone dto.country_code dto.phone)) [
        | inl invalid ↦ absurd (unfold verify_login_otp in ground arith)
        | inr (n, number) ↦
            let v = verify_otp bcrypt now n.canonical login otp s.otps in
            let h' : (after_verify (login_user_with_phone n.canonical) s.users v).0 ≡ ok r =
              unfold verify_login_otp in ground arith in
            let (id, accepted, logged, after) =
              after_verify_ok (login_user_with_phone n.canonical) s.users v r h' in
            let whole : (verify_login_otp bcrypt now dto otp s).1
                ≡ record { otps = v.1; users = (login_user_with_phone n.canonical s.users).1 } =
              unfold verify_login_otp in rw (number, verify_login_otp) after in
            let refused =
              verify_otp_once bcrypt now later n.canonical login otp other s.otps id accepted in
            rw whole (
              unfold verify_login_otp in
              rw (number, verify_login_otp)
                (rw refused (unfold after_verify map_otp_error in refl)))
      ]

  -- A phone that was registered with a code can log in with a code: the login step finds the user
  -- that the registration answered with.
  pub register_flow :
      (now : ℕ) (draw : Draw) (dto : PhoneDto) (otp name email : Text) (s : AuthState)
      (r : AuthResponse) (n : PhoneNumber)
      → normalize_phone dto.country_code dto.phone ≡ some n
      → (verify_register_otp bcrypt now draw dto otp name email s).0 ≡ ok r
      → (login_user_with_phone n.canonical
          (verify_register_otp bcrypt now draw dto otp name email s).1.users).0
        ≡ ok r
  register_flow now draw dto otp name email s r n number h =
      let act = register_user_with_phone bcrypt draw.salt draw.otp name email n.canonical in
      let v = verify_otp bcrypt now n.canonical register otp s.otps in
      let h' : (after_verify act s.users v).0 ≡ ok r = unfold verify_register_otp in ground arith in
      let (id, accepted, registered, after) = after_verify_ok act s.users v r h' in
      let whole : (verify_register_otp bcrypt now draw dto otp name email s).1
          ≡ record { otps = v.1; users = (act s.users).1 } =
        unfold verify_register_otp in rw (number, verify_register_otp) after in
      rw whole (
        phone_register_then_login bcrypt draw.salt draw.otp name email n.canonical s.users r
          registered (trim-canonical dto.country_code dto.phone n number))
