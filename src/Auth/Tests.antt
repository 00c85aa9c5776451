-- ===== src/Auth/Tests.antt =====
-- The laws of accounts, codes and guards at concrete tables, with the stand-in for bcrypt.
use majestan_backend.Prelude.{
  ◌⊎◌, ℕ, true, false, none, some, List, [], ◌∷◌, ◌≡◌, ◌≢◌, ◌≤◌, ◌↔◌, refl, arith, count,
  update_where, ◌==◌,
}
use majestan_backend.Prelude.Text.{Text, codes, =t_iff, trim, lower}
use majestan_backend.Prelude.Text.Laws.{normal}
use majestan_backend.Http.{ok, fail}
use majestan_backend.Phone.{PhoneNumber, normalize_phone}
use majestan_backend.Auth.Bcrypt.{plain, prefixed}
use majestan_backend.Auth.Guards.{
  admin, staff, user, RouteMeta, allows, NamesNone, HasNamed, single, HeaderBag, header, allows_iff,
}
use majestan_backend.Auth.Otp.{
  register, login, PhoneOtp, OtpTable, is_current, is_for, is_live, newest, request_otp, verify_otp,
  check_row, enforce_resend_limits, resend_hourly_limit, mark_used,
}
use majestan_backend.Auth.Otp.Verify.{Accepts, verify_otp_sound}
use majestan_backend.Auth.Otp.Lockout.{IsGone, guess_all, lockout_after_five}
use majestan_backend.Auth.Otp.Trace.{
  Call, request, verify, in_hour, run, empty_table, run-hourly_limit, run-single_live,
}
use majestan_backend.Auth.Users.{
  UserRow, UserTable, RegisterUser, AuthResponse, by_email, by_phone, auth_response, verify_row,
  login_user, register_user, register_user_with_phone, login_user_with_phone, insert_user, inserted,
  respond, by_id,
}
use majestan_backend.Auth.Users.Laws.{register_then_login}
use majestan_backend.Auth.Users.Taken.{register_again_refused}
use majestan_backend.Auth.Users.Taken
use majestan_backend.Auth.Endpoints.{
  AuthState, PhoneDto, Draw, request_login_otp, verify_login_otp, answer_request, after_verify,
}
use majestan_backend.Auth.Endpoints.Flows.{login_flow, login_once}

abbrev phone : Text
phone = codes "+919876543210"

abbrev number : PhoneNumber
number = record { canonical = phone; provider_number = codes "919876543210" }

abbrev dto : PhoneDto
dto = record { country_code = codes "+91"; phone = codes "98765 43210" }

abbrev asha : UserRow
asha = record {
  id = 4;
  name = codes "Asha";
  email = codes "asha@example.in";
  phone = phone;
  password_hash = prefixed (codes "secret");
  role = user;
  is_verified = false;
}

abbrev users : UserTable
users = record { rows = asha ∷ []; next_id = 5 }

abbrev code_row : PhoneOtp
code_row = record {
  id = 1;
  phone = phone;
  purpose = login;
  otp_hash = prefixed (codes "123456");
  expires_at = 400000;
  attempts = 0;
  used_at = none;
  superseded_at = none;
  created_at = 100000;
}

abbrev otps : OtpTable
otps = record { rows = code_row ∷ []; next_id = 2 }

abbrev state : AuthState
state = record { otps = otps; users = users }

abbrev draw : Draw
draw = record { salt = 0; otp = codes "654321" }

login_flow_example :
    (n : PhoneNumber) × (row : UserRow) × (normalize_phone dto.country_code dto.phone ≡ some n)
    × (by_phone n.canonical users.rows ≡ some row)
    × ((verify_login_otp plain 300000 dto draw.otp
          (request_login_otp plain 200000 draw none dto state).1).0
        ≡ ok (auth_response (verify_row row)))
unfolding request_login_otp normalize_phone trim by_phone answer_request request_otp
    enforce_resend_limits newest is_for
login_flow_example =
    login_flow plain 200000 300000 draw none dto state 300 refl (omega arith, tt) (omega arith)

login_once_example :
    verify_login_otp plain 300000 dto
      (codes "111111")
      (verify_login_otp plain 200000 dto (codes "123456") state).1
    ≡ (fail 410 "OTP_EXPIRED", (verify_login_otp plain 200000 dto (codes "123456") state).1)
unfolding verify_login_otp normalize_phone trim after_verify verify_otp newest is_current is_for
    check_row login_user_with_phone by_phone
login_once_example =
    login_once plain 200000 300000 dto (codes "123456") (codes "111111") state
      (auth_response (verify_row asha)) refl

verify_otp_sound_example :
    (row : PhoneOtp) × Accepts plain 200000 phone login (codes "123456") otps row
    × (row.id ≡ 1)
    × ((verify_otp plain 200000 phone login (codes "123456") otps).1
        ≡ record otps { rows = update_where (λ r. r.id == row.id) (mark_used 200000) otps.rows })
unfolding verify_otp newest is_current is_for check_row
verify_otp_sound_example = verify_otp_sound plain 200000 phone login (codes "123456") otps 1 refl

abbrev guesses : List (ℕ × Text)
guesses =
    (150000, codes "000001")
    ∷ (150001, codes "000002")
    ∷ (150002, codes "000003")
    ∷ (150003, codes "000004")
    ∷ (450000, codes "000005")
    ∷ []

lockout_after_five_example :
    IsGone
      (verify_otp plain 460000 phone login
        (codes "123456")
        (guess_all plain phone login guesses otps)).0
unfolding newest is_current is_for
lockout_after_five_example =
    lockout_after_five plain phone login guesses 140000 460000 (codes "123456") otps code_row refl
      (refl, (refl, (refl, (refl, (refl, tt)))))
      (omega arith, (omega arith, (omega arith, (omega arith, (omega arith, omega arith)))))
      (omega arith)

calls : List Call
calls =
    request 100000 phone login 0 (codes "111111") none
    ∷ request 170000 phone login 0 (codes "222222") none
    ∷ verify 180000 phone login (codes "222222")
    ∷ []

run-hourly_limit_example :
    count (in_hour 100000 phone login) (run plain calls empty_table).rows ≤ resend_hourly_limit
run-hourly_limit_example = run-hourly_limit plain calls 100000 phone login

run-single_live_example : count (is_live phone login) (run plain calls empty_table).rows ≤ 1
run-single_live_example = run-single_live plain calls phone login

abbrev bina : RegisterUser
bina = record {
  name = codes "Bina";
  email = codes " Bina@Example.in";
  phone = codes "+911";
  password = codes "pass";
}

abbrev bina_response : AuthResponse
bina_response = auth_response (record {
  id = 5;
  name = codes "Bina";
  email = codes "bina@example.in";
  phone = codes "+911";
  password_hash = prefixed (codes "pass");
  role = user;
  is_verified = false;
})

register_then_login_example :
    login_user plain (codes "BINA@example.in ") (codes "pass") (register_user plain 0 bina users).1
    ≡ ok bina_response
unfolding register_user by_email lower normal trim inserted insert_user respond by_id
register_then_login_example =
    register_then_login plain 0 bina users bina_response (codes "BINA@example.in ") refl refl

other_address : normal (codes "asha@example.in") ≢ normal bina.email
unfolding normal trim lower
other_address e = ground (arith, =t_iff (normal (codes "asha@example.in")) (normal bina.email))

abbrev bina_again : RegisterUser
bina_again = record bina { email = codes " Bina@Example.IN" }

abbrev later : List Taken.UserCall
later = Taken.register 3 bina ∷ Taken.login_phone phone ∷ []

register_again_refused_example :
    (register_user plain 4 bina_again (Taken.run plain later (register_user plain 0 bina users).1)
      ≡ (
        fail 409 "An account already exists for this email",
        Taken.run plain later (register_user plain 0 bina users).1,
      ))
    × (register_user_with_phone plain 4
          (codes "x")
          bina_again.name
          bina_again.email
          phone
          (Taken.run plain later (register_user plain 0 bina users).1)
        ≡ (
          fail 409 "An account already exists for this email",
          Taken.run plain later (register_user plain 0 bina users).1,
        ))
unfolding register_user by_email lower normal trim inserted insert_user respond by_id
register_again_refused_example =
    register_again_refused plain 0 bina users bina_response later 4 bina_again (codes "x") phone
      refl refl

abbrev register_row : PhoneOtp
register_row = record code_row { phone = codes "+919999999999"; purpose = register }

abbrev fresh : AuthState
fresh = record { otps = record { rows = register_row ∷ []; next_id = 2 }; users = users }

abbrev fresh_dto : PhoneDto
fresh_dto = record { country_code = codes "+91"; phone = codes "9999999999" }

abbrev registered : AuthResponse
registered = auth_response (record {
  id = 5;
  name = codes "Bina";
  email = codes "b@c.in";
  phone = codes "+919999999999";
  password_hash = [];
  role = user;
  is_verified = true;
})

abbrev route : RouteMeta
route = record { is_public = false; required_roles = some (admin ∷ []) }

allows_iff_example :
    (allows route true (some staff) ≡ true)
    ↔ ((false ≡ true) ⊎ (true ≡ true) × (NamesNone route ⊎ HasNamed route (some staff)))
allows_iff_example = allows_iff route true (some staff)

abbrev bag : HeaderBag
bag = record { internal_key = single (codes "guess"); client_ip = single (codes "1.2.3.4") }

wrong_key : header bag.internal_key ≢ codes "key"
unfolding header trim
wrong_key e = ground (arith, =t_iff (header bag.internal_key) (codes "key"))
