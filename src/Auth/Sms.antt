-- ===== src/Auth/Sms.antt =====
-- src/modules/sms/pay4sms.errors.ts: what the provider's codes mean.
use majestan_backend.Prelude.{Bool, ◌||◌, String, List, [], ◌∷◌, false, if◌then◌else◌}
use majestan_backend.Prelude.Text.{Text, codes, ◌=t◌, trim}
use majestan_backend.Auth.Otp.{
  SendCode, send_failed, dlt_configuration, destination_invalid, provider_temporary,
  send_rate_limited,
}

-- DLT_CONFIG
abbrev dlt_config : List String
dlt_config =
    "110" ∷ "111" ∷ "112" ∷ "113" ∷ "114" ∷ "116" ∷ "418" ∷ "419" ∷ "420" ∷ "421" ∷ "422" ∷ "423"
    ∷ "424" ∷ "425" ∷ "426" ∷ "427" ∷ "428" ∷ "429" ∷ "430" ∷ "431" ∷ "432" ∷ "433" ∷ "434" ∷ "435"
    ∷ "436" ∷ "437" ∷ "438" ∷ "439" ∷ "440" ∷ "441" ∷ "442" ∷ "443" ∷ "444" ∷ "454" ∷ "455" ∷ "456"
    ∷ "457" ∷ "458" ∷ "600" ∷ "601" ∷ "602" ∷ "603" ∷ "604" ∷ "610" ∷ "611" ∷ "612" ∷ "620" ∷ "621"
    ∷ "622" ∷ "623" ∷ "630" ∷ "631" ∷ "632" ∷ "633" ∷ "634" ∷ "635" ∷ "636" ∷ "637" ∷ []

-- DESTINATION
abbrev destination : List String
destination = "5" ∷ "6" ∷ "9" ∷ "10" ∷ "55" ∷ "86" ∷ []

-- RATE_LIMITED
abbrev rate_limited : List String
rate_limited = "4" ∷ "53" ∷ "69" ∷ "74" ∷ "75" ∷ "88" ∷ []

-- TRANSIENT
abbrev transient : List String
transient = "40" ∷ "71" ∷ "73" ∷ []

-- `Set.has`
abbrev has_code : List String → Text → Bool
has_code [] code = false
has_code (c ∷ cs) code = codes c =t code || has_code cs code

-- `classifyPay4SmsCode`
unfoldable pub classify_code : Text → SendCode
classify_code raw =
    let code = trim raw in
    if has_code dlt_config code
    then dlt_configuration
    else if has_code destination code
    then destination_invalid
    else if has_code rate_limited code
    then send_rate_limited
    else if has_code transient code
    then provider_temporary
    else send_failed
