-- ===== src/OwnerPost/Tests.antt =====
-- A verified owner posts a flat, and a stranger tries to use the owner's files.
use majestan_backend.Prelude.{
  String, ℕ, ◌≤◌, Bool, true, false, none, some, List, [], ◌∷◌, ◌==◌, ◌≡◌, refl, arith, find?, All,
}
use majestan_backend.Prelude.Text.{Text, codes, is_empty}
use majestan_backend.Http.{ok}
use majestan_backend.Auth.Guards.{user, role_eq}
use majestan_backend.Auth.Users.{UserRow}
use majestan_backend.Storage.{StorageEnv}
use majestan_backend.Storage.Upload.{presigned_key}
use majestan_backend.OwnerPost.Details.{DetailValue, number, text, Detail, is_allowed}
use majestan_backend.OwnerPost.Media.{is_owner_media_key, owner_file_name}
use majestan_backend.OwnerPost.Media.Laws.{
  is_owner_media_key_exclusive, is_owner_media_key-presigned_key,
}
use majestan_backend.OwnerPost.Amounts.{rupees, is_date}
use majestan_backend.OwnerPost.Policy.{
  SubmitOwnerProperty, OwnerPayload, owner_payload, payload_of, allowed_details,
}
use majestan_backend.OwnerPost.Policy.Laws.{owner_payload-allowed}
use majestan_backend.OwnerPost.Policy.Charges.{is_charge, owner_payload-charges}
use majestan_backend.OwnerPost.Drafts.{
  Submission, Submitted, SubmitEnv, SubmitDb, payload_for, get_draft, submit,
}
use majestan_backend.OwnerPost.Drafts.Laws.{
  DraftCall, save_call, submit_call, handle_drafts, events_of, apply_events,
  handle_drafts-apply_events,
}
use majestan_backend.OwnerPost.Drafts.Submit.{OwnFiles, AwaitsApproval, submit_sound}

abbrev env : StorageEnv
env = record {
  is_local_driver = false;
  public_url = [];
  now = 1700000000000;
  converts = λ key. true;
  deletes = λ key. true;
  dimensions = λ key. none;
}

abbrev uuid : Text
uuid = codes "0b9f0c1e-8a55-4c1d-9d53-3f1a7f3b2c10"

abbrev photo : Text
photo = presigned_key env (owner_file_name 7 uuid (codes "hall 1.jpg"))

photo_key :
    photo
    ≡ codes "uploads/temp/1700000000000-owner-7-0b9f0c1e-8a55-4c1d-9d53-3f1a7f3b2c10-hall_1.jpg"
unfolding presigned_key majestan_backend.Phone.OtpCode.decimal
    majestan_backend.Storage.Upload.safe_name owner_file_name
    majestan_backend.Storage.Upload.is_alphanumeric
photo_key = refl

is_owner_media_key-presigned_key_example : is_owner_media_key 7 photo ≡ true
unfolding majestan_backend.OwnerPost.Media.all_uuid_codes
is_owner_media_key-presigned_key_example =
    is_owner_media_key-presigned_key env 7 uuid (codes "hall 1.jpg") refl refl refl

is_owner_media_key_exclusive_example : is_owner_media_key 8 photo ≡ false
unfolding is_owner_media_key presigned_key majestan_backend.Phone.OtpCode.decimal
    majestan_backend.Storage.Upload.safe_name owner_file_name
    majestan_backend.Storage.Upload.is_alphanumeric majestan_backend.Storage.Upload.is_key_code
is_owner_media_key_exclusive_example = is_owner_media_key_exclusive 7 8 photo refl refl

abbrev detail : Text → DetailValue → Detail
detail key value = record { key = key; value = value }

abbrev flat : SubmitOwnerProperty
flat = record {
  title = codes " Two rooms ";
  description = codes "Near the lake";
  price = codes "15000.50";
  is_rent = true;
  city_id = 1;
  sublocation_id = 4;
  address = codes "Lake Road";
  pincode = none;
  details =
      detail (codes "areaSqft") (number false 85000)
      ∷ detail (codes "bedrooms") (number false 200)
      ∷ detail (codes "bathrooms") (number false 100)
      ∷ detail (codes "rentPerSeat") (number false 500)
      ∷ detail (codes "furnishingStatus") (text (codes "SEMI FURNISHED"))
      ∷ [];
  project_name = none;
  negotiable = none;
  rera_number = some (codes "R1");
  ownership_type = none;
  transaction_type = none;
  booking_amount = some (codes "x");
  security_deposit = some (codes "30000");
  maintenance_charges = some [];
  lock_in_period = none;
  available_from = some (codes "2024-02-29");
  amenities = none;
  furnishing_items = some (3 ∷ []);
  files = photo ∷ [];
  floor_plans = [];
}

abbrev flat_payload : OwnerPayload
flat_payload = payload_of (codes "apartment") flat (allowed_details (codes "apartment") flat)

flat_details :
    flat_payload.details
    ≡ detail (codes "furnished") (DetailValue.flag false)
      ∷ detail (codes "unitType") (text (codes "2BHK"))
      ∷ detail (codes "areaSqft") (number false 85000)
      ∷ detail (codes "bedrooms") (number false 200)
      ∷ detail (codes "bathrooms") (number false 100)
      ∷ detail (codes "furnishingStatus") (text (codes "SEMI FURNISHED"))
      ∷ []
unfolding payload_of allowed_details majestan_backend.Phone.OtpCode.decimal
flat_details = refl

no_such_day : is_date (codes "2023-02-29") ≡ false
unfolding is_date
no_such_day = refl

owner_payload-allowed_example :
    All (λ d. is_allowed (codes "apartment") true d.key ≡ true) flat_payload.details
unfolding owner_payload majestan_backend.Prelude.Text.trim
owner_payload-allowed_example = owner_payload-allowed (codes "apartment") flat flat_payload refl

owner_payload-charges_example :
    (p : ℕ) × (rupees flat_payload.price ≡ some p)
    × (1 ≤ p)
    × (p ≤ 999999999999)
    × (is_charge flat_payload.booking_amount ≡ true)
    × (is_charge flat_payload.security_deposit ≡ true)
    × (is_charge flat_payload.maintenance_charges ≡ true)
unfolding owner_payload majestan_backend.Prelude.Text.trim
owner_payload-charges_example = owner_payload-charges (codes "apartment") flat flat_payload refl

abbrev owner : UserRow
owner = record {
  id = 7;
  name = codes "Asha";
  email = codes "asha@example.com";
  phone = codes "+919876543210";
  password_hash = [];
  role = user;
  is_verified = true;
}

abbrev service : SubmitEnv
service = record {
  create_property = λ request. ok (record { id = 40; property_code = codes "P40" });
  deletes_draft = true;
}

abbrev empty_db : SubmitDb
empty_db = record { drafts = record { rows = []; next_id = 1 }; properties = [] }

abbrev calls : List DraftCall
calls =
    save_call 7 (codes "{}")
    ∷ save_call 9 (codes "{}")
    ∷ save_call 7 (codes "{\"title\":\"Flat\"}")
    ∷ submit_call 7 (codes "castle") flat
    ∷ []

saved_again :
    get_draft 7 (owner ∷ []) (handle_drafts service (owner ∷ []) calls empty_db).drafts
    ≡ ok (some (codes "{\"title\":\"Flat\"}"))
unfolding get_draft handle_drafts
saved_again = refl

handle_drafts-apply_events_example :
    payload_for
      (codes "+919876543210")
      (handle_drafts service (owner ∷ []) calls empty_db).drafts.rows
    ≡ apply_events
        (events_of service (owner ∷ []) calls empty_db)
        (λ other. payload_for other empty_db.drafts.rows)
        (codes "+919876543210")
handle_drafts-apply_events_example =
    handle_drafts-apply_events service (owner ∷ []) calls empty_db (codes "+919876543210")

abbrev answer : Submitted
answer = record {
  created = record { id = 40; property_code = codes "P40" };
  approval_status = codes "Pending";
}

submit_sound_example :
    (row : UserRow) × (property : Submission) × (find? (λ r. r.id == 7) (owner ∷ []) ≡ some row)
    × (is_empty row.phone ≡ false)
    × (row.is_verified ≡ true)
    × (role_eq row.role user ≡ true)
    × ((submit service 7 (codes "apartment") flat (owner ∷ []) empty_db).1.properties
        ≡ property ∷ [])
    × (property.property_type ≡ codes "apartment")
    × (owner_payload (codes "apartment") flat ≡ ok property.payload)
    × OwnFiles 7 property.payload
    × AwaitsApproval 7 row property
    × (answer.approval_status ≡ codes "Pending")
unfolding submit majestan_backend.Prelude.Text.trim presigned_key
    majestan_backend.Phone.OtpCode.decimal majestan_backend.Storage.Upload.safe_name owner_file_name
    majestan_backend.Storage.Upload.is_alphanumeric majestan_backend.Storage.Upload.is_key_code
submit_sound_example =
    submit_sound service 7 (codes "apartment") flat (owner ∷ []) empty_db answer refl
