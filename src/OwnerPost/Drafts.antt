-- ===== src/OwnerPost/Drafts.antt =====
-- src/modules/owner-post/owner-post.service.ts: the drafts of the owners, and their submission.
pub mod Laws
pub mod Submit
use majestan_backend.Prelude.{
  ℕ, ◌+◌, Bool, true, false, not, ◌&&◌, ◌||◌, Option, none, some, List, [], ◌∷◌, ◌==◌, ltb, leb,
  if◌then◌else◌, find?, any, filter, update_where, All, map,
}
use majestan_backend.Prelude.Text.{Text, codes, ◌=t◌, is_empty}
use majestan_backend.Http.{Outcome, ok, fail}
use majestan_backend.Auth.Guards.{user, role_eq}
use majestan_backend.Auth.Users.{UserRow}
use majestan_backend.OwnerPost.Media.{is_owner_media_key}
use majestan_backend.OwnerPost.Policy.{FloorPlan, SubmitOwnerProperty, OwnerPayload, owner_payload}

-- PropertyDraft; the payload is the text of its JSON
pub record PropertyDraft : Type 0 where
  pub id : ℕ
  pub phone : Text
  pub payload : Text

pub record DraftTable : Type 0 where
  pub rows : List PropertyDraft
  pub next_id : ℕ

-- What `submit` hands to the service of the properties: the payload with the fields that it fixes.
pub record Submission : Type 0 where
  pub property_type : Text
  pub payload : OwnerPayload
  pub status : Text
  pub verification_status : Text
  pub approval_status : Text
  pub source : Text
  pub owner_id : ℕ
  pub owner_name : Text
  pub owner_email : Text
  pub owner_phone : Text
  pub brokerage_type : Text

pub record Created : Type 0 where
  pub id : ℕ
  pub property_code : Text

pub record Submitted : Type 0 where
  pub created : Created
  pub approval_status : Text

-- The service of the properties, and whether the database carries the deletion of a draft out.
pub record SubmitEnv : Type 0 where
  pub create_property : Submission → Outcome Created
  pub deletes_draft : Bool

-- `accountFor`
unfoldable pub account_for : ℕ → List UserRow → Outcome UserRow
account_for user_id users = elim (find? (λ row. row.id == user_id) users) [
  | none ↦ fail 403 "Verify your phone using OTP login before posting a property."
  | some row ↦
      if is_empty row.phone || not row.is_verified || not (role_eq row.role user)
      then fail 403 "Verify your phone using OTP login before posting a property."
      else ok row
]

abbrev pub is_draft_of : Text → PropertyDraft → Bool
is_draft_of phone draft = draft.phone =t phone

-- `findOne` by the phone, and `?.payload ?? null`
unfoldable pub payload_for : Text → List PropertyDraft → Option Text
payload_for phone [] = none
payload_for phone (draft ∷ drafts) =
    let rest = payload_for phone drafts in
    if is_draft_of phone draft then some draft.payload else rest

-- `getDraft`
unfoldable pub get_draft : ℕ → List UserRow → DraftTable → Outcome (Option Text)
unfolding account_for payload_for
get_draft user_id users db = elim (account_for user_id users) [
  | fail status message ↦ fail status message
  | ok row ↦ ok (payload_for row.phone db.rows)
]

-- `Buffer.byteLength(…, 'utf8')`
unfoldable pub utf8_length : Text → ℕ
utf8_length [] = 0
utf8_length (c ∷ s) =
    (if ltb c 128 then 1 else if ltb c 2048 then 2 else if ltb c 65536 then 3 else 4)
    + utf8_length s

-- `upsert` by the phone
unfoldable pub upsert_draft : Text → Text → DraftTable → DraftTable
upsert_draft phone payload db =
    if any (is_draft_of phone) db.rows
    then record db {
      rows = update_where (is_draft_of phone) (λ draft. record draft { payload = payload }) db.rows;
    }
    else record {
      rows = record { id = db.next_id; phone = phone; payload = payload } ∷ db.rows;
      next_id = db.next_id + 1;
    }

-- `saveDraft`
unfoldable pub save_draft : ℕ → Text → List UserRow → DraftTable → Outcome Bool × DraftTable
unfolding account_for utf8_length upsert_draft
save_draft user_id payload users db = elim (account_for user_id users) [
  | fail status message ↦ (fail status message, db)
  | ok row ↦
      if ltb 100000 (utf8_length payload)
      then (fail 400 "Your draft is too large. Use shorter text and up to 20 photos.", db)
      else (ok true, upsert_draft row.phone payload db)
]

-- The files of a request that are not the user's own
unfoldable pub has_foreign_media : ℕ → SubmitOwnerProperty → Bool
unfolding is_owner_media_key
has_foreign_media user_id dto =
    any (λ key. not (is_owner_media_key user_id key)) dto.files
    || any (λ plan. not (is_owner_media_key user_id plan.file_key)) dto.floor_plans

abbrev pub submission : ℕ → Text → UserRow → OwnerPayload → Submission
submission user_id property_type row payload = record {
  property_type = property_type;
  payload = payload;
  status = codes "available";
  verification_status = codes "Pending";
  approval_status = codes "Pending";
  source = codes "owner-post";
  owner_id = user_id;
  owner_name = row.name;
  owner_email = row.email;
  owner_phone = row.phone;
  brokerage_type = codes "no_brokerage";
}

-- The state of a submission: the drafts, and the properties that were created so far.
pub record SubmitDb : Type 0 where
  pub drafts : DraftTable
  pub properties : List Submission

abbrev pub delete_draft : SubmitEnv → Text → DraftTable → DraftTable
delete_draft env phone db =
    if env.deletes_draft
    then record db { rows = filter (λ draft. not (is_draft_of phone draft)) db.rows }
    else db

-- `submit` once the payload and the files are admitted
unfoldable pub create_submission :
    SubmitEnv → UserRow → Submission → SubmitDb → Outcome Submitted × SubmitDb
create_submission env row request db = elim (env.create_property request) [
  | fail status message ↦ (fail status message, db)
  | ok created ↦ (
    ok (record { created = created; approval_status = codes "Pending" }),
    record { drafts = delete_draft env row.phone db.drafts; properties = request ∷ db.properties },
  )
]

-- `submit`
unfoldable pub submit :
    SubmitEnv
    → ℕ
    → Text
    → SubmitOwnerProperty
    → List UserRow
    → SubmitDb
    → Outcome Submitted × SubmitDb
unfolding account_for owner_payload has_foreign_media create_submission
submit env user_id property_type dto users db = elim (account_for user_id users) [
  | fail status message ↦ (fail status message, db)
  | ok row ↦ elim (owner_payload property_type dto) [
    | fail status message ↦ (fail status message, db)
    | ok payload ↦
        if has_foreign_media user_id dto
        then (
          fail 400
              "Use files uploaded from your own account. Please remove and upload this file again.",
          db,
        )
        else create_submission env row (submission user_id property_type row payload) db
  ]
]
