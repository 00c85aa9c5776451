-- ===== src/OwnerPost/Drafts/Submit.antt =====
-- What a submission needs, and what it leaves.
use majestan_backend.Prelude.{
  String, ℕ, Bool, [], any, map, All, true, false, not, ◌||◌, some, List, ◌∷◌, ◌==◌, ◌≡◌, ◌⊎◌, refl,
  arith, find?, Bool-cases, Option-cases, inl, inr,
}
use majestan_backend.Prelude.Text.{Text, codes, is_empty}
use majestan_backend.Http.{ok, fail, Outcome-cases}
use majestan_backend.Auth.Guards.{user, role_eq}
use majestan_backend.Auth.Users.{UserRow}
use majestan_backend.OwnerPost.Policy.{
  FloorPlan, SubmitOwnerProperty, OwnerPayload, owner_payload, document, payload_of,
}
use majestan_backend.OwnerPost.Policy.Laws.{owner_payload_ok}
use majestan_backend.OwnerPost.Media.{is_owner_media_key}
use majestan_backend.OwnerPost.Drafts.{
  Submission, Created, Submitted, SubmitEnv, SubmitDb, account_for, has_foreign_media, submission,
  delete_draft, create_submission, submit,
}

-- An account that is admitted is the user's row: it has a phone, is verified, and has the role `user`.
pub account_for_cases :
    (user_id : ℕ) (users : List UserRow) (row : UserRow)
    → account_for user_id users ≡ ok row
    → (find? (λ r. r.id == user_id) users ≡ some row)
      × (is_empty row.phone ≡ false)
      × (row.is_verified ≡ true)
      × (role_eq row.role user ≡ true)
unfolding account_for
account_for_cases user_id users row h = elim (Option-cases (find? (λ r. r.id == user_id) users)) [
  | inl none' ↦
      let h' : fail 403 "Verify your phone using OTP login before posting a property." ≡ ok row =
        rw (none', account_for) at h in
      absurd (ground arith)
  | inr (found, e) ↦
      elim (Bool-cases
        (is_empty found.phone || not found.is_verified || not (role_eq found.role user))) [
          | inl bad ↦
              let h' : fail 403 "Verify your phone using OTP login before posting a property."
                  ≡ ok row =
                rw (e, bad, account_for) at h in
              absurd (ground arith)
          | inr good ↦
              let h' : ok found ≡ ok row = rw (e, good, account_for) at h in
              let same : found ≡ row = ground arith in
              let g : (is_empty row.phone || not row.is_verified || not (role_eq row.role user))
                  ≡ false =
                rw same at good in
              (rw same at e, ground arith, ground arith, ground arith)
        ]
]

-- A submission is refused and changes nothing, or it is admitted in every way and creates a property.
pub submit_cases :
    (env : SubmitEnv) (user_id : ℕ) (property_type : Text) (dto : SubmitOwnerProperty)
    (users : List UserRow) (db : SubmitDb)
    → ((status : ℕ) × (message : String) × (submit env user_id property_type dto users db
          ≡ (fail status message, db)))
      ⊎ ((row : UserRow) × (payload : OwnerPayload) × (created : Created) × (account_for user_id
              users
            ≡ ok row)
          × (owner_payload property_type dto ≡ ok payload)
          × (has_foreign_media user_id dto ≡ false)
          × (submit env user_id property_type dto users db ≡ (
            ok (record { created = created; approval_status = codes "Pending" }),
            record {
              drafts = delete_draft env row.phone db.drafts;
              properties = submission user_id property_type row payload ∷ db.properties;
            },
          )))
unfolding submit
submit_cases env user_id property_type dto users db =
    elim (Outcome-cases (account_for user_id users)) [
      | inl (status, message, e) ↦ inl (status, message, rw (e, submit) refl)
      | inr (row, e) ↦ elim (Outcome-cases (owner_payload property_type dto)) [
        | inl (status, message, f) ↦ inl (status, message, rw (e, f, submit) refl)
        | inr (payload, f) ↦ elim (Bool-cases (has_foreign_media user_id dto)) [
          | inl foreign ↦ inl (
            400,
            "Use files uploaded from your own account. Please remove and upload this file again.",
            rw (e, f, foreign, submit) refl,
          )
          | inr own ↦
              let request = submission user_id property_type row payload in
              elim (Outcome-cases (env.create_property request)) [
                | inl (status, message, g) ↦
                    inl (status, message, rw (e, f, own, submit) (rw (g, create_submission) refl))
                | inr (created, g) ↦ inr (
                  row,
                  payload,
                  created,
                  e,
                  f,
                  own,
                  rw (e, f, own, submit) (rw (g, create_submission) refl),
                )
              ]
        ]
      ]
    ]

-- A refused submission creates no property and deletes no draft.
pub submit_refused :
    (env : SubmitEnv) (user_id : ℕ) (property_type : Text) (dto : SubmitOwnerProperty)
    (users : List UserRow) (db : SubmitDb) (status : ℕ) (message : String)
    → (submit env user_id property_type dto users db).0 ≡ fail status message
    → (submit env user_id property_type dto users db).1 ≡ db
submit_refused env user_id property_type dto users db status message h =
    elim (submit_cases env user_id property_type dto users db) [
      | inl (s, m, e) ↦ rw e refl
      | inr (row, payload, created, a, p, m, e) ↦ absurd (ground arith)
    ]

All_of_none :
    {A : Type 0} (p : A → Bool) (xs : List A)
    → any (λ x. not (p x)) xs ≡ false
    → All (λ x. p x ≡ true) xs
All_of_none p [] h = tt
All_of_none p (x ∷ xs) h = (ground arith, All_of_none p xs (ground arith))

All-map-document :
    (user_id : ℕ) (plans : List FloorPlan)
    → All (λ plan. is_owner_media_key user_id plan.file_key ≡ true) plans
    → All (λ file. is_owner_media_key user_id file.file_key ≡ true) (map document plans)
All-map-document user_id [] h = tt
All-map-document user_id (plan ∷ plans) (h, hs) = (h, All-map-document user_id plans hs)

-- Every photo and every floor plan of a payload has a key of the user.
abbrev pub OwnFiles : ℕ → OwnerPayload → Type 0
OwnFiles user_id payload =
    All (λ key. is_owner_media_key user_id key ≡ true) payload.files
    × All (λ file. is_owner_media_key user_id file.file_key ≡ true) payload.documents

own_files :
    (user_id : ℕ) (property_type : Text) (dto : SubmitOwnerProperty) (payload : OwnerPayload)
    → owner_payload property_type dto ≡ ok payload
    → has_foreign_media user_id dto ≡ false
    → OwnFiles user_id payload
unfolding has_foreign_media payload_of
own_files user_id property_type dto payload h own =
    let (fine, good, same) = owner_payload_ok property_type dto payload h in
    let photos = All_of_none (is_owner_media_key user_id) dto.files (ground arith) in
    let plans =
      All_of_none (λ (plan : FloorPlan). is_owner_media_key user_id plan.file_key) dto.floor_plans
        (ground arith) in
    rw same (photos, All-map-document user_id dto.floor_plans plans)

-- The property awaits approval, was posted by an owner, and belongs to the account of the row.
abbrev pub AwaitsApproval : ℕ → UserRow → Submission → Type 0
AwaitsApproval user_id row property =
    (property.approval_status ≡ codes "Pending")
    × (property.verification_status ≡ codes "Pending")
    × (property.status ≡ codes "available")
    × (property.source ≡ codes "owner-post")
    × (property.owner_id ≡ user_id)
    × (property.owner_name ≡ row.name)
    × (property.owner_email ≡ row.email)
    × (property.owner_phone ≡ row.phone)

-- An accepted submission is from a verified account with the role `user` that has a phone, and creates
-- one property of the requested type: it has the payload of the policy, all its photos and floor plans
-- have keys of that account, its approval and its verification are pending, also in the answer, and it
-- belongs to the account.
pub submit_sound :
    (env : SubmitEnv) (user_id : ℕ) (property_type : Text) (dto : SubmitOwnerProperty)
    (users : List UserRow) (db : SubmitDb) (answer : Submitted)
    → (submit env user_id property_type dto users db).0 ≡ ok answer
    → (row : UserRow) × (property : Submission) × (find? (λ r. r.id == user_id) users ≡ some row)
      × (is_empty row.phone ≡ false)
      × (row.is_verified ≡ true)
      × (role_eq row.role user ≡ true)
      × ((submit env user_id property_type dto users db).1.properties ≡ property ∷ db.properties)
      × (property.property_type ≡ property_type)
      × (owner_payload property_type dto ≡ ok property.payload)
      × OwnFiles user_id property.payload
      × AwaitsApproval user_id row property
      × (answer.approval_status ≡ codes "Pending")
submit_sound env user_id property_type dto users db answer h =
    elim (submit_cases env user_id property_type dto users db) [
      | inl (s, m, e) ↦ absurd (ground arith)
      | inr (row, payload, created, a, p, m, e) ↦
          let (found, phone, verified, role) = account_for_cases user_id users row a in
          let pending : answer.approval_status ≡ codes "Pending" = ground arith in
          let own = own_files user_id property_type dto payload p m in
          (
            row,
            submission user_id property_type row payload,
            found,
            phone,
            verified,
            role,
            rw e refl,
            refl,
            p,
            own,
            (refl, refl, refl, refl, refl, refl, refl, refl),
            pending,
          )
    ]
