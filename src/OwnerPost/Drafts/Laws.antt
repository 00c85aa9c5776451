-- ===== src/OwnerPost/Drafts/Laws.antt =====
-- The drafts as a map from phones to payloads, and what a submission does.
use majestan_backend.Prelude.{
  String, ℕ, true, false, not, Option, none, some, List, [], ◌∷◌, ◌==◌, ◌≡◌, ◌⊎◌, refl, ap, ◌∙◌,
  arith, ltb, if◌then◌else◌, find?, any, filter, update_where, Bool-cases, inl, inr,
}
use majestan_backend.Prelude.Text.{Text, ◌=t◌, =t_iff, =t_refl}
use majestan_backend.Http.{ok, fail, Outcome-cases}
use majestan_backend.Auth.Users.{UserRow}
use majestan_backend.OwnerPost.Policy.{SubmitOwnerProperty}
use majestan_backend.OwnerPost.Drafts.{
  PropertyDraft, DraftTable, SubmitEnv, SubmitDb, account_for, is_draft_of, payload_for,
  utf8_length, upsert_draft, save_draft, submit,
}
use majestan_backend.OwnerPost.Drafts.Submit.{account_for_cases, submit_cases}

pub data DraftCall : Type 0 where
  save_call : ℕ → Text → DraftCall
  submit_call : ℕ → Text → SubmitOwnerProperty → DraftCall

-- What a call does to the map: a phone's draft is replaced, or it is gone, or nothing.
pub data DraftEvent : Type 0 where
  set_draft : Text → Text → DraftEvent
  clear_draft : Text → DraftEvent
  nothing : DraftEvent

-- The map after an event
abbrev pub apply_event : DraftEvent → (Text → Option Text) → Text → Option Text
apply_event (set_draft phone payload) drafts other =
    if phone =t other then some payload else drafts other
apply_event (clear_draft phone) drafts other = if phone =t other then none else drafts other
apply_event nothing drafts other = drafts other

abbrev pub phone_of : ℕ → List UserRow → Text
phone_of user_id users = elim (find? (λ row. row.id == user_id) users) [
  | none ↦ []
  | some row ↦ row.phone
]

module _ (env : SubmitEnv) (users : List UserRow) where
  unfoldable pub handle_draft : DraftCall → SubmitDb → SubmitDb
  unfolding save_draft submit
  handle_draft (save_call user_id payload) db = record db {
    drafts = (save_draft user_id payload users db.drafts).1;
  }
  handle_draft (submit_call user_id property_type dto) db =
      (submit env user_id property_type dto users db).1

  -- The event of a call, by its answer
  unfoldable pub event_of : DraftCall → SubmitDb → DraftEvent
  unfolding save_draft submit
  event_of (save_call user_id payload) db = elim (save_draft user_id payload users db.drafts).0 [
    | fail status message ↦ nothing
    | ok saved ↦ set_draft (phone_of user_id users) payload
  ]
  event_of (submit_call user_id property_type dto) db =
      elim (submit env user_id property_type dto users db).0 [
        | fail status message ↦ nothing
        | ok answer ↦ if env.deletes_draft then clear_draft (phone_of user_id users) else nothing
      ]

  unfoldable pub handle_drafts : List DraftCall → SubmitDb → SubmitDb
  unfolding handle_draft
  handle_drafts [] db = db
  handle_drafts (call ∷ calls) db = handle_drafts calls (handle_draft call db)

  unfoldable pub events_of : List DraftCall → SubmitDb → List DraftEvent
  unfolding event_of handle_draft
  events_of [] db = []
  events_of (call ∷ calls) db = event_of call db ∷ events_of calls (handle_draft call db)

abbrev pub apply_events : List DraftEvent → (Text → Option Text) → Text → Option Text
apply_events [] drafts = drafts
apply_events (event ∷ events) drafts = apply_events events (apply_event event drafts)

other_phone :
    (phone other row : Text)
    → (phone =t other) ≡ false
    → (row =t phone) ≡ true
    → (row =t other) ≡ false
other_phone phone other row h k = let same : row ≡ phone = (=t_iff row phone).0 k in rw same h

payload_for-replaced :
    (phone payload : Text) (rows : List PropertyDraft)
    → any (is_draft_of phone) rows ≡ true
    → payload_for phone
        (update_where (is_draft_of phone) (λ draft. record draft { payload = payload }) rows)
      ≡ some payload
unfolding payload_for
payload_for-replaced phone payload [] h = absurd (ground arith)
payload_for-replaced phone payload (row ∷ rows) h = elim (Bool-cases (row.phone =t phone)) [
  | inl here ↦ rw (here, here) refl
  | inr other ↦ rw (other, other) (payload_for-replaced phone payload rows (ground arith))
]

payload_for-kept :
    (phone other payload : Text) (rows : List PropertyDraft)
    → (phone =t other) ≡ false
    → payload_for other
        (update_where (is_draft_of phone) (λ draft. record draft { payload = payload }) rows)
      ≡ payload_for other rows
unfolding payload_for
payload_for-kept phone other payload [] h = refl
payload_for-kept phone other payload (row ∷ rows) h = elim (Bool-cases (row.phone =t phone)) [
  | inl here ↦
      let there = other_phone phone other row.phone h here in
      rw (here, there) (payload_for-kept phone other payload rows h)
  | inr away ↦ elim (Bool-cases (row.phone =t other)) [
    | inl found ↦ rw (away, found) refl
    | inr missing ↦ rw (away, missing) (payload_for-kept phone other payload rows h)
  ]
]

payload_for-filter :
    (phone other : Text) (rows : List PropertyDraft)
    → payload_for other (filter (λ draft. not (is_draft_of phone draft)) rows)
      ≡ (if phone =t other then none else payload_for other rows)
unfolding payload_for
payload_for-filter phone other [] = ground arith
payload_for-filter phone other (row ∷ rows) = elim (Bool-cases (row.phone =t phone)) [
  | inl here ↦
      let same : row.phone ≡ phone = (=t_iff row.phone phone).0 here in
      rw (here, same) (ground (arith, payload_for-filter phone other rows))
  | inr away ↦ elim (Bool-cases (row.phone =t other)) [
    | inl found ↦
        let same : row.phone ≡ other = (=t_iff row.phone other).0 found in
        let no' : (phone =t other) ≡ false = elim (Bool-cases (phone =t other)) [
          | inr different ↦ different
          | inl equal ↦
              absurd (ground (arith, (=t_iff phone other).0 equal, away, same, =t_refl phone))
        ] in
        rw (away, found, no') refl
    | inr missing ↦ rw (away, missing) (payload_for-filter phone other rows)
  ]
]

upsert_draft-payload_for :
    (phone payload other : Text) (db : DraftTable)
    → payload_for other (upsert_draft phone payload db).rows
      ≡ (if phone =t other then some payload else payload_for other db.rows)
unfolding upsert_draft payload_for
upsert_draft-payload_for phone payload other db =
    elim (Bool-cases (any (is_draft_of phone) db.rows)) [
      | inr new ↦ rw (new, upsert_draft) refl
      | inl old ↦ elim (Bool-cases (phone =t other)) [
        | inr different ↦
            rw (old, different, upsert_draft)
              (payload_for-kept phone other payload db.rows different)
        | inl equal ↦
            let same : phone ≡ other = (=t_iff phone other).0 equal in
            rw (old, equal, upsert_draft)
              (rw (← same) (payload_for-replaced phone payload db.rows old))
      ]
    ]

phone_of-account_for :
    (user_id : ℕ) (users : List UserRow) (row : UserRow)
    → account_for user_id users ≡ ok row
    → phone_of user_id users ≡ row.phone
phone_of-account_for user_id users row h =
    ap (λ found. elim found [ none ↦ [] | some r ↦ r.phone ])
      (account_for_cases user_id users row h).0

save_draft_cases :
    (user_id : ℕ) (payload : Text) (users : List UserRow) (db : DraftTable)
    → ((status : ℕ) × (message : String) × (save_draft user_id payload users db
          ≡ (fail status message, db)))
      ⊎ ((row : UserRow) × (account_for user_id users ≡ ok row)
          × (save_draft user_id payload users db ≡ (ok true, upsert_draft row.phone payload db)))
unfolding save_draft
save_draft_cases user_id payload users db = elim (Outcome-cases (account_for user_id users)) [
  | inl (status, message, e) ↦ inl (status, message, rw (e, save_draft) refl)
  | inr (row, e) ↦ elim (Bool-cases (ltb 100000 (utf8_length payload))) [
    | inl large ↦ inl (
      400,
      "Your draft is too large. Use shorter text and up to 20 photos.",
      rw (e, large, save_draft) refl,
    )
    | inr small ↦ inr (row, e, rw (e, small, save_draft) refl)
  ]
]

save_draft-payload_for :
    (env : SubmitEnv) (users : List UserRow) (user_id : ℕ) (payload other : Text) (db : SubmitDb)
    → payload_for other (handle_draft env users (save_call user_id payload) db).drafts.rows
      ≡ apply_event
          (event_of env users (save_call user_id payload) db)
          (λ phone. payload_for phone db.drafts.rows)
          other
unfolding event_of payload_for handle_draft
save_draft-payload_for env users user_id payload other db =
    elim (save_draft_cases user_id payload users db.drafts) [
      | inl (status, message, e) ↦ rw (e, event_of, handle_draft) refl
      | inr (row, a, e) ↦
          rw (e, event_of, handle_draft)
            (rw (phone_of-account_for user_id users row a)
              (upsert_draft-payload_for row.phone payload other db.drafts))
    ]

submit-payload_for :
    (env : SubmitEnv) (users : List UserRow) (user_id : ℕ) (property_type : Text)
    (dto : SubmitOwnerProperty) (other : Text) (db : SubmitDb)
    → payload_for other
        (handle_draft env users (submit_call user_id property_type dto) db).drafts.rows
      ≡ apply_event
          (event_of env users (submit_call user_id property_type dto) db)
          (λ phone. payload_for phone db.drafts.rows)
          other
unfolding handle_draft event_of payload_for
submit-payload_for env users user_id property_type dto other db =
    elim (submit_cases env user_id property_type dto users db) [
      | inl (status, message, e) ↦ rw (e, event_of, handle_draft) refl
      | inr (row, payload, created, a, p, m, e) ↦
          let phone = phone_of-account_for user_id users row a in
          elim (Bool-cases env.deletes_draft) [
            | inl deletes ↦
                rw (e, deletes, event_of, handle_draft)
                  (rw phone (payload_for-filter row.phone other db.drafts.rows))
            | inr keeps ↦ rw (e, keeps, event_of, handle_draft) refl
          ]
    ]

apply_events-congr :
    (events : List DraftEvent) (drafts drafts' : Text → Option Text)
    → ((phone : Text) → drafts phone ≡ drafts' phone)
    → (phone : Text) → apply_events events drafts phone ≡ apply_events events drafts' phone
apply_events-congr [] drafts drafts' same phone = same phone
apply_events-congr (event ∷ events) drafts drafts' same phone =
    apply_events-congr events (apply_event event drafts) (apply_event event drafts')
      (by_event event) phone
  where
    by_event : (e : DraftEvent) (p : Text) → apply_event e drafts p ≡ apply_event e drafts' p
    by_event (set_draft q payload) p = ap (λ o. if q =t p then some payload else o) (same p)
    by_event (clear_draft q) p = ap (λ o. if q =t p then none else o) (same p)
    by_event nothing p = same p

-- The table of the drafts implements a map from phones to payloads: after any calls it answers as the
-- map does on which each accepted save has put the payload under the phone of its user, each accepted
-- submission, if its deletion is carried out, has taken the phone's entry away, and a refused call has
-- done nothing.
pub handle_drafts-apply_events :
    (env : SubmitEnv) (users : List UserRow) (calls : List DraftCall) (db : SubmitDb) (phone : Text)
    → payload_for phone (handle_drafts env users calls db).drafts.rows
      ≡ apply_events
          (events_of env users calls db)
          (λ other. payload_for other db.drafts.rows)
          phone
unfolding handle_drafts events_of
handle_drafts-apply_events env users [] db phone = refl
handle_drafts-apply_events env users (call ∷ calls) db phone =
    handle_drafts-apply_events env users calls (handle_draft env users call db) phone
    ∙ apply_events-congr (events_of env users calls (handle_draft env users call db))
        (λ other. payload_for other (handle_draft env users call db).drafts.rows)
        (apply_event (event_of env users call db) (λ other. payload_for other db.drafts.rows))
        (by_call call) phone
  where
    by_call :
        (c : DraftCall) (other : Text)
        → payload_for other (handle_draft env users c db).drafts.rows
          ≡ apply_event (event_of env users c db) (λ p. payload_for p db.drafts.rows) other
    by_call (save_call user_id payload) other =
        save_draft-payload_for env users user_id payload other db
    by_call (submit_call user_id property_type dto) other =
        submit-payload_for env users user_id property_type dto other db
