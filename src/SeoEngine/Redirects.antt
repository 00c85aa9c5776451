-- ===== src/SeoEngine/Redirects.antt =====
-- src/modules/seo-engine/seo-engine.service.ts `saveRedirect` and `removeRedirect`: the redirects that the
-- editors keep in seo_redirects.
pub mod Chains
pub mod Ends
mod Tests
use majestan_backend.Prelude.{
  ℕ, zero, suc, ◌+◌, Bool, true, false, not, ◌&&◌, Option, none, some, List, [], ◌∷◌, String, ◌==◌,
  if◌then◌else◌, any, filter, find?, update_where,
}
use majestan_backend.Prelude.Text.{Text, codes, ◌=t◌, is_empty}
use majestan_backend.Http.{Outcome, ok, fail}
use majestan_backend.SeoEngine.{path_value}

-- A row of seo_redirects
pub record SeoRedirect : Type 0 where
  pub id : ℕ
  pub source_path : Text
  pub destination_path : Text
  pub reason : Text
  pub is_active : Bool

pub record RedirectTable : Type 0 where
  pub rows : List SeoRedirect
  pub next_id : ℕ

-- The body of `saveRedirect`: a path that is no string is `none`; `is_active` is whether it is neither
-- `false` nor 0.
pub record RedirectBody : Type 0 where
  pub source_path : Option Text
  pub destination_path : Option Text
  pub reason : Text
  pub is_active : Bool

-- `SELECT destination_path FROM seo_redirects WHERE source_path=? AND is_active=1`
unfoldable pub next_path : Text → List SeoRedirect → Option Text
next_path path [] = none
next_path path (row ∷ rows) =
    let rest = next_path path rows in
    if row.source_path =t path && row.is_active then some row.destination_path else rest

-- The loop of `persistRedirect`, with the rounds that are left: what it throws.
unfoldable pub check_chain : ℕ → Text → Text → List SeoRedirect → Option String
unfolding next_path
check_chain zero source path rows = some "Redirect chain is too long"
check_chain (suc rounds) source path rows =
    if path =t source then some "This redirect creates a loop" else elim (next_path path rows) [
      | none ↦ none
      | some next ↦ check_chain rounds source next rows
    ]

abbrev pub is_source : Text → SeoRedirect → Bool
is_source path row = row.source_path =t path

-- The assignments of `ON DUPLICATE KEY UPDATE`
abbrev pub overwrite : SeoRedirect → SeoRedirect → SeoRedirect
overwrite new row = record row {
  destination_path = new.destination_path;
  reason = new.reason;
  is_active = new.is_active;
}

-- `INSERT … ON DUPLICATE KEY UPDATE`
unfoldable pub upsert_redirect : SeoRedirect → List SeoRedirect → List SeoRedirect
upsert_redirect new rows =
    if any (is_source new.source_path) rows
    then update_where (is_source new.source_path) (overwrite new) rows
    else new ∷ rows

abbrev pub new_redirect : ℕ → Text → Text → RedirectBody → SeoRedirect
new_redirect id source dest body = record {
  id = id;
  source_path = source;
  destination_path = dest;
  reason = if is_empty body.reason then codes "manual" else body.reason;
  is_active = body.is_active;
}

abbrev pub written : SeoRedirect → RedirectTable → RedirectTable
written new db = record { rows = upsert_redirect new db.rows; next_id = db.next_id + 1 }

-- The part of `persistRedirect` behind the two paths; `is_known` is whether a path is a public page.
unfoldable pub save_checked :
    (Text → Bool)
    → Text
    → Text
    → RedirectBody
    → RedirectTable
    → Outcome (Option SeoRedirect) × RedirectTable
unfolding check_chain upsert_redirect
save_checked is_known source dest body db =
    if source =t dest
    then (fail 400 "Source and destination must differ", db)
    else elim (check_chain 100 source dest db.rows) [
      | some message ↦ (fail 400 message, db)
      | none ↦
          if not (is_known dest)
          then (fail 400 "Destination must be an existing public page", db)
          else let after = written (new_redirect db.next_id source dest body) db in
            (ok (find? (is_source source) after.rows), after)
    ]

-- `saveRedirect`
unfoldable pub save_redirect :
    (Text → Bool) → RedirectBody → RedirectTable → Outcome (Option SeoRedirect) × RedirectTable
unfolding path_value save_checked
save_redirect is_known body db = elim (path_value body.source_path) [
  | fail status message ↦ (fail status message, db)
  | ok source ↦ elim (path_value body.destination_path) [
    | fail status message ↦ (fail status message, db)
    | ok dest ↦ save_checked is_known source dest body db
  ]
]

-- `removeRedirect`
unfoldable pub remove_redirect : ℕ → RedirectTable → RedirectTable
remove_redirect id db = record db { rows = filter (λ row. not (row.id == id)) db.rows }
