-- ===== src/SeoEngine/Redirects/Ends.antt =====
-- The redirects that the editors keep never lead in a circle.
use majestan_backend.Prelude.{
  ℕ, zero, suc, Bool, false, not, none, some, List, [], ◌∷◌, ◌==◌, ◌≡◌, ◌⊎◌, refl, sym, ◌∙◌, arith,
  any, filter, update_where, Bool-cases, Option-cases, inl, inr,
}
use majestan_backend.Prelude.Text.{Text, ◌=t◌, =t_iff}
use mathlib.Core.Path.{subst}
use majestan_backend.Http.{Outcome-cases}
use majestan_backend.SeoEngine.{path_value}
use majestan_backend.SeoEngine.Redirects.{
  SeoRedirect, RedirectTable, RedirectBody, next_path, check_chain, is_source, overwrite,
  upsert_redirect, new_redirect, written, save_checked, save_redirect, remove_redirect,
}
use majestan_backend.SeoEngine.Redirects.Chains.{
  follow, EndsAt, next_path-none, follow_none, follow_some, EndsAt-upsert_redirect,
  check_chain-EndsAt,
}

-- No two rows have a source, as the unique index of the table has it.
abbrev pub IsDistinct : List SeoRedirect → Type 0
IsDistinct [] = Unit {0}
IsDistinct (row ∷ rows) = (any (is_source row.source_path) rows ≡ false) × IsDistinct rows

pub record IsFlowing (rows : List SeoRedirect) : Type 0 where
  pub distinct : IsDistinct rows
  pub ends : (path : Text) → EndsAt path rows

any-overwrite :
    (path source : Text) (new : SeoRedirect) (rows : List SeoRedirect)
    → any (is_source path) (update_where (is_source source) (overwrite new) rows)
      ≡ any (is_source path) rows
any-overwrite path source new [] = refl
any-overwrite path source new (row ∷ rows) =
    let rest = any-overwrite path source new rows in
    elim (Bool-cases (row.source_path =t source)) [
      | inl same ↦ rw (same, rest) refl
      | inr other ↦ rw (other, rest) refl
    ]

IsDistinct-overwrite :
    (source : Text) (new : SeoRedirect) (rows : List SeoRedirect)
    → IsDistinct rows
    → IsDistinct (update_where (is_source source) (overwrite new) rows)
IsDistinct-overwrite source new [] d = tt
IsDistinct-overwrite source new (row ∷ rows) (fresh, d) =
    let rest = IsDistinct-overwrite source new rows d in
    let kept = any-overwrite row.source_path source new rows ∙ fresh in
    elim (Bool-cases (row.source_path =t source)) [
      | inl same ↦ rw same (kept, rest)
      | inr other ↦ rw other (kept, rest)
    ]

IsDistinct-upsert_redirect :
    (new : SeoRedirect) (rows : List SeoRedirect)
    → IsDistinct rows
    → IsDistinct (upsert_redirect new rows)
unfolding upsert_redirect
IsDistinct-upsert_redirect new rows d = elim (Bool-cases (any (is_source new.source_path) rows)) [
  | inl some_row ↦ rw some_row (IsDistinct-overwrite new.source_path new rows d)
  | inr no_row ↦ rw (no_row, no_row) (refl, d)
]

any-filter :
    (p keep : SeoRedirect → Bool) (rows : List SeoRedirect)
    → any p rows ≡ false
    → any p (filter keep rows) ≡ false
any-filter p keep [] h = refl
any-filter p keep (row ∷ rows) h = ground (arith, any-filter p keep rows)

IsDistinct-filter :
    (keep : SeoRedirect → Bool) (rows : List SeoRedirect)
    → IsDistinct rows
    → IsDistinct (filter keep rows)
IsDistinct-filter keep [] d = tt
IsDistinct-filter keep (row ∷ rows) (fresh, d) = elim (Bool-cases (keep row)) [
  | inl kept ↦
      rw kept
        (any-filter (is_source row.source_path) keep rows fresh, IsDistinct-filter keep rows d)
  | inr gone ↦ rw gone (IsDistinct-filter keep rows d)
]

-- Without some rows a path leads where it led, or nowhere.
next_path-filter :
    (path : Text) (keep : SeoRedirect → Bool) (rows : List SeoRedirect)
    → IsDistinct rows
    → (next_path path (filter keep rows) ≡ none)
      ⊎ (next_path path (filter keep rows) ≡ next_path path rows)
unfolding next_path
next_path-filter path keep [] d = inl refl
next_path-filter path keep (row ∷ rows) (fresh, d) =
    let rest = next_path-filter path keep rows d in
    elim (Bool-cases (row.source_path =t path)) [
      | inl same ↦
          let no_other =
            subst (λ p. any (is_source p) rows ≡ false) ((=t_iff row.source_path path).0 same)
              fresh in
          let none_left =
            next_path-none path (filter keep rows)
              (any-filter (is_source path) keep rows no_other) in
          elim (Bool-cases (keep row)) [
            | inl kept ↦ rw (kept, same, none_left, next_path-none path rows no_other) (inr refl)
            | inr gone ↦ rw gone (inl none_left)
          ]
      | inr other ↦ elim (Bool-cases (keep row)) [
        | inl kept ↦ rw (kept, other) rest
        | inr gone ↦ rw (gone, other) rest
      ]
    ]

EndsAt-filter :
    (steps : ℕ) (path last : Text) (keep : SeoRedirect → Bool) (rows : List SeoRedirect)
    → IsDistinct rows
    → follow steps path rows ≡ some last
    → EndsAt path (filter keep rows)
unfolding follow
EndsAt-filter zero path last keep rows d h = absurd (ground arith)
EndsAt-filter (suc steps) path last keep rows d h = elim (next_path-filter path keep rows d) [
  | inl gone ↦ follow_none path (filter keep rows) gone
  | inr kept ↦ elim (Option-cases (next_path path rows)) [
    | inl stop ↦ follow_none path (filter keep rows) (kept ∙ stop)
    | inr (next, e) ↦
        let step : follow (suc steps) path rows ≡ follow steps next rows = rw (e, follow) refl in
        follow_some path next (filter keep rows) (kept ∙ e)
          (EndsAt-filter steps next last keep rows d (sym step ∙ h))
  ]
]

pub data RedirectRequest : Type 0 where
  write : RedirectBody → RedirectRequest
  remove : ℕ → RedirectRequest

unfoldable pub handle_redirect : (Text → Bool) → RedirectRequest → RedirectTable → RedirectTable
unfolding save_redirect remove_redirect
handle_redirect is_known (write body) db = (save_redirect is_known body db).1
handle_redirect is_known (remove id) db = remove_redirect id db

unfoldable pub handle_redirects :
    (Text → Bool) → List RedirectRequest → RedirectTable → RedirectTable
unfolding handle_redirect
handle_redirects is_known [] db = db
handle_redirects is_known (request ∷ requests) db =
    handle_redirects is_known requests (handle_redirect is_known request db)

IsFlowing-written :
    (new : SeoRedirect) (db : RedirectTable)
    → check_chain 100 new.source_path new.destination_path db.rows ≡ none
    → IsFlowing db.rows
    → IsFlowing (written new db).rows
IsFlowing-written new db checked valid =
    let dest = check_chain-EndsAt 100 new.destination_path new db.rows checked in
    record {
      distinct = IsDistinct-upsert_redirect new db.rows valid.distinct;
      ends = λ path.
          let (steps, last, e) = valid.ends path in
          EndsAt-upsert_redirect steps path last new db.rows dest e;
    }

save_checked-IsFlowing :
    (is_known : Text → Bool) (source dest : Text) (body : RedirectBody) (db : RedirectTable)
    → IsFlowing db.rows
    → IsFlowing (save_checked is_known source dest body db).1.rows
unfolding save_checked
save_checked-IsFlowing is_known source dest body db valid = elim (Bool-cases (source =t dest)) [
  | inl same ↦ rw (same, save_checked) valid
  | inr other ↦ elim (Option-cases (check_chain 100 source dest db.rows)) [
    | inr (message, e) ↦ rw (other, e, save_checked) valid
    | inl checked ↦ elim (Bool-cases (is_known dest)) [
      | inr unknown ↦ rw (other, checked, unknown, save_checked) valid
      | inl known ↦
          rw (other, checked, known, save_checked)
            (IsFlowing-written (new_redirect db.next_id source dest body) db checked valid)
    ]
  ]
]

save_redirect-IsFlowing :
    (is_known : Text → Bool) (body : RedirectBody) (db : RedirectTable)
    → IsFlowing db.rows
    → IsFlowing (save_redirect is_known body db).1.rows
unfolding save_redirect
save_redirect-IsFlowing is_known body db valid =
    elim (Outcome-cases (path_value body.source_path)) [
      | inl (status, message, e) ↦ rw (e, save_redirect) valid
      | inr (source, e) ↦ elim (Outcome-cases (path_value body.destination_path)) [
        | inl (status, message, k) ↦ rw (e, k, save_redirect) valid
        | inr (dest, k) ↦
            rw (e, k, save_redirect) (save_checked-IsFlowing is_known source dest body db valid)
      ]
    ]

remove_redirect-IsFlowing :
    (id : ℕ) (db : RedirectTable) → IsFlowing db.rows → IsFlowing (remove_redirect id db).rows
unfolding remove_redirect
remove_redirect-IsFlowing id db valid = record {
  distinct = IsDistinct-filter (λ row. not (row.id == id)) db.rows valid.distinct;
  ends = λ path.
      let (steps, last, e) = valid.ends path in
      EndsAt-filter steps path last (λ row. not (row.id == id)) db.rows valid.distinct e;
}

handle_redirects-IsFlowing :
    (is_known : Text → Bool) (requests : List RedirectRequest) (db : RedirectTable)
    → IsFlowing db.rows
    → IsFlowing (handle_redirects is_known requests db).rows
unfolding handle_redirects
handle_redirects-IsFlowing is_known [] db valid = valid
handle_redirects-IsFlowing is_known (write body ∷ requests) db valid =
    handle_redirects-IsFlowing is_known requests (handle_redirect is_known (write body) db)
      (save_redirect-IsFlowing is_known body db valid)
handle_redirects-IsFlowing is_known (remove id ∷ requests) db valid =
    handle_redirects-IsFlowing is_known requests (handle_redirect is_known (remove id) db)
      (remove_redirect-IsFlowing id db valid)

-- After any requests on a table in which no two rows have a source and following the active redirects from
-- any path ends, following them still ends from every path: no redirect leads in a circle.
pub handle_redirects_end :
    (is_known : Text → Bool) (requests : List RedirectRequest) (db : RedirectTable)
    → IsFlowing db.rows
    → (path : Text) → EndsAt path (handle_redirects is_known requests db).rows
handle_redirects_end is_known requests db valid path =
    (handle_redirects-IsFlowing is_known requests db valid).ends path
