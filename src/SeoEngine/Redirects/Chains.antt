-- ===== src/SeoEngine/Redirects/Chains.antt =====
-- Where the redirects lead after one is written.
use majestan_backend.Prelude.{
  String, ℕ, zero, suc, true, false, Option, none, some, List, [], ◌∷◌, ◌≡◌, ◌⊎◌, refl, sym, ◌∙◌,
  arith, any, update_where, Bool-cases, Option-cases, inl, inr,
}
use majestan_backend.Prelude.Text.{Text, ◌=t◌, =t_iff, =t_refl}
use mathlib.Core.Path.{subst}
use majestan_backend.SeoEngine.Redirects.{
  SeoRedirect, next_path, check_chain, is_source, overwrite, upsert_redirect,
}

-- Following the redirects from a path, for a number of steps: the path at which they end.
unfoldable pub follow : ℕ → Text → List SeoRedirect → Option Text
follow zero path rows = none
follow (suc steps) path rows = elim (next_path path rows) [
  | none ↦ some path
  | some next ↦ follow steps next rows
]

abbrev pub EndsAt : Text → List SeoRedirect → Type 0
EndsAt path rows = (steps : ℕ) × (last : Text) × (follow steps path rows ≡ some last)

pub follow_none :
    (path : Text) (rows : List SeoRedirect) → next_path path rows ≡ none → EndsAt path rows
unfolding follow
follow_none path rows h = (1, path, rw (h, follow) refl)

pub follow_some :
    (path next : Text) (rows : List SeoRedirect)
    → next_path path rows ≡ some next
    → EndsAt next rows
    → EndsAt path rows
unfolding follow
follow_some path next rows h (steps, last, e) = (suc steps, last, rw (h, follow) e)

next_path-overwrite_other :
    (path : Text) (new : SeoRedirect) (rows : List SeoRedirect)
    → (path =t new.source_path) ≡ false
    → next_path path (update_where (is_source new.source_path) (overwrite new) rows)
      ≡ next_path path rows
unfolding next_path
next_path-overwrite_other path new [] h = refl
next_path-overwrite_other path new (row ∷ rows) h =
    let rest = next_path-overwrite_other path new rows h in
    elim (Bool-cases (row.source_path =t new.source_path)) [
      | inl same ↦
          let no_match : (row.source_path =t path) ≡ false = other row.source_path same in
          rw (same, no_match) rest
      | inr other' ↦ rw (other', rest) refl
    ]
  where
    other : (s : Text) → (s =t new.source_path) ≡ true → (s =t path) ≡ false
    other s same = elim (Bool-cases (s =t path)) [
      | inl here ↦ absurd (
          let e = (=t_iff s new.source_path).0 same in
          let k = (=t_iff s path).0 here in
          let yes' = (=t_iff path new.source_path).1 (sym k ∙ e) in ground (arith, yes', h))
      | inr no' ↦ no'
    ]

next_path-upsert_other :
    (path : Text) (new : SeoRedirect) (rows : List SeoRedirect)
    → (path =t new.source_path) ≡ false
    → next_path path (upsert_redirect new rows) ≡ next_path path rows
unfolding upsert_redirect next_path
next_path-upsert_other path new rows h = elim (Bool-cases (any (is_source new.source_path) rows)) [
  | inl some_row ↦ rw some_row (next_path-overwrite_other path new rows h)
  | inr no_row ↦ let no_match = flip path new.source_path h in rw (no_row, no_match) refl
]
  where
    flip : (s t : Text) → (s =t t) ≡ false → (t =t s) ≡ false
    flip s t no' = elim (Bool-cases (t =t s)) [
      | inl here ↦
          absurd
            (let yes' = (=t_iff s t).1 (sym ((=t_iff t s).0 here)) in ground (arith, yes', no'))
      | inr other ↦ other
    ]

-- From the source that was written the redirect leads to its destination, or nowhere.
next_path-overwrite_here :
    (new : SeoRedirect) (rows : List SeoRedirect)
    → (next_path new.source_path (update_where (is_source new.source_path) (overwrite new) rows)
        ≡ none)
      ⊎ (next_path new.source_path (update_where (is_source new.source_path) (overwrite new) rows)
          ≡ some new.destination_path)
unfolding next_path
next_path-overwrite_here new [] = inl refl
next_path-overwrite_here new (row ∷ rows) =
    let rest = next_path-overwrite_here new rows in
    elim (Bool-cases (row.source_path =t new.source_path)) [
      | inl same ↦ elim (Bool-cases new.is_active) [
        | inl on ↦ inr (rw (same, same, on) refl)
        | inr off ↦ rw (same, same, off) rest
      ]
      | inr other ↦ rw (other, other) rest
    ]

pub next_path-none :
    (path : Text) (rows : List SeoRedirect)
    → any (is_source path) rows ≡ false
    → next_path path rows ≡ none
unfolding next_path
next_path-none path [] h = refl
next_path-none path (row ∷ rows) h =
    let no_match : is_source path row ≡ false = ground arith in
    rw no_match (next_path-none path rows (ground arith))

next_path-upsert_here :
    (new : SeoRedirect) (rows : List SeoRedirect)
    → (next_path new.source_path (upsert_redirect new rows) ≡ none)
      ⊎ (next_path new.source_path (upsert_redirect new rows) ≡ some new.destination_path)
unfolding upsert_redirect next_path
next_path-upsert_here new rows = elim (Bool-cases (any (is_source new.source_path) rows)) [
  | inl some_row ↦ rw some_row (next_path-overwrite_here new rows)
  | inr no_row ↦
      rw (no_row, =t_refl new.source_path, next_path-none new.source_path rows no_row)
        (elim (Bool-cases new.is_active) [
          | inl on ↦ rw on (inr refl)
          | inr off ↦ rw off (inl refl)
        ])
]

-- A chain that the check lets pass is the same after the write, and ends.
pub check_chain-EndsAt :
    (rounds : ℕ) (path : Text) (new : SeoRedirect) (rows : List SeoRedirect)
    → check_chain rounds new.source_path path rows ≡ none
    → EndsAt path (upsert_redirect new rows)
unfolding check_chain
check_chain-EndsAt zero path new rows h = absurd (ground arith)
check_chain-EndsAt (suc rounds) path new rows h = elim (Bool-cases (path =t new.source_path)) [
  | inl loop ↦ absurd (
      let thrown : check_chain (suc rounds) new.source_path path rows
          ≡ some "This redirect creates a loop" =
        rw (loop, check_chain) refl in
      is_thrown (sym thrown ∙ h))
  | inr other ↦
      let kept = next_path-upsert_other path new rows other in
      elim (Option-cases (next_path path rows)) [
        | inl stop ↦ follow_none path (upsert_redirect new rows) (kept ∙ stop)
        | inr (next, e) ↦
            let step : check_chain (suc rounds) new.source_path path rows
                ≡ check_chain rounds new.source_path next rows =
              rw (other, e, check_chain) refl in
            follow_some path next (upsert_redirect new rows) (kept ∙ e)
              (check_chain-EndsAt rounds next new rows (sym step ∙ h))
      ]
]
  where
    is_thrown : {s : String} → some s ≡ none → ⊥
    is_thrown h = ground arith

-- After an accepted write following the redirects ends wherever it ended before.
pub EndsAt-upsert_redirect :
    (steps : ℕ) (path last : Text) (new : SeoRedirect) (rows : List SeoRedirect)
    → EndsAt new.destination_path (upsert_redirect new rows)
    → follow steps path rows ≡ some last
    → EndsAt path (upsert_redirect new rows)
unfolding follow
EndsAt-upsert_redirect zero path last new rows dest h = absurd (ground arith)
EndsAt-upsert_redirect (suc steps) path last new rows dest h =
    elim (Bool-cases (path =t new.source_path)) [
      | inl here ↦
          subst (λ p. EndsAt p (upsert_redirect new rows))
            (sym ((=t_iff path new.source_path).0 here))
            (elim (next_path-upsert_here new rows) [
              | inl stop ↦ follow_none new.source_path (upsert_redirect new rows) stop
              | inr on ↦
                  follow_some new.source_path new.destination_path (upsert_redirect new rows) on
                    dest
            ])
      | inr other ↦
          let kept = next_path-upsert_other path new rows other in
          elim (Option-cases (next_path path rows)) [
            | inl stop ↦ follow_none path (upsert_redirect new rows) (kept ∙ stop)
            | inr (next, e) ↦
                let step : follow (suc steps) path rows ≡ follow steps next rows =
                  rw (e, follow) refl in
                follow_some path next (upsert_redirect new rows) (kept ∙ e)
                  (EndsAt-upsert_redirect steps next last new rows dest (sym step ∙ h))
          ]
    ]
