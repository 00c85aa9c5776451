-- ===== src/Editorial/Redirects.antt =====
-- The redirects of the blog stay flat: where each path leads after a post moved, and that no redirect
-- leads to the source of another.
use majestan_backend.Prelude.{
  false, not, ◌&&◌, Option, none, some, List, [], ◌∷◌, ◌≡◌, ◌≢◌, ◌⊎◌, refl, arith, sym, ap, ◌∙◌,
  if◌then◌else◌, any, filter, update_where, All, All-update_where, All-filter, Bool-cases, inl, inr,
}
use majestan_backend.Prelude.Text.{Text, ◌=t◌, =t_iff, =t_refl}
use majestan_backend.Editorial.{Redirect}
use majestan_backend.Editorial.Seo.{
  is_blog, drop_source, lead_to, retarget, revive, upsert, move_redirects,
}

-- The path that the active redirects of the blog lead a path to.
unfoldable pub target : Text → List Redirect → Option Text
target path [] = none
target path (r ∷ rs) =
    let rest = target path rs in
    if r.source_path =t path && is_blog r && r.is_active then some r.destination_path else rest

abbrev pub redirected : Text → Text → Option Text → Option Text
redirected old new none = none
redirected old new (some d) = if d =t old then some new else some d

target-drop_source :
    (path new : Text) (rs : List Redirect)
    → target path (drop_source new rs) ≡ (if path =t new then none else target path rs)
unfolding target drop_source
target-drop_source path new [] = ground arith
target-drop_source path new (r ∷ rs) = ground (
  arith,
  target-drop_source path new rs,
  =t_iff r.source_path path,
  =t_iff r.source_path new,
  =t_iff path new,
)

target-retarget :
    (path old new : Text) (rs : List Redirect)
    → target path (retarget old new rs) ≡ redirected old new (target path rs)
unfolding target retarget
target-retarget path old new [] = refl
target-retarget path old new (r ∷ rs) = ground (arith, target-retarget path old new rs)

-- No rule that is not the blog's holds the path.
abbrev pub IsFree : Text → List Redirect → Type 0
IsFree old = All (λ r. (r.source_path =t old && not (is_blog r)) ≡ false)

target-revive :
    (path old new : Text) (rs : List Redirect)
    → IsFree old rs
    → target path (update_where (λ r. r.source_path =t old) (revive new) rs)
      ≡ (if path =t old && any (λ r. r.source_path =t old) rs then some new else target path rs)
unfolding target
target-revive path old new [] h = ground arith
target-revive path old new (r ∷ rs) (h, hs) = ground (
  arith,
  target-revive path old new rs hs,
  =t_iff r.source_path path,
  =t_iff r.source_path old,
  =t_iff path old,
)

target-upsert :
    (path old new : Text) (rs : List Redirect)
    → IsFree old rs
    → target path (upsert old new rs) ≡ (if path =t old then some new else target path rs)
unfolding upsert target
target-upsert path old new rs free = elim (Bool-cases (any (λ r. r.source_path =t old) rs)) [
  | inl held ↦ rw held (rw (target-revive path old new rs free) (ground arith))
  | inr new' ↦ rw new' (ground (arith, =t_iff path old, =t_iff old path))
]

IsFree-moved :
    (old new : Text) (rs : List Redirect)
    → IsFree old rs
    → IsFree old (retarget old new (drop_source new rs))
unfolding retarget drop_source
IsFree-moved old new rs free =
    All-update_where (λ r. r.destination_path =t old && is_blog r) (lead_to new)
      (filter (λ r. not (r.source_path =t new && is_blog r)) rs) (λ r h. h) (λ r h. h)
      (All-filter (λ r. (r.source_path =t old && not (is_blog r)) ≡ false)
        (λ r. not (r.source_path =t new && is_blog r)) rs free)

-- When a post moves from the path `old` to `new`, the old path leads to the new one, the new path is
-- no redirect any more, what led to the old path leads to the new one, and every other path leads
-- where it led: if no rule but the blog's holds the old path.
pub target-move_redirects :
    (path old new : Text) (rs : List Redirect)
    → IsFree old rs
    → target path (move_redirects old new rs) ≡ (
        if path =t old
        then some new
        else if path =t new
        then none
        else redirected old new (target path rs))
unfolding move_redirects
target-move_redirects path old new rs free =
    rw
      (target-upsert path old new (retarget old new (drop_source new rs))
        (IsFree-moved old new rs free))
      (rw (target-retarget path old new (drop_source new rs))
        (rw (target-drop_source path new rs) (ground arith)))

one_hop_cases :
    (path old new d : Text) (before beyond : Option Text)
    → (path =t old) ≡ false
    → (if path =t new then none else redirected old new before) ≡ some d
    → (d ≡ new) ⊎ (before ≡ some d) × ((d =t old) ≡ false)
one_hop_cases path old new d none beyond ne h = absurd (ground arith)
one_hop_cases path old new d (some e) beyond ne h = elim (Bool-cases (e =t old)) [
  | inl same ↦ inl (ground arith)
  | inr other ↦
      let e' : e ≡ d = ground arith in
      inr (ap {B = Option Text} some e', ap (λ (t : Text). t =t old) (sym e') ∙ other)
]

-- Moving a post keeps the redirects flat: if no redirect of the blog led to the source of another, none
-- does afterwards, also when a post returns to an address that it had. So there is no chain and no
-- loop.
pub move_redirects-one_hop :
    (old new : Text) (rs : List Redirect) (path d : Text)
    → old ≢ new
    → IsFree old rs
    → ((path d : Text) → target path rs ≡ some d → target d rs ≡ none)
    → target path (move_redirects old new rs) ≡ some d
    → target d (move_redirects old new rs) ≡ none
move_redirects-one_hop old new rs path d ne free flat leads =
    let here = target-move_redirects path old new rs free in
    let there = target-move_redirects d old new rs free in
    let at_new = target-move_redirects new old new rs free in
    let end : target new (move_redirects old new rs) ≡ none =
      ground (arith, at_new, =t_iff new old, =t_refl new) in
    elim (Bool-cases (path =t old)) [
      | inl from_old ↦ let d_new : d ≡ new = ground arith in rw d_new end
      | inr other ↦ elim (one_hop_cases path old new d (target path rs) none other (ground arith)) [
        | inl d_new ↦ rw d_new end
        | inr (before, d_old) ↦
            let beyond = flat path d before in rw there (rw (d_old, beyond) (ground arith))
      ]
    ]
