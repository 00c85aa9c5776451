-- ===== src/Editorial/Resolve.antt =====
-- `saveSeo` followed by `resolveSlug` of src/modules/editorial/editorial.service.ts: a reader who has
-- the old address of a post gets its new one.
use majestan_backend.Prelude.{
  not, ℕ, true, false, ◌&&◌, Option, none, some, List, [], ◌∷◌, ◌==◌, ◌≡◌, ◌≤◌, inl, inr, refl, ap,
  ◌∙◌, arith, find?, count, update_where, All-mono, Bool-cases, Option-cases, any_of_find?,
  find?_of_any, find?_sound, find?-none_of_All, All-of_find?-none, All-update_split, only_one,
}
use majestan_backend.Prelude.Text.{Text, ◌=t◌, =t_iff, =t_refl}
use majestan_backend.Editorial.{
  Post, Redirect, BlogDb, Packages, find_post, is_live, safe_image_url,
}
use majestan_backend.Editorial.Seo.{
  SaveSeo, path_of, is_blog, move_redirects, write_seo, hits, is_foreign, has_date, save_seo,
  rename, moved, find_alias, resolve_slug,
}
use majestan_backend.Editorial.Redirects.{target, IsFree, target-move_redirects}
use majestan_backend.Editorial.Revision.{accepted}
use majestan_backend.Editorial.Revision.Cases.{rename-end}
use majestan_backend.Editorial.Writes.{finish-after}

blog_only :
    (old : Text) (r x : Redirect)
    → is_blog r ≡ true
    → ((x.source_path =t old) ≡ true → x ≡ r)
    → (x.source_path =t old && not (is_blog x)) ≡ false
blog_only old r x own only = elim (Bool-cases (x.source_path =t old)) [
  | inr other ↦ ground arith
  | inl here ↦ let blog : is_blog x ≡ true = ap is_blog (only here) ∙ own in ground arith
]

-- The rule that `saveSeo` may overwrite is the blog's.
IsFree-of_is_foreign :
    (old : Text) (rs : List Redirect)
    → count (λ r. r.source_path =t old) rs ≤ 1
    → is_foreign old rs ≡ false
    → IsFree old rs
unfolding is_foreign
IsFree-of_is_foreign old rs one own =
    elim (Option-cases (find? (λ (r : Redirect). r.source_path =t old) rs)) [
      | inl none' ↦
          All-mono rs (λ x other. ground arith)
            (All-of_find?-none (λ r. r.source_path =t old) rs none')
      | inr (r, found) ↦
          let own' : is_blog r ≡ true = ground arith in
          All-mono rs (λ x only. blog_only old r x own' only)
            (only_one (λ (r : Redirect). r.source_path =t old) (λ r. r.source_path =t old) rs r
              found (find?_sound (λ r. r.source_path =t old) rs r found) one)
    ]

find_alias-target :
    (now : ℕ) (path d : Text) (posts : List Post) (rs : List Redirect) (post : Post)
    → target path rs ≡ some d
    → find? (λ p. d =t path_of p.slug && is_live now p) posts ≡ some post
    → find_alias now path posts rs ≡ some post.slug
unfolding target find_alias
find_alias-target now path d posts [] post leads found = absurd (ground arith)
find_alias-target now path d posts (r ∷ rs) post leads found =
    elim (Bool-cases (r.source_path =t path && is_blog r && r.is_active)) [
      | inr other ↦ rw (other) (find_alias-target now path d posts rs post (ground arith) found)
      | inl here ↦
          let same : r.destination_path ≡ d = ground arith in
          let found' : find? (λ (p : Post). r.destination_path =t path_of p.slug && is_live now p)
                posts
              ≡ some post =
            ap (λ (x : Text). find? (λ (p : Post). x =t path_of p.slug && is_live now p) posts) same
            ∙ found in
          rw (here, found') refl
    ]

path_of-inj : (a b : Text) → (path_of a =t path_of b) ≡ true → b ≡ a
path_of-inj a b h = ground (arith, =t_iff a b)

live-has_date : (now : ℕ) (p : Post) → is_live now p ≡ true → has_date p ≡ true
unfolding is_live
live-has_date now p live = elim (Option-cases p.published_at) [
  | inl none' ↦ absurd (ground arith)
  | inr (t, dated) ↦ ground arith
]

-- What a reader finds at the old address of a post that moved.
module _ (packages : Packages) (now later id : ℕ) (dto : SaveSeo) (p : Post) (db : BlogDb)
    (found : find_post id db.posts ≡ some p) (current : (p.revision == dto.revision) ≡ true) where
  updated : List Post
  updated = update_where (hits id dto.revision) (write_seo now dto p.meta_keywords) db.posts

  hit : hits id dto.revision p ≡ true
  hit = let here = find?_sound (λ (x : Post). x.id == id) db.posts p found in ground arith

  -- Nothing live is left at the old address.
  old-is_free :
      (p.slug =t dto.slug) ≡ false
      → count (λ post. post.slug =t p.slug) db.posts ≤ 1
      → find? (λ post. post.slug =t p.slug && is_live later post) updated ≡ none
  unfolding updated
  old-is_free moves one =
      find?-none_of_All (λ post. post.slug =t p.slug && is_live later post) updated
        (All-update_split (λ post. (post.slug =t p.slug) ≡ true → post ≡ p)
          (λ post. (post.slug =t p.slug && is_live later post) ≡ false) (hits id dto.revision)
          (write_seo now dto p.meta_keywords) db.posts
          (λ x only other. elim (Bool-cases (x.slug =t p.slug)) [
            | inl same ↦ absurd (ground (arith, ap (hits id dto.revision) (only same), hit))
            | inr apart ↦ ground arith
          ])
          (λ x only here. ground (arith, =t_iff dto.slug p.slug, =t_iff p.slug dto.slug))
          (only_one (λ post. post.id == id) (λ post. post.slug =t p.slug) db.posts p found
            (=t_refl p.slug) one))

  -- The post is live at the new address.
  new-is_found :
      is_live later p ≡ true
      → (q : Post) × (find?
            (λ post. path_of dto.slug =t path_of post.slug && is_live later post)
            updated
          ≡ some q)
        × (q.slug ≡ dto.slug)
  unfolding updated is_live
  new-is_found live =
      let there =
        any_of_find? (λ post. post.id == id) (hits id dto.revision)
          (λ post. path_of dto.slug =t path_of post.slug && is_live later post)
          (write_seo now dto p.meta_keywords) db.posts p found hit
          (ground (arith, =t_refl dto.slug)) in
      let (q, at) =
        find?_of_any (λ post. path_of dto.slug =t path_of post.slug && is_live later post) updated
          there in
      (
        q,
        at,
        path_of-inj dto.slug q.slug (
            ground (
              arith,
              find?_sound (λ post. path_of dto.slug =t path_of post.slug && is_live later post)
                  updated q at,
            )),
      )

  -- The reader of the old address, once the tables have moved.
  resolve-moved :
      (p.slug =t dto.slug) ≡ false
      → count (λ post. post.slug =t p.slug) db.posts ≤ 1
      → count (λ r. r.source_path =t path_of p.slug) db.redirects ≤ 1
      → is_foreign (path_of p.slug) db.redirects ≡ false
      → is_live later p ≡ true
      → resolve_slug later p.slug (moved packages now id dto p p db) ≡ some dto.slug
  unfolding resolve_slug moved updated
  resolve-moved moves one one_rule own live =
      let free = IsFree-of_is_foreign (path_of p.slug) db.redirects one_rule own in
      let leads =
        target-move_redirects (path_of p.slug) (path_of p.slug) (path_of dto.slug) db.redirects
          free in
      let none' = old-is_free moves one in
      let (q, at, named) = new-is_found live in
      let dated : has_date p ≡ true = live-has_date later p live in
      let alias' =
        find_alias-target later (path_of p.slug) (path_of dto.slug) updated
          (move_redirects (path_of p.slug) (path_of dto.slug) db.redirects) q
          (ground (arith, leads, =t_refl (path_of p.slug))) at in
      rw (none', dated, alias', resolve_slug, moved) (ap {B = Option Text} some named)

-- An accepted move of a post that is live leads the reader of its old address to the new one, then
-- and as long as the tables stay so: if ids, addresses and the sources of redirects are unique.
pub save_seo-resolves :
    (packages : Packages) (now later id : ℕ) (dto : SaveSeo) (p : Post) (db : BlogDb)
    → find_post id db.posts ≡ some p
    → count (λ post. post.slug =t p.slug) db.posts ≤ 1
    → count (λ r. r.source_path =t path_of p.slug) db.redirects ≤ 1
    → is_live later p ≡ true
    → (p.slug =t dto.slug) ≡ false
    → accepted (save_seo packages now id dto db).0 ≡ true
    → resolve_slug later p.slug (save_seo packages now id dto db).1 ≡ some dto.slug
unfolding save_seo
save_seo-resolves packages now later id dto p db found one one_rule live moves took =
    elim (Bool-cases (safe_image_url packages dto.social_image)) [
      | inr unsafe ↦ absurd (ground arith)
      | inl safe ↦ elim (rename-end packages now id dto p p db found) [
        | inl (s, m, end) ↦ absurd (ground arith)
        | inr (same, own, end) ↦
            rw (found, safe, moves, save_seo)
              (rw (finish-after packages id (rename packages now id dto p db), end)
                (resolve-moved packages now later id dto p db found same moves one one_rule
                  (ground (arith, live-has_date later p live)) live))
      ]
    ]
