-- ===== src/Editorial/Seo.antt =====
-- `saveSeo` and `resolveSlug` of src/modules/editorial/editorial.service.ts: a post moves to another
-- address, and its old addresses lead to it.
use majestan_backend.Prelude.{
  ℕ, ◌+◌, ◌/◌, Bool, true, false, not, ◌&&◌, ◌||◌, Option, none, some, List, [], ◌∷◌, ◌++◌, ◌==◌,
  if◌then◌else◌, find?, any, filter, update_where,
}
use majestan_backend.Prelude.Text.{Text, codes, ◌=t◌, trim}
use majestan_backend.Http.{Outcome, ok, fail}
use majestan_backend.Editorial.{
  Post, Redirect, BlogDb, Packages, find_post, is_live, safe_image_url, details, slug_taken,
}

-- SaveBlogSeoDto
pub record SaveSeo : Type 0 where
  pub slug : Text
  pub meta_title : Text
  pub meta_description : Text
  pub meta_keywords : Option Text
  pub social_image : Text
  pub noindex : Bool
  pub revision : ℕ

-- `'/blogs/' + slug`
abbrev pub path_of : Text → Text
path_of slug = codes "/blogs/" ++ slug

-- `reason = 'blog-slug'`
abbrev pub is_blog : Redirect → Bool
is_blog r = r.reason =t codes "blog-slug"

-- The three statements on `seo_redirects` of a published post that moves: its old addresses
-- that return, those that led to the old path, and the old path itself.
unfoldable pub drop_source : Text → List Redirect → List Redirect
drop_source new = filter (λ r. not (r.source_path =t new && is_blog r))

abbrev pub lead_to : Text → Redirect → Redirect
lead_to new r = record r { destination_path = new }

unfoldable pub retarget : Text → Text → List Redirect → List Redirect
retarget old new = update_where (λ r. r.destination_path =t old && is_blog r) (lead_to new)

abbrev pub revive : Text → Redirect → Redirect
revive new r = record r { destination_path = new; is_active = true }

abbrev pub alias : Text → Text → Redirect
alias old new = record {
  source_path = old;
  destination_path = new;
  reason = codes "blog-slug";
  is_active = true;
}

-- `INSERT … ON DUPLICATE KEY UPDATE`
unfoldable pub upsert : Text → Text → List Redirect → List Redirect
upsert old new rs =
    if any (λ r. r.source_path =t old) rs
    then update_where (λ r. r.source_path =t old) (revive new) rs
    else alias old new ∷ rs

unfoldable pub move_redirects : Text → Text → List Redirect → List Redirect
move_redirects old new rs = upsert old new (retarget old new (drop_source new rs))

abbrev pub keywords : Option Text → Text → Text
keywords none previous = previous
keywords (some t) previous = trim t

-- The columns that `saveSeo` writes.
abbrev pub write_seo : ℕ → SaveSeo → Text → Post → Post
write_seo now dto previous_keywords post = record post {
  slug = dto.slug;
  meta_title = trim dto.meta_title;
  meta_description = trim dto.meta_description;
  meta_keywords = keywords dto.meta_keywords previous_keywords;
  social_image = dto.social_image;
  noindex = dto.noindex;
  revision = post.revision + 1;
  updated_at = now / 1000;
}

-- `WHERE id = ? AND revision = ?`
abbrev pub hits : ℕ → ℕ → Post → Bool
hits id revision post = post.id == id && post.revision == revision

abbrev pub stale {ℓ} : {A : Type ℓ} → Outcome A
stale = fail 409 "This post changed in another session. Reload it before saving."

-- The rule that holds the new path, unless it is an old address of this post.
unfoldable pub is_reserved : Text → Text → List Redirect → Bool
is_reserved old new rs = elim (find? (λ r. r.source_path =t new && r.is_active) rs) [
  | none ↦ false
  | some r ↦ not (is_blog r && r.destination_path =t old)
]

-- The rule that holds the old path, if it is not one of the blog's.
unfoldable pub is_foreign : Text → List Redirect → Bool
is_foreign old rs = elim (find? (λ r. r.source_path =t old) rs) [
  | none ↦ false
  | some r ↦ not (is_blog r)
]

abbrev pub has_date : Post → Bool
has_date post = elim post.published_at [ none ↦ false | some t ↦ true ]

module _ (packages : Packages) where
  -- The tables after the statements of the transaction.
  unfoldable pub moved : ℕ → ℕ → SaveSeo → Post → Post → BlogDb → BlogDb
  moved now id dto previous locked db = record {
    posts = update_where (hits id dto.revision) (write_seo now dto previous.meta_keywords) db.posts;
    next_id = db.next_id;
    redirects =
        if has_date locked
        then move_redirects (path_of previous.slug) (path_of dto.slug) db.redirects
        else db.redirects;
  }

  -- The transaction of `saveSeo`, with the row that was read before it began.
  unfoldable pub rename : ℕ → ℕ → SaveSeo → Post → BlogDb → Outcome (Unit {0}) × BlogDb
  rename now id dto previous db = elim (find_post id db.posts) [
    | none ↦ (stale, db)
    | some locked ↦
        if not (locked.revision == dto.revision) || not (locked.slug =t previous.slug)
        then (stale, db)
        else if slug_taken id dto.slug db.posts
        then (fail 409 "That URL slug is already in use", db)
        else if is_reserved (path_of previous.slug) (path_of dto.slug) db.redirects
        then (fail 409 "That URL is reserved by an existing redirect", db)
        else if has_date locked && is_foreign (path_of previous.slug) db.redirects
        then (
          fail 409 "The old URL has an existing redirect. Review it in Technical SEO first.",
          db,
        )
        else (ok tt, moved now id dto previous locked db)
  ]

  -- The update where the address stays.
  unfoldable pub update_seo : ℕ → ℕ → SaveSeo → Post → BlogDb → Outcome (Unit {0}) × BlogDb
  update_seo now id dto previous db =
      if any (hits id dto.revision) db.posts
      then (
        ok tt,
        record db {
          posts =
              update_where (hits id dto.revision) (write_seo now dto previous.meta_keywords)
                db.posts;
        },
      )
      else (stale, db)

  abbrev pub finish : ℕ → Outcome (Unit {0}) × BlogDb → Outcome Post × BlogDb
  finish id (ok _, db) = (details packages id db, db)
  finish id (fail status message, db) = (fail status message, db)

  -- `saveSeo`
  unfoldable pub save_seo : ℕ → ℕ → SaveSeo → BlogDb → Outcome Post × BlogDb
  save_seo now id dto db = elim (find_post id db.posts) [
    | none ↦ (fail 404 "Blog post not found", db)
    | some previous ↦
        if not (safe_image_url packages dto.social_image)
        then (fail 400 "Social images must use absolute HTTP or HTTPS URLs", db)
        else finish id (
            if previous.slug =t dto.slug
            then update_seo now id dto previous db
            else rename now id dto previous db)
  ]

-- The join of `resolveSlug`: the slug of a live post that an active redirect of the blog leads to.
unfoldable pub find_alias : ℕ → Text → List Post → List Redirect → Option Text
find_alias now path posts [] = none
find_alias now path posts (r ∷ rs) =
    let rest = find_alias now path posts rs in
    if r.source_path =t path && is_blog r && r.is_active
    then elim (find? (λ post. r.destination_path =t path_of post.slug && is_live now post) posts) [
      | some post ↦ some post.slug
      | none ↦ rest
    ]
    else rest

-- `resolveSlug`
unfoldable pub resolve_slug : ℕ → Text → BlogDb → Option Text
resolve_slug now slug db = elim (find? (λ post. post.slug =t slug && is_live now post) db.posts) [
  | some post ↦ some post.slug
  | none ↦ find_alias now (path_of slug) db.posts db.redirects
]
