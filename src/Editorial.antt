-- ===== src/Editorial.antt =====
-- src/modules/editorial: the blog's posts and the redirects of their old addresses. The tables are
-- lists of rows with the unique indexes of their migrations; times are seconds, as DATETIME keeps
-- them. A transaction that throws leaves both tables as they were. `sanitize-html` and the URL parser
-- are parameters.
pub mod Save
pub mod Seo
pub mod Revision
pub mod Writes
pub mod Publish
pub mod Keeps
pub mod Redirects
pub mod Resolve
mod Tests
use majestan_backend.Prelude.{
  ℕ, Bool, true, false, not, ◌&&◌, ◌||◌, Option, none, some, List, [], ◌∷◌, ◌++◌, ◌==◌, leb,
  if◌then◌else◌, find?, any,
}
use majestan_backend.Prelude.Text.{Text, codes, ◌=t◌, is_empty}
use majestan_backend.Http.{Outcome, ok, fail}

pub data Status : Type 0 where
  draft published : Status

-- A row of `blog_posts`. The author's name is a constant of the service.
pub record Post : Type 0 where
  pub id : ℕ
  pub title : Text
  pub slug : Text
  pub excerpt : Text
  pub content : Text
  pub category : Text
  pub cover_image : Text
  pub cover_alt : Text
  pub meta_title : Text
  pub meta_description : Text
  pub social_image : Text
  pub noindex : Bool
  pub status : Status
  pub published_at : Option ℕ
  pub meta_keywords : Text
  pub revision : ℕ
  pub updated_at : ℕ

-- A row of `seo_redirects`
pub record Redirect : Type 0 where
  pub source_path : Text
  pub destination_path : Text
  pub reason : Text
  pub is_active : Bool

pub record BlogDb : Type 0 where
  pub posts : List Post
  pub next_id : ℕ
  pub redirects : List Redirect

-- The two packages: `sanitizeHtml` with the options of `cleanContent` and of `contentText`, and
-- `new URL(value).protocol`, `none` where the parser throws.
pub record Packages : Type 0 where
  pub clean : Text → Text
  pub text_only : Text → Text
  pub protocol : Text → Option Text

abbrev pub is_published : Status → Bool
is_published draft = false
is_published published = true

-- `published_at <= UTC_TIMESTAMP()`, not true of a null
abbrev pub is_due : ℕ → Option ℕ → Bool
is_due now none = false
is_due now (some t) = leb t now

-- LIVE
unfoldable pub is_live : ℕ → Post → Bool
is_live now post = is_published post.status && is_due now post.published_at

abbrev pub find_post : ℕ → List Post → Option Post
find_post id = find? (λ post. post.id == id)

-- `safeImageUrl`
unfoldable pub safe_image_url : Packages → Text → Bool
safe_image_url packages value = if is_empty value then true else elim (packages.protocol value) [
  | none ↦ false
  | some p ↦ p =t codes "https:" || p =t codes "http:"
]

-- The body of `details` once the row was found: the content is cleaned again on reading.
abbrev pub view_of : Packages → Post → Post
view_of packages post = record post { content = packages.clean post.content }

-- `details(id, true)`
unfoldable pub details : Packages → ℕ → BlogDb → Outcome Post
details packages id db = elim (find_post id db.posts) [
  | none ↦ fail 404 "Blog post not found"
  | some post ↦ ok (view_of packages post)
]

-- `details(slug)`, what the public sees at `now`
unfoldable pub public_details : Packages → ℕ → Text → BlogDb → Outcome Post
public_details packages now slug db =
    elim (find? (λ post. post.slug =t slug && is_live now post) db.posts) [
      | none ↦ fail 404 "Blog post not found"
      | some post ↦ ok (view_of packages post)
    ]

-- The unique index on `slug`: another row has it.
abbrev pub slug_taken : ℕ → Text → List Post → Bool
slug_taken id slug = any (λ post. post.slug =t slug && not (post.id == id))
