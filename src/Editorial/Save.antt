-- ===== src/Editorial/Save.antt =====
-- `save`, `saveContent` and `remove` of src/modules/editorial/editorial.service.ts.
use majestan_backend.Prelude.{
  ℕ, ◌+◌, ◌*◌, ◌/◌, Bool, true, false, not, ◌&&◌, ◌||◌, String, Option, none, some, [], ◌∷◌, ◌==◌,
  if◌then◌else◌, any, filter, update_where,
}
use majestan_backend.Prelude.Text.{Text, ◌=t◌, is_empty, trim}
use majestan_backend.Http.{Outcome, ok, fail}
use majestan_backend.Editorial.{
  Status, draft, Post, BlogDb, Packages, is_published, find_post, safe_image_url, details,
  slug_taken,
}

-- SavePostDto; `published_at` is the instant that the text stands for, in milliseconds
pub record SavePost : Type 0 where
  pub title : Text
  pub slug : Text
  pub excerpt : Text
  pub content : Text
  pub category : Text
  pub cover_image : Text
  pub cover_alt : Text
  pub meta_title : Text
  pub meta_description : Text
  pub meta_keywords : Option Text
  pub social_image : Text
  pub noindex : Bool
  pub status : Status
  pub published_at : Option ℕ
  pub revision : Option ℕ

-- SaveBlogContentDto
pub record SaveContent : Type 0 where
  pub title : Text
  pub excerpt : Text
  pub content : Text
  pub category : Text
  pub cover_image : Text
  pub cover_alt : Text
  pub status : Status
  pub revision : Option ℕ

abbrev pub or_empty : Option Text → Text
or_empty none = []
or_empty (some t) = t

abbrev pub is_some {ℓ} : {A : Type ℓ} → Option A → Bool
is_some none = false
is_some (some a) = true

abbrev pub in_milliseconds : Option ℕ → Option ℕ
in_milliseconds none = none
in_milliseconds (some t) = some (t * 1000)

module _ (packages : Packages) where
  -- The checks of `save` that need only the request.
  unfoldable pub save_error : SavePost → Option String
  save_error dto =
      if is_empty (trim dto.title)
      then some "Title and author are required"
      else if not (safe_image_url packages dto.cover_image)
          || not (safe_image_url packages dto.social_image)
      then some "Images must use absolute HTTP or HTTPS URLs"
      else if is_published dto.status
          && (is_empty (trim (packages.text_only (packages.clean dto.content)))
              || is_empty (trim dto.excerpt)
              || is_empty dto.cover_image
              || is_empty (trim dto.cover_alt))
      then some "Publishing requires article text, description, cover image and cover alt text"
      else none

  -- `published`, the time that the row gets, in seconds
  unfoldable pub publication : ℕ → SavePost → Option ℕ → Option ℕ
  publication now dto previous = elim dto.published_at [
    | some t ↦ some (t / 1000)
    | none ↦ if is_published dto.status then some (now / 1000) else previous
  ]

  -- The columns that `save` writes.
  abbrev pub write_post : ℕ → SavePost → Option ℕ → Post → Post
  write_post now dto previous post = record {
    id = post.id;
    title = trim dto.title;
    slug = dto.slug;
    excerpt = trim dto.excerpt;
    content = packages.clean dto.content;
    category = trim dto.category;
    cover_image = dto.cover_image;
    cover_alt = trim dto.cover_alt;
    meta_title = trim dto.meta_title;
    meta_description = trim dto.meta_description;
    social_image = dto.social_image;
    noindex = dto.noindex;
    status = dto.status;
    published_at = publication now dto previous;
    meta_keywords = trim (or_empty dto.meta_keywords);
    revision = post.revision + 1;
    updated_at = now / 1000;
  }

  -- The end of every save: read the row back.
  abbrev pub answer : ℕ → BlogDb → Outcome Post × BlogDb
  answer id db = (details packages id db, db)

  -- `UPDATE blog_posts … WHERE id = ? AND revision = ?`
  unfoldable pub update_post : ℕ → SavePost → Option ℕ → ℕ → ℕ → BlogDb → Outcome Post × BlogDb
  update_post now dto previous id revision db =
      let hits : Post → Bool = λ post. post.id == id && post.revision == revision in
      if not (any hits db.posts)
      then (fail 409 "This post changed in another session. Reload it before saving.", db)
      else if slug_taken id dto.slug db.posts
      then (fail 409 "That URL slug is already in use", db)
      else answer id
          (record db { posts = update_where hits (write_post now dto previous) db.posts })

  -- An update of an existing post, once its row was read.
  unfoldable pub save_existing : ℕ → SavePost → ℕ → Post → BlogDb → Outcome Post × BlogDb
  save_existing now dto id previous db =
      if is_some previous.published_at && not (previous.slug =t dto.slug)
      then (fail 400 "Published slugs cannot be changed. Keep the existing URL for SEO.", db)
      else elim dto.revision [
        | none ↦ (fail 400 "Revision is required when updating", db)
        | some revision ↦
            if revision == 0
            then (fail 400 "Revision is required when updating", db)
            else update_post now dto previous.published_at id revision db
      ]

  abbrev pub blank : ℕ → Post
  blank id = record {
    id = id;
    title = [];
    slug = [];
    excerpt = [];
    content = [];
    category = [];
    cover_image = [];
    cover_alt = [];
    meta_title = [];
    meta_description = [];
    social_image = [];
    noindex = false;
    status = draft;
    published_at = none;
    meta_keywords = [];
    revision = 0;
    updated_at = 0;
  }

  -- `INSERT INTO blog_posts`; the column `revision` begins at 1
  unfoldable pub insert_post : ℕ → SavePost → BlogDb → Outcome Post × BlogDb
  insert_post now dto db =
      if any (λ post. post.slug =t dto.slug) db.posts
      then (fail 409 "That URL slug is already in use", db)
      else answer db.next_id (record db {
        posts = write_post now dto none (blank db.next_id) ∷ db.posts;
        next_id = db.next_id + 1;
      })

  -- `save`
  unfoldable pub save : ℕ → SavePost → Option ℕ → BlogDb → Outcome Post × BlogDb
  save now dto target db = elim (save_error dto) [
    | some message ↦ (fail 400 message, db)
    | none ↦ elim target [
      | none ↦ insert_post now dto db
      | some id ↦ elim (find_post id db.posts) [
        | none ↦ (fail 404 "Blog post not found", db)
        | some previous ↦ save_existing now dto id previous db
      ]
    ]
  ]

  -- The request that `saveContent` hands to `save`: the fields of the SEO editor and the time of
  -- publication come from the previous row, `generated` is the slug of a new post.
  unfoldable pub content_request : Text → SaveContent → Option Post → SavePost
  content_request generated dto previous = record {
    title = dto.title;
    slug = elim previous [
      | none ↦ generated
      | some p ↦ if is_empty p.slug then generated else p.slug
    ];
    excerpt = dto.excerpt;
    content = dto.content;
    category = dto.category;
    cover_image = dto.cover_image;
    cover_alt = dto.cover_alt;
    meta_title = elim previous [ none ↦ [] | some p ↦ p.meta_title ];
    meta_description = elim previous [ none ↦ [] | some p ↦ p.meta_description ];
    meta_keywords = some (elim previous [ none ↦ [] | some p ↦ p.meta_keywords ]);
    social_image = elim previous [ none ↦ [] | some p ↦ p.social_image ];
    noindex = elim previous [ none ↦ false | some p ↦ p.noindex ];
    status = dto.status;
    published_at = elim previous [ none ↦ none | some p ↦ in_milliseconds p.published_at ];
    revision = dto.revision;
  }

  -- `saveContent`
  unfoldable pub save_content : ℕ → Text → SaveContent → Option ℕ → BlogDb → Outcome Post × BlogDb
  save_content now generated dto none db = save now (content_request generated dto none) none db
  save_content now generated dto (some id) db = elim (find_post id db.posts) [
    | none ↦ (fail 404 "Blog post not found", db)
    | some previous ↦ save now (content_request generated dto (some previous)) (some id) db
  ]

-- `remove`; a revision that is no integer, or an integer below 1, is read as 0
unfoldable pub remove : ℕ → ℕ → BlogDb → Outcome (Unit {0}) × BlogDb
remove id revision db =
    if revision == 0
    then (fail 400 "Revision is required", db)
    else if any (λ post. post.id == id && post.revision == revision) db.posts
    then (
      ok tt,
      record db {
        posts = filter (λ post. not (post.id == id && post.revision == revision)) db.posts;
      },
    )
    else (fail 409 "Post changed or was deleted. Reload before deleting.", db)
