-- ===== src/Editorial/Publish.antt =====
-- What a published post has, whichever requests the editors of
-- src/modules/editorial/editorial.service.ts send.
use majestan_backend.Prelude.{
  ℕ, Bool, true, not, ◌&&◌, ◌||◌, Option, none, some, List, [], ◌∷◌, ◌==◌, ◌≡◌, inl, inr, arith,
  any, All, All-update_where, All-filter, Bool-cases, Option-cases,
}
use majestan_backend.Prelude.Text.{Text, ◌=t◌, is_empty, trim}
use majestan_backend.Editorial.{Post, BlogDb, Packages, is_published, find_post}
use majestan_backend.Editorial.Save.{
  SavePost, SaveContent, save, save_content, insert_post, content_request, remove, write_post,
  save_error, publication, blank,
}
use majestan_backend.Editorial.Seo.{SaveSeo, save_seo, hits, write_seo, has_date}
use majestan_backend.Editorial.Revision.{Edit, all_fields, words, address, deletion, edit}
use majestan_backend.Editorial.Writes.{save-writes, save_seo-writes}

-- A request of an editor: a new post, or an edit of one.
pub data Request : Type 0 where
  create : SavePost → Request
  create_words : Text → SaveContent → Request
  on_post : ℕ → Edit → Request

module _ (packages : Packages) where
  unfoldable pub handle : ℕ → Request → BlogDb → BlogDb
  handle now (create dto) db = (save packages now dto none db).1
  handle now (create_words generated dto) db = (save_content packages now generated dto none db).1
  handle now (on_post id e) db = (edit packages now id e db).1

  -- The requests, each at its time
  unfoldable pub handle_all : List (ℕ × Request) → BlogDb → BlogDb
  handle_all [] db = db
  handle_all ((now, request) ∷ rest) db = handle_all rest (handle now request db)

  -- What the public page of a post needs.
  unfoldable pub is_complete : Post → Bool
  is_complete post =
      not (is_published post.status)
      || not (is_empty (trim (packages.text_only post.content)))
        && not (is_empty post.excerpt)
        && not (is_empty post.cover_image)
        && not (is_empty post.cover_alt)
        && has_date post

  write_post-is_complete :
      (now : ℕ) (dto : SavePost) (previous : Option ℕ) (post : Post)
      → save_error packages dto ≡ none
      → is_complete (write_post packages now dto previous post) ≡ true
  unfolding save_error publication is_complete
  write_post-is_complete now dto previous post good = ground arith

  abbrev pub AllComplete : List Post → Type 0
  AllComplete = All (λ post. is_complete post ≡ true)

  AllComplete-save :
      (now : ℕ) (dto : SavePost) (id : ℕ) (db : BlogDb)
      → AllComplete db.posts
      → AllComplete (save packages now dto (some id) db).1.posts
  AllComplete-save now dto id db good = elim (save-writes packages now dto id db) [
    | inl same ↦ rw same good
    | inr (previous, r, fine, _, _, wrote) ↦ rw wrote (
        All-update_where (hits id r) (write_post packages now dto previous.published_at) db.posts
          (λ x h. h) (λ x h. write_post-is_complete now dto previous.published_at x fine) good)
  ]

  AllComplete-insert :
      (now : ℕ) (dto : SavePost) (db : BlogDb)
      → AllComplete db.posts
      → AllComplete (save packages now dto none db).1.posts
  unfolding save insert_post
  AllComplete-insert now dto db good = elim (Option-cases (save_error packages dto)) [
    | inr (message, bad) ↦ rw (bad, save) good
    | inl fine ↦ elim (Bool-cases (any (λ post. post.slug =t dto.slug) db.posts)) [
      | inl taken ↦ rw (fine, save) (rw (taken, insert_post) good)
      | inr free ↦
          rw (fine, save)
            (rw (free, insert_post)
              (write_post-is_complete now dto none (blank packages db.next_id) fine, good))
    ]
  ]

  AllComplete-address :
      (now id : ℕ) (dto : SaveSeo) (db : BlogDb)
      → AllComplete db.posts
      → AllComplete (save_seo packages now id dto db).1.posts
  unfolding is_complete
  AllComplete-address now id dto db good = elim (save_seo-writes packages now id dto db) [
    | inl same ↦ rw same good
    | inr (previous, wrote) ↦ rw wrote (
        All-update_where (hits id dto.revision) (write_seo now dto previous.meta_keywords) db.posts
          (λ x h. h) (λ x h. h) good)
  ]

  AllComplete-content :
      (now : ℕ) (generated : Text) (dto : SaveContent) (id : ℕ) (db : BlogDb)
      → AllComplete db.posts
      → AllComplete (save_content packages now generated dto (some id) db).1.posts
  unfolding save_content
  AllComplete-content now generated dto id db good = elim (Option-cases (find_post id db.posts)) [
    | inl none' ↦ rw (none', save_content) good
    | inr (previous, found) ↦
        rw (found, save_content)
          (AllComplete-save now (content_request packages generated dto (some previous)) id db good)
  ]

  AllComplete-remove :
      (id r : ℕ) (db : BlogDb) → AllComplete db.posts → AllComplete (remove id r db).1.posts
  unfolding remove
  AllComplete-remove id r db good = elim (Bool-cases (r == 0)) [
    | inl zero' ↦ rw (zero', remove) good
    | inr other ↦ elim (Bool-cases (any (hits id r) db.posts)) [
      | inr gone ↦ rw (other, gone, remove) good
      | inl here ↦
          rw (other, here, remove)
            (All-filter (λ post. is_complete post ≡ true)
              (λ post. not (post.id == id && post.revision == r)) db.posts good)
    ]
  ]

  AllComplete-handle :
      (now : ℕ) (request : Request) (db : BlogDb)
      → AllComplete db.posts
      → AllComplete (handle now request db).posts
  unfolding handle edit save_content
  AllComplete-handle now (create dto) db good = AllComplete-insert now dto db good
  AllComplete-handle now (create_words generated dto) db good =
      AllComplete-insert now (content_request packages generated dto none) db good
  AllComplete-handle now (on_post id (all_fields dto)) db good = AllComplete-save now dto id db good
  AllComplete-handle now (on_post id (words generated dto)) db good =
      AllComplete-content now generated dto id db good
  AllComplete-handle now (on_post id (address dto)) db good = AllComplete-address now id dto db good
  AllComplete-handle now (on_post id (deletion r)) db good = AllComplete-remove id r db good

-- Whatever requests the editors send, in any order and at any times, from tables in which every
-- published post has article text, a description, a cover image with its alt text and a date, every
-- published post has them afterwards.
pub handle_all-AllComplete :
    (packages : Packages) (requests : List (ℕ × Request)) (db : BlogDb)
    → AllComplete packages db.posts
    → AllComplete packages (handle_all packages requests db).posts
unfolding handle_all
handle_all-AllComplete packages [] db good = good
handle_all-AllComplete packages ((now, request) ∷ rest) db good =
    handle_all-AllComplete packages rest (handle packages now request db)
      (AllComplete-handle packages now request db good)
