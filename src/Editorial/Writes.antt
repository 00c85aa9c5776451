-- ===== src/Editorial/Writes.antt =====
-- What `save`, `saveContent` and `saveSeo` of src/modules/editorial/editorial.service.ts write to the
-- table of posts.
use majestan_backend.Prelude.{
  ℕ, ◌==◌, false, not, ◌&&◌, Option, none, some, ◌≡◌, ◌⊎◌, inl, inr, refl, ap, ◌∙◌, arith, any,
  update_where, Bool-cases, Option-cases,
}
use majestan_backend.Prelude.Text.{◌=t◌}
use majestan_backend.Http.{Outcome, ok, fail}
use majestan_backend.Editorial.{Post, BlogDb, Packages, find_post, safe_image_url}
use majestan_backend.Editorial.Save.{
  SavePost, save, save_existing, update_post, write_post, save_error, publication, is_some,
}
use majestan_backend.Editorial.Seo.{
  SaveSeo, save_seo, rename, update_seo, moved, hits, write_seo, finish,
}
use majestan_backend.Editorial.Revision.Cases.{rename-end}

module _ (packages : Packages) where
  -- What an update of an existing post writes.
  abbrev pub IsWritten : ℕ → SavePost → ℕ → BlogDb → BlogDb → Type 0
  IsWritten now dto id db after =
      (previous : Post) × (r : ℕ) × (save_error packages dto ≡ none)
      × (find_post id db.posts ≡ some previous)
      × ((is_some previous.published_at && not (previous.slug =t dto.slug)) ≡ false)
      × (after.posts
          ≡ update_where (hits id r) (write_post packages now dto previous.published_at) db.posts)

  update_post-writes :
      (now : ℕ) (dto : SavePost) (previous : Option ℕ) (id r : ℕ) (db : BlogDb)
      → ((update_post packages now dto previous id r db).1 ≡ db)
        ⊎ ((update_post packages now dto previous id r db).1.posts
            ≡ update_where (hits id r) (write_post packages now dto previous) db.posts)
  unfolding update_post
  update_post-writes now dto previous id r db = ground arith

  save_existing-writes :
      (now : ℕ) (dto : SavePost) (id : ℕ) (previous : Post) (db : BlogDb)
      → (is_some previous.published_at && not (previous.slug =t dto.slug)) ≡ false
      → ((save_existing packages now dto id previous db).1 ≡ db)
        ⊎ (r : ℕ) × ((save_existing packages now dto id previous db).1.posts
            ≡ update_where (hits id r) (write_post packages now dto previous.published_at) db.posts)
  unfolding save_existing publication
  save_existing-writes now dto id previous db free = elim (Option-cases dto.revision) [
    | inl none' ↦ inl (rw (free, none', save_existing) refl)
    | inr (r, given) ↦ elim (Bool-cases (r == 0)) [
      | inl zero' ↦ inl (rw (free, given, zero', save_existing) refl)
      | inr other ↦ elim (update_post-writes now dto previous.published_at id r db) [
        | inl same ↦ inl (rw (free, given, other, save_existing) same)
        | inr wrote ↦ inr (r, rw (free, given, other, save_existing) wrote)
      ]
    ]
  ]

  pub save-writes :
      (now : ℕ) (dto : SavePost) (id : ℕ) (db : BlogDb)
      → ((save packages now dto (some id) db).1 ≡ db)
        ⊎ IsWritten now dto id db (save packages now dto (some id) db).1
  unfolding save save_existing
  save-writes now dto id db = elim (Option-cases (save_error packages dto)) [
    | inr (message, bad) ↦ inl (rw (bad, save) refl)
    | inl good ↦ elim (Option-cases (find_post id db.posts)) [
      | inl none' ↦ inl (rw (good, none', save) refl)
      | inr (previous, found) ↦
          elim (Bool-cases (is_some previous.published_at && not (previous.slug =t dto.slug))) [
            | inl kept ↦ inl (rw (good, found, save) (rw (kept, save_existing) refl))
            | inr free ↦ elim (save_existing-writes now dto id previous db free) [
              | inl same ↦ inl (rw (good, found, save) same)
              | inr (r, wrote) ↦ inr (previous, r, good, found, free, rw (good, found, save) wrote)
            ]
          ]
    ]
  ]

  pub finish-after :
      (id : ℕ) (end : Outcome (Unit {0}) × BlogDb) → (finish packages id end).1 ≡ end.1
  finish-after id (ok _, db) = refl
  finish-after id (fail s m, db) = refl

  rename-writes :
      (now id : ℕ) (dto : SaveSeo) (previous : Post) (db : BlogDb)
      → ((rename packages now id dto previous db).1 ≡ db)
        ⊎ ((rename packages now id dto previous db).1.posts
            ≡ update_where
                (hits id dto.revision)
                (write_seo now dto previous.meta_keywords)
                db.posts)
  unfolding rename moved
  rename-writes now id dto previous db = elim (Option-cases (find_post id db.posts)) [
    | inl none' ↦ inl (rw (none', rename) refl)
    | inr (locked, found) ↦ elim (rename-end packages now id dto previous locked db found) [
      | inl (s, m, end) ↦ inl (ap (λ (e : Outcome (Unit {0}) × BlogDb). e.1) end)
      | inr (same, _, end) ↦ inr (ap (λ (e : Outcome (Unit {0}) × BlogDb). e.1.posts) end)
    ]
  ]

  pub save_seo-writes :
      (now id : ℕ) (dto : SaveSeo) (db : BlogDb)
      → ((save_seo packages now id dto db).1 ≡ db)
        ⊎ (previous : Post) × ((save_seo packages now id dto db).1.posts
            ≡ update_where
                (hits id dto.revision)
                (write_seo now dto previous.meta_keywords)
                db.posts)
  unfolding save_seo update_seo
  save_seo-writes now id dto db = elim (Option-cases (find_post id db.posts)) [
    | inl none' ↦ inl (rw (none', save_seo) refl)
    | inr (previous, found) ↦ elim (Bool-cases (safe_image_url packages dto.social_image)) [
      | inr unsafe ↦ inl (rw (found, unsafe, save_seo) refl)
      | inl safe ↦ elim (Bool-cases (previous.slug =t dto.slug)) [
        | inl stays ↦ elim (Bool-cases (any (hits id dto.revision) db.posts)) [
          | inl here ↦
              inr (previous, rw (found, safe, stays, save_seo) (rw (here, update_seo) refl))
          | inr gone ↦ inl (rw (found, safe, stays, save_seo) (rw (gone, update_seo) refl))
        ]
        | inr moves ↦ elim (rename-writes now id dto previous db) [
          | inl same ↦ inl (
              rw (found, safe, moves, save_seo)
                (finish-after id (rename packages now id dto previous db) ∙ same))
          | inr wrote ↦ inr (
            previous,
            rw (found, safe, moves, save_seo)
                (ap (λ (d : BlogDb). d.posts)
                    (finish-after id (rename packages now id dto previous db))
                  ∙ wrote),
          )
        ]
      ]
    ]
  ]
