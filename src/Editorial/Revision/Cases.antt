-- ===== src/Editorial/Revision/Cases.antt =====
-- What each editor of src/modules/editorial/editorial.service.ts answers and leaves, case by case.
use majestan_backend.Prelude.{
  ℕ, String, true, false, not, ◌&&◌, ◌||◌, Option, some, ◌==◌, ◌≡◌, ◌⊎◌, inl, inr, refl, arith, any,
  update_where, Bool-cases, Option-cases,
}
use majestan_backend.Prelude.Text.{Text, ◌=t◌}
use majestan_backend.Http.{ok, fail}
use majestan_backend.Editorial.{
  Post, BlogDb, Packages, find_post, safe_image_url, details, slug_taken,
}
use majestan_backend.Editorial.Save.{
  SavePost, SaveContent, is_some, save, save_content, save_existing, update_post, content_request,
  remove, write_post, save_error,
}
use majestan_backend.Editorial.Seo.{
  SaveSeo, has_date, is_foreign, is_reserved, path_of, save_seo, rename, update_seo, moved, hits,
  write_seo, finish,
}
use majestan_backend.Editorial.Revision.{
  Edit, all_fields, words, address, deletion, read_revision, edit, Settled, SettledBy,
}
use majestan_backend.Editorial.Revision.Rows.{
  any-update_where_self, any-filter-not, any_of_found, found_after,
}

module _ (packages : Packages) (now id : ℕ) where
  update_post-cases :
      (dto : SavePost) (previous : Option ℕ) (r : ℕ) (db : BlogDb)
      → SettledBy id (some r) db (update_post packages now dto previous id r db)
  unfolding update_post details
  update_post-cases dto previous r db = elim (Bool-cases (any (hits id r) db.posts)) [
    | inr gone ↦ inl (ground arith, ground arith)
    | inl here ↦
        let (x, found) =
          found_after (write_post packages now dto previous) id r db.posts (λ x. refl) here in
        let used =
          any-update_where_self (write_post packages now dto previous) id r db.posts (λ x. refl) in
        elim (Bool-cases (slug_taken id dto.slug db.posts)) [
          | inl taken ↦ inl (ground arith, ground arith)
          | inr free ↦ inr (ground arith, (r, refl, here, ground arith))
        ]
  ]

  save_existing-cases :
      (dto : SavePost) (previous : Post) (db : BlogDb)
      → SettledBy id dto.revision db (save_existing packages now dto id previous db)
  unfolding save_existing
  save_existing-cases dto previous db =
      elim (Bool-cases (is_some previous.published_at && not (previous.slug =t dto.slug))) [
        | inl kept ↦ rw (kept, save_existing) (inl (refl, refl))
        | inr free ↦ elim (Option-cases dto.revision) [
          | inl none' ↦ rw (free, none', save_existing) (inl (refl, refl))
          | inr (r, given) ↦ elim (Bool-cases (r == 0)) [
            | inl zero' ↦ rw (free, given, zero', save_existing) (inl (refl, refl))
            | inr other ↦
                rw (free, given, other, save_existing)
                  (update_post-cases dto previous.published_at r db)
          ]
        ]
      ]

  save-cases :
      (dto : SavePost) (db : BlogDb)
      → SettledBy id dto.revision db (save packages now dto (some id) db)
  unfolding save
  save-cases dto db = elim (Option-cases (save_error packages dto)) [
    | inr (message, bad) ↦ rw (bad, save) (inl (refl, refl))
    | inl good ↦ elim (Option-cases (find_post id db.posts)) [
      | inl none' ↦ rw (good, none', save) (inl (refl, refl))
      | inr (previous, found) ↦ rw (good, found, save) (save_existing-cases dto previous db)
    ]
  ]

  save_content-cases :
      (generated : Text) (dto : SaveContent) (db : BlogDb)
      → SettledBy id dto.revision db (save_content packages now generated dto (some id) db)
  unfolding save_content content_request
  save_content-cases generated dto db = elim (Option-cases (find_post id db.posts)) [
    | inl none' ↦ rw (none', save_content) (inl (refl, refl))
    | inr (previous, found) ↦
        rw (found, save_content)
          (save-cases (content_request packages generated dto (some previous)) db)
  ]

  remove-cases : (r : ℕ) (db : BlogDb) → SettledBy id (some r) db (remove id r db)
  unfolding remove
  remove-cases r db = elim (Bool-cases (any (hits id r) db.posts)) [
    | inr gone ↦ inl (ground arith, ground arith)
    | inl here ↦ elim (Bool-cases (r == 0)) [
      | inl zero' ↦ inl (ground arith, ground arith)
      | inr other ↦
          inr (ground arith, (r, refl, here, ground (arith, any-filter-not id r db.posts)))
    ]
  ]

  -- What the writing of `saveSeo` does to the table of posts.
  written-cases :
      (dto : SaveSeo) (words' : Text) (db after : BlogDb)
      → any (hits id dto.revision) db.posts ≡ true
      → after.posts ≡ update_where (hits id dto.revision) (write_seo now dto words') db.posts
      → SettledBy id (some dto.revision) db (finish packages id (ok tt, after))
  unfolding details
  written-cases dto words' db after here wrote =
      let (x, found) =
        found_after (write_seo now dto words') id dto.revision db.posts (λ x. refl) here in
      let used =
        any-update_where_self (write_seo now dto words') id dto.revision db.posts (λ x. refl) in
      inr (ground arith, (dto.revision, refl, here, ground arith))

  update_seo-cases :
      (dto : SaveSeo) (previous : Post) (db : BlogDb)
      → SettledBy id
          (some dto.revision)
          db
          (finish packages id (update_seo packages now id dto previous db))
  unfolding update_seo
  update_seo-cases dto previous db = elim (Bool-cases (any (hits id dto.revision) db.posts)) [
    | inr gone ↦ rw (gone, update_seo) (inl (refl, refl))
    | inl here ↦
        rw (here, update_seo)
          (written-cases dto previous.meta_keywords db
            (record db {
              posts =
                  update_where (hits id dto.revision) (write_seo now dto previous.meta_keywords)
                    db.posts;
            })
            here refl)
  ]

  pub rename-end :
      (dto : SaveSeo) (previous locked : Post) (db : BlogDb)
      → find_post id db.posts ≡ some locked
      → ((s : ℕ) × (m : String) × (rename packages now id dto previous db ≡ (fail s m, db)))
        ⊎ ((locked.revision == dto.revision) ≡ true)
          × ((has_date locked && is_foreign (path_of previous.slug) db.redirects) ≡ false)
          × (rename packages now id dto previous db
              ≡ (ok tt, moved packages now id dto previous locked db))
  unfolding rename
  rename-end dto previous locked db found =
      elim (Bool-cases
        (not (locked.revision == dto.revision) || not (locked.slug =t previous.slug))) [
          | inl c ↦ inl (
            409,
            "This post changed in another session. Reload it before saving.",
            rw (found, c, rename) refl,
          )
          | inr c1 ↦ elim (Bool-cases (slug_taken id dto.slug db.posts)) [
            | inl c ↦ inl (409, "That URL slug is already in use", rw (found, c1, c, rename) refl)
            | inr c2 ↦
                elim (Bool-cases
                  (is_reserved (path_of previous.slug) (path_of dto.slug) db.redirects)) [
                    | inl c ↦ inl (
                      409,
                      "That URL is reserved by an existing redirect",
                      rw (found, c1, c2, c, rename) refl,
                    )
                    | inr c3 ↦
                        elim (Bool-cases
                          (has_date locked && is_foreign (path_of previous.slug) db.redirects)) [
                            | inl c ↦ inl (
                              409,
                              "The old URL has an existing redirect. Review it in Technical SEO first.",
                              rw (found, c1, c2, c3, c, rename) refl,
                            )
                            | inr c4 ↦
                                inr (ground arith, c4, rw (found, c1, c2, c3, c4, rename) refl)
                          ]
                  ]
          ]
        ]

  rename-cases :
      (dto : SaveSeo) (previous : Post) (db : BlogDb)
      → SettledBy id
          (some dto.revision)
          db
          (finish packages id (rename packages now id dto previous db))
  unfolding rename moved
  rename-cases dto previous db = elim (Option-cases (find_post id db.posts)) [
    | inl none' ↦ rw (none', rename) (inl (refl, refl))
    | inr (locked, found) ↦ elim (rename-end dto previous locked db found) [
      | inl (s, m, end) ↦ rw (end, rename) (inl (refl, refl))
      | inr (same, _, end) ↦
          rw (end, rename)
            (written-cases dto previous.meta_keywords db
              (moved packages now id dto previous locked db)
              (any_of_found id dto.revision db.posts locked found same) refl)
    ]
  ]

  save_seo-cases :
      (dto : SaveSeo) (db : BlogDb)
      → SettledBy id (some dto.revision) db (save_seo packages now id dto db)
  unfolding save_seo
  save_seo-cases dto db = elim (Option-cases (find_post id db.posts)) [
    | inl none' ↦ rw (none', save_seo) (inl (refl, refl))
    | inr (previous, found) ↦ elim (Bool-cases (safe_image_url packages dto.social_image)) [
      | inr unsafe ↦ rw (found, unsafe, save_seo) (inl (refl, refl))
      | inl safe ↦ elim (Bool-cases (previous.slug =t dto.slug)) [
        | inl stays ↦ rw (found, safe, stays, save_seo) (update_seo-cases dto previous db)
        | inr moves ↦ rw (found, safe, moves, save_seo) (rename-cases dto previous db)
      ]
    ]
  ]

  pub edit-cases :
      (e : Edit) (db : BlogDb)
      → Settled id (read_revision e) db (edit packages now id e db).0 (edit packages now id e db).1
  unfolding edit
  edit-cases (all_fields dto) db = save-cases dto db
  edit-cases (words generated dto) db = save_content-cases generated dto db
  edit-cases (address dto) db = save_seo-cases dto db
  edit-cases (deletion r) db = remove-cases r db
