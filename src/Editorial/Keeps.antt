-- ===== src/Editorial/Keeps.antt =====
-- What `save` and `saveContent` of src/modules/editorial/editorial.service.ts leave of the post they
-- edit.
use majestan_backend.Prelude.{
  ℕ, true, false, not, ◌&&◌, Option, some, List, [], ◌∷◌, ◌≡◌, ◌⊎◌, inl, inr, refl, ap, ◌∙◌, arith,
  update_where,
}
use majestan_backend.Prelude.Text.{Text, ◌=t◌, =t_iff, is_empty, trim}
use majestan_backend.Editorial.{Post, BlogDb, Packages, find_post}
use majestan_backend.Editorial.Save.{
  SavePost, SaveContent, save, save_content, content_request, write_post, publication, is_some,
}
use majestan_backend.Editorial.Seo.{hits, has_date}
use majestan_backend.Editorial.Writes.{save-writes}

-- The post of an update: as it was, or as it was written.
find_post-update_where :
    (f : Post → Post) (id r : ℕ) (xs : List Post) (p : Post)
    → ((x : Post) → (f x).id ≡ x.id)
    → find_post id xs ≡ some p
    → (find_post id (update_where (hits id r) f xs) ≡ some p)
      ⊎ (find_post id (update_where (hits id r) f xs) ≡ some (f p))
find_post-update_where f id r [] p same h = absurd (ground arith)
find_post-update_where f id r (x ∷ xs) p same h =
    ground (arith, find_post-update_where f id r xs p same, same x)

slug_kept :
    (p previous : Post) (slug : Text)
    → previous ≡ p
    → has_date p ≡ true
    → (is_some previous.published_at && not (previous.slug =t slug)) ≡ false
    → slug ≡ p.slug
slug_kept p previous slug same dated free =
    let same_date = ap (λ (x : Post). x.published_at) same in
    let same_slug = ap (λ (x : Post). x.slug) same in ground (arith, =t_iff previous.slug slug)

-- The fields of the SEO editor
abbrev IsSameAddress : Post → Post → Type 0
IsSameAddress p q =
    (q.slug ≡ p.slug)
    × (q.meta_title ≡ p.meta_title)
    × (q.meta_description ≡ p.meta_description)
    × (q.meta_keywords ≡ p.meta_keywords)
    × (q.social_image ≡ p.social_image)
    × (q.noindex ≡ p.noindex)

abbrev pub IsTrimmed : Post → Type 0
IsTrimmed p =
    (trim p.meta_title ≡ p.meta_title)
    × (trim p.meta_description ≡ p.meta_description)
    × (trim p.meta_keywords ≡ p.meta_keywords)

module _ (packages : Packages) where
  -- A post that has had a publication date keeps its address, whatever `save` is asked.
  pub save-keeps_slug :
      (now : ℕ) (dto : SavePost) (id : ℕ) (p : Post) (db : BlogDb)
      → find_post id db.posts ≡ some p
      → has_date p ≡ true
      → (q : Post) × (find_post id (save packages now dto (some id) db).1.posts ≡ some q)
        × (q.slug ≡ p.slug)
  save-keeps_slug now dto id p db found dated = elim (save-writes packages now dto id db) [
    | inl same ↦ (p, rw same found, refl)
    | inr (previous, r, _, found', free, wrote) ↦
        let alike : previous ≡ p = ground arith in
        elim (find_post-update_where (write_post packages now dto previous.published_at) id r
          db.posts p (λ x. refl) found) [
            | inl kept ↦ (p, rw wrote kept, refl)
            | inr written ↦ (
              write_post packages now dto previous.published_at p,
              rw wrote written,
              slug_kept p previous dto.slug alike dated free,
            )
          ]
  ]

  -- The post that an edit of the words leaves: as it was, or written.
  save_content-leaves :
      (now : ℕ) (generated : Text) (dto : SaveContent) (id : ℕ) (p : Post) (db : BlogDb)
      → find_post id db.posts ≡ some p
      → (find_post id (save_content packages now generated dto (some id) db).1.posts ≡ some p)
        ⊎ (find_post id (save_content packages now generated dto (some id) db).1.posts
            ≡ some (
                write_post packages now
                  (content_request packages generated dto (some p))
                  p.published_at
                  p))
  unfolding save_content
  save_content-leaves now generated dto id p db found =
      elim (save-writes packages now (content_request packages generated dto (some p)) id db) [
        | inl same ↦ inl (rw (found, save_content) (rw same found))
        | inr (previous, r, _, found', _, wrote) ↦
            let alike : previous ≡ p = ground arith in
            elim (find_post-update_where
              (write_post packages now (content_request packages generated dto (some p))
                previous.published_at)
              id r db.posts p (λ x. refl) found) [
                | inl kept ↦ inl (rw (found, save_content) (rw wrote kept))
                | inr written ↦ inr (
                    rw (found, save_content)
                      (rw wrote (
                        written
                        ∙ ap {B = Option Post}
                            (λ (x : Post). some (
                              write_post packages now
                                (content_request packages generated dto (some p)) x.published_at p))
                            alike)))
              ]
      ]

-- An edit of the words of a post, whether it is accepted or refused, keeps the address, the search
-- metadata, the social image and the `noindex` flag, which belong to the SEO editor.
save_content-IsSameAddress :
    (packages : Packages) (now : ℕ) (generated : Text) (dto : SaveContent) (id : ℕ) (p : Post)
    (db : BlogDb)
    → find_post id db.posts ≡ some p
    → is_empty p.slug ≡ false
    → IsTrimmed p
    → (q : Post) × (find_post id (save_content packages now generated dto (some id) db).1.posts
        ≡ some q)
      × IsSameAddress p q
unfolding content_request
save_content-IsSameAddress packages now generated dto id p db found named (mt, md, mk) =
    elim (save_content-leaves packages now generated dto id p db found) [
      | inl kept ↦ (p, kept, (refl, refl, refl, refl, refl, refl))
      | inr written ↦ (
        write_post packages now (content_request packages generated dto (some p)) p.published_at p,
        written,
        (ground arith, mt, md, mk, refl, refl),
      )
    ]

-- An edit of the words of a post that has a publication date, whether it is accepted or refused, keeps
-- the date.
pub save_content-keeps_date :
    (packages : Packages) (now : ℕ) (generated : Text) (dto : SaveContent) (id t : ℕ) (p : Post)
    (db : BlogDb)
    → find_post id db.posts ≡ some p
    → p.published_at ≡ some t
    → (q : Post) × (find_post id (save_content packages now generated dto (some id) db).1.posts
        ≡ some q)
      × (q.published_at ≡ some t)
unfolding content_request publication
save_content-keeps_date packages now generated dto id t p db found dated =
    elim (save_content-leaves packages now generated dto id p db found) [
      | inl kept ↦ (p, kept, dated)
      | inr written ↦ (
        write_post packages now (content_request packages generated dto (some p)) p.published_at p,
        written,
        ground arith,
      )
    ]
