-- ===== src/Editorial/Revision.antt =====
-- The editors of a blog post name the revision they read: `save`, `saveContent`, `saveSeo` and
-- `remove` of src/modules/editorial/editorial.service.ts as one kind of edit.
pub mod Rows
pub mod Cases
pub mod Laws
use majestan_backend.Prelude.{
  ℕ, ◌+◌, String, Bool, true, false, not, ◌&&◌, ◌||◌, Option, none, some, List, [], ◌∷◌, ◌==◌, ◌≡◌,
  ◌⊎◌, inl, inr, refl, arith, if◌then◌else◌, find?, any, filter, update_where, Bool-cases,
  Option-cases, any_of_find?, find?_of_any, find?_sound, ==_iff,
}
use majestan_backend.Prelude.Text.{Text, ◌=t◌}
use majestan_backend.Http.{Outcome, ok, fail}
use majestan_backend.Editorial.{
  Post, BlogDb, Packages, find_post, safe_image_url, details, slug_taken,
}
use majestan_backend.Editorial.Save.{
  SavePost, SaveContent, is_some, save, save_content, save_existing, insert_post, update_post,
  content_request, remove, write_post, save_error,
}
use majestan_backend.Editorial.Seo.{
  SaveSeo, has_date, is_foreign, is_reserved, path_of, save_seo, rename, update_seo, moved, hits,
  write_seo, finish,
}

abbrev pub accepted {ℓ} : {A : Type ℓ} → Outcome A → Bool
accepted (ok a) = true
accepted (fail status message) = false

-- A request on one existing post
pub data Edit : Type 0 where
  all_fields : SavePost → Edit
  words : Text → SaveContent → Edit
  address : SaveSeo → Edit
  deletion : ℕ → Edit

-- The revision that the editor read.
abbrev pub read_revision : Edit → Option ℕ
read_revision (all_fields dto) = dto.revision
read_revision (words generated dto) = dto.revision
read_revision (address dto) = some dto.revision
read_revision (deletion revision) = some revision

-- Whether the edit was accepted, and the tables after it.
unfoldable pub edit : Packages → ℕ → ℕ → Edit → BlogDb → Bool × BlogDb
edit packages now id (all_fields dto) db =
    let (answer, after) = save packages now dto (some id) db in (accepted answer, after)
edit packages now id (words generated dto) db =
    let (answer, after) = save_content packages now generated dto (some id) db in
    (accepted answer, after)
edit packages now id (address dto) db =
    let (answer, after) = save_seo packages now id dto db in (accepted answer, after)
edit packages now id (deletion revision) db =
    let (answer, after) = remove id revision db in (accepted answer, after)

-- A row stands at the revision.
abbrev pub at_revision : ℕ → ℕ → BlogDb → Bool
at_revision id revision db = any (hits id revision) db.posts

-- An edit changes nothing, or it uses up the revision that it read.
abbrev pub UsedUp : ℕ → Option ℕ → BlogDb → BlogDb → Type 0
UsedUp id read db after =
    (r : ℕ) × (read ≡ some r) × (at_revision id r db ≡ true) × (at_revision id r after ≡ false)

abbrev pub Settled : ℕ → Option ℕ → BlogDb → Bool → BlogDb → Type 0
Settled id read db b after = ((b ≡ false) × (after ≡ db)) ⊎ ((b ≡ true) × UsedUp id read db after)

abbrev pub SettledBy {ℓ} : {A : Type ℓ} → ℕ → Option ℕ → BlogDb → Outcome A × BlogDb → Type 0
SettledBy id read db end = Settled id read db (accepted end.0) end.1
