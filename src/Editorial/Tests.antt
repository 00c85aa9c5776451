-- ===== src/Editorial/Tests.antt =====
-- The blog's laws at concrete tables: one post, its old address, and the requests of two editors.
use majestan_backend.Prelude.{true, false, none, some, [], ◌∷◌, ◌≡◌, refl, arith}
use majestan_backend.Prelude.Text.{Text, codes, =t_iff, trim}
use majestan_backend.Editorial.{
  draft, published, Post, Redirect, BlogDb, Packages, find_post, is_live, safe_image_url, details,
}
use majestan_backend.Editorial.Save.{SavePost, SaveContent, save, save_error, save_existing}
use majestan_backend.Editorial.Seo.{
  SaveSeo, path_of, move_redirects, save_seo, resolve_slug, rename, moved, is_reserved, is_foreign,
  upsert, retarget, drop_source,
}
use majestan_backend.Editorial.Revision.{all_fields, words, address, edit}
use majestan_backend.Editorial.Revision.Laws.{edit-refused, edit-no_lost_update}
use majestan_backend.Editorial.Redirects.{target, move_redirects-one_hop}
use majestan_backend.Editorial.Resolve.{save_seo-resolves}
use majestan_backend.Editorial.Keeps.{save-keeps_slug}
use majestan_backend.Editorial.Publish.{
  is_complete, AllComplete, create, on_post, handle_all, handle_all-AllComplete,
}

-- Packages that clean nothing and know one protocol.
abbrev packages : Packages
packages = record { clean = λ t. t; text_only = λ t. t; protocol = λ t. some (codes "https:") }

abbrev post : Post
post = record {
  id = 7;
  title = codes "Title";
  slug = codes "old";
  excerpt = codes "About";
  content = codes "Words";
  category = codes "News";
  cover_image = codes "https://a/b.png";
  cover_alt = codes "A house";
  meta_title = codes "Meta";
  meta_description = codes "Described";
  social_image = [];
  noindex = false;
  status = published;
  published_at = some 5;
  meta_keywords = [];
  revision = 3;
  updated_at = 5;
}

abbrev older : Redirect
older = record {
  source_path = path_of (codes "older");
  destination_path = path_of (codes "old");
  reason = codes "blog-slug";
  is_active = true;
}

abbrev db : BlogDb
db = record { posts = post ∷ []; next_id = 8; redirects = older ∷ [] }

abbrev seo : SaveSeo
seo = record {
  slug = codes "new";
  meta_title = codes "Meta";
  meta_description = codes "Described";
  meta_keywords = none;
  social_image = [];
  noindex = false;
  revision = 3;
}

abbrev content : SaveContent
content = record {
  title = codes "Other title";
  excerpt = codes "About";
  content = codes "Other words";
  category = codes "News";
  cover_image = codes "https://a/b.png";
  cover_alt = codes "A house";
  status = draft;
  revision = some 3;
}

abbrev fields : SavePost
fields = record {
  title = codes "Title";
  slug = codes "other";
  excerpt = codes "About";
  content = codes "Words";
  category = codes "News";
  cover_image = codes "https://a/b.png";
  cover_alt = codes "A house";
  meta_title = [];
  meta_description = [];
  meta_keywords = none;
  social_image = [];
  noindex = false;
  status = published;
  published_at = none;
  revision = some 3;
}

save_seo-resolves_example :
    resolve_slug 6 (codes "old") (save_seo packages 9000 7 seo db).1 ≡ some (codes "new")
unfolding save_seo is_live safe_image_url rename is_reserved is_foreign details moved
save_seo-resolves_example =
    save_seo-resolves packages 9000 6 7 seo post db refl (omega arith) (omega arith) refl refl refl

edit-no_lost_update_example :
    edit packages 9500 7 (words (codes "g") content) (edit packages 9000 7 (address seo) db).1
    ≡ (false, (edit packages 9000 7 (address seo) db).1)
unfolding edit save_seo safe_image_url rename is_reserved is_foreign details moved
edit-no_lost_update_example =
    edit-no_lost_update packages 9000 9500 7 (address seo) (words (codes "g") content) db refl refl

edit-refused_example : (edit packages 9000 7 (all_fields fields) db).1 ≡ db
unfolding edit save save_error safe_image_url save_existing trim
edit-refused_example = edit-refused packages 9000 7 (all_fields fields) db refl

flat : (path d : Text) → target path db.redirects ≡ some d → target d db.redirects ≡ none
unfolding target
flat path d h = ground (arith, =t_iff (path_of (codes "older")) d)

move_redirects-one_hop_example :
    target
      (path_of (codes "new"))
      (move_redirects (path_of (codes "old")) (path_of (codes "new")) db.redirects)
    ≡ none
unfolding target move_redirects upsert retarget drop_source
move_redirects-one_hop_example =
    move_redirects-one_hop (path_of (codes "old")) (path_of (codes "new")) db.redirects
      (path_of (codes "older")) (path_of (codes "new")) (ground arith) (refl, tt) flat refl

handle_all-AllComplete_example :
    AllComplete packages
      (handle_all packages
        ((9000, create fields) ∷ (9500, on_post 7 (words [] content)) ∷ [])
        db).posts
unfolding is_complete trim
handle_all-AllComplete_example =
    handle_all-AllComplete packages
      ((9000, create fields) ∷ (9500, on_post 7 (words [] content)) ∷ []) db (refl, tt)

save-keeps_slug_example :
    (q : Post) × (find_post 7 (save packages 9000 fields (some 7) db).1.posts ≡ some q)
    × (q.slug ≡ codes "old")
save-keeps_slug_example = save-keeps_slug packages 9000 fields 7 post db refl refl
