-- ===== src/Editorial/Revision/Rows.antt =====
-- The rows of `blog_posts` that `WHERE id = ? AND revision = ?` selects, before and after a write.
use majestan_backend.Prelude.{
  ℕ, ◌+◌, true, false, not, ◌&&◌, some, List, [], ◌∷◌, ◌==◌, ◌≡◌, refl, arith, any, filter,
  update_where, any_of_find?, find?_of_any, find?_sound, ==_iff,
}
use majestan_backend.Editorial.{Post, find_post}
use majestan_backend.Editorial.Seo.{hits}

pub any-update_where_self :
    (f : Post → Post) (id r : ℕ) (xs : List Post)
    → ((x : Post) → x.revision + 1 ≡ (f x).revision)
    → any (hits id r) (update_where (hits id r) f xs) ≡ false
any-update_where_self f id r [] h = refl
any-update_where_self f id r (x ∷ xs) h =
    ground
      (arith, any-update_where_self f id r xs h, h x, ==_iff x.revision r, ==_iff (f x).revision r)

pub any-filter-not :
    (id r : ℕ) (xs : List Post)
    → any (hits id r) (filter (λ post. not (post.id == id && post.revision == r)) xs) ≡ false
any-filter-not id r [] = refl
any-filter-not id r (x ∷ xs) = ground (arith, any-filter-not id r xs)

pub any_of_found :
    (id r : ℕ) (xs : List Post) (l : Post)
    → find_post id xs ≡ some l
    → (l.revision == r) ≡ true
    → any (hits id r) xs ≡ true
any_of_found id r [] l h k = absurd (ground arith)
any_of_found id r (x ∷ xs) l h k = ground (arith, any_of_found id r xs l)

-- The row that an edit wrote is read back.
pub found_after :
    (f : Post → Post) (id r : ℕ) (xs : List Post)
    → ((x : Post) → (f x).id ≡ x.id)
    → any (hits id r) xs ≡ true
    → (x : Post) × (find_post id (update_where (hits id r) f xs) ≡ some x)
found_after f id r xs same here =
    let (l, found) = find?_of_any (hits id r) xs here in
    let hit = find?_sound (hits id r) xs l found in
    find?_of_any (λ p. p.id == id) (update_where (hits id r) f xs)
      (any_of_find? (hits id r) (hits id r) (λ p. p.id == id) f xs l found hit
        (ground (arith, same l)))
