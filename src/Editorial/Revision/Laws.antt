-- ===== src/Editorial/Revision/Laws.antt =====
-- The optimistic lock of the blog's editors.
use majestan_backend.Prelude.{ℕ, true, false, some, ◌≡◌, inl, inr, arith, any}
use majestan_backend.Editorial.{BlogDb, Packages}
use majestan_backend.Editorial.Seo.{hits}
use majestan_backend.Editorial.Revision.{Edit, read_revision, edit}
use majestan_backend.Editorial.Revision.Cases.{edit-cases}

-- A request on an existing post that is refused changes neither the posts nor the redirects.
pub edit-refused :
    (packages : Packages) (now id : ℕ) (e : Edit) (db : BlogDb)
    → (edit packages now id e db).0 ≡ false
    → (edit packages now id e db).1 ≡ db
edit-refused packages now id e db refused = elim (edit-cases packages now id e db) [
  | inl (_, same) ↦ same
  | inr (took, _) ↦ absurd (ground arith)
]

-- An accepted request on an existing post read the revision at which a row of the post stands.
pub edit-reads_current :
    (packages : Packages) (now id : ℕ) (e : Edit) (db : BlogDb)
    → (edit packages now id e db).0 ≡ true
    → (r : ℕ) × (read_revision e ≡ some r) × (any (hits id r) db.posts ≡ true)
edit-reads_current packages now id e db took = elim (edit-cases packages now id e db) [
  | inl (refused, _) ↦ absurd (ground arith)
  | inr (_, (r, read, here, _)) ↦ (r, read, here)
]

-- Of two requests on a post that read the same revision, whichever two of the editors they come from,
-- at most one is accepted: after the first the second is refused and changes nothing, so that no
-- update is lost.
pub edit-no_lost_update :
    (packages : Packages) (now later id : ℕ) (e f : Edit) (db : BlogDb)
    → read_revision e ≡ read_revision f
    → (edit packages now id e db).0 ≡ true
    → edit packages later id f (edit packages now id e db).1
      ≡ (false, (edit packages now id e db).1)
edit-no_lost_update packages now later id e f db same took =
    elim (edit-cases packages now id e db) [
      | inl (refused, _) ↦ absurd (ground arith)
      | inr (_, (r, read, _, gone)) ↦
          elim (edit-cases packages later id f (edit packages now id e db).1) [
            | inl (refused, kept) ↦ ground (arith)
            | inr (_, (r', read', here, _)) ↦ absurd (ground arith)
          ]
    ]
