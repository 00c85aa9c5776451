-- ===== src/OwnerPost.antt =====
-- src/modules/owner-post: owners post their own properties, from a draft for each verified phone.
pub mod Media
pub mod Details
pub mod Amounts
pub mod Policy
pub mod Drafts
mod Tests
use majestan_backend.Prelude.{
  ℕ, ◌+◌, ◌*◌, Bool, true, false, not, ◌&&◌, ◌||◌, Option, none, some, List, [], ◌∷◌, ltb, leb,
  if◌then◌else◌, length, any,
}
use majestan_backend.Prelude.Text.{Text, ◌=t◌}
use majestan_backend.Phone.{is_digit, all_digits}

-- The digits that a text begins with, and what follows them.
unfoldable pub leading_digits : Text → Text
leading_digits [] = []
leading_digits (c ∷ s) = let rest = leading_digits s in if is_digit c then c ∷ rest else []

unfoldable pub after_digits : Text → Text
after_digits [] = []
after_digits (c ∷ s) = let rest = after_digits s in if is_digit c then rest else c ∷ s

abbrev pub is_in : Text → List Text → Bool
is_in name = any (λ other. other =t name)
