-- ===== src/Slug.antt =====
-- Slugs of addresses: src/modules/projects/utils/project-slug.util.ts `toProjectSlug`, and in Property
-- src/modules/properties/utils/property-slug.util.ts.
pub mod Property
use majestan_backend.Prelude.{
  ℕ, Bool, true, false, not, ◌&&◌, ◌||◌, List, [], ◌∷◌, ◌++◌, ◌==◌, leb, if◌then◌else◌,
}
use majestan_backend.Prelude.Text.{Text, codes, is_empty, trim, lower}

-- `[a-z0-9]`
abbrev pub is_slug_code : ℕ → Bool
is_slug_code c = leb 97 c && leb c 122 || leb 48 c && leb c 57

-- `replace(/&/g, 'and')`
unfoldable pub spell_and : Text → Text
spell_and [] = []
spell_and (c ∷ s) = if c == b'&' then codes "and" ++ spell_and s else c ∷ spell_and s

-- `replace(/[^a-z0-9]+/g, '-')`; `gap` is whether the character before was replaced
unfoldable pub hyphenate : Bool → Text → Text
hyphenate gap [] = []
hyphenate gap (c ∷ s) =
    let word = hyphenate false s in
    let rest = hyphenate true s in
    if is_slug_code c then c ∷ word else if gap then rest else b'-' ∷ rest

unfoldable pub trim_hyphens_start : Text → Text
trim_hyphens_start [] = []
trim_hyphens_start (c ∷ s) = let rest = trim_hyphens_start s in if c == b'-' then rest else c ∷ s

unfoldable pub trim_hyphens_end : Text → Text
trim_hyphens_end [] = []
trim_hyphens_end (c ∷ s) =
    let rest = trim_hyphens_end s in if c == b'-' && is_empty rest then [] else c ∷ rest

-- `toProjectSlug`
unfoldable pub to_project_slug : Text → Text
unfolding trim lower spell_and hyphenate trim_hyphens_start trim_hyphens_end
to_project_slug value =
    trim_hyphens_end (trim_hyphens_start (hyphenate false (spell_and (lower (trim value)))))
