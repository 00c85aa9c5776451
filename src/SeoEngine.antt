-- ===== src/SeoEngine.antt =====
-- src/modules/seo-engine/seo-utils.ts `pathValue`: the paths that the SEO engine stores.
pub mod Redirects
use majestan_backend.Prelude.{
  ℕ, Bool, true, false, not, ◌&&◌, ◌||◌, Option, none, some, List, [], ◌∷◌, ◌==◌, leb, ltb,
  if◌then◌else◌, any, length,
}
use majestan_backend.Prelude.Text.{Text, codes, ◌=t◌, is_empty}
use majestan_backend.Http.{Outcome, ok, fail}

-- `[a-z0-9%._~!$&'()+,;=@/-]`
abbrev pub is_path_code : ℕ → Bool
is_path_code c =
    leb 97 c && leb c 122 || leb 48 c && leb c 57 || any (λ d. d == c) (codes "%._~!$&'()+,;=@/-")

unfoldable pub starts_with : Text → Text → Bool
starts_with [] s = true
starts_with (c ∷ prefix) [] = false
starts_with (c ∷ prefix) (d ∷ s) = let rest = starts_with prefix s in c == d && rest

-- `includes` of a string
unfoldable pub has_part : Text → Text → Bool
unfolding starts_with
has_part part [] = is_empty part
has_part part (c ∷ s) = let rest = has_part part s in starts_with part (c ∷ s) || rest

-- What the first test of `pathValue` refuses
unfoldable pub is_bad_value : Text → Bool
unfolding starts_with has_part
is_bad_value value =
    ltb 512 (length value)
    || not (starts_with (codes "/") value)
    || any (λ c. not (is_path_code c)) value
    || starts_with (codes "//") value
    || any (λ part. has_part part value)
        (codes "%2f" ∷ codes "%5c" ∷ codes "%00" ∷ codes "%2e" ∷ [])

-- `replace(/\/+$/, '')`
unfoldable pub trim_slashes : Text → Text
trim_slashes [] = []
trim_slashes (c ∷ s) =
    let rest = trim_slashes s in if c == b'/' && is_empty rest then [] else c ∷ rest

abbrev pub push : ℕ → List Text → List Text
push c [] = (c ∷ []) ∷ []
push c (t ∷ ts) = (c ∷ t) ∷ ts

-- `split('/')`
unfoldable pub segments : Text → List Text
segments [] = [] ∷ []
segments (c ∷ s) = let rest = segments s in if c == b'/' then [] ∷ rest else push c rest

abbrev pub reserved : List Text
reserved =
    codes "admin" ∷ codes "api" ∷ codes "_next" ∷ codes "seo-route" ∷ codes "seo-section" ∷ []

-- The first name of a path is reserved.
unfoldable pub is_reserved : List Text → Bool
is_reserved [] = false
is_reserved (root ∷ []) = false
is_reserved (root ∷ name ∷ names) = any (λ word. word =t name) reserved

-- What the second test of `pathValue` refuses
unfoldable pub is_bad_path : Text → Bool
unfolding has_part segments is_reserved
is_bad_path path =
    has_part (codes "//") path
    || any (λ s. s =t codes "." || s =t codes "..") (segments path)
    || is_reserved (segments path)

abbrev pub or_root : Text → Text
or_root path = if is_empty path then codes "/" else path

-- `pathValue`; a value that is no string is `none`.
unfoldable pub path_value : Option Text → Outcome Text
unfolding is_bad_value trim_slashes is_bad_path
path_value none =
    fail 400 "Use an absolute lowercase site path, for example /apartments-for-sale-in-coimbatore"
path_value (some value) =
    if is_bad_value value
    then fail 400
        "Use an absolute lowercase site path, for example /apartments-for-sale-in-coimbatore"
    else if is_bad_path (or_root (trim_slashes value))
    then fail 400 "Reserved or invalid path"
    else ok (or_root (trim_slashes value))
