-- ===== src/Slug/Property.antt =====
-- src/modules/properties/utils/property-slug.util.ts: the slugs of properties, which end in a code for
-- the type and the id.
pub mod Codes
pub mod Laws
mod Tests
use majestan_backend.Prelude.{
  ℕ, zero, suc, ◌+◌, ◌*◌, ◌≤◌, Bool, true, false, not, ◌&&◌, ◌||◌, Option, none, some, List, [],
  ◌∷◌, ◌++◌, ◌==◌, leb, if◌then◌else◌, filter, any, count, length,
}
use majestan_backend.Prelude.Text.{Text, codes, ◌=t◌, is_empty, trim, lower}
use majestan_backend.Phone.{is_digit, all_digits}
use majestan_backend.Phone.OtpCode.{decimal, pad_start, value}
use majestan_backend.Slug.{spell_and, hyphenate, trim_hyphens_start, trim_hyphens_end, is_slug_code}

-- `['’‘`]`
abbrev pub is_quote : ℕ → Bool
is_quote c = c == 39 || c == 8217 || c == 8216 || c == 96

-- `normalizeSeoSlug`
unfoldable pub normalize_seo_slug : Text → Text
unfolding trim lower spell_and hyphenate trim_hyphens_start trim_hyphens_end
normalize_seo_slug value = trim_hyphens_end (
    trim_hyphens_start
      (hyphenate false (filter (λ c. not (is_quote c)) (spell_and (lower (trim value))))))

abbrev pub is_letter : ℕ → Bool
is_letter c = leb 97 c && leb c 122 || leb 65 c && leb c 90

-- The letters that a text begins with, and what follows them.
unfoldable pub leading_letters : Text → Text
leading_letters [] = []
leading_letters (c ∷ s) = let rest = leading_letters s in if is_letter c then c ∷ rest else []

unfoldable pub after_letters : Text → Text
after_letters [] = []
after_letters (c ∷ s) = let rest = after_letters s in if is_letter c then rest else c ∷ s

-- `[a-z]{least,most}\d+$`
unfoldable pub is_id_code : ℕ → ℕ → Text → Bool
unfolding leading_letters after_letters
is_id_code least most s =
    leb least (length (leading_letters s))
    && leb (length (leading_letters s)) most
    && not (is_empty (after_letters s))
    && all_digits (after_letters s)

-- What `/-([a-z]{least,most}\d+)$/i` matches behind its hyphen
unfoldable pub id_code : ℕ → ℕ → Text → Option Text
unfolding is_id_code
id_code least most [] = none
id_code least most (c ∷ s) =
    let rest = id_code least most s in if c == b'-' && is_id_code least most s then some s else rest

-- `replace(/-[a-z]{1,6}\d+$/i, '')`
unfoldable pub without_id_code : Text → Text
unfolding is_id_code
without_id_code [] = []
without_id_code (c ∷ s) =
    let rest = without_id_code s in if c == b'-' && is_id_code 1 6 s then [] else c ∷ rest

-- `split('-').at(-1)`
unfoldable pub final_token : Text → Text
final_token [] = []
final_token (c ∷ s) =
    let rest = final_token s in if any (λ d. d == b'-') (c ∷ s) then rest else c ∷ s

abbrev pub is_plain_token : Text → Bool
is_plain_token token =
    leb 2 (length token) && leb (length token) 64 && not (any (λ c. not (is_slug_code c)) token)

-- `extractPropertyCodeFromSeoSlug`
unfoldable pub extract_property_code : Text → Option Text
unfolding normalize_seo_slug id_code final_token lower
extract_property_code slug =
    let normalized = normalize_seo_slug slug in
    if is_empty normalized then none else elim (id_code 1 6 normalized) [
      | some code ↦ some (lower code)
      | none ↦
          if is_plain_token (final_token normalized)
          then some (lower (final_token normalized))
          else none
    ]

-- The cases of `getPropertyTypeCode`, in their order.
abbrev pub type_codes : List (Text × Text)
type_codes =
    (codes "apartment", codes "ap")
    ∷ (codes "villa", codes "v")
    ∷ (codes "plot", codes "p")
    ∷ (codes "commercial", codes "cs")
    ∷ (codes "commercial-space", codes "cs")
    ∷ (codes "coworking", codes "cw")
    ∷ (codes "farmland", codes "fl")
    ∷ (codes "industrial", codes "is")
    ∷ (codes "industrial-space", codes "is")
    ∷ (codes "pg_service_apartment", codes "pg")
    ∷ (codes "pg-service-apartment", codes "pg")
    ∷ (codes "farm_house", codes "fh")
    ∷ (codes "farm-house", codes "fh")
    ∷ (codes "investment_property", codes "iv")
    ∷ (codes "investment-property", codes "iv")
    ∷ (codes "independent-house", codes "ip")
    ∷ (codes "individual_portion", codes "ip")
    ∷ []

unfoldable pub find_code : Text → List (Text × Text) → Text
find_code name [] = codes "ot"
find_code name (entry ∷ entries) =
    let rest = find_code name entries in if name =t entry.0 then entry.1 else rest

-- `getPropertyTypeCode`
unfoldable pub get_property_type_code : Text → Text
unfolding lower find_code
get_property_type_code property_type = find_code (lower property_type) type_codes

-- `-${code}${paddedId}`
unfoldable pub id_suffix : Text → ℕ → Text
unfolding get_property_type_code pad_start decimal
id_suffix property_type id =
    b'-' ∷ (get_property_type_code property_type ++ pad_start 3 (decimal id))

-- `generateSeoSlug`
unfoldable pub generate_seo_slug : Text → Text → ℕ → Text
unfolding normalize_seo_slug id_suffix
generate_seo_slug title property_type id = normalize_seo_slug title ++ id_suffix property_type id

-- `stripPropertyIdSuffix`
unfoldable pub strip_property_id_suffix : Text → Text
unfolding normalize_seo_slug without_id_code
strip_property_id_suffix slug = without_id_code (normalize_seo_slug slug)

-- `SLUG_SUFFIX_TYPES`
unfoldable pub suffix_type : Text → Option Text
suffix_type code =
    if code =t codes "ap"
    then some (codes "apartment")
    else if code =t codes "cs"
    then some (codes "commercial")
    else if code =t codes "ip"
    then some (codes "individual_portion")
    else if code =t codes "iv"
    then some (codes "investment_property")
    else if code =t codes "pg"
    then some (codes "pg_service_apartment")
    else if code =t codes "fh"
    then some (codes "farm_house")
    else if code =t codes "fl"
    then some (codes "farmland")
    else if code =t codes "cw"
    then some (codes "coworking")
    else if code =t codes "is"
    then some (codes "industrial")
    else if code =t codes "ot"
    then some (codes "other")
    else none

-- The type and the id that letters and digits stand for
unfoldable pub read_pair : Text → Text → Option (Text × ℕ)
unfolding suffix_type value
read_pair letters digits = elim (suffix_type letters) [
  | none ↦ none
  | some property_type ↦ some (property_type, value digits)
]

unfoldable pub read_code : Text → Option (Text × ℕ)
unfolding leading_letters after_letters read_pair lower
read_code code = read_pair (lower (leading_letters code)) (after_letters code)

-- `parsePropertySlugSuffix`
unfoldable pub parse_property_slug_suffix : Text → Option (Text × ℕ)
unfolding id_code read_code
parse_property_slug_suffix slug = elim (id_code 2 2 slug) [
  | none ↦ none
  | some code ↦ read_code code
]

-- `enforceSlugSuffix`
unfoldable pub enforce_slug_suffix : Text → Text → ℕ → Text
unfolding strip_property_id_suffix id_suffix
enforce_slug_suffix slug property_type id =
    strip_property_id_suffix slug ++ id_suffix property_type id
