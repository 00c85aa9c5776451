-- ===== src/Slug/Property/Laws.antt =====
-- What is read from the slug of a property.
use majestan_backend.Prelude.{
  ℕ, ◌≤◌, Bool, true, false, not, ◌&&◌, ◌||◌, Option, none, some, List, [], ◌∷◌, ◌++◌, ◌==◌, ◌≡◌,
  refl, sym, ap, ◌∙◌, arith, if◌then◌else◌, length, All, Bool-cases, inl, inr,
}
use majestan_backend.Prelude.Text.{Text, ◌=t◌, =t_iff, is_empty, lower}
use majestan_backend.Phone.{all_digits}
use majestan_backend.Phone.OtpCode.{decimal, pad_start, pad_start_lem}
use majestan_backend.Slug.Property.{
  after_letters, id_code, type_codes, find_code, get_property_type_code, id_suffix,
  generate_seo_slug, normalize_seo_slug, suffix_type, read_pair, read_code,
  parse_property_slug_suffix, enforce_slug_suffix, strip_property_id_suffix,
}
use majestan_backend.Slug.Property.Codes.{
  letters_before, id_code-append, id_code-none, is_id_code-append, all_letters,
}

is_absent : Option Text → Bool
is_absent none = true
is_absent (some s) = false

-- A code of a type: letters in lower case, and two of them if a type is read from it.
is_fine : Text → Bool
unfolding is_absent
is_fine code =
    all_letters code
    && lower code =t code
    && not (is_empty code)
    && (length code == 2 || is_absent (suffix_type code))

find_code_fine :
    (name : Text) (entries : List (Text × Text))
    → All (λ entry. is_fine entry.1 ≡ true) entries
    → is_fine (find_code name entries) ≡ true
unfolding find_code is_fine all_letters lower suffix_type
find_code_fine name [] all = refl
find_code_fine name (entry ∷ entries) (first, all) = elim (Bool-cases (name =t entry.0)) [
  | inl here ↦ rw here first
  | inr other ↦ rw other (find_code_fine name entries all)
]

type_codes_fine : All (λ entry. is_fine entry.1 ≡ true) type_codes
unfolding is_fine all_letters lower suffix_type
type_codes_fine = (
  refl,
  (
    refl,
    (
      refl,
      (
        refl,
        (
          refl,
          (
            refl,
            (
              refl,
              (refl, (refl, (refl, (refl, (refl, (refl, (refl, (refl, (refl, (refl, tt)))))))))),
            ),
          ),
        ),
      ),
    ),
  ),
)

-- The type and the id that an id code of a type stands for
abbrev pub type_and_id : Text → ℕ → Option (Text × ℕ)
type_and_id property_type id = elim (suffix_type (get_property_type_code property_type)) [
  | none ↦ none
  | some name ↦ some (name, id)
]

fine_parts :
    (code : Text)
    → is_fine code ≡ true
    → (all_letters code ≡ true)
      × (lower code ≡ code)
      × ((length code == 2 || is_absent (suffix_type code)) ≡ true)
unfolding is_fine
fine_parts code h = (ground arith, (=t_iff (lower code) code).0 (ground arith), ground arith)

read_code-append :
    (code digits : Text)
    → all_letters code ≡ true
    → lower code ≡ code
    → all_digits digits ≡ true
    → read_code (code ++ digits) ≡ read_pair code digits
unfolding read_code
read_code-append code digits l same d =
    let (front, back) = letters_before code digits l d in
    ap (λ s. read_pair (lower s) (after_letters (code ++ digits))) front
    ∙ ap (λ s. read_pair (lower code) s) back
    ∙ ap (λ s. read_pair s digits) same

none_of_absent : (o : Option Text) → is_absent o ≡ true → o ≡ none
unfolding is_absent
none_of_absent none h = refl
none_of_absent (some s) h = absurd (ground arith)

read_found : Option Text → Option (Text × ℕ)
unfolding parse_property_slug_suffix
read_found o = elim o [ none ↦ none | some found ↦ read_code found ]

-- The code that is found in a code of a type
id_code-fine :
    (code digits : Text)
    → all_letters code ≡ true
    → all_digits digits ≡ true
    → 1 ≤ length digits
    → id_code 2 2 (b'-' ∷ (code ++ digits))
      ≡ (if length code == 2 then some (code ++ digits) else none)
unfolding id_code
id_code-fine code digits l d some_digit =
    rw (is_id_code-append code digits l d some_digit, id_code-none 2 2 code digits l d) refl

unread : (code digits : Text) → suffix_type code ≡ none → read_pair code digits ≡ none
unfolding read_pair
unread code digits no_type = rw (no_type, read_pair) refl

parse_code :
    (code digits : Text)
    → is_fine code ≡ true
    → all_digits digits ≡ true
    → 1 ≤ length digits
    → parse_property_slug_suffix (b'-' ∷ (code ++ digits)) ≡ read_pair code digits
unfolding parse_property_slug_suffix read_found
parse_code code digits fine d some_digit =
    let (l, same, typed) = fine_parts code fine in
    let found = id_code-fine code digits l d some_digit in
    elim (Bool-cases (length code == 2)) [
      | inl two ↦
          ap read_found (found ∙ ap (λ b. if b then some (code ++ digits) else none) two)
          ∙ read_code-append code digits l same d
      | inr other ↦
          let no_type : suffix_type code ≡ none =
            none_of_absent (suffix_type code) (ground (arith, typed, other)) in
          ap read_found (found ∙ ap (λ b. if b then some (code ++ digits) else none) other)
          ∙ sym (unread code digits no_type)
    ]

parse-id_suffix :
    (front property_type : Text) (id : ℕ)
    → parse_property_slug_suffix (front ++ id_suffix property_type id)
      ≡ type_and_id property_type id
unfolding parse_property_slug_suffix id_suffix get_property_type_code read_pair read_found
parse-id_suffix front property_type id =
    let code = find_code (lower property_type) type_codes in
    let padded = pad_start 3 (decimal id) in
    let (digits, some_digit, number) = pad_start_lem 3 id in
    let fine = find_code_fine (lower property_type) type_codes type_codes_fine in
    let parsed = parse_code code padded fine digits some_digit in
    ap read_found (id_code-append 2 2 front (code ++ padded))
    ∙ parsed
    ∙ ap
        (λ n. elim (suffix_type code) as (λ x. Option (Text × ℕ)) [
          | none ↦ none
          | some t ↦ some (t, n)
        ])
        number

-- The slug that is generated for a property, or made of any slug by enforcing the suffix, is read back as
-- the type that the code of the property's type stands for, and the id; if no type is read from the code,
-- as for villas and plots, the slug is not recognised.
pub parse_property_slug_suffix-generate_seo_slug :
    (title slug property_type : Text) (id : ℕ)
    → (parse_property_slug_suffix (generate_seo_slug title property_type id)
        ≡ type_and_id property_type id)
      × (parse_property_slug_suffix (enforce_slug_suffix slug property_type id)
          ≡ type_and_id property_type id)
unfolding generate_seo_slug enforce_slug_suffix
parse_property_slug_suffix-generate_seo_slug title slug property_type id = (
  parse-id_suffix (normalize_seo_slug title) property_type id,
  parse-id_suffix (strip_property_id_suffix slug) property_type id,
)
