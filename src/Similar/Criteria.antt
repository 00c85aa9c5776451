-- ===== src/Similar/Criteria.antt =====
-- The criteria of src/modules/similar/similar-ranking.ts for properties and for projects. Prices are
-- whole numbers, for which the products with 0.25, 0.75 and 1.25 are exact.
use majestan_backend.Prelude.{
  ℕ, ◌+◌, ◌-◌, ◌*◌, Bool, true, false, not, ◌&&◌, ◌||◌, Option, none, some, List, [], ◌∷◌, ◌++◌,
  map, ltb, leb, ◌==◌, if◌then◌else◌, any, filter,
}
use majestan_backend.Prelude.Text.{Text, codes, ◌=t◌, lower, trim, is_empty}
use majestan_backend.Phone.OtpCode.{decimal}
use majestan_backend.Similar.{Criterion}

abbrev text_or_empty : Option Text → Text
text_or_empty none = []
text_or_empty (some t) = t

-- `[a-z0-9]`
abbrev is_plain : ℕ → Bool
is_plain c = leb 97 c && leb c 122 || leb 48 c && leb c 57

-- `replace(/[^a-z0-9]+/g, '_')`; the flag says that a run has begun
abbrev squash : Bool → Text → Text
squash begun [] = []
squash begun (c ∷ s) =
    let rest = squash (not (is_plain c)) s in
    if is_plain c then c ∷ rest else if begun then rest else b'_' ∷ rest

-- `replace(/^_|_$/g, '')`
abbrev strip_first : Text → Text
strip_first [] = []
strip_first (c ∷ s) = if c == b'_' then s else c ∷ s

abbrev strip_last : Text → Text
strip_last [] = []
strip_last (c ∷ []) = if c == b'_' then [] else c ∷ []
strip_last (c ∷ d ∷ s) = c ∷ strip_last (d ∷ s)

-- `norm`
unfoldable pub norm : Option Text → Text
norm v = strip_last (strip_first (squash false (lower (trim (text_or_empty v)))))

-- `same`
unfoldable pub same : Option Text → Option Text → Bool
same a b = not (is_empty (norm a)) && norm a =t norm b

abbrev upper_code : ℕ → ℕ
upper_code c = if leb 97 c && leb c 122 then c - 32 else c

abbrev is_word : ℕ → Bool
is_word c = leb 97 c && leb c 122 || leb 65 c && leb c 90 || leb 48 c && leb c 57 || c == b'_'

-- `replace(/[_-]+/g, ' ')`
abbrev spaced : Bool → Text → Text
spaced begun [] = []
spaced begun (c ∷ s) =
    let mark = c == b'_' || c == b'-' in
    let rest = spaced mark s in if mark then (if begun then rest else b' ' ∷ rest) else c ∷ rest

-- `replace(/\b\w/g, …)`; the flag says that a word character stands before
abbrev capitals : Bool → Text → Text
capitals after_word [] = []
capitals after_word (c ∷ s) =
    let rest = capitals (is_word c) s in if after_word then c ∷ rest else upper_code c ∷ rest

-- `titleCase`
unfoldable pub title_case : Text → Text
title_case v = trim (capitals false (spaced false v))

abbrev sentence : Text → Text
sentence [] = []
sentence (c ∷ s) = upper_code c ∷ s

-- `possessionLabel`
unfoldable pub possession_label : Option Text → Option Text
possession_label v =
    let key = norm v in
    if is_empty key
    then none
    else if key =t codes "ready_to_move"
    then some (codes "Ready to move")
    else if key =t codes "under_construction"
    then some (codes "Under construction")
    else if key =t codes "new_launch"
    then some (codes "New launch")
    else some (sentence (map (λ c. if c == b'_' then b' ' else c) key))

-- `Math.abs`
abbrev distance : ℕ → ℕ → ℕ
distance p t = p - t + (t - p)

-- `withinBand`
unfoldable pub within_band : Option ℕ → Option ℕ → Bool
within_band (some price) (some target) = ltb 0 target && leb (4 * distance price target) target
within_band _ _ = false

abbrev same_number : Option ℕ → Option ℕ → Bool
same_number (some m) (some n) = m == n
same_number _ _ = false

pub record PropertyTraits : Type 0 where
  pub id : ℕ
  pub property_type : Text
  pub listing_type : Option Text
  pub possession : Option Text
  pub bedrooms : Option ℕ
  pub sublocation : Option Text
  pub city : Option Text
  pub price : Option ℕ
  pub condition : Option Text
  pub created_at : ℕ

abbrev bedrooms_label : Option ℕ → Text
bedrooms_label none = codes "null BHK"
bedrooms_label (some n) = decimal n ++ codes " BHK"

abbrev or_null : Text → Option Text
or_null t = if is_empty t then none else some t

-- PROPERTY_CRITERIA
unfoldable pub property_criteria : List (Criterion PropertyTraits)
property_criteria =
    record {
      match_of = λ b c. same (some b.property_type) (some c.property_type);
      label = λ b c. none;
    }
    ∷ record { match_of = λ b c. same b.listing_type c.listing_type; label = λ b c. none }
    ∷ record {
      match_of = λ b c. same b.possession c.possession;
      label = λ b c. possession_label b.possession;
    }
    ∷ record {
      match_of = λ b c. same_number b.bedrooms c.bedrooms;
      label = λ b c. some (bedrooms_label b.bedrooms);
    }
    ∷ record {
      match_of = λ b c. same b.sublocation c.sublocation;
      label = λ b c. some (codes "In " ++ trim (text_or_empty b.sublocation));
    }
    ∷ record {
      match_of = λ b c. within_band c.price b.price;
      label = λ b c. some (codes "Similar price");
    }
    ∷ record { match_of = λ b c. same b.city c.city; label = λ b c. none }
    ∷ record {
      match_of = λ b c. same b.condition c.condition;
      label = λ b c. or_null (title_case (text_or_empty b.condition));
    }
    ∷ []

pub record ProjectTraits : Type 0 where
  pub id : ℕ
  pub project_type : Text
  pub possession : Option Text
  pub bhk : List ℕ
  pub sublocation : Option Text
  pub city : Option Text
  pub min_price : Option ℕ
  pub max_price : Option ℕ
  pub created_at : ℕ

-- `sharedBhk`
unfoldable pub shared_bhk : List ℕ → List ℕ → List ℕ
shared_bhk a b = filter (λ n. ltb 0 n && any (λ m. m == n) b) a

-- `[...new Set(…)].sort((x, y) => x - y)`
abbrev add_sorted : ℕ → List ℕ → List ℕ
add_sorted n [] = n ∷ []
add_sorted n (m ∷ ms) =
    let rest = add_sorted n ms in
    if n == m then m ∷ ms else if ltb n m then n ∷ m ∷ ms else m ∷ rest

abbrev sorted_set : List ℕ → List ℕ
sorted_set [] = []
sorted_set (n ∷ ns) = add_sorted n (sorted_set ns)

-- `join(', ')`
abbrev join : List ℕ → Text
join [] = []
join (n ∷ []) = decimal n
join (n ∷ m ∷ ns) = decimal n ++ (codes ", " ++ join (m ∷ ns))

-- `pricesOverlap`
unfoldable pub prices_overlap : ProjectTraits → ProjectTraits → Bool
prices_overlap b c = overlap b.min_price b.max_price c.min_price c.max_price
  where
    overlap : Option ℕ → Option ℕ → Option ℕ → Option ℕ → Bool
    overlap (some b_min) (some b_max) (some c_min) (some c_max) =
        leb (4 * c_min) (5 * b_max) && leb (3 * b_min) (4 * c_max)
    overlap _ _ _ _ = within_band c.min_price b.min_price

abbrev is_nonempty : List ℕ → Bool
is_nonempty [] = false
is_nonempty (n ∷ ns) = true

-- PROJECT_CRITERIA
unfoldable pub project_criteria : List (Criterion ProjectTraits)
project_criteria =
    record {
      match_of = λ b c. same (some b.project_type) (some c.project_type);
      label = λ b c. none;
    }
    ∷ record {
      match_of = λ b c. same b.possession c.possession;
      label = λ b c. possession_label b.possession;
    }
    ∷ record {
      match_of = λ b c. is_nonempty (shared_bhk b.bhk c.bhk);
      label = λ b c. some (join (sorted_set (shared_bhk b.bhk c.bhk)) ++ codes " BHK");
    }
    ∷ record {
      match_of = λ b c. same b.sublocation c.sublocation;
      label = λ b c. some (codes "In " ++ trim (text_or_empty b.sublocation));
    }
    ∷ record { match_of = λ b c. prices_overlap b c; label = λ b c. some (codes "Similar price") }
    ∷ record { match_of = λ b c. same b.city c.city; label = λ b c. none }
    ∷ []
