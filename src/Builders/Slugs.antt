-- ===== src/Builders/Slugs.antt =====
-- The search for a slug ends, and what it finds is free.
use majestan_backend.Prelude.{
  ℕ, zero, suc, ◌≤◌, ◌<◌, Bool, true, false, not, Option, none, some, List, [], ◌∷◌, ◌++◌, ◌≡◌,
  refl, sym, ap, ◌∙◌, arith, find?, filter, length, Bool-cases, Option-cases, inl, inr, ==_iff,
  count, All, All-mono, All-of_find?-none, find?_sound, only_one,
}
use majestan_backend.Prelude.Text.{Text, ◌=t◌, =t_iff, =t_refl}
use majestan_backend.Phone.{drop}
use majestan_backend.Phone.OtpCode.{decimal, value, value-decimal}
use majestan_backend.Builders.{
  Builder, is_excluded, is_slug_taken, candidate, find_slug, base_slug, generate_unique_slug,
}

drop-length : (s t : Text) → drop (length s) (s ++ t) ≡ t
drop-length [] t = refl
drop-length (c ∷ s) t = drop-length s t

abbrev pub suffix : ℕ → Text
suffix zero = []
suffix (suc n) = b'-' ∷ decimal (suc n)

suffix_number : Text → ℕ
suffix_number [] = 0
suffix_number (c ∷ s) = value s

suffix_number-suffix : (n : ℕ) → suffix_number (suffix n) ≡ n
unfolding suffix_number
suffix_number-suffix zero = refl
suffix_number-suffix (suc n) = value-decimal (suc n)

append_nil : (s : Text) → s ++ [] ≡ s
append_nil [] = refl
append_nil (c ∷ s) = ap (λ t. c ∷ t) (append_nil s)

candidate-suffix : (base : Text) (n : ℕ) → candidate base n ≡ base ++ suffix n
unfolding candidate
candidate-suffix base zero = sym (append_nil base)
candidate-suffix base (suc n) = refl

-- Different numbers give different candidates.
candidate_unique : (base : Text) (m n : ℕ) → candidate base m ≡ candidate base n → m ≡ n
candidate_unique base m n h =
    let number = λ (s : Text). suffix_number (drop (length base) s) in
    let at : (k : ℕ) → number (candidate base k) ≡ k = λ k.
      ap number (candidate-suffix base k)
      ∙ ap suffix_number (drop-length base (suffix k))
      ∙ suffix_number-suffix k in
    sym (at m) ∙ ap number h ∙ at n

other_candidate : (base : Text) (m n : ℕ) → m < n → (candidate base n =t candidate base m) ≡ false
other_candidate base m n h = elim (Bool-cases (candidate base n =t candidate base m)) [
  | inr different ↦ different
  | inl equal ↦
      let same : n ≡ m =
        candidate_unique base n m ((=t_iff (candidate base n) (candidate base m)).0 equal) in
      absurd (omega (arith, same, h))
]

without_slug : Text → List Builder → List Builder
without_slug slug = filter (λ row. not (row.slug =t slug))

-- The rows with one slug play no part for another.
is_slug_taken-without_slug :
    (slug other : Text) (excluded : Option ℕ) (rows : List Builder)
    → (slug =t other) ≡ false
    → is_slug_taken slug excluded (without_slug other rows) ≡ is_slug_taken slug excluded rows
unfolding is_slug_taken without_slug
is_slug_taken-without_slug slug other excluded rows h =
    ap (λ found. elim found [ none ↦ false | some row ↦ not (is_excluded row.id excluded) ])
      (kept rows)
  where
    kept :
        (xs : List Builder)
        → find? (λ row. row.slug =t slug) (filter (λ row. not (row.slug =t other)) xs)
          ≡ find? (λ row. row.slug =t slug) xs
    kept [] = refl
    kept (x ∷ xs) = elim (Bool-cases (x.slug =t other)) [
      | inr away ↦ rw away (ground (arith, kept xs))
      | inl here ↦
          let same : x.slug ≡ other = (=t_iff x.slug other).0 here in
          let not_mine : (x.slug =t slug) ≡ false = elim (Bool-cases (x.slug =t slug)) [
            | inr different ↦ different
            | inl mine ↦
                let equal : slug ≡ other = sym ((=t_iff x.slug slug).0 mine) ∙ same in
                absurd (ground (arith, equal, h, =t_refl other))
          ] in
          rw (here, not_mine) (kept xs)
    ]

find_slug-without_slug :
    (base : Text) (excluded : Option ℕ) (rows : List Builder) (rounds m n : ℕ)
    → m < n
    → find_slug base excluded (without_slug (candidate base m) rows) rounds n
      ≡ find_slug base excluded rows rounds n
unfolding find_slug
find_slug-without_slug base excluded rows zero m n h = refl
find_slug-without_slug base excluded rows (suc rounds) m n h =
    let later = find_slug-without_slug base excluded rows rounds m (suc n) (omega (arith, h)) in
    let same =
      is_slug_taken-without_slug (candidate base n) (candidate base m) excluded rows
        (other_candidate base m n h) in
    rw (later, same) refl

length-filter_le : (p : Builder → Bool) (rows : List Builder) → length (filter p rows) ≤ length rows
length-filter_le p [] = omega arith
length-filter_le p (row ∷ rows) = ground (arith, length-filter_le p rows)

length-filter_found :
    (p : Builder → Bool) (rows : List Builder) (row : Builder)
    → find? p rows ≡ some row
    → length (filter (λ r. not (p r)) rows) < length rows
length-filter_found p [] row h = absurd (ground arith)
length-filter_found p (first ∷ rows) row h = elim (Bool-cases (p first)) [
  | inl here ↦ rw here (omega (arith, length-filter_le (λ r. not (p r)) rows))
  | inr other ↦
      let h' : find? p rows ≡ some row = rw other at h in
      rw other (omega (arith, length-filter_found p rows row h'))
]

length-without_slug :
    (slug : Text) (excluded : Option ℕ) (rows : List Builder)
    → is_slug_taken slug excluded rows ≡ true
    → length (without_slug slug rows) < length rows
unfolding is_slug_taken without_slug
length-without_slug slug excluded rows h =
    elim (Option-cases (find? (λ row. row.slug =t slug) rows)) [
      | inr (row, found) ↦ length-filter_found (λ r. r.slug =t slug) rows row found
      | inl none' ↦ let h' : false ≡ true = rw (none', is_slug_taken) at h in absurd (ground arith)
    ]

-- A round for each row and one more are enough.
find_slug_ends :
    (base : Text) (excluded : Option ℕ) (rounds n : ℕ) (rows : List Builder)
    → length rows < rounds
    → (slug : Text) × (find_slug base excluded rows rounds n ≡ some slug)
unfolding find_slug
find_slug_ends base excluded zero n rows h = absurd (omega arith)
find_slug_ends base excluded (suc rounds) n rows h =
    elim (Bool-cases (is_slug_taken (candidate base n) excluded rows)) [
      | inr free ↦ (candidate base n, rw free refl)
      | inl taken ↦
          let fewer = length-without_slug (candidate base n) excluded rows taken in
          let (slug, e) =
            find_slug_ends base excluded rounds (suc n) (without_slug (candidate base n) rows)
              (omega (arith, fewer, h)) in
          let same = find_slug-without_slug base excluded rows rounds n (suc n) (omega arith) in
          (slug, rw taken (sym same ∙ e))
    ]

find_slug_free :
    (base : Text) (excluded : Option ℕ) (rounds n : ℕ) (rows : List Builder) (slug : Text)
    → find_slug base excluded rows rounds n ≡ some slug
    → is_slug_taken slug excluded rows ≡ false
unfolding find_slug
find_slug_free base excluded zero n rows slug h = absurd (ground arith)
find_slug_free base excluded (suc rounds) n rows slug h =
    elim (Bool-cases (is_slug_taken (candidate base n) excluded rows)) [
      | inr free ↦
          let h' : some (candidate base n) ≡ some slug = rw free at h in
          let same : candidate base n ≡ slug = ground arith in rw same at free
      | inl taken ↦
          let h' : find_slug base excluded rows rounds (suc n) ≡ some slug = rw taken at h in
          find_slug_free base excluded rounds (suc n) rows slug h'
    ]

is_excluded_sound :
    (id : ℕ) (excluded : Option ℕ) → is_excluded id excluded ≡ true → excluded ≡ some id
is_excluded_sound id none h = absurd (ground arith)
is_excluded_sound id (some other) h =
    let same : id ≡ other = ground (arith, ==_iff id other) in ap some (sym same)

-- A slug that is not taken belongs to no row but the excluded one.
not_taken_sound :
    (slug : Text) (excluded : Option ℕ) (rows : List Builder)
    → count (λ row. row.slug =t slug) rows ≤ 1
    → is_slug_taken slug excluded rows ≡ false
    → All (λ row. row.slug ≡ slug → excluded ≡ some row.id) rows
unfolding is_slug_taken
not_taken_sound slug excluded rows one free =
    elim (Option-cases (find? (λ row. row.slug =t slug) rows)) [
      | inl none' ↦
          All-mono rows
            (λ row other same. absurd (ground (arith, other, (=t_iff row.slug slug).1 same)))
            (All-of_find?-none (λ row. row.slug =t slug) rows none')
      | inr (found, e) ↦
          let free' : not (is_excluded found.id excluded) ≡ false = rw (e, is_slug_taken) at free in
          let mine = is_excluded_sound found.id excluded (ground arith) in
          let here = find?_sound (λ row. row.slug =t slug) rows found e in
          All-mono rows
            (λ row only same.
              let equal : row ≡ found = only ((=t_iff row.slug slug).1 same) in rw equal mine)
            (only_one (λ row. row.slug =t slug) (λ row. row.slug =t slug) rows found e here one)
    ]

-- In a table with at most one row for each slug the search always ends within a round for each builder
-- and one more, with a slug that every row but the one with the excluded id differs from.
pub generate_unique_slug_total :
    (name : Text) (excluded : Option ℕ) (rows : List Builder)
    → ((s : Text) → count (λ row. row.slug =t s) rows ≤ 1)
    → (slug : Text) × (generate_unique_slug name excluded rows ≡ some slug)
      × All (λ row. row.slug ≡ slug → excluded ≡ some row.id) rows
unfolding generate_unique_slug
generate_unique_slug_total name excluded rows distinct =
    let base = base_slug name in
    let rounds = suc (length rows) in
    let (slug, e) = find_slug_ends base excluded rounds 0 rows (omega arith) in
    let free = find_slug_free base excluded rounds 0 rows slug e in
    (slug, e, not_taken_sound slug excluded rows (distinct slug) free)
