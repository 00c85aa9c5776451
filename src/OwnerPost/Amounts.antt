-- ===== src/OwnerPost/Amounts.antt =====
-- src/modules/owner-post/owner-post-policy.ts: the prices, charges and dates of a request.
use majestan_backend.Prelude.{
  ℕ, ◌+◌, ◌*◌, ◌%◌, Bool, true, false, not, ◌&&◌, ◌||◌, Option, none, some, [], ◌∷◌, ◌==◌, ltb, leb,
  if◌then◌else◌, length,
}
use majestan_backend.Prelude.Text.{Text, is_empty}
use majestan_backend.Phone.{all_digits}
use majestan_backend.Phone.OtpCode.{value}
use majestan_backend.OwnerPost.{leading_digits, after_digits}

-- `/^\d{1,10}(\.\d{1,2})?$/`: the digits behind the point
unfoldable pub is_fraction : Text → Bool
is_fraction [] = true
is_fraction (c ∷ s) = c == b'.' && all_digits s && leb 1 (length s) && leb (length s) 2

unfoldable pub is_rupees : Text → Bool
unfolding leading_digits after_digits is_fraction
is_rupees s =
    leb 1 (length (leading_digits s))
    && leb (length (leading_digits s)) 10
    && is_fraction (after_digits s)

-- The hundredths that the digits behind the point are
unfoldable pub fraction : Text → ℕ
unfolding value
fraction [] = 0
fraction (c ∷ s) = if length s == 1 then 10 * value s else value s

-- `Number(…)` of an amount in that form, in hundredths
unfoldable pub rupees : Text → Option ℕ
unfolding is_rupees fraction value
rupees s =
    if is_rupees s then some (100 * value (leading_digits s) + fraction (after_digits s)) else none

-- The price is refused.
unfoldable pub is_bad_price : Text → Bool
unfolding rupees
is_bad_price price = elim (rupees price) [
  | none ↦ true
  | some hundredths ↦ hundredths == 0 || ltb 999999999999 hundredths
]

abbrev pub is_leap : ℕ → Bool
is_leap year = year % 4 == 0 && (not (year % 100 == 0) || year % 400 == 0)

unfoldable pub days_in_month : ℕ → ℕ → ℕ
days_in_month year month =
    if month == 2
    then (if is_leap year then 29 else 28)
    else if month == 4 || month == 6 || month == 9 || month == 11
    then 30
    else 31

unfoldable pub is_day : ℕ → ℕ → ℕ → Bool
unfolding days_in_month
is_day year month day =
    leb 1 month && leb month 12 && leb 1 day && leb day (days_in_month year month)

-- `YYYY-MM-DD` is a day: it survives `toISOString` unchanged.
unfoldable pub is_date : Text → Bool
unfolding leading_digits after_digits is_day value
is_date s =
    let month_day = after_digits s in
    length (leading_digits s) == 4 && elim month_day [
      | [] ↦ false
      | c ∷ rest ↦ c == b'-' && length (leading_digits rest) == 2 && elim (after_digits rest) [
        | [] ↦ false
        | d ∷ last ↦
            d == b'-'
            && all_digits last
            && length last == 2
            && is_day (value (leading_digits s)) (value (leading_digits rest)) (value last)
      ]
    ]

-- A charge is refused.
unfoldable pub is_bad_money : Option Text → Bool
unfolding is_rupees
is_bad_money none = false
is_bad_money (some s) = not (is_empty s) && not (is_rupees s)

abbrev pub is_bad_date : Option Text → Bool
is_bad_date none = false
is_bad_date (some day) = not (is_empty day) && not (is_date day)
