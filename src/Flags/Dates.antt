-- ===== src/Flags/Dates.antt =====
-- src/flags/eval.rs: the moments that date conditions compare. `Utc::now()` is the argument `now`.
use hoglet.Prelude.{
  ℕ, ◌+◌, ◌-◌, ◌*◌, ◌^◌, String, Bool, not, ◌&&◌, ◌||◌, Option, none, some, List, [], ◌∷◌, leb,
  if◌then◌else◌, ◌==◌, nat_eq, string_eq, length, all, codes, list_eq,
}
use hoglet.Prelude.Int.{ℤ}
use hoglet.Json.{Value, as_str}
use hoglet.Flags.Library.{Library}
use hoglet.Flags.Text.{trim, reversed}

abbrev pub max_relative_date_count : ℕ
max_relative_date_count = 10000

-- Nanoseconds.
abbrev pub hour : ℕ
hour = 3600 * 10 ^ 9

abbrev pub is_digit : ℕ → Bool
is_digit c = leb 48 c && leb c 57

abbrev pub parse_digits : ℕ → List ℕ → ℕ
parse_digits n [] = n
parse_digits n (c ∷ cs) = parse_digits (n * 10 + (c - 48)) cs

abbrev pub without_minus : List ℕ → List ℕ
without_minus [] = []
without_minus (c ∷ cs) = if c == 45 then cs else c ∷ cs

abbrev pub without_z : List ℕ → List ℕ
without_z [] = []
without_z (c ∷ cs) = if c == 90 then cs else c ∷ cs

module _ (lib : Library) where
  abbrev pub before : ℤ → ℕ → ℕ → Option ℤ
  before now unit count =
      if unit == 104
      then lib.checked_sub now (count * hour)
      else if unit == 100
      then lib.checked_sub now (count * (24 * hour))
      else if unit == 119
      then lib.checked_sub now (count * (7 * 24 * hour))
      else if unit == 109
      then lib.checked_sub_months now count
      else if unit == 121
      then lib.checked_sub_months now (count * 12)
      else none

  -- The digits and the unit, the unit first. A count that `parse` refuses is past the bound as well.
  abbrev pub relative_date_of : ℤ → List ℕ → Option ℤ
  relative_date_of now [] = none
  relative_date_of now (unit ∷ digits) =
      let count = parse_digits 0 (reversed digits) in
      if length digits == 0 || not (all is_digit digits)
      then none
      else if leb max_relative_date_count count
      then none
      else before now unit count

  unfoldable pub relative_date : List ℕ → ℤ → Option ℤ
  relative_date text now = relative_date_of now (reversed (without_minus text))

  abbrev pub first_some : (String → Option ℤ) → List String → Option ℤ
  first_some parse [] = none
  first_some parse (format ∷ formats) =
      let rest = first_some parse formats in elim (parse format) [ none ↦ rest | some at ↦ some at ]

  abbrev pub otherwise : Option ℤ → Option ℤ → Option ℤ
  otherwise none b = b
  otherwise (some at) b = some at

  unfoldable pub parse_date : List ℕ → Option ℤ
  parse_date padded =
      let text = trim padded in
      let naive = reversed (without_z (reversed text)) in
      otherwise (lib.parse_rfc3339 text) (
        otherwise
          (first_some (lib.parse_zoned text)
            ("%Y-%m-%dT%H:%M:%S%.f%:z" ∷ "%Y-%m-%d %H:%M:%S%.f%:z" ∷ "%Y-%m-%d %H:%M:%S%.f%z" ∷ []))
          (otherwise
            (first_some (lib.parse_naive naive) (
              "%Y-%m-%dT%H:%M:%S%.f" ∷ "%Y-%m-%d %H:%M:%S%.f" ∷ "%Y-%m-%dT%H:%M" ∷ "%Y-%m-%d %H:%M"
              ∷ []))
            (lib.parse_day naive "%Y-%m-%d")))

  abbrev pub property_date : Value → Option ℤ
  property_date value = elim (as_str value) [ none ↦ none | some text ↦ parse_date (codes text) ]

  abbrev pub flag_date : ℤ → Value → Option ℤ
  flag_date now value = elim (as_str value) [
    | none ↦ none
    | some text ↦ otherwise (relative_date (codes text) now) (parse_date (codes text))
  ]
