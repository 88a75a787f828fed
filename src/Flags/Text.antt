-- ===== src/Flags/Text.antt =====
-- src/flags/eval.rs: the texts that conditions compare, and the truth values.
use hoglet.Prelude.{
  ℕ, zero, suc, ◌+◌, ◌/◌, ◌%◌, Bool, true, false, ◌&&◌, ◌||◌, Option, none, some, List, [], ◌∷◌,
  ◌++◌, ltb, leb, if◌then◌else◌, ◌==◌, nat_eq, string_eq, codes, list_eq,
}
use hoglet.Prelude.Int.{ℤ}
use hoglet.Prelude.Text.{is_whitespace}
use hoglet.Json.{Value, Items, Number}
use hoglet.Flags.Library.{Library}

-- The decimal digits of a number, the last ones first; a number of 64 bits has at most 20.
abbrev pub digits : ℕ → ℕ → List ℕ
digits zero n = []
digits (suc places) n =
    let rest = digits places (n / 10) in
    if ltb n 10 then (48 + n) ∷ [] else rest ++ ((48 + n % 10) ∷ [])

unfoldable pub int_text : ℤ → List ℕ
int_text (ℤ.pos n) = digits 20 n
int_text (ℤ.negsuc n) = 45 ∷ digits 20 (n + 1)

abbrev pub ascii_lower : ℕ → ℕ
ascii_lower c = if leb 65 c && leb c 90 then c + 32 else c

abbrev pub to_ascii_lowercase : List ℕ → List ℕ
to_ascii_lowercase [] = []
to_ascii_lowercase (c ∷ cs) = ascii_lower c ∷ to_ascii_lowercase cs

abbrev pub eq_ignore_ascii_case : List ℕ → List ℕ → Bool
eq_ignore_ascii_case a b = to_ascii_lowercase a == to_ascii_lowercase b

abbrev pub starts_with : List ℕ → List ℕ → Bool
starts_with [] text = true
starts_with (p ∷ ps) [] = false
starts_with (p ∷ ps) (c ∷ cs) = p == c && starts_with ps cs

-- `str::contains`.
abbrev pub contains : List ℕ → List ℕ → Bool
contains [] part = starts_with part []
contains (c ∷ cs) part = starts_with part (c ∷ cs) || contains cs part

abbrev pub trim_start : List ℕ → List ℕ
trim_start [] = []
trim_start (c ∷ cs) = let rest = trim_start cs in if is_whitespace c then rest else c ∷ cs

abbrev pub reverse_onto : List ℕ → List ℕ → List ℕ
reverse_onto acc [] = acc
reverse_onto acc (c ∷ cs) = reverse_onto (c ∷ acc) cs

abbrev pub reversed : List ℕ → List ℕ
reversed cs = reverse_onto [] cs

abbrev pub trim : List ℕ → List ℕ
trim cs = reversed (trim_start (reversed (trim_start cs)))

module _ (lib : Library) where
  abbrev pub number_text : Number → List ℕ
  number_text (Number.int z) = int_text z
  number_text (Number.float bits) =
      let float = lib.from_bits bits in
      if lib.is_short_integer float then int_text (lib.as_i64 float) else lib.float_text float

  unfoldable pub value_to_string : Value → List ℕ
  value_to_string (Value.string text) = codes text
  value_to_string Value.null = codes "null"
  value_to_string (Value.bool true) = codes "true"
  value_to_string (Value.bool false) = codes "false"
  value_to_string (Value.number n) = number_text n
  value_to_string (Value.array items) = lib.json_text (Value.array items)
  value_to_string (Value.object fields) = lib.json_text (Value.object fields)

  abbrev pub as_f64 : Number → lib.Float
  as_f64 (Number.int z) = lib.from_int z
  as_f64 (Number.float bits) = lib.from_bits bits

  abbrev pub finite : lib.Float → Option lib.Float
  finite f = if lib.is_finite f then some f else none

  unfoldable pub as_number : Value → Option lib.Float
  as_number (Value.number n) = finite (as_f64 n)
  as_number (Value.string text) = elim (lib.parse_float (trim (codes text))) [
    | none ↦ none
    | some f ↦ finite f
  ]
  as_number v = none

mutual
  pub is_truthy_or_falsy : Value → Bool
  is_truthy_or_falsy (Value.bool b) = true
  is_truthy_or_falsy (Value.string text) =
      eq_ignore_ascii_case (codes text) (codes "true")
      || eq_ignore_ascii_case (codes text) (codes "false")
  is_truthy_or_falsy (Value.array items) = all_truthy_or_falsy items
  is_truthy_or_falsy v = false

  pub all_truthy_or_falsy : Items → Bool
  all_truthy_or_falsy Items.nil = true
  all_truthy_or_falsy (Items.cons v vs) = is_truthy_or_falsy v && all_truthy_or_falsy vs

mutual
  pub is_truthy : Value → Bool
  is_truthy (Value.bool b) = b
  is_truthy (Value.string text) = eq_ignore_ascii_case (codes text) (codes "true")
  is_truthy (Value.array items) = all_truthy items
  is_truthy v = false

  pub all_truthy : Items → Bool
  all_truthy Items.nil = true
  all_truthy (Items.cons v vs) = is_truthy v && all_truthy vs
