-- ===== src/Flags/Library.antt =====
-- What the evaluation of flags takes from the crates `sha1`, `regex`, `chrono` and `serde_json`, from the
-- floating-point numbers of the machine and from the tables of Unicode. A text is its list of code points,
-- and a moment a number of nanoseconds since the epoch.
use hoglet.Prelude.{ℕ, String, Bool, Option, List}
use hoglet.Prelude.Int.{ℤ}
use hoglet.Json.{Value}

pub data Ordering : Type 0 where
  less equal greater : Ordering

pub record Library : Type 1 where
  -- `f64`.
  pub Float : Type 0
  pub partial_cmp : Float → Float → Option Ordering
  pub add : Float → Float → Float
  pub divide : Float → Float → Float
  pub from_nat : ℕ → Float
  pub from_int : ℤ → Float
  pub from_bits : ℕ → Float
  pub is_finite : Float → Bool
  -- `float.fract() == 0.0 && float.abs() < 1e15`, and `float as i64`.
  pub is_short_integer : Float → Bool
  pub as_i64 : Float → ℤ
  pub float_text : Float → List ℕ
  pub parse_float : List ℕ → Option Float
  -- `Sha1::digest`.
  pub sha1 : List ℕ → List ℕ
  -- `RegexBuilder` with the two size limits, and `Regex::is_match`.
  pub Regex : Type 0
  pub build_regex : List ℕ → Option Regex
  pub is_match : Regex → List ℕ → Bool
  -- `str::to_lowercase`.
  pub to_lowercase : List ℕ → List ℕ
  -- `Value::to_string` of an array or an object.
  pub json_text : Value → List ℕ
  -- `checked_sub_signed`, `checked_sub_months`, and the parsers of `chrono`, which give a moment.
  pub checked_sub : ℤ → ℕ → Option ℤ
  pub checked_sub_months : ℤ → ℕ → Option ℤ
  pub parse_rfc3339 : List ℕ → Option ℤ
  pub parse_zoned : List ℕ → String → Option ℤ
  pub parse_naive : List ℕ → String → Option ℤ
  pub parse_day : List ℕ → String → Option ℤ
