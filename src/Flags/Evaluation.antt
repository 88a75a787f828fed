-- ===== src/Flags/Evaluation.antt =====
-- src/flags/eval.rs: the value of a flag for one bucketing id. The numbers of a definition are those of
-- `lib.Float`. The time is one argument, where the source asks the clock again for each filter on a date.
pub mod Decides
pub mod Variants
pub mod Regexes
use hoglet.Prelude.{
  ℕ, ◌+◌, ◌-◌, ◌*◌, ◌/◌, ◌^◌, String, Bool, true, false, not, ◌&&◌, Option, none, some, List, [],
  ◌∷◌, ◌++◌, ltb, if◌then◌else◌, ◌==◌, nat_eq, string_eq, length, take, any, all, codes, list_eq,
}
use hoglet.Prelude.Int.{ℤ}
use hoglet.Prelude.Map.{Map, lookup, insert, has_key}
use hoglet.Prelude.Text.{as_bytes}
use hoglet.Json.{Value, Object}
use hoglet.Flags.Library.{Library, Ordering, less, equal, greater}
use hoglet.Flags.Text.{value_to_string}
use hoglet.Flags.Condition.{PropertyOperator, PropertyFilter, match_property, regex, not_regex}

pub data ReasonCode : Type 0 where
  disabled no_condition_match out_of_rollout_bound condition_match : ReasonCode

-- The derived order, as the position of a variant.
abbrev pub rank : ReasonCode → ℕ
rank disabled = 0
rank no_condition_match = 1
rank out_of_rollout_bound = 2
rank condition_match = 3

pub record Evaluation : Type 0 where
  pub enabled : Bool
  pub variant : Option String
  pub reason : ReasonCode
  pub condition_index : Option ℕ
  pub payload : Option Value

pub data GroupMatch : Type 0 where
  matches no_match out_of_rollout : GroupMatch

abbrev pub is_out : GroupMatch → Bool
is_out out_of_rollout = true
is_out m = false

abbrev pub is_match : GroupMatch → Bool
is_match matches = true
is_match m = false

pub record FlagVariant (F : Type 0) : Type 0 where
  pub key : String
  pub name : Option String
  pub rollout_percentage : F

pub record FlagConditionGroup (F : Type 0) : Type 0 where
  pub properties : List PropertyFilter
  pub rollout_percentage : Option F
  pub variant : Option String

pub record FlagFilters (F : Type 0) : Type 0 where
  pub groups : List (FlagConditionGroup F)
  pub multivariate : Option (List (FlagVariant F))
  pub payloads : Map String Value

pub record FeatureFlag (F : Type 0) : Type 0 where
  pub id : ℤ
  pub key : String
  pub name : String
  pub active : Bool
  pub filters : FlagFilters F
  pub ensure_experience_continuity : Bool
  pub created_at : String
  pub updated_at : String

-- `u64::from_be_bytes`.
unfoldable pub from_be_bytes : ℕ → List ℕ → ℕ
from_be_bytes n [] = n
from_be_bytes n (b ∷ bs) = from_be_bytes (n * 256 + b) bs

-- `0xFFFFFFFFFFFFFFF`.
abbrev pub long_scale : ℕ
long_scale = 2 ^ 60 - 1

abbrev pub is_regex_operator : PropertyOperator → Bool
is_regex_operator regex = true
is_regex_operator not_regex = true
is_regex_operator op = false

module _ (lib : Library) where
  pub record CompiledFlag : Type 0 where
    pub flag : FeatureFlag lib.Float
    pub version : ℤ
    pub regexes : Map (List ℕ) (Option lib.Regex)

  -- The first 15 hexadecimal digits of the digest.
  unfoldable pub bucket : String → String → String → ℕ
  bucket flag_key bucketing_id salt =
      from_be_bytes 0 (
        take 8 (
          lib.sha1 (
            as_bytes (codes flag_key)
            ++ (as_bytes (codes ".") ++ (as_bytes (codes bucketing_id) ++ as_bytes (codes salt))))))
      / 16

  unfoldable pub hash : String → String → String → lib.Float
  hash flag_key bucketing_id salt =
      lib.divide (lib.from_nat (bucket flag_key bucketing_id salt)) (lib.from_nat long_scale)

  -- `a > b`, `a >= b` and `a < b` on `f64`.
  abbrev pub is_greater : Option Ordering → Bool
  is_greater (some greater) = true
  is_greater o = false

  abbrev pub is_at_least : Option Ordering → Bool
  is_at_least (some greater) = true
  is_at_least (some equal) = true
  is_at_least o = false

  abbrev pub is_less : Option Ordering → Bool
  is_less (some less) = true
  is_less o = false

  unfoldable pub compile_filters :
      List PropertyFilter → Map (List ℕ) (Option lib.Regex) → Map (List ℕ) (Option lib.Regex)
  compile_filters [] regexes = regexes
  compile_filters (filter ∷ filters) regexes =
      let pattern = value_to_string lib filter.value in
      compile_filters filters (
        if is_regex_operator filter.operator && not (has_key pattern regexes)
        then insert pattern (lib.build_regex pattern) regexes
        else regexes)

  unfoldable pub compile_groups :
      List (FlagConditionGroup lib.Float)
      → Map (List ℕ) (Option lib.Regex)
      → Map (List ℕ) (Option lib.Regex)
  compile_groups [] regexes = regexes
  compile_groups (group ∷ groups) regexes =
      compile_groups groups (compile_filters group.properties regexes)

  unfoldable pub compile : FeatureFlag lib.Float → ℤ → CompiledFlag
  compile flag version = record {
    flag = flag;
    version = version;
    regexes = compile_groups flag.filters.groups [];
  }

  abbrev pub has_properties : FlagConditionGroup lib.Float → Bool
  has_properties group = not (length group.properties == 0)

  unfoldable pub reads_properties : CompiledFlag → Bool
  reads_properties f = any has_properties f.flag.filters.groups

  abbrev pub matches_all : List PropertyFilter → Object → Map (List ℕ) (Option lib.Regex) → ℤ → Bool
  matches_all filters properties regexes now =
      all (λ filter. match_property lib filter properties regexes now) filters

  unfoldable pub match_group :
      CompiledFlag → FlagConditionGroup lib.Float → String → Object → ℤ → GroupMatch
  match_group f group bucketing_id properties now =
      if matches_all group.properties properties f.regexes now
      then (elim group.rollout_percentage [
        | none ↦ matches
        | some rollout ↦
            if is_greater (
              lib.partial_cmp (hash f.flag.key bucketing_id "")
                (lib.divide rollout (lib.from_nat 100)))
            then out_of_rollout
            else matches
      ])
      else no_match

  unfoldable pub has_variant : CompiledFlag → String → Bool
  has_variant f key = elim f.flag.filters.multivariate [
    | none ↦ false
    | some variants ↦ any (λ (v : FlagVariant lib.Float). v.key == key) variants
  ]

  unfoldable pub variant_in : lib.Float → lib.Float → List (FlagVariant lib.Float) → Option String
  variant_in value value_min [] = none
  variant_in value value_min (variant ∷ variants) =
      let value_max =
        lib.add value_min (lib.divide variant.rollout_percentage (lib.from_nat 100)) in
      let rest = variant_in value value_max variants in
      if is_at_least (lib.partial_cmp value value_min) && is_less (lib.partial_cmp value value_max)
      then some variant.key
      else rest

  unfoldable pub matching_variant : CompiledFlag → String → Option String
  matching_variant f bucketing_id = elim f.flag.filters.multivariate [
    | none ↦ none
    | some variants ↦ variant_in (hash f.flag.key bucketing_id "variant") (lib.from_nat 0) variants
  ]

  -- The group's own variant, if the flag has it.
  abbrev pub forced_variant : CompiledFlag → Option String → Option String
  forced_variant f none = none
  forced_variant f (some key) = if has_variant f key then some key else none

  abbrev pub payload_key : Option String → String
  payload_key none = "true"
  payload_key (some key) = key

  abbrev pub matched : CompiledFlag → FlagConditionGroup lib.Float → String → ℕ → Evaluation
  matched f group bucketing_id index =
      let variant : Option String = elim (forced_variant f group.variant) [
        | some key ↦ some key
        | none ↦ matching_variant f bucketing_id
      ] in
      record {
        enabled = true;
        variant = variant;
        reason = condition_match;
        condition_index = some index;
        payload = lookup (payload_key variant) f.flag.filters.payloads;
      }

  abbrev pub unmatched : ReasonCode → Option ℕ → Evaluation
  unmatched reason index = record {
    enabled = false;
    variant = none;
    reason = reason;
    condition_index = index;
    payload = none;
  }

  -- One round: a match decides, and a miss may be closer than the closest one so far.
  abbrev pub visit :
      CompiledFlag
      → String
      → ℕ
      → ReasonCode
      → Option ℕ
      → FlagConditionGroup lib.Float
      → (ReasonCode → Option ℕ → Evaluation)
      → GroupMatch
      → Evaluation
  visit f id index closest closest_index group rest matches = matched f group id index
  visit f id index closest closest_index group rest out_of_rollout =
      elim (ltb (rank closest) (rank out_of_rollout_bound)) [
        | true ↦ rest out_of_rollout_bound (some index)
        | false ↦ rest closest closest_index
      ]
  visit f id index closest closest_index group rest no_match = rest closest closest_index

  -- The loop over the groups, from the one at `index`, with the closest miss so far.
  unfoldable pub evaluate_from :
      CompiledFlag
      → String
      → Object
      → ℤ
      → ℕ
      → ReasonCode
      → Option ℕ
      → List (FlagConditionGroup lib.Float)
      → Evaluation
  evaluate_from f id properties now index closest closest_index [] = unmatched closest closest_index
  evaluate_from f id properties now index closest closest_index (group ∷ groups) =
      visit f id index closest closest_index group
        (λ c i. evaluate_from f id properties now (index + 1) c i groups)
        (match_group f group id properties now)

  unfoldable pub evaluate : CompiledFlag → String → Object → ℤ → Evaluation
  evaluate f bucketing_id properties now =
      if f.flag.active
      then evaluate_from f bucketing_id properties now 0 no_condition_match none
          f.flag.filters.groups
      else unmatched disabled none
