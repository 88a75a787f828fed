-- ===== src/Flags/Tests.antt =====
-- A flag of two groups and two variants, on a library whose floating-point numbers are natural numbers,
-- and the theorems on it.
use hoglet.Prelude.{
  ℕ, ◌+◌, ◌/◌, ◌≡◌, refl, true, false, not, ◌&&◌, none, some, List, [], ◌∷◌, ltb, if◌then◌else◌,
  ◌==◌, nat_eq, string_eq, list_eq,
}
use hoglet.Prelude.Int.{pos}
use hoglet.Prelude.Map.{lookup, has_key, insert}
use hoglet.Json.{Value, Object}
use hoglet.Flags.Library.{Library, less, equal, greater}
use hoglet.Flags.Text.{value_to_string}
use hoglet.Flags.Condition.{PropertyFilter, person, match_operator, match_property, program, regex}
use hoglet.Flags.Condition.Opposites.{opposite, decides, match_operator-opposite}
use hoglet.Flags.Evaluation.{
  Evaluation, FeatureFlag, compile, compile_groups, compile_filters, evaluate, evaluate_from,
  match_group, reads_properties, has_variant, is_match, unmatched, disabled,
}
use hoglet.Flags.Evaluation.Variants.{evaluate-has_variant}
use hoglet.Flags.Evaluation.Regexes.{match_property-compile}
use hoglet.Flags.Subject.{Subject, evaluate_subject, needs_person}
use hoglet.Flags.Subject.Continuity.{evaluate_subject-needs_person}

abbrev counting : Library
counting = record {
  Float = ℕ;
  partial_cmp = λ a b. some (if ltb a b then less else if ltb b a then greater else equal);
  add = λ a b. a + b;
  divide = λ a b. a / b;
  from_nat = λ n. n;
  from_int = λ z. 0;
  from_bits = λ n. n;
  is_finite = λ f. true;
  is_short_integer = λ f. true;
  as_i64 = λ f. pos f;
  float_text = λ f. [];
  parse_float = λ text. none;
  sha1 = λ bytes. 0 ∷ 0 ∷ 0 ∷ 0 ∷ 0 ∷ 0 ∷ 0 ∷ 16 ∷ [];
  Regex = List ℕ;
  build_regex = λ pattern. some pattern;
  is_match = λ pattern text. pattern == text;
  to_lowercase = λ text. text;
  json_text = λ v. [];
  checked_sub = λ at n. some at;
  checked_sub_months = λ at n. some at;
  parse_rfc3339 = λ text. none;
  parse_zoned = λ text format. none;
  parse_naive = λ text format. none;
  parse_day = λ text format. none;
}

abbrev pro_only : PropertyFilter
pro_only = record { key = "plan"; source = person; operator = regex; value = Value.string "pro" }

abbrev beta : FeatureFlag ℕ
beta = record {
  id = pos 1;
  key = "beta";
  name = "";
  active = true;
  filters = record {
    groups =
        record { properties = pro_only ∷ []; rollout_percentage = none; variant = some "b" }
        ∷ record { properties = []; rollout_percentage = some 100; variant = none }
        ∷ [];
    multivariate = some (
        record { key = "a"; name = none; rollout_percentage = 100 }
        ∷ record { key = "b"; name = none; rollout_percentage = 0 }
        ∷ []);
    payloads = [];
  };
  ensure_experience_continuity = false;
  created_at = "";
  updated_at = "";
}

abbrev plain : FeatureFlag ℕ
plain = record beta { filters = record { groups = []; multivariate = none; payloads = [] } }

abbrev pro : Object
pro = ("plan", Value.string "pro") ∷ []

abbrev off : Evaluation
off = unmatched counting disabled none

evaluate-has_variant_example : has_variant counting (compile counting beta (pos 1)) "b" ≡ true
unfolding evaluate evaluate_from match_group match_property match_operator program lookup compile
    compile_groups compile_filters has_variant value_to_string has_key insert
evaluate-has_variant_example =
    evaluate-has_variant counting (compile counting beta (pos 1)) "u" pro (pos 0) "b" refl

match_operator-opposite_example :
    match_operator counting [] (pos 0) (opposite regex) (Value.string "pro") (Value.string "free")
    ≡ (decides counting [] (pos 0) (Value.string "pro") (Value.string "free") regex
        && not
            (match_operator counting [] (pos 0) regex (Value.string "pro") (Value.string "free")))
match_operator-opposite_example =
    match_operator-opposite counting [] (pos 0) (Value.string "pro") (Value.string "free") regex
      refl

match_property-compile_example :
    match_property counting pro_only pro (compile counting beta (pos 1)).regexes (pos 0)
    ≡ match_property counting pro_only pro [] (pos 0)
match_property-compile_example = match_property-compile counting beta (pos 1) pro_only pro (pos 0)

abbrev known : Subject
known = record { distinct_id = "u"; properties = pro; continuity_id = "anon" }

abbrev unknown : Subject
unknown = record { distinct_id = "u"; properties = []; continuity_id = "u" }

evaluate_subject-needs_person_example :
    evaluate_subject counting known (compile counting plain (pos 1)) (pos 0)
    ≡ evaluate_subject counting unknown (compile counting plain (pos 1)) (pos 0)
unfolding needs_person reads_properties compile
evaluate_subject-needs_person_example =
    evaluate_subject-needs_person counting (compile counting plain (pos 1)) known unknown (pos 0)
      refl refl
