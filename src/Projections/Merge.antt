-- ===== src/Projections/Merge.antt =====
-- src/projections.rs: `merge_persons`.
pub mod Folded
pub mod Outcome
pub mod Joins
use hoglet.Prelude.{
  String, true, Option, none, some, if◌then◌else◌, ◌==◌, nat_eq, string_eq, Result, ok, ◌>>=◌, ◌>>◌,
  list_eq,
}
use hoglet.Prelude.Int.{ℤ}
use hoglet.Prelude.Map.{Map, lookup, insert, remove, has_key, pair_eq}
use hoglet.Prelude.Text.{is_blank, text_ltb}
use hoglet.Json.{Value, Object, Number, as_str, as_object, as_array}
use hoglet.Event.{CapturedEvent}
use hoglet.Projections.Store.{
  TimeFormat, ProjectionError, Person, Group, Tables, Key, resolve, person_of, update_person,
  repoint, delete_person, ensure_person, mark_identified, next_identity_seq, invalid_project_id,
  row_of,
}
use hoglet.Projections.Properties.{overlay}

pub data MergeGuard : Type 0 where
  refuse_identified_source refuse_both_identified always : MergeGuard

-- `max(last_seen)` of two rows, which ignores a null.
unfoldable pub later : Option String → Option String → Option String
later none b = b
later (some a) none = some a
later (some a) (some b) = if text_ltb a b then some b else some a

-- The winner's row after the merge. The older person keeps its key for flag bucketing.
unfoldable pub merged : Person → Person → Person
merged winner loser =
    let older = text_ltb loser.created_at winner.created_at in
    record {
      created_at = if older then loser.created_at else winner.created_at;
      is_identified = true;
      properties = overlay loser.properties winner.properties;
      first_seen_key = if older then loser.first_seen_key else winner.first_seen_key;
      last_seen = later winner.last_seen loser.last_seen;
    }

-- The statements that fold the person `loser` into the person `winner`.
unfoldable pub fold_into : Tables → String → String → Person → String → Person → Tables
fold_into t project_id winner winner_row loser loser_row =
    let (t', seq) = next_identity_seq t in
    delete_person
      (update_person (repoint t' project_id loser winner seq) project_id winner
        (λ _. merged winner_row loser_row))
      project_id loser

unfoldable pub fold_persons : Tables → String → String → String → Result Tables ProjectionError
fold_persons t project_id winner loser = do
  winner_row ← row_of t project_id winner
  loser_row ← row_of t project_id loser
  ok (fold_into t project_id winner winner_row loser loser_row)

-- The guard, where the loser is identified.
unfoldable pub guarded :
    Tables → String → String → String → MergeGuard → Result Tables ProjectionError
guarded t project_id winner loser refuse_identified_source = ok t
guarded t project_id winner loser refuse_both_identified = do
  winner_row ← row_of t project_id winner
  if winner_row.is_identified then ok t else fold_persons t project_id loser winner
guarded t project_id winner loser always = fold_persons t project_id winner loser

-- From the two persons on.
unfoldable pub merge_ids :
    Tables → String → String → String → MergeGuard → Result Tables ProjectionError
merge_ids t project_id winner loser guard = if winner == loser then ok t else (do
  loser_row ← row_of t project_id loser
  if loser_row.is_identified
      then guarded t project_id winner loser guard
      else fold_persons t project_id winner loser)

unfoldable pub merge_persons :
    TimeFormat → Tables → String → String → String → ℤ → MergeGuard → Result Tables ProjectionError
merge_persons time t project_id losing_distinct_id winning_distinct_id timestamp guard =
    ensure_person time t project_id winning_distinct_id timestamp >>= λ a.
    ensure_person time a.0 project_id losing_distinct_id timestamp >>= λ b.
    merge_ids b.0 project_id a.1 b.1 guard
