-- ===== src/Wal/Batch/Authorized.antt =====
-- An authorized batch proves the project of each of its events.
use hoglet.Prelude.{
  ◌≤◌, String, ◌≡◌, refl, ap, inl, inr, Bool, false, not, ◌||◌, some, List, [], ◌∷◌, arith,
  Option-cases, ◌==◌, string_eq, length, any, All, ok, list_eq,
}
use hoglet.Prelude.Int.{ℤ}
use hoglet.Prelude.Map.{Map, lookup, has_key}
use hoglet.Prelude.Text.{is_blank}
use hoglet.Event.{CapturedEvent}
use hoglet.Wal.Batch.{CapturedBatch, project_ids_of, project_id_for, authorized, project_ids, ℤ}

lookup-not_blank :
    (k : String) (m : Map String String)
    → any (λ binding. binding.0 == "" || is_blank binding.1) m ≡ false
    → (p : String) → lookup k m ≡ some p
    → is_blank p ≡ false
unfolding lookup
lookup-not_blank k [] h p e = cc
lookup-not_blank k ((j, w) ∷ m) h p e =
    ground (arith, lookup-not_blank k m (ground arith) p, ap is_blank)

-- The projects of the events, one for each and none of them blank.
record Bound (batch : CapturedBatch) (events : List CapturedEvent) (ids : List String)
    : Type 0 where
  projects : project_ids_of batch events ≡ some ids
  one_each : length ids ≡ length events
  named : All (λ p. is_blank p ≡ false) ids

bind_all :
    (batch : CapturedBatch) (events : List CapturedEvent)
    → any (λ binding. binding.0 == "" || is_blank binding.1) batch.project_ids_by_token ≡ false
    → any (λ event. not (has_key event.token batch.project_ids_by_token)) events ≡ false
    → (ids : List String) × Bound batch events ids
unfolding project_ids_of project_id_for has_key
bind_all batch [] h k = ([], record { projects = refl; one_each = refl; named = tt })
bind_all batch (event ∷ events) h k =
    elim (Option-cases (lookup event.token batch.project_ids_by_token)) [
      | inl missing ↦ absurd (ground arith)
      | inr (p, found) ↦
          let (ids, b) = bind_all batch events h (ground arith) in
          (
            p ∷ ids,
            record {
              projects = ground (arith, b.projects);
              one_each = omega (arith, b.one_each);
              named = (lookup-not_blank event.token batch.project_ids_by_token h p found, b.named);
            },
          )
    ]

-- When `authorized` makes a batch, it has at least one event, and `project_ids` finds a project for
-- each of them, none of which is blank.
pub authorized-project_ids :
    (events : List CapturedEvent) (tokens : Map String String) (historical : Bool) (now_ms : ℤ)
    (batch : CapturedBatch)
    → authorized events tokens historical now_ms ≡ ok batch
    → (1 ≤ length batch.events)
      × ((ids : List String) × (project_ids batch ≡ some ids)
          × (length ids ≡ length batch.events)
          × All (λ p. is_blank p ≡ false) ids)
unfolding authorized project_ids
authorized-project_ids [] tokens historical now_ms batch h = ground arith
authorized-project_ids (event ∷ events) tokens historical now_ms batch h =
    let made : CapturedBatch = record {
      events = event ∷ events;
      project_ids_by_token = tokens;
      historical_migration = historical;
      received_at_ms = now_ms;
    } in
    let e : made ≡ batch = ground arith in
    let (ids, b) = bind_all made (event ∷ events) (ground arith) (ground arith) in
    rw (← e) (omega arith, (ids, b.projects, b.one_each, b.named))
