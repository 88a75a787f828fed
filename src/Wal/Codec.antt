-- ===== src/Wal/Codec.antt =====
-- What src/pipeline/wal.rs takes from other crates: `serde_json` for the payload of a record, and
-- `crc32fast` for its checksum. `serde_json` documents that it refuses to read JSON of which the maps and
-- arrays are nested too deep, and has no such limit on what it writes; so what is written is only assumed
-- to be read back where it is nested less deep.
use hoglet.Prelude.{ℕ, suc, ◌+◌, ◌^◌, ◌<◌, max, ◌≡◌, Option, some, List, [], ◌∷◌}
use hoglet.Json.{Value, Items, Fields, Object, array, object, nil, cons, end, field}
use hoglet.Event.{CapturedEvent}
use hoglet.Wal.Batch.{CapturedBatch, event_count}

-- How deep maps and arrays are nested in a value.
mutual
  pub nesting : Value → ℕ
  nesting (array vs) = suc (items_nesting vs)
  nesting (object fs) = suc (fields_nesting fs)
  nesting _ = 0

  items_nesting : Items → ℕ
  items_nesting nil = 0
  items_nesting (cons v vs) = max (nesting v) (items_nesting vs)

  fields_nesting : Fields → ℕ
  fields_nesting end = 0
  fields_nesting (field k v fs) = max (nesting v) (fields_nesting fs)

abbrev pub properties_nesting : Object → ℕ
properties_nesting [] = 0
properties_nesting ((k, v) ∷ properties) = max (nesting v) (properties_nesting properties)

abbrev pub events_nesting : List CapturedEvent → ℕ
events_nesting [] = 0
events_nesting (e ∷ es) = max (properties_nesting e.properties) (events_nesting es)

-- The properties stand in the map of a record, the array of its events, the map of an event and their own.
abbrev pub batch_nesting : CapturedBatch → ℕ
batch_nesting batch = 4 + events_nesting batch.events

-- `serde_json`'s limit.
abbrev pub recursion_limit : ℕ
recursion_limit = 128

pub record Codec : Type 0 where
  pub to_vec : CapturedBatch → Option (List ℕ)
  pub from_slice : List ℕ → Option CapturedBatch
  pub crc32 : List ℕ → ℕ
  pub from_slice-to_vec :
      (batch : CapturedBatch) (payload : List ℕ)
      → batch_nesting batch < recursion_limit
      → to_vec batch ≡ some payload
      → (reread : CapturedBatch) × (from_slice payload ≡ some reread)
        × (event_count reread ≡ event_count batch)
  pub crc32_bound : (payload : List ℕ) → crc32 payload < 2 ^ 32
