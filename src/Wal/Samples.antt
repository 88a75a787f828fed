-- ===== src/Wal/Samples.antt =====
-- A codec that writes a batch as one byte for each of its events and takes the length of a payload for
-- its checksum, and logs of such batches, for the tests.
mod Tests
use hoglet.Wal.Open.{ScanIo, OpenIo, acquired}
use hoglet.Wal.Writer.Numbered.{IsNumbered}
use hoglet.Wal.Frame.RoundTrip.{IsPayload}
use hoglet.Wal.Writer.Append.{Holds}
use hoglet.Prelude.Map.{Map}
use hoglet.Wal.Frame.{encode_frame}
use hoglet.Wal.Scan.Frames.{ArePayloads, frames}
use hoglet.Wal.Writer.{WriteAheadLog, SealIo}
use hoglet.Prelude.{
  ℕ, zero, suc, ◌%◌, ◌^◌, ◌≤◌, ◌<◌, String, ◌≡◌, refl, ap, false, Option, none, some, List, [], ◌∷◌,
  map, arith, length,
}
use hoglet.Prelude.Int.{pos}
use hoglet.Event.{CapturedEvent}
use hoglet.Wal.Batch.{CapturedBatch, event_count, WalConfig, is_nil, u64_max}
use hoglet.Wal.Codec.{Codec, batch_nesting, recursion_limit}

abbrev pub view : CapturedEvent
view = record {
  uuid = 7;
  event = "$pageview";
  distinct_id = "u1";
  token = "phc_a";
  timestamp = pos 0;
  properties = [];
}

unfoldable pub batch_of : List ℕ → CapturedBatch
batch_of payload = record {
  events = map (λ _. view) payload;
  project_ids_by_token = ("phc_a", "p1") ∷ [];
  historical_migration = false;
  received_at_ms = pos 5;
}

unfoldable pub bytes_of : CapturedBatch → List ℕ
bytes_of batch = map {B = ℕ} (λ e. 1) batch.events

pub count_bytes_of :
    (l : List CapturedEvent) → length (map (λ _. view) (map {B = ℕ} (λ e. 1) l)) ≡ length l
count_bytes_of [] = refl
count_bytes_of (e ∷ es) = ap suc (count_bytes_of es)

pub reread :
    (batch : CapturedBatch) (payload : List ℕ)
    → batch_nesting batch < recursion_limit
    → some (bytes_of batch) ≡ some payload
    → (reread : CapturedBatch) × (◌≡◌ {A = Option CapturedBatch}
        (some (batch_of payload))
        (some reread))
      × (event_count reread ≡ event_count batch)
unfolding batch_of bytes_of
reread batch payload shallow e =
    let same : bytes_of batch ≡ payload = ground arith in
    (batch_of payload, refl, rw (← same) (count_bytes_of batch.events))

abbrev pub counting : Codec
unfolding batch_of bytes_of
counting = record {
  to_vec = λ batch. some (bytes_of batch);
  from_slice = λ payload. some (batch_of payload);
  crc32 = λ payload. length payload % 2 ^ 32;
  from_slice-to_vec = reread;
  crc32_bound = λ payload. omega arith;
}

abbrev pub two_views : List CapturedEvent
two_views = view ∷ view ∷ []

abbrev pub tokens : Map String String
tokens = ("phc_a", "p1") ∷ []

abbrev pub two : CapturedBatch
two = record {
  events = two_views;
  project_ids_by_token = tokens;
  historical_migration = false;
  received_at_ms = pos 5;
}

abbrev pub config : WalConfig
config = record { segment_target_bytes = 40; max_record_bytes = 1000 }

-- A payload of `n` bytes.
abbrev pub ones : ℕ → List ℕ
ones zero = []
ones (suc n) = 1 ∷ ones n

pub IsPayload-ones_two : IsPayload counting 1000 (ones 2) (batch_of (ones 2))
unfolding batch_of is_nil counting
IsPayload-ones_two = record {
  bounded = omega arith;
  fits_u32 = omega arith;
  decoded = refl;
  nonempty = refl;
}

abbrev pub stored : List (List ℕ)
stored = ones 2 ∷ ones 2 ∷ []

pub stored-legal : ArePayloads counting 1000 stored
stored-legal =
    ((batch_of (ones 2), IsPayload-ones_two), ((batch_of (ones 2), IsPayload-ones_two), tt))

pub stored-fits : length (frames counting stored) ≤ u64_max
unfolding frames encode_frame
stored-fits = omega arith

abbrev pub fine : SealIo
fine = record { sync_all = none; rename = none; sync_directory = none; open_new_active = none }

abbrev pub holding : WriteAheadLog
unfolding frames encode_frame
holding = record {
  config = config;
  sealed = [];
  active = record { sequence = 1; file = frames counting stored; bytes = 36 };
  is_poisoned = false;
}

pub holding-Holds : Holds counting holding [] stored
unfolding frames encode_frame holding
holding-Holds = record {
  sealed_files = refl;
  active_file = refl;
  counted = refl;
  limit = omega arith;
  sealed_legal = tt;
  active_legal = stored-legal;
}

pub holding-IsNumbered : IsNumbered holding
unfolding holding
holding-IsNumbered = record {
  first = 1;
  positive = omega arith;
  run = tt;
  newest = refl;
  fits = omega arith;
}

-- Every call of an opening succeeds.
abbrev pub quiet : ScanIo
quiet = record { open_file = none; read = none; set_len = none; sync_all = none }

abbrev pub calm : OpenIo
calm = record {
  create_directory = none;
  lock_file = none;
  try_lock = acquired;
  list = none;
  scans = λ _. quiet;
  reopen = none;
  seek = none;
  open_new_active = none;
}
