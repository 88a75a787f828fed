-- ===== src/Lib.antt =====
-- Hoglet is a product analytics server: it captures events over HTTP, makes them durable in a write-ahead
-- log, publishes them to a lake of Parquet files, keeps persons and groups in SQLite tables that are
-- rebuilt from the log, and evaluates feature flags and cached queries on what it keeps. This library
-- models the parts of it that decide what is kept and what is answered.
--
-- The parts, and how they interact:
-- - Token (src/token.rs): the texts that are project tokens, `validate`.
-- - RateLimit (src/ratelimit.rs): `RateLimiter::allow`, the first thing that a capture request meets. A call
--   is one step on the state that the mutex guards.
-- - Json, Event, Capture (serde_json's values, and src/capture/event.rs): `parse_body` makes events of the body
--   of a capture request, which is one of four shapes; Capture has it with the resolution of token, distinct
--   id, timestamp and uuid, and uses Token.
-- - Wal (src/pipeline/wal.rs): Batch has `CapturedBatch`, cursors and the configuration; Frame the bytes of a
--   record (`encode_frame`, `read_record`); Scan the validation of a segment (`scan_segment`); Writer
--   `WriteAheadLog` with `write`, `sync`, `append` and `seal`; Layout `discover_segment_layout`; Open
--   `open`, here `open_log`, with the calls that it makes.
--   Codec is the interface to the encoding of a batch and its checksum.
--   Cursor says when a `WalCursor` points at a record (`validate_cursor`, `is_record_boundary`) and has the
--   retry of a read that raced with a seal; Reader has `SealedRecords`, one record after the other, Window the
--   bounded read of the publisher, and Reclaim the removal of what is published. The publisher of
--   src/lake/publisher.rs calls Window, then applies the records, then calls Reclaim with the checkpoint.
-- - Projections (src/projections.rs): Store has the tables and the statements on them, Properties the
--   properties of persons and groups, Merge `merge_persons`, Identity `apply_identity_effects`, which the
--   publication of a log record calls for every event. Views states each statement by what it changes of two
--   views: the person of a distinct id, and the row of a person.
-- - Cache (src/cache.rs): `ResultCache`, least recently used first out.
-- - Flags (src/flags/eval.rs, src/flags/mod.rs): Text, Dates and Condition match one property filter, Evaluation
--   evaluates a flag, Subject says for whom; it reads the persons of Projections.
-- - Query.Formula (src/query/formula.rs): Tokens, Parser and Evaluate are the three stages of a formula over the
--   series of a query; Printer writes an expression back, for the theorems.
-- - Query.Funnels (src/query/funnels.rs): the attempts of one person at an ordered funnel and the bound on
--   their depth, `ordered_max_depth`; Search has the other orders, exclusions and `best_attempt`.
-- - Members (src/control_members.rs, with the tables of src/control.rs): the transactions on the members of an
--   organization, and in Invites those on its invites.
-- - Login (src/security.rs): `LoginThrottle`, the delays of logins that fail.
-- - Prelude: lists, results, maps, integers and texts, which all of them use.
--
-- How the code is represented: stateful code takes its state and returns it, an error is a value of `Result`. A
-- file is the list of its bytes. A call of the operating system that may fail has its answer as an argument,
-- so that a theorem covers every sequence of failures; of the reads of one scan in recovery there is one
-- answer, that of the first that fails, and where the reader of the log reads a file, the reads succeed. A text is a `String`, or the list of its code
-- points or bytes. Numbers of a fixed width are natural numbers with their bound written out. A `HashMap` is
-- an association list.
--
-- Bounds and fuel: `scan_loop` has a round for each byte that is left, and every round takes at least the
-- 16 bytes of a header or ends; `boundary_loop` has a round for each byte up to the cursor, and every round
-- moves on; `evict` has a round for each entry, and every round removes one. The parser of formulas has four
-- rounds for each token and four more, which is enough since a token is taken at every fourth call at least.
-- A read that races is tried 50 times, as in the source.
-- `collect` has the number of calls as its argument. Digits of an integer have 20 places, enough for 64 bits.
-- All other recursion is structural.
--
-- Parameters: Wal.Codec (serde_json's encoding of a batch, and CRC-32), with the law that decoding inverts
-- encoding for a batch that is nested less deep than serde_json refuses to read; Capture.Library (the parsers of JSON, uuids and timestamps); Flags.Library (floating point, SHA-1,
-- regular expressions, Unicode's lower case, chrono); Projections.Store.TimeFormat (chrono's formats);
-- Query.Formula.Evaluate.Float (the arithmetic of f64 and its parsing). No law is assumed of the last four.
--
-- Not modelled: the copy that recovery keeps of a torn tail, the names of segment files, the catalog of
-- properties and erasure, decompression of capture bodies, the queries but for formulas and the attempts at
-- a funnel, since their SQL runs in DuckDB, the validation of flags, the reads of members and invites,
-- passwords, sessions and address policy, and the glue to HTTP, SQLite and the file system.
pub mod Prelude
pub mod Json
pub mod Event
pub mod Token
pub mod RateLimit
pub mod Wal
pub mod Projections
pub mod Cache
pub mod Flags
pub mod Capture
pub mod Query
pub mod Members
pub mod Login
