-- ===== src/Login.antt =====
-- src/security.rs: the throttle of password logins. The mutex makes a call one step. `Instant` is a count
-- of nanoseconds, an email is the list of its code points, and the order in which a `HashMap` is visited is
-- that of the association list.
pub mod Bounds
pub mod Delays
pub mod Refusals
mod Tests
use mathlib.Core.List.{reverse}
use hoglet.Prelude.Map.{Map, lookup, insert, remove, has_key}
use hoglet.Prelude.Text.{is_whitespace}
use hoglet.Prelude.{
  ℕ, zero, suc, ◌+◌, ◌-◌, ◌*◌, ◌^◌, min, max, Bool, false, not, ◌&&◌, ◌||◌, Option, none, some,
  List, [], ◌∷◌, map, ltb, leb, if◌then◌else◌, ◌==◌, nat_eq, string_eq, length, take, Result, ok,
  err, list_eq,
}

abbrev pub second : ℕ
second = 1_000_000_000

abbrev pub email_free_failures : ℕ
email_free_failures = 5

abbrev pub email_max_delay : ℕ
email_max_delay = 60 * second

abbrev pub email_window : ℕ
email_window = 15 * 60 * second

abbrev pub source_max_failures : ℕ
source_max_failures = 30

abbrev pub source_window : ℕ
source_window = 10 * 60 * second

abbrev pub max_tracked : ℕ
max_tracked = 4096

abbrev pub u32_max : ℕ
u32_max = 2 ^ 32 - 1

abbrev pub Key : Type 0
Key = List ℕ

pub record Entry : Type 0 where
  pub failures : ℕ
  pub since : ℕ
  pub blocked_until : Option ℕ

pub record LoginThrottle : Type 0 where
  pub emails : Map Key Entry
  pub sources : Map Key Entry

-- `str::trim`.
abbrev pub trim_start : List ℕ → List ℕ
trim_start [] = []
trim_start (c ∷ cs) = let rest = trim_start cs in if is_whitespace c then rest else c ∷ cs

unfoldable pub trim : List ℕ → List ℕ
unfolding is_whitespace
trim text = reverse (trim_start (reverse (trim_start text)))

abbrev pub to_ascii_lowercase : ℕ → ℕ
to_ascii_lowercase c = if leb b'A' c && leb c b'Z' then c + 32 else c

unfoldable pub normalize_email : List ℕ → Key
unfolding trim
normalize_email email = map to_ascii_lowercase (take 254 (trim email))

abbrev pub is_later : Option ℕ → ℕ → Bool
is_later none now = false
is_later (some until) now = ltb now until

-- Whether an entry is still of use.
unfoldable pub is_live : ℕ → ℕ → Entry → Bool
is_live now window entry = ltb (now - entry.since) window || is_later entry.blocked_until now

-- `HashMap::retain`.
abbrev pub retain : (Entry → Bool) → Map Key Entry → Map Key Entry
retain p [] = []
retain p ((k, e) ∷ m) = let rest = retain p m in if p e then (k, e) ∷ rest else rest

-- `min_by_key`: the first of the entries that began earliest.
abbrev pub earlier : Key × Entry → Option (Key × Entry) → Option (Key × Entry)
earlier e none = some e
earlier e (some f) = if leb e.1.since f.1.since then some e else some f

abbrev pub oldest : Map Key Entry → Option (Key × Entry)
oldest [] = none
oldest (e ∷ m) = earlier e (oldest m)

unfoldable pub drop_oldest : Map Key Entry → Map Key Entry
drop_oldest table = elim (oldest table) [ none ↦ table | some e ↦ remove e.0 table ]

unfoldable pub shrink : Map Key Entry → Map Key Entry
unfolding drop_oldest
shrink kept = if leb max_tracked (length kept) then drop_oldest kept else kept

-- Room for one more key.
unfoldable pub make_room : Map Key Entry → Key → ℕ → ℕ → Map Key Entry
unfolding is_live shrink
make_room table key now window =
    if not (has_key key table) && leb max_tracked (length table)
    then shrink (retain (is_live now window) table)
    else table

-- The entry that `entry(key).or_insert(…)` finds or makes.
unfoldable pub entry_or_new : Map Key Entry → Key → ℕ → Entry
entry_or_new table key now = elim (lookup key table) [
  | some entry ↦ entry
  | none ↦ record { failures = 0; since = now; blocked_until = none }
]

-- `u32::saturating_add(1)`.
abbrev pub count_failure : ℕ → ℕ
count_failure failures = min u32_max (failures + 1)

-- `1 << shift`, for a shift of six at most.
abbrev pub shift_one : ℕ → ℕ
shift_one zero = 1
shift_one (suc n) = 2 * shift_one n

unfoldable pub email_delay : ℕ → ℕ
email_delay failures =
    min (shift_one (min (failures - email_free_failures) 6) * second) email_max_delay

unfoldable pub fail_email : Entry → ℕ → Entry
unfolding email_delay
fail_email entry now =
    let fresh =
      if leb email_window (now - entry.since)
      then record entry { failures = 0; since = now }
      else entry in
    let failures = count_failure fresh.failures in
    record fresh {
      failures = failures;
      blocked_until =
          if leb email_free_failures failures
          then some (now + email_delay failures)
          else fresh.blocked_until;
    }

unfoldable pub fail_source : Entry → ℕ → Entry
fail_source entry now =
    let fresh =
      if leb source_window (now - entry.since)
      then record { failures = 0; since = now; blocked_until = none }
      else entry in
    let failures = count_failure fresh.failures in
    record fresh {
      failures = failures;
      blocked_until =
          if leb source_max_failures failures
          then some (fresh.since + source_window)
          else fresh.blocked_until;
    }

-- `insert_bounded`, and the update of the entry that is then there.
unfoldable pub update : Map Key Entry → Key → ℕ → ℕ → (Entry → Entry) → Map Key Entry
unfolding make_room entry_or_new
update table key now window change =
    let room = make_room table key now window in
    insert key (change (entry_or_new room key now)) room

unfoldable pub record_failure : LoginThrottle → List ℕ → Option Key → ℕ → LoginThrottle
unfolding update fail_email fail_source normalize_email
record_failure throttle email source now = record {
  emails = update throttle.emails (normalize_email email) now email_window (λ e. fail_email e now);
  sources = elim source [
    | none ↦ throttle.sources
    | some s ↦ update throttle.sources s now source_window (λ e. fail_source e now)
  ];
}

unfoldable pub record_success : LoginThrottle → List ℕ → LoginThrottle
unfolding normalize_email
record_success throttle email = record throttle {
  emails = remove (normalize_email email) throttle.emails;
}

-- How long an entry still blocks.
abbrev pub wait_until : Option ℕ → ℕ → ℕ
wait_until none now = 0
wait_until (some until) now = until - now

abbrev pub wait_of : Option Entry → ℕ → ℕ
wait_of none now = 0
wait_of (some entry) now = wait_until entry.blocked_until now

abbrev pub wait_at : Map Key Entry → Option Key → ℕ → ℕ
wait_at table none now = 0
wait_at table (some key) now = wait_of (lookup key table) now

unfoldable pub check : LoginThrottle → List ℕ → Option Key → ℕ → Result (Unit {0}) ℕ
unfolding normalize_email
check throttle email source now =
    let wait =
      max (wait_at throttle.emails (some (normalize_email email)) now)
        (wait_at throttle.sources source now) in
    if wait == 0 then ok tt else err wait
