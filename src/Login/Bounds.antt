-- ===== src/Login/Bounds.antt =====
-- How large the tables grow.
use hoglet.Login.Delays.{Run, fresh, failed, succeeded}
use hoglet.Login.{
  Key, Entry, retain, oldest, drop_oldest, shrink, make_room, update, max_tracked, is_live,
  entry_or_new, record_failure, record_success, LoginThrottle, normalize_email, email_window,
  source_window, fail_email, fail_source,
}
use hoglet.Prelude.Map.{Map, lookup, remove, has_key, length-insert, length-insert_present, ==_refl}
use hoglet.Prelude.{
  ℕ, ◌+◌, ◌≤◌, ◌<◌, ◌≡◌, ◌≢◌, ◌⊎◌, inl, inr, Bool, true, none, some, [], ◌∷◌, arith, leb,
  Bool-cases, Option-cases, nat_eq, string_eq, length, list_eq,
}

length-remove-le : (k : Key) (m : Map Key Entry) → length (remove k m) ≤ length m
unfolding remove
length-remove-le k [] = omega arith
length-remove-le k ((j, e) ∷ m) = ground (arith, length-remove-le k m)

length-remove_present :
    (k : Key) (m : Map Key Entry) → has_key k m ≡ true → length (remove k m) + 1 ≤ length m
unfolding remove has_key lookup
length-remove_present k [] h = absurd (cc)
length-remove_present k ((j, e) ∷ m) h =
    ground (arith, length-remove_present k m, length-remove-le k m)

length-retain-le : (p : Entry → Bool) (m : Map Key Entry) → length (retain p m) ≤ length m
length-retain-le p [] = omega arith
length-retain-le p ((j, e) ∷ m) = ground (arith, length-retain-le p m)

has_key-here : (k : Key) (e : Entry) (m : Map Key Entry) → has_key k ((k, e) ∷ m) ≡ true
unfolding has_key lookup
has_key-here k e m = ground (arith, ==_refl k)

has_key-there :
    (k j : Key) (e : Entry) (m : Map Key Entry) → has_key k m ≡ true → has_key k ((j, e) ∷ m) ≡ true
unfolding has_key lookup
has_key-there k j e m h = ground arith

-- The oldest entry is one of the table.
oldest-has_key : (m : Map Key Entry) (e : Key × Entry) → oldest m ≡ some e → has_key e.0 m ≡ true
oldest-has_key [] e h = absurd (cc)
oldest-has_key ((j, x) ∷ m) e h = elim (Option-cases (oldest m)) [
  | inl none_left ↦ let same : j ≡ e.0 = ground arith in rw (← same) (has_key-here j x m)
  | inr (f, found) ↦ elim (Bool-cases (leb x.since f.1.since)) [
    | inl first ↦ let same : j ≡ e.0 = ground arith in rw (← same) (has_key-here j x m)
    | inr later ↦
        let same : f ≡ e = ground arith in
        rw (← same) (has_key-there f.0 j x m (oldest-has_key m f found))
  ]
]

oldest-some : (e : Key × Entry) (m : Map Key Entry) → oldest (e ∷ m) ≢ none
oldest-some e m h = elim (Option-cases (oldest m)) [
  | inl none_left ↦ absurd (ground arith)
  | inr (f, found) ↦ absurd (ground arith)
]

length-drop_oldest : (m : Map Key Entry) → 0 < length m → length (drop_oldest m) + 1 ≤ length m
unfolding drop_oldest
length-drop_oldest [] h = absurd (omega arith)
length-drop_oldest (x ∷ m) h = elim (Option-cases (oldest (x ∷ m))) [
  | inl e ↦ absurd (oldest-some x m e)
  | inr (f, e) ↦
      rw (drop_oldest, e) (length-remove_present f.0 (x ∷ m) (oldest-has_key (x ∷ m) f e))
]

length-shrink : (m : Map Key Entry) → length m ≤ max_tracked → length (shrink m) < max_tracked
unfolding shrink
length-shrink m h = ground (arith, length-drop_oldest m)

-- Room is made for a key that is not there, and the bound is kept.
length-make_room :
    (table : Map Key Entry) (key : Key) (now window : ℕ)
    → length table ≤ max_tracked
    → (length (make_room table key now window) < max_tracked)
      ⊎ ((has_key key (make_room table key now window) ≡ true)
          × (length (make_room table key now window) ≤ max_tracked))
unfolding make_room
length-make_room table key now window h = elim (Bool-cases (has_key key table)) [
  | inl present ↦ rw present (inr (present, h))
  | inr absent ↦ elim (Bool-cases (leb max_tracked (length table))) [
    | inl full ↦
        rw (absent, full)
          (inl (
            length-shrink (retain (is_live now window) table)
              (omega (arith, length-retain-le (is_live now window) table))))
    | inr space ↦ rw (absent, space) (inl (ground arith))
  ]
]

length-update :
    (table : Map Key Entry) (key : Key) (now window : ℕ) (change : Entry → Entry)
    → length table ≤ max_tracked
    → length (update table key now window change) ≤ max_tracked
unfolding update
length-update table key now window change h =
    let room = make_room table key now window in
    elim (length-make_room table key now window h) [
      | inl space ↦ omega (arith, length-insert key (change (entry_or_new room key now)) room)
      | inr (present, bound) ↦
          omega (arith, length-insert_present key (change (entry_or_new room key now)) room present)
    ]

-- After any sequence of failures and successes neither table has more entries than it may.
pub Run-bounded :
    {t : LoginThrottle} {last : ℕ}
    → Run t last
    → (length t.emails ≤ max_tracked) × (length t.sources ≤ max_tracked)
unfolding record_failure record_success
Run-bounded fresh = (omega arith, omega arith)
Run-bounded (failed {t} {last} email none now r later) =
    let (emails, sources) = Run-bounded r in
    (
      length-update t.emails (normalize_email email) now email_window (λ x. fail_email x now)
          emails,
      sources,
    )
Run-bounded (failed {t} {last} email (some source) now r later) =
    let (emails, sources) = Run-bounded r in
    (
      length-update t.emails (normalize_email email) now email_window (λ x. fail_email x now)
          emails,
      length-update t.sources source now source_window (λ x. fail_source x now) sources,
    )
Run-bounded (succeeded {t} {last} email r) =
    let (emails, sources) = Run-bounded r in
    (omega (arith, length-remove-le (normalize_email email) t.emails), sources)
