-- ===== src/Login/Delays.antt =====
-- How long an email is blocked, and when.
use hoglet.Login.{
  Key, Entry, LoginThrottle, retain, shrink, make_room, entry_or_new, fail_email, record_failure,
  check, drop_oldest, max_tracked, email_delay, record_success, email_max_delay, oldest, is_live,
  email_window, update, normalize_email, email_free_failures, count_failure, wait_until, wait_of,
}
use hoglet.Prelude.Map.{Map, lookup, insert, remove, has_key}
use hoglet.Prelude.{
  ℕ, ◌+◌, ◌-◌, ◌≤◌, ◌≡◌, inl, inr, Bool, not, ◌&&◌, Option, none, some, List, [], ◌∷◌, arith, leb,
  Bool-cases, Option-cases, ◌==◌, nat_eq, string_eq, length, All, err, list_eq,
}

abbrev pub EndsBy : ℕ → Option ℕ → Type 0
EndsBy limit none = Unit
EndsBy limit (some until) = until ≤ limit

-- Every entry's block ends by `limit`.
abbrev pub EndBy : ℕ → Map Key Entry → Type 0
EndBy limit = All (λ x. EndsBy limit x.1.blocked_until)

EndsBy-mono : (a b : ℕ) (o : Option ℕ) → a ≤ b → EndsBy a o → EndsBy b o
EndsBy-mono a b none h e = tt
EndsBy-mono a b (some until) h e = omega arith

EndBy-mono : (a b : ℕ) (m : Map Key Entry) → a ≤ b → EndBy a m → EndBy b m
EndBy-mono a b [] h e = tt
EndBy-mono a b ((k, x) ∷ m) h (e, es) = (EndsBy-mono a b x.blocked_until h e, EndBy-mono a b m h es)

module _ (limit : ℕ) where
  remove-EndBy : (k : Key) (m : Map Key Entry) → EndBy limit m → EndBy limit (remove k m)
  unfolding remove
  remove-EndBy k [] h = tt
  remove-EndBy k ((j, x) ∷ m) (e, es) = elim (Bool-cases (j == k)) [
    | inl same ↦ rw (remove, same) (remove-EndBy k m es)
    | inr apart ↦ rw (remove, apart) (e, remove-EndBy k m es)
  ]

  retain-EndBy : (p : Entry → Bool) (m : Map Key Entry) → EndBy limit m → EndBy limit (retain p m)
  retain-EndBy p [] h = tt
  retain-EndBy p ((j, x) ∷ m) (e, es) = elim (Bool-cases (p x)) [
    | inl stays ↦ rw stays (e, retain-EndBy p m es)
    | inr goes ↦ rw goes (retain-EndBy p m es)
  ]

  insert-EndBy :
      (k : Key) (x : Entry) (m : Map Key Entry)
      → EndsBy limit x.blocked_until
      → EndBy limit m
      → EndBy limit (insert k x m)
  unfolding insert
  insert-EndBy k x [] e h = (e, tt)
  insert-EndBy k x ((j, y) ∷ m) e (f, fs) = elim (Bool-cases (j == k)) [
    | inl same ↦ rw (insert, same) (e, fs)
    | inr apart ↦ rw (insert, apart) (f, insert-EndBy k x m e fs)
  ]

  shrink-EndBy : (m : Map Key Entry) → EndBy limit m → EndBy limit (shrink m)
  unfolding shrink drop_oldest
  shrink-EndBy m h = elim (Bool-cases (leb max_tracked (length m))) [
    | inr space ↦ rw (shrink, space) h
    | inl full ↦ elim (Option-cases (oldest m)) [
      | inl e ↦ rw (shrink, full, drop_oldest, e) h
      | inr (x, e) ↦ rw (shrink, full, drop_oldest, e) (remove-EndBy x.0 m h)
    ]
  ]

  make_room-EndBy :
      (m : Map Key Entry) (k : Key) (now window : ℕ)
      → EndBy limit m
      → EndBy limit (make_room m k now window)
  unfolding make_room
  make_room-EndBy m k now window h =
      elim (Bool-cases (not (has_key k m) && leb max_tracked (length m))) [
        | inl full ↦ rw (make_room, full) (shrink-EndBy _ (retain-EndBy (is_live now window) m h))
        | inr space ↦ rw (make_room, space) h
      ]

  lookup-EndBy :
      (m : Map Key Entry) (k : Key) (x : Entry)
      → EndBy limit m
      → lookup k m ≡ some x
      → EndsBy limit x.blocked_until
  unfolding lookup
  lookup-EndBy [] k x h e = absurd (cc)
  lookup-EndBy ((j, y) ∷ m) k x (f, fs) e = elim (Bool-cases (j == k)) [
    | inl same ↦ let found : y ≡ x = ground arith in rw (← found) f
    | inr apart ↦ lookup-EndBy m k x fs (rw (lookup, apart) at e)
  ]

  entry_or_new-EndBy :
      (m : Map Key Entry) (k : Key) (now : ℕ)
      → EndBy limit m
      → EndsBy limit (entry_or_new m k now).blocked_until
  unfolding entry_or_new
  entry_or_new-EndBy m k now h = elim (Option-cases (lookup k m)) [
    | inl e ↦ rw (entry_or_new, e) tt
    | inr (x, e) ↦ rw (entry_or_new, e) (lookup-EndBy m k x h e)
  ]

fail_email-EndBy :
    (entry : Entry) (now : ℕ)
    → EndsBy (now + email_max_delay) entry.blocked_until
    → EndsBy (now + email_max_delay) (fail_email entry now).blocked_until
unfolding fail_email email_delay
fail_email-EndBy entry now h = elim (Bool-cases (leb email_window (now - entry.since))) [
  | inl old ↦ rw (fail_email, old) h
  | inr recent ↦ elim (Bool-cases (leb email_free_failures (count_failure entry.failures))) [
    | inl many ↦ rw (fail_email, recent, many) (omega arith)
    | inr few ↦ rw (fail_email, recent, few) h
  ]
]

-- The calls that change the throttle, in the order of their times.
pub data Run : LoginThrottle → ℕ → Type 0 where
  fresh : Run (record { emails = []; sources = [] }) 0
  failed :
      {t : LoginThrottle} {last : ℕ} (email : List ℕ) (source : Option Key) (now : ℕ)
      → Run t last
      → last ≤ now
      → Run (record_failure t email source now) now
  succeeded :
      {t : LoginThrottle} {last : ℕ} (email : List ℕ)
      → Run t last
      → Run (record_success t email) last

Run-EndBy : {t : LoginThrottle} {last : ℕ} → Run t last → EndBy (last + email_max_delay) t.emails
unfolding record_failure record_success update
Run-EndBy fresh = tt
Run-EndBy (failed {t} {last} email source now r later) =
    let limit = now + email_max_delay in
    let before = EndBy-mono (last + email_max_delay) limit t.emails (omega arith) (Run-EndBy r) in
    let room = make_room-EndBy limit t.emails (normalize_email email) now email_window before in
    insert-EndBy limit (normalize_email email) _ _
      (fail_email-EndBy _ now (entry_or_new-EndBy limit _ (normalize_email email) now room)) room
Run-EndBy (succeeded {t} {last} email r) =
    remove-EndBy (last + email_max_delay) (normalize_email email) t.emails (Run-EndBy r)

-- A block that ends within a minute of an earlier moment is waited out in a minute.
wait_until-le :
    (last now limit : ℕ) (o : Option ℕ)
    → last ≤ now
    → EndsBy (last + limit) o
    → wait_until o now ≤ limit
wait_until-le last now limit none later h = omega arith
wait_until-le last now limit (some until) later h = omega arith

wait_of-le :
    (last now limit : ℕ) (m : Map Key Entry) (k : Key)
    → last ≤ now
    → EndBy (last + limit) m
    → wait_of (lookup k m) now ≤ limit
wait_of-le last now limit m k later h = elim (Option-cases (lookup k m)) [
  | inl e ↦ rw e (omega arith)
  | inr (x, e) ↦
      rw e
        (wait_until-le last now limit x.blocked_until later (lookup-EndBy (last + limit) m k x h e))
]

-- After any sequence of failures and successes in the order of their times, an attempt that is refused
-- by its email alone has to wait for a minute at most.
pub check-wait :
    {t : LoginThrottle} {last : ℕ} (r : Run t last) (email : List ℕ) (now wait : ℕ)
    → last ≤ now
    → check t email none now ≡ err wait
    → wait ≤ email_max_delay
unfolding check
check-wait {t} {last} r email now wait later h =
    let bound =
      wait_of-le last now email_max_delay t.emails (normalize_email email) later (Run-EndBy r) in
    ground arith
