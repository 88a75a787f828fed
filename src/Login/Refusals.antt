-- ===== src/Login/Refusals.antt =====
-- When an email is refused.
use hoglet.Login.{
  Key, Entry, LoginThrottle, update, make_room, entry_or_new, shift_one, email_delay, fail_email,
  record_failure, record_success, check, lookup, second, email_window, email_free_failures,
  count_failure, normalize_email, wait_of,
}
use hoglet.Prelude.Map.{Map, has_key, lookup-insert, ==_refl, lookup-remove}
use hoglet.Prelude.{
  ℕ, zero, suc, ◌+◌, ◌-◌, ◌≤◌, ◌<◌, min, ◌≡◌, refl, ◌≢◌, true, Option, none, some, List, arith,
  nat_eq, string_eq, ok, list_eq,
}

-- An email that the table has is updated in its place.
lookup-update :
    (m : Map Key Entry) (k : Key) (now window : ℕ) (change : Entry → Entry) (entry : Entry)
    → lookup k m ≡ some entry
    → lookup k (update m k now window change) ≡ some (change entry)
unfolding update make_room has_key entry_or_new
lookup-update m k now window change entry e =
    let present : has_key k m ≡ true = rw (has_key, e) refl in
    rw (update, make_room, present, entry_or_new, e)
      (rw (lookup-insert k k (change entry) m, ==_refl k) refl)

shift_one-pos : (n : ℕ) → 1 ≤ shift_one n
shift_one-pos zero = omega arith
shift_one-pos (suc n) = omega (arith, shift_one-pos n)

email_delay-ge : (failures : ℕ) → second ≤ email_delay failures
unfolding email_delay
email_delay-ge failures = ground (arith, shift_one-pos (min (failures - email_free_failures) 6))

fail_email-blocked :
    (entry : Entry) (now : ℕ)
    → now - entry.since < email_window
    → 4 ≤ entry.failures
    → (fail_email entry now).blocked_until ≡ some (now + email_delay (count_failure entry.failures))
unfolding fail_email
fail_email-blocked entry now inside many = ground arith

check-refuses :
    (t : LoginThrottle) (email : List ℕ) (other : Option Key) (now : ℕ) (entry : Entry)
    → lookup (normalize_email email) t.emails ≡ some entry
    → 0 < wait_of (some entry) now
    → check t email other now ≢ ok tt
unfolding check
check-refuses t email other now entry e positive h = ground arith

check-free :
    (t : LoginThrottle) (email : List ℕ) (now : ℕ)
    → lookup (normalize_email email) t.emails ≡ none
    → check t email none now ≡ ok tt
unfolding check
check-free t email now e = ground arith

wait_of-blocked :
    (entry : Entry) (now delay later : ℕ)
    → entry.blocked_until ≡ some (now + delay)
    → second ≤ delay
    → later < now + second
    → 0 < wait_of (some entry) later
wait_of-blocked entry now delay later e long soon = rw e (omega arith)

-- An email with four failures or more of which the first is inside the window is refused for a second
-- after one more, whatever source the attempts come from. Once it has succeeded, it is free again.
pub record_failure-refuses :
    (t : LoginThrottle) (email : List ℕ) (source other : Option Key) (entry : Entry) (now later : ℕ)
    → lookup (normalize_email email) t.emails ≡ some entry
    → now - entry.since < email_window
    → 4 ≤ entry.failures
    → now ≤ later
    → later < now + second
    → (check (record_failure t email source now) email other later ≢ ok tt)
      × (check (record_success (record_failure t email source now) email) email none later ≡ ok tt)
unfolding check record_failure record_success
record_failure-refuses t email source other entry now later e inside many after soon =
    let key = normalize_email email in
    let change : Entry → Entry = λ x. fail_email x now in
    let found = lookup-update t.emails key now email_window change entry e in
    let long = email_delay-ge (count_failure entry.failures) in
    let blocked = fail_email-blocked entry now inside many in
    let waits = wait_of-blocked (fail_email entry now) now _ later blocked long soon in
    (
      check-refuses (record_failure t email source now) email other later (change entry) found
          waits,
      check-free (record_success (record_failure t email source now) email) email later (
          rw (lookup-remove key key (update t.emails key now email_window change), ==_refl key)
            refl),
    )
