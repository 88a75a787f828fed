-- ===== src/Login/Tests.antt =====
-- Runs of the throttle.
use hoglet.Prelude.Map.{lookup, insert, remove, has_key}
use hoglet.Login.{
  Entry, LoginThrottle, record_failure, record_success, check, normalize_email, second,
}
use hoglet.Login.Delays.{Run, fresh, failed, check-wait}
use hoglet.Login.Bounds.{Run-bounded}
use hoglet.Login.Refusals.{record_failure-refuses}
use hoglet.Prelude.{
  ℕ, zero, suc, ◌*◌, ◌≤◌, ◌≡◌, refl, ◌≢◌, none, some, List, [], ◌∷◌, arith, nat_eq, string_eq,
  length, ok, err, list_eq,
}

abbrev empty_throttle : LoginThrottle
empty_throttle = record { emails = []; sources = [] }

abbrev mail : List ℕ
mail = 32 ∷ 65 ∷ 64 ∷ 120 ∷ []

abbrev peer : List ℕ
peer = 49 ∷ 48 ∷ []

abbrev failures_of : ℕ → LoginThrottle
failures_of zero = empty_throttle
failures_of (suc n) = record_failure (failures_of n) mail (some peer) (n * second)

normalize_email_test : normalize_email mail ≡ 97 ∷ 64 ∷ 120 ∷ []
unfolding normalize_email
normalize_email_test = refl

free_test : check (failures_of 4) mail (some peer) (4 * second) ≡ ok tt
unfolding check record_failure lookup insert remove has_key
free_test = refl

blocked_test : check (failures_of 5) mail (some peer) (4 * second) ≡ err second
unfolding check record_failure lookup insert remove has_key
blocked_test = refl

blocked_test_none : check (failures_of 5) mail none (4 * second) ≡ err second
unfolding check record_failure lookup insert remove has_key
blocked_test_none = refl

source_test : check (failures_of 30) (98 ∷ []) (some peer) (29 * second) ≡ err (571 * second)
unfolding check record_failure lookup insert remove has_key
source_test = refl

expired_test : check (failures_of 5) mail none (5 * second) ≡ ok tt
unfolding check record_failure lookup insert remove has_key
expired_test = refl

success_test : check (record_success (failures_of 5) mail) mail none (4 * second) ≡ ok tt
unfolding check record_failure record_success lookup insert remove has_key
success_test = refl

five_failures : Run (failures_of 5) (4 * second)
five_failures =
    failed mail (some peer) (4 * second)
      (failed mail (some peer) (3 * second)
        (failed mail (some peer) (2 * second)
          (failed mail (some peer) second (failed mail (some peer) 0 fresh (omega arith))
            (omega arith))
          (omega arith))
        (omega arith))
      (omega arith)

check-wait_example : second ≤ 60 * second
check-wait_example =
    check-wait five_failures mail (4 * second) second (omega arith) blocked_test_none

Run-bounded_example :
    (length (failures_of 5).emails ≤ 4096) × (length (failures_of 5).sources ≤ 4096)
Run-bounded_example = Run-bounded five_failures

abbrev mail_entry : Entry
mail_entry = record { failures = 4; since = 0; blocked_until = none }

four_failures_test : lookup (normalize_email mail) (failures_of 4).emails ≡ some mail_entry
unfolding normalize_email record_failure lookup insert remove has_key
four_failures_test = refl

abbrev four_failures : LoginThrottle
four_failures = failures_of 4

abbrev fifth_failure : LoginThrottle
fifth_failure = record_failure four_failures mail none (10 * second)

record_failure-refuses_example :
    (check fifth_failure mail (some peer) (10 * second) ≢ ok tt)
    × (check (record_success fifth_failure mail) mail none (10 * second) ≡ ok tt)
record_failure-refuses_example =
    record_failure-refuses four_failures mail none (some peer) mail_entry (10 * second)
      (10 * second) four_failures_test (omega arith) (omega arith) (omega arith) (omega arith)
