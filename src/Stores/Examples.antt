-- ===== src/Stores/Examples.antt =====
-- The theorems on the stores at concrete stores.
use tldr_tv.Prelude.{
  ℕ, ◌+◌, ◌≤◌, ◌≡◌, refl, false, ◌&&◌, List, [], ◌∷◌, arith, length, ltb, leb, keep, list_eq,
  nat_eq, pair_eq,
}
use tldr_tv.Prelude.Text.{Text, codes}
use tldr_tv.HashMap.{HashMap, lookup, contains_key}
use tldr_tv.Stores.Eviction.{evict_oldest_entries}
use tldr_tv.Stores.Eviction.Laws.{Evicts, evict_oldest_entries-Evicts}
use tldr_tv.Stores.Csrf
use tldr_tv.Stores.Csrf.{CsrfStore}
use tldr_tv.Stores.Csrf.Laws.{Cleaned, cleanup-Cleaned}
use tldr_tv.Stores.Lockout.{is_locked, duration_ms, threshold}
use tldr_tv.Stores.Lockout.Bounds.{IsBounded, calls-IsBounded, Call, calls}
use tldr_tv.Stores.Lockout.Streak
use tldr_tv.Stores.Lockout.Streak.{is_locked-fail_at, fail_at}
use tldr_tv.Stores.RateLimit.{RateLimitStore, check_and_record, in_window, limit}
use tldr_tv.Stores.RateLimit.Window
use tldr_tv.Stores.RateLimit.Window.{admitted_from, admitted_from-le-limit, retry_after_admits}

abbrev three : HashMap ℕ ℕ
three = (1, 30) ∷ (2, 10) ∷ (3, 20) ∷ []

evict_oldest_entries-Evicts_example :
    Evicts three 2 (λ t. t) (evict_oldest_entries three 2 (λ t. t))
unfolding lookup
evict_oldest_entries-Evicts_example =
    evict_oldest_entries-Evicts three 2 (λ t. t) (refl, (refl, (refl, tt)))

abbrev tokens : CsrfStore
tokens =
    (codes "u1", record { token = codes "aa"; timestamp = 5 })
    ∷ (codes "u2", record { token = codes "bb"; timestamp = 90_000_000 })
    ∷ []

cleanup-Cleaned_example :
    Cleaned tokens 90_000_000 (Csrf.cleanup tokens 90_000_000).0 (Csrf.cleanup tokens 90_000_000).1
unfolding lookup
cleanup-Cleaned_example = cleanup-Cleaned tokens 90_000_000 (refl, (refl, tt))

abbrev no_one-IsBounded : IsBounded []
unfolding lookup
no_one-IsBounded = record { is_map = tt; size = omega arith }

abbrev failures : List ℕ
failures = 1000 ∷ 2000 ∷ 3000 ∷ 4000 ∷ 5000 ∷ []

is_locked-fail_at_example :
    (is_locked (fail_at [] (codes "a") (codes "1") failures) (codes "a") (codes "1") 6000).1.locked
    ≡ (leb threshold (length failures)
        && ltb 6000 (Streak.last_of 1000 (2000 ∷ 3000 ∷ 4000 ∷ 5000 ∷ []) + duration_ms))
unfolding lookup
is_locked-fail_at_example =
    is_locked-fail_at [] (codes "a") (codes "1") 1000 (2000 ∷ 3000 ∷ 4000 ∷ 5000 ∷ []) 6000
      no_one-IsBounded refl (omega arith, (omega arith, (omega arith, (omega arith, tt))))
      (omega arith)

abbrev some_calls : List Call
some_calls = Call.failure (codes "a") (codes "1") 5 ∷ Call.sweep 10 ∷ []

calls-IsBounded_example : IsBounded (calls [] some_calls)
unfolding lookup
calls-IsBounded_example = calls-IsBounded some_calls

abbrev visits : List (Text × ℕ)
visits = (codes "1", 5) ∷ (codes "2", 5) ∷ (codes "1", 6) ∷ (codes "2", 7) ∷ []

admitted_from-le-limit_example :
    length (keep (in_window (Window.last_of 0 visits)) (admitted_from [] (codes "1") [] visits))
    ≤ limit
unfolding lookup
admitted_from-le-limit_example =
    admitted_from-le-limit [] (codes "1") visits tt refl
      (omega arith, (omega arith, (omega arith, (omega arith, tt)))) (omega arith)

abbrev full_window : RateLimitStore
full_window =
    (
      codes "1",
      1 ∷ 2 ∷ 3 ∷ 4 ∷ 5 ∷ 6 ∷ 7 ∷ 8 ∷ 9 ∷ 10 ∷ 11 ∷ 12 ∷ 13 ∷ 14 ∷ 15 ∷ 16 ∷ 17 ∷ 18 ∷ 19 ∷ 20 ∷ [],
    )
    ∷ []

retry_after_admits_example :
    (check_and_record
      (check_and_record full_window (codes "1") 1000).0
      (codes "1")
      901_000).1.limited
    ≡ false
unfolding check_and_record lookup contains_key
retry_after_admits_example =
    retry_after_admits full_window (codes "1") 1000 901_000 (refl, tt) (omega arith) refl
      (omega arith)
