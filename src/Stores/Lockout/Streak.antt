-- ===== src/Stores/Lockout/Streak.antt =====
-- Runs of failed sign-ins in `LockoutStore` of backend/src/stores.rs.
use tldr_tv.Prelude.{
  suc, ap, ◌∙◌, ℕ, ◌+◌, ◌^◌, ◌≤◌, ◌<◌, ◌≡◌, ◌&&◌, none, some, List, [], ◌∷◌, arith, if◌then◌else◌,
  length, ltb, leb, list_eq, nat_eq, pair_eq,
}
use tldr_tv.Prelude.Text.{Text}
use tldr_tv.HashMap.{lookup}
use tldr_tv.Stores.Lockout.{
  LoginAttempt, LockoutStore, key, threshold, duration_ms, attempt_window_ms, is_locked,
  record_failure, count_failure,
}
use tldr_tv.Stores.Lockout.Bounds.{IsBounded, record_failure-IsBounded}
use tldr_tv.Stores.Lockout.Record.{record_failure_here}

-- failures of one client at these times
pub fail_at : LockoutStore → Text → Text → List ℕ → LockoutStore
fail_at store email ip [] = store
fail_at store email ip (t ∷ ts) = fail_at (record_failure store email ip t).0 email ip ts

-- No failure comes more than the attempt window after the one before it.
abbrev pub Steady : ℕ → List ℕ → Type 0
Steady prev [] = Unit
Steady prev (t ∷ ts) = (t ≤ prev + attempt_window_ms) × Steady t ts

abbrev pub last_of : ℕ → List ℕ → ℕ
last_of t [] = t
last_of t (u ∷ ts) = last_of u ts

-- the record after `n` steady failures, the last at `t`
abbrev pub streak : ℕ → ℕ → LoginAttempt
streak n t = record {
  attempts = n;
  locked_until = if leb threshold n then some (t + duration_ms) else none;
  last_attempt = t;
}

count_failure-streak :
    (n t u : ℕ)
    → n + 1 < 2 ^ 32
    → u ≤ t + attempt_window_ms
    → count_failure (streak n t) u ≡ streak (n + 1) u
unfolding count_failure
count_failure-streak n t u small near = ground arith

fail_at-streak :
    (ts : List ℕ) (store : LockoutStore) (email ip : Text) (n t : ℕ)
    → IsBounded store
    → n + length ts < 2 ^ 32
    → Steady t ts
    → lookup (key email ip) store ≡ some (streak n t)
    → lookup (key email ip) (fail_at store email ip ts)
      ≡ some (streak (n + length ts) (last_of t ts))
unfolding fail_at
fail_at-streak [] store email ip n t b small steady q = ground arith
fail_at-streak (u ∷ ts) store email ip n t b small steady q =
    let after = (record_failure store email ip u).0 in
    let one : lookup (key email ip) after ≡ some (streak (n + 1) u) =
      rw q at (record_failure_here store email ip u b.is_map)
      ∙ ap some (count_failure-streak n t u (omega (arith, small)) steady.0) in
    let rest =
      fail_at-streak ts after email ip (n + 1) u (record_failure-IsBounded store email ip u b)
        (omega (arith, small)) steady.1 one in
    let sum : n + 1 + length ts ≡ n + suc (length ts) = omega arith in rw sum at rest

first_failure :
    (t : ℕ)
    → count_failure (record { attempts = 0; locked_until = none; last_attempt = t }) t ≡ streak 1 t
unfolding count_failure
first_failure t = ground arith

-- In a store with distinct keys and at most 50,000 entries, a client with no record that fails at each
-- of the given times (fewer than 2^32 of them), none more than fifteen minutes after the one before,
-- with no other call in between, is locked exactly if there are at least five failures and fifteen
-- minutes have not passed since the last.
pub is_locked-fail_at :
    (store : LockoutStore) (email ip : Text) (t : ℕ) (ts : List ℕ) (now_ms : ℕ)
    → IsBounded store
    → lookup (key email ip) store ≡ none
    → Steady t ts
    → length (t ∷ ts) < 2 ^ 32
    → (is_locked (fail_at store email ip (t ∷ ts)) email ip now_ms).1.locked
      ≡ (leb threshold (length (t ∷ ts)) && ltb now_ms (last_of t ts + duration_ms))
unfolding is_locked fail_at
is_locked-fail_at store email ip t ts now_ms b q steady small =
    let after = (record_failure store email ip t).0 in
    let one : lookup (key email ip) after ≡ some (streak 1 t) =
      rw q at (record_failure_here store email ip t b.is_map) ∙ ap some (first_failure t) in
    let run =
      fail_at-streak ts after email ip 1 t (record_failure-IsBounded store email ip t b)
        (omega (arith, small)) steady one in
    ground (arith, run)
