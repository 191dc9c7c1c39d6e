-- ===== src/Stripe/Retry/Bounds.antt =====
-- How often a call of backend/src/stripe.rs asks, how long it waits, and when the breaker opens.
use tldr_tv.Prelude.{
  and_then_some, ℕ, zero, suc, ◌+◌, ◌-◌, ◌*◌, ◌^◌, ◌≤◌, ◌<◌, ◌≡◌, refl, ap, min, Bool, true, false,
  Option, none, some, List, ◌and_then◌, arith, inl, inr, Bool-cases, leb, if◌then◌else◌, lt→ltb,
}
use tldr_tv.Prelude.Text.{Text, codes, trim}
use tldr_tv.Prelude.Exec.{Outcome, ok, err}
use tldr_tv.Stripe.{StripeError}
use tldr_tv.Stripe.Retry.{
  HttpResponse, Net, Verdict, CircuitState, is_open, record_failure, request, sleep, judge_reply,
  reply_of, after_reply, attempts, send_with_retry, retry_after_ms, parse_u64, max_retry_after_secs,
  wait_for, backoff, header_value, is_retryable_status,
}

-- no wait is longer than a minute
IsShort : Verdict → Type 0
IsShort (Verdict.final res) = Unit
IsShort (Verdict.again e wait) = wait ≤ 60000

some_value : ℕ → Option ℕ → ℕ
some_value d none = d
some_value d (some n) = n

retry_after_ms-le :
    (headers : List (Text × Text)) (ms : ℕ) → retry_after_ms headers ≡ some ms → ms ≤ 60000
unfolding retry_after_ms some_value
retry_after_ms-le headers ms h =
    let (v, h1) =
      and_then_some (header_value headers (codes "retry-after"))
        (λ v. parse_u64 (trim v) and_then λ secs. some (min secs max_retry_after_secs * 1000)) ms
        h in
    let (secs, h2) =
      and_then_some (parse_u64 (trim v)) (λ secs. some (min secs max_retry_after_secs * 1000)) ms
        h1 in
    let value : min secs 60 * 1000 ≡ ms = ap (some_value 0) h2 in omega (arith, value)

backoff-le : (attempt : ℕ) → attempt ≤ 4 → backoff attempt ≤ 60000
backoff-le zero h = omega arith
backoff-le (suc zero) h = omega arith
backoff-le (suc (suc zero)) h = omega arith
backoff-le (suc (suc (suc zero))) h = omega arith
backoff-le (suc (suc (suc (suc zero)))) h = omega arith
backoff-le (suc (suc (suc (suc (suc n))))) h = absurd (omega arith)

waits :
    (attempt : ℕ) (o : Option ℕ)
    → attempt ≤ 4
    → ((ms : ℕ) → o ≡ some ms → ms ≤ 60000)
    → (elim o [ none ↦ backoff attempt | some ms ↦ ms ]) ≤ 60000
waits attempt none h short = backoff-le attempt h
waits attempt (some ms) h short = short ms refl

wait_for-le : (attempt : ℕ) (res : HttpResponse) → attempt ≤ 4 → wait_for attempt res ≤ 60000
wait_for-le attempt res h =
    waits attempt (retry_after_ms res.headers) h (retry_after_ms-le res.headers)

judge_reply-IsShort :
    (attempt : ℕ) (r : Outcome StripeError HttpResponse)
    → attempt ≤ 4
    → IsShort (judge_reply attempt r)
unfolding IsShort
judge_reply-IsShort attempt (err e) h = backoff-le attempt h
judge_reply-IsShort attempt (ok res) h = elim (Bool-cases (is_retryable_status res.status)) [
  | inl e ↦ rw e (wait_for-le attempt res h)
  | inr e ↦ rw e tt
]

after_reply-bounds :
    (left attempt : ℕ) (v : Verdict) (net : Net)
    → left + attempt ≤ 4
    → IsShort v
    → let end = (after_reply left attempt v net).1 in
      (end.sent ≤ net.sent + left) × (end.slept ≤ net.slept + left * 60000)
unfolding after_reply IsShort
after_reply-bounds left attempt (Verdict.final res) net h short = (omega arith, omega arith)
after_reply-bounds zero attempt (Verdict.again e wait) net h short = (omega arith, omega arith)
after_reply-bounds (suc left) attempt (Verdict.again e wait) net h short =
    let later = sleep wait net in
    let (sent, slept) =
      after_reply-bounds left (suc attempt) (judge_reply (suc attempt) (reply_of later.replies))
        (request later) (omega arith)
        (judge_reply-IsShort (suc attempt) (reply_of later.replies) (omega arith)) in
    (omega arith, omega arith)

sends_at_most :
    (net : Net) (b : Bool)
    → let end = (if b then (err StripeError.circuit_open, net) else attempts 4 net).1 in
      (end.sent ≤ net.sent + 5) × (end.slept ≤ net.slept + 240000)
sends_at_most net true = (omega arith, omega arith)
sends_at_most net false =
    let (sent, slept) =
      after_reply-bounds 4 0 (judge_reply 0 (reply_of net.replies)) (request net) (omega arith)
        (judge_reply-IsShort 0 (reply_of net.replies) (omega arith)) in
    (omega arith, omega arith)

-- One call sends at most five requests and waits at most four minutes between them, whatever the
-- replies and their Retry-After headers are.
pub send_with_retry_bounds :
    (net : Net)
    → let end = (send_with_retry net).1 in
      (end.sent ≤ net.sent + 5) × (end.slept ≤ net.slept + 240000)
unfolding send_with_retry
send_with_retry_bounds net = sends_at_most net (is_open net.circuit net.now)

-- A loop that ends in an error has only recorded a failure.
after_reply-failure :
    (left attempt : ℕ) (v : Verdict) (net : Net) (e : StripeError)
    → (after_reply left attempt v net).0 ≡ err e
    → let end = (after_reply left attempt v net).1 in
      end.circuit ≡ record_failure net.circuit end.now
unfolding after_reply
after_reply-failure left attempt (Verdict.final res) net e h = cc
after_reply-failure zero attempt (Verdict.again f wait) net e h = refl
after_reply-failure (suc left) attempt (Verdict.again f wait) net e h =
    let later = sleep wait net in
    after_reply-failure left (suc attempt) (judge_reply (suc attempt) (reply_of later.replies))
      (request later) e h

third-opens :
    (c : CircuitState) (at now : ℕ)
    → 2 ≤ c.consecutive_failures
    → now < at + 30000
    → is_open (record_failure c at) now ≡ true
third-opens c at now h soon =
    let trips : leb 3 (min (c.consecutive_failures + 1) (2 ^ 32 - 1)) ≡ true = ground arith in
    rw trips (lt→ltb now (at + 30000) soon)

fails_open :
    (net next : Net) (b : Bool) (e : StripeError)
    → b ≡ false
    → 2 ≤ net.circuit.consecutive_failures
    → let run = if b then (err StripeError.circuit_open, net) else attempts 4 net in
      run.0 ≡ err e
      → next.circuit ≡ run.1.circuit
      → next.now < run.1.now + 30000
      → is_open next.circuit next.now ≡ true
fails_open net next true e closed h failed same soon = cc
fails_open net next false e closed h failed same soon =
    let v = judge_reply 0 (reply_of net.replies) in
    let end = (after_reply 4 0 v (request net)).1 in
    rw same (
      rw (after_reply-failure 4 0 v (request net) e failed)
        (third-opens net.circuit end.now next.now h soon))

-- When a call that the breaker let through fails after at least two failures in a row, the next call
-- within 30 seconds that finds the breaker as that call left it is refused without a request.
pub send_with_retry_third :
    (net next : Net) (e : StripeError)
    → is_open net.circuit net.now ≡ false
    → 2 ≤ net.circuit.consecutive_failures
    → (send_with_retry net).0 ≡ err e
    → next.circuit ≡ (send_with_retry net).1.circuit
    → next.now < (send_with_retry net).1.now + 30000
    → send_with_retry next ≡ (err StripeError.circuit_open, next)
unfolding send_with_retry
send_with_retry_third net next e closed h failed same soon =
    rw (fails_open net next (is_open net.circuit net.now) e closed h failed same soon) refl
