-- ===== src/Stripe/Retry.antt =====
-- The retries and the circuit breaker of backend/src/stripe.rs. `Net` is what a call sees of the
-- world: the clock in milliseconds, the breaker, the replies that libcurl will give, in order, and
-- what was sent and slept. A request beyond the list of replies fails in transport. The breaker is
-- the call's own here: in the source it is one for the process, and what the calls of other threads
-- do to it while this one waits is left out. A request takes no time, a sleep its length.
pub mod Bounds
use tldr_tv.Prelude.{
  ℕ, zero, suc, ◌+◌, ◌-◌, ◌*◌, ◌/◌, ◌%◌, ◌^◌, min, Bool, true, false, not, ◌&&◌, ◌||◌, Option, none,
  some, List, [], ◌∷◌, ◌++◌, ltb, leb, nat_beq, is_nil, every, if◌then◌else◌, ◌and_then◌,
}
use tldr_tv.Prelude.Text.{
  Bytes, Text, codes, trim, decimal, within, is_ascii_digit, eq_ignore_ascii_case,
}
use tldr_tv.Prelude.Exec.{Outcome, ok, err}
use tldr_tv.Json.{Json, get, get_str}
use tldr_tv.Json.Decimal.{parse_unsigned}
use tldr_tv.Json.Parser.{parse}
use tldr_tv.Stripe.{StripeError, stop_text}

pub record HttpResponse : Type 0 where
  pub status : ℕ
  pub body : Bytes
  pub headers : List (Text × Text)

abbrev pub max_retries : ℕ
max_retries = 4

abbrev pub base_backoff_ms : ℕ
base_backoff_ms = 1000

abbrev pub max_retry_after_secs : ℕ
max_retry_after_secs = 60

abbrev pub circuit_failure_threshold : ℕ
circuit_failure_threshold = 3

-- in milliseconds
abbrev pub circuit_cooldown : ℕ
circuit_cooldown = 30000

pub record CircuitState : Type 0 where
  pub consecutive_failures : ℕ
  pub open_until : Option ℕ

abbrev pub is_open : CircuitState → ℕ → Bool
is_open c now = elim c.open_until [ none ↦ false | some until ↦ ltb now until ]

abbrev pub record_success : CircuitState → CircuitState
record_success c = record { consecutive_failures = 0; open_until = none }

-- `saturating_add` on 32 bits
abbrev pub record_failure : CircuitState → ℕ → CircuitState
record_failure c now =
    let failures = min (c.consecutive_failures + 1) (2 ^ 32 - 1) in
    record {
      consecutive_failures = failures;
      open_until =
          if leb circuit_failure_threshold failures
          then some (now + circuit_cooldown)
          else c.open_until;
    }

abbrev pub is_retryable_status : ℕ → Bool
is_retryable_status status = nat_beq status 429 || within 500 599 status

abbrev pub header_value : List (Text × Text) → Text → Option Text
header_value [] name = none
header_value ((k, v) ∷ headers) name =
    if eq_ignore_ascii_case k name then some v else header_value headers name

abbrev pub parse_u64 : Text → Option ℕ
parse_u64 s = parse_unsigned 64 s

unfoldable pub retry_after_ms : List (Text × Text) → Option ℕ
unfolding trim
retry_after_ms headers = header_value headers (codes "retry-after") and_then λ v.
    parse_u64 (trim v) and_then λ secs. some (min secs max_retry_after_secs * 1000)

abbrev parsed_body : Bytes → Option Json
parsed_body body = elim (parse body) [ err e ↦ none | ok v ↦ some v ]

-- `or_else`
abbrev or_else {ℓ} : {A : Type ℓ} → Option A → Option A → Option A
or_else none b = b
or_else (some a) b = some a

abbrev message_or : ℕ → Option Text → Text
message_or status none = codes "request failed with status " ++ decimal status
message_or status (some m) = m

unfoldable pub http_error : HttpResponse → StripeError
unfolding parse
http_error res =
    let e = parsed_body res.body and_then λ j. get j (codes "error") in
    let code =
      or_else (e and_then λ e. get_str e (codes "code"))
        (e and_then λ e. get_str e (codes "type")) in
    let message = message_or res.status (e and_then λ e. get_str e (codes "message")) in
    StripeError.http res.status code message

unfoldable pub decode : HttpResponse → Outcome StripeError Json
unfolding parse http_error
decode res =
    if within 200 299 res.status
    then elim (parse res.body) [ err e ↦ err (StripeError.unparsed (stop_text e)) | ok v ↦ ok v ]
    else err (http_error res)

pub record Net : Type 0 where
  pub now : ℕ
  pub circuit : CircuitState
  pub replies : List (Outcome StripeError HttpResponse)
  pub sent : ℕ
  pub slept : ℕ

abbrev no_reply : Outcome StripeError HttpResponse
no_reply = err (StripeError.transport (codes "no reply"))

-- one request, and the next reply
abbrev pub reply_of : List (Outcome StripeError HttpResponse) → Outcome StripeError HttpResponse
reply_of [] = no_reply
reply_of (r ∷ rest) = r

abbrev pub next_replies :
    List (Outcome StripeError HttpResponse) → List (Outcome StripeError HttpResponse)
next_replies [] = []
next_replies (r ∷ rest) = rest

abbrev pub request : Net → Net
request net = record net { replies = next_replies net.replies; sent = net.sent + 1 }

abbrev pub sleep : ℕ → Net → Net
sleep ms net = record net { now = net.now + ms; slept = net.slept + ms }

abbrev pub give_up : StripeError → Net → Outcome StripeError HttpResponse × Net
give_up e net = (err e, record net { circuit = record_failure net.circuit net.now })

abbrev pub answered : HttpResponse → Net → Outcome StripeError HttpResponse × Net
answered res net = (ok res, record net { circuit = record_success net.circuit })

-- `BASE_BACKOFF_MS << attempt`
abbrev pub backoff : ℕ → ℕ
backoff attempt = base_backoff_ms * 2 ^ attempt

abbrev pub wait_for : ℕ → HttpResponse → ℕ
wait_for attempt res = elim (retry_after_ms res.headers) [ none ↦ backoff attempt | some ms ↦ ms ]

-- What an attempt came to: an answer that is final, or an error and how long to wait.
pub data Verdict : Type 0 where
  final : HttpResponse → Verdict
  again : StripeError → ℕ → Verdict

abbrev pub judge_reply : ℕ → Outcome StripeError HttpResponse → Verdict
judge_reply attempt (err e) = Verdict.again e (backoff attempt)
judge_reply attempt (ok res) =
    if is_retryable_status res.status
    then Verdict.again (http_error res) (wait_for attempt res)
    else Verdict.final res

-- The loop behind a reply: `left` retries are left after attempt number `attempt`.
unfoldable pub after_reply : ℕ → ℕ → Verdict → Net → Outcome StripeError HttpResponse × Net
after_reply left attempt (Verdict.final res) net = answered res net
after_reply zero attempt (Verdict.again e wait) net = give_up e net
after_reply (suc left) attempt (Verdict.again e wait) net =
    let later = sleep wait net in
    after_reply left (suc attempt) (judge_reply (suc attempt) (reply_of later.replies))
      (request later)

abbrev pub attempts : ℕ → Net → Outcome StripeError HttpResponse × Net
attempts left net = after_reply left 0 (judge_reply 0 (reply_of net.replies)) (request net)

unfoldable pub send_with_retry : Net → Outcome StripeError HttpResponse × Net
unfolding after_reply
send_with_retry net =
    if is_open net.circuit net.now
    then (err StripeError.circuit_open, net)
    else attempts max_retries net
