-- ===== src/StripeWorker.antt =====
-- The worker threads of backend/src/stripe_worker.rs. A `Worker` is the clock, the job queue, what
-- each of the threads runs, how many threads there are, the calls that were made of the client, the
-- replies that were sent, and the reply channels that were dropped unanswered; a caller and a thread
-- take one step at a time, in any order. A thread tests a deadline and begins its call at once.
mod Steps
mod Places
mod Invariant
mod Examples
use tldr_tv.Prelude.{
  ℕ, zero, suc, ◌+◌, ◌-◌, Bool, true, false, Option, none, some, List, [], ◌∷◌, ◌++◌, ltb, leb,
  nat_beq, length, some_passes, map, if◌then◌else◌,
}
use tldr_tv.Prelude.Text.{Text, codes}
use tldr_tv.Prelude.Exec.{Outcome, ok, err}
use tldr_tv.Json.{Json}
use tldr_tv.Stripe.{StripeError}
use tldr_tv.Routes.{CheckoutSession, PortalSession}

-- in milliseconds
abbrev pub stripe_call_timeout : ℕ
stripe_call_timeout = 10000

abbrev pub stripe_workers : ℕ
stripe_workers = 2

abbrev pub stripe_queue_cap : ℕ
stripe_queue_cap = 32

pub record OwnedCheckoutParams : Type 0 where
  pub customer_email : Text
  pub price_id : Text
  pub success_url : Text
  pub cancel_url : Text
  pub app_name : Option Text
  pub idempotency_key : Option Text

pub data JobKind : Type 0 where
  price_id_job : Text → JobKind
  checkout_job : OwnedCheckoutParams → JobKind
  portal_job : Text → Text → JobKind
  retrieve_sub_job customer_email_job : Text → JobKind

-- `reply` names the channel on which the caller waits.
pub record Job : Type 0 where
  pub deadline : ℕ
  pub kind : JobKind
  pub reply : ℕ

-- what the client answers to a job of each kind
pub data Answer : Type 0 where
  price_id customer_email : Option Text → Answer
  checkout_reply : CheckoutSession → Answer
  portal_reply : PortalSession → Answer
  subscription : Json → Answer

-- a call of the client: when it began, and for which job
pub record Call : Type 0 where
  pub at : ℕ
  pub job : Job

pub record Worker : Type 0 where
  pub now : ℕ
  pub queue : List Job
  pub running : List Job
  pub calls : List Call
  pub replies : List (ℕ × Outcome StripeError Answer)
  pub lost : List ℕ
  pub threads : ℕ
  pub next_reply : ℕ

abbrev pub queue_closed : StripeError
queue_closed = StripeError.transport (codes "stripe worker queue closed")

abbrev pub worker_died : StripeError
worker_died = StripeError.transport (codes "stripe worker died")

-- The queue is closed once no thread is left to take from it.
abbrev pub send_job : Job → Worker → Outcome StripeError Unit × Worker
send_job job w =
    if nat_beq w.threads 0
    then (err queue_closed, w)
    else if ltb (length w.queue) stripe_queue_cap
    then (ok tt, record w { queue = w.queue ++ job ∷ [] })
    else (err StripeError.busy, w)

-- A call from its new channel on: `enqueue`, with the channel that it waits on if the job was taken.
unfoldable pub enqueue : JobKind → Worker → Outcome StripeError ℕ × Worker
enqueue kind w =
    let reply = w.next_reply in
    let job : Job = record { deadline = w.now + stripe_call_timeout; kind = kind; reply = reply } in
    let (r, w') = send_job job (record w { next_reply = suc reply }) in
    (elim r [ ok done ↦ ok reply | err e ↦ err e ], w')

abbrev pub reply_on :
    ℕ → List (ℕ × Outcome StripeError Answer) → Option (Outcome StripeError Answer)
reply_on reply [] = none
reply_on reply ((r, v) ∷ replies) = if nat_beq r reply then some v else reply_on reply replies

-- `wait`, at a time: what came in, or that nothing can come any more, or a time-out once the time is
-- over, or no answer yet
abbrev pub wait : ℕ → ℕ → Worker → Option (Outcome StripeError Answer)
wait began reply w = elim (reply_on reply w.replies) [
  | some v ↦ some v
  | none ↦
      if some_passes (λ r. nat_beq r reply) w.lost
      then some (err worker_died)
      else if leb (began + stripe_call_timeout) w.now
      then some (err StripeError.timed_out)
      else none
]

abbrev pub send_reply : ℕ → Outcome StripeError Answer → Worker → Worker
send_reply reply v w = record w { replies = w.replies ++ (reply, v) ∷ [] }

-- the start of `run_job`: a job that has missed its deadline is answered without a call
abbrev pub start_job : Job → Worker → Worker
start_job job w =
    if leb job.deadline w.now
    then send_reply job.reply (err StripeError.timed_out) w
    else record w { running = job ∷ w.running; calls = record { at = w.now; job = job } ∷ w.calls }

-- a round of `worker_loop` of an idle thread
unfoldable pub take_job : Worker → Worker
take_job w = elim w.queue [ [] ↦ w | job ∷ rest ↦ start_job job (record w { queue = rest }) ]

-- the end of `run_job`: the client has answered
unfoldable pub finish_job : Job → List Job → Outcome StripeError Answer → Worker → Worker
finish_job job others v w = send_reply job.reply v (record w { running = others })

abbrev pub channels : List Job → List ℕ
channels jobs = map (λ (j : Job). j.reply) jobs

-- A thread panics in a call: the reply channel of its job is dropped, and with the last thread the
-- queue and the channels of all jobs in it.
unfoldable pub lose_job : Job → List Job → Worker → Worker
lose_job job others w =
    let w' = record w { running = others; threads = w.threads - 1; lost = job.reply ∷ w.lost } in
    if nat_beq (w.threads - 1) 0
    then record w' { queue = []; lost = channels w.queue ++ job.reply ∷ w.lost }
    else w'
