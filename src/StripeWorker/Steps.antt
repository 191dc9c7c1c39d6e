-- ===== src/StripeWorker/Steps.antt =====
-- The runs of the workers of backend/src/stripe_worker.rs, a step at a time.
use tldr_tv.Prelude.{
  ℕ, suc, ◌+◌, ◌-◌, ◌≤◌, ◌<◌, ◌≡◌, refl, Bool, true, false, List, [], ◌∷◌, ◌++◌, map, ltb, ltb→lt,
  leb, leb_false→lt, nat_beq, length, All, if◌then◌else◌,
}
use tldr_tv.Prelude.Exec.{Outcome, ok, err}
use tldr_tv.Stripe.{StripeError}
use tldr_tv.StripeWorker.{
  Worker, Job, JobKind, Call, Answer, stripe_call_timeout, stripe_workers, stripe_queue_cap,
  enqueue, start_job, take_job, finish_job, send_reply, queue_closed, lose_job, channels,
}

-- One step: time passes, a caller submits a job, an idle thread takes one, a call comes to its
-- end, or a thread dies in a call.
pub data Step (w : Worker) : Worker → Type 0 where
  tick : (ms : ℕ) → Step w (record w { now = w.now + ms })
  submit : (kind : JobKind) → Step w (enqueue kind w).1
  take : length w.running < w.threads → Step w (take_job w)
  finish :
      (before after : List Job) (job : Job) (v : Outcome StripeError Answer)
      → w.running ≡ before ++ job ∷ after
      → Step w (finish_job job (before ++ after) v w)
  die :
      (before after : List Job) (job : Job)
      → w.running ≡ before ++ job ∷ after
      → Step w (lose_job job (before ++ after) w)

pub data Reach (w : Worker) : Worker → Type 0 where
  here : Reach w w
  next : {t u : Worker} → Reach w t → Step t u → Reach w u

-- how often a reply channel stands in a list
unfoldable pub count : ℕ → List ℕ → ℕ
count r [] = 0
count r (x ∷ xs) = (if nat_beq x r then 1 else 0) + count r xs

-- how often a reply channel stands in the queue, with a thread, among the replies, or
-- among those dropped
abbrev pub places : ℕ → Worker → ℕ
places r w =
    count r (channels w.queue)
    + count r (channels w.running)
    + count r (map (λ p. p.0) w.replies)
    + count r w.lost

-- The queue and the threads are within their bounds, and each call of the client began before the
-- deadline of its job; a reply channel stands in one place at most, and in none before it is made.
pub record Sound (w : Worker) : Type 0 where
  pub queue_bounded : length w.queue ≤ stripe_queue_cap
  pub running_bounded : length w.running ≤ stripe_workers
  pub manned : length w.running ≤ w.threads
  pub crewed : w.threads ≤ stripe_workers
  pub timely : All (λ (c : Call). c.at < c.job.deadline) w.calls
  pub single : (r : ℕ) → places r w ≤ 1
  pub fresh : (r : ℕ) → w.next_reply ≤ r → places r w ≡ 0

-- What holds of both branches of a test holds of the test.
if-either {ℓ} :
    {A : Type ℓ} (P : A → Type 0) (b : Bool) (x y : A)
    → (b ≡ true → P x)
    → (b ≡ false → P y)
    → P (if b then x else y)
if-either P true x y on_true on_false = on_true refl
if-either P false x y on_true on_false = on_false refl

abbrev pub new_job : JobKind → Worker → Job
new_job kind w = record {
  deadline = w.now + stripe_call_timeout;
  kind = kind;
  reply = w.next_reply;
}

abbrev pub queued : JobKind → Worker → Worker
queued kind w = record w { queue = w.queue ++ new_job kind w ∷ []; next_reply = suc w.next_reply }

abbrev pub turned_away : Worker → Worker
turned_away w = record w { next_reply = suc w.next_reply }

-- `enqueue` by cases: the job waits now, or the queue was full.
pub enqueue-cases :
    (P : Outcome StripeError ℕ → Worker → Type 0) (kind : JobKind) (w : Worker)
    → (length w.queue < stripe_queue_cap → P (ok w.next_reply) (queued kind w))
    → ((e : StripeError) → P (err e) (turned_away w))
    → P (enqueue kind w).0 (enqueue kind w).1
unfolding enqueue
enqueue-cases P kind w room full =
    let Q = λ (o : Outcome StripeError Unit × Worker).
      P (elim o.0 [ ok done ↦ ok w.next_reply | err e ↦ err e ]) o.1 in
    if-either Q (nat_beq w.threads 0) (err queue_closed, turned_away w) _ (λ h. full queue_closed)
      (λ h.
        if-either Q (ltb (length w.queue) stripe_queue_cap) (ok tt, queued kind w)
          (err StripeError.busy, turned_away w)
          (λ h. room (ltb→lt (length w.queue) stripe_queue_cap h)) (λ h. full StripeError.busy))

-- `lose_job` by cases: threads are left, or this was the last.
pub lose_job-cases :
    (P : Worker → Type 0) (job : Job) (others : List Job) (w : Worker)
    → P (record w { running = others; threads = w.threads - 1; lost = job.reply ∷ w.lost })
    → P (record w {
      running = others;
      threads = w.threads - 1;
      queue = [];
      lost = channels w.queue ++ job.reply ∷ w.lost;
    })
    → P (lose_job job others w)
unfolding lose_job
lose_job-cases P job others w left last =
    if-either P (nat_beq (w.threads - 1) 0) _ _ (λ h. last) (λ h. left)

abbrev pub calling : Job → Worker → Worker
calling job w = record w {
  running = job ∷ w.running;
  calls = record { at = w.now; job = job } ∷ w.calls;
}

-- `take_job` by cases: nothing waits, or the first job is too late, or its call begins.
pub take_job-cases :
    (P : Worker → Type 0) (w : Worker)
    → P w
    → ((job : Job) (rest : List Job)
        → w.queue ≡ job ∷ rest
        → P (send_reply job.reply (err StripeError.timed_out) (record w { queue = rest })))
    → ((job : Job) (rest : List Job)
        → w.queue ≡ job ∷ rest
        → w.now < job.deadline
        → P (calling job (record w { queue = rest })))
    → P (take_job w)
unfolding take_job
take_job-cases P w idle late in_time = taken w.queue refl
  where
    taken :
        (js : List Job)
        → w.queue ≡ js
        → P (elim js [ [] ↦ w | job ∷ rest ↦ start_job job (record w { queue = rest }) ])
    taken [] e = idle
    taken (job ∷ rest) e =
        if-either P (leb job.deadline w.now)
          (send_reply job.reply (err StripeError.timed_out) (record w { queue = rest }))
          (calling job (record w { queue = rest })) (λ h. late job rest e)
          (λ h. in_time job rest e (leb_false→lt job.deadline w.now h))

abbrev pub started : ℕ → Worker
started now = record {
  now = now;
  queue = [];
  running = [];
  calls = [];
  replies = [];
  lost = [];
  threads = stripe_workers;
  next_reply = 0;
}
