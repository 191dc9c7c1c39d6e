-- ===== src/StripeWorker/Invariant.antt =====
-- What holds of every run of the workers of backend/src/stripe_worker.rs.
use tldr_tv.Prelude.{
  ◌⊎◌, some, ℕ, suc, ◌+◌, ◌≤◌, ◌<◌, ◌≡◌, ◌∙◌, refl, ap, List, [], ◌∷◌, ◌++◌, arith, nat_beq_iff,
  length, length-append, All,
}
use tldr_tv.Prelude.Exec.{Outcome, ok}
use tldr_tv.Stripe.{StripeError}
use tldr_tv.StripeWorker.{
  Worker, Job, JobKind, Call, Answer, stripe_workers, stripe_queue_cap, enqueue, take_job,
  finish_job, lose_job, channels, wait,
}
use tldr_tv.StripeWorker.Steps.{
  Step, tick, submit, take, finish, die, Reach, here, next, count, places, Sound, new_job, queued,
  enqueue-cases, take_job-cases, lose_job-cases, started,
}
use tldr_tv.StripeWorker.Places.{
  places-take_job, places-queued, places-finish_job, places-lose_job, wait-places,
}

tick-Sound : (ms : ℕ) (w : Worker) → Sound w → Sound (record w { now = w.now + ms })
tick-Sound ms w h = record {
  queue_bounded = h.queue_bounded;
  running_bounded = h.running_bounded;
  manned = h.manned;
  crewed = h.crewed;
  timely = h.timely;
  single = h.single;
  fresh = h.fresh;
}

enqueue-Sound : (kind : JobKind) (w : Worker) → Sound w → Sound (enqueue kind w).1
enqueue-Sound kind w h =
    enqueue-cases (λ o. Sound) kind w
      (λ room. record {
        queue_bounded = let n = length-append w.queue (new_job kind w ∷ []) in omega arith;
        running_bounded = h.running_bounded;
        manned = h.manned;
        crewed = h.crewed;
        timely = h.timely;
        single = λ r. added_once r;
        fresh = λ r new.
            let before = h.fresh r (omega arith) in
            let after = places-queued r kind w in ground arith;
      })
      (λ e. record {
        queue_bounded = h.queue_bounded;
        running_bounded = h.running_bounded;
        manned = h.manned;
        crewed = h.crewed;
        timely = h.timely;
        single = h.single;
        fresh = λ r new. h.fresh r (omega arith);
      })
  where
    added_once : (r : ℕ) → places r (queued kind w) ≤ 1
    added_once r =
        let before = h.fresh r in
        let once = h.single r in let after = places-queued r kind w in ground arith

take_job-Sound : (w : Worker) → length w.running < w.threads → Sound w → Sound (take_job w)
take_job-Sound w idle h = record {
  queue_bounded =
      take_job-cases (λ v. length v.queue ≤ stripe_queue_cap) w h.queue_bounded (shorter h)
        (λ job rest e early. shorter h job rest e);
  running_bounded =
      take_job-cases (λ v. length v.running ≤ stripe_workers) w h.running_bounded
        (λ job rest e. h.running_bounded) (λ job rest e early. let crew = h.crewed in omega arith);
  manned =
      take_job-cases (λ v. length v.running ≤ v.threads) w h.manned (λ job rest e. h.manned)
        (λ job rest e early. omega arith);
  crewed =
      take_job-cases (λ v. v.threads ≤ stripe_workers) w h.crewed (λ job rest e. h.crewed)
        (λ job rest e early. h.crewed);
  timely =
      take_job-cases (λ v. All (λ (c : Call). c.at < c.job.deadline) v.calls) w h.timely
        (λ job rest e. h.timely) (λ job rest e early. (early, h.timely));
  single = λ r. let same = places-take_job r w in let once = h.single r in omega arith;
  fresh = λ r new. places-take_job r w ∙ h.fresh r (known r new);
}
  where
    known : (r : ℕ) → (take_job w).next_reply ≤ r → w.next_reply ≤ r
    known r =
        take_job-cases (λ v. v.next_reply ≤ r → w.next_reply ≤ r) w (λ new. new)
          (λ job rest e new. new) (λ job rest e early new. new)

    shorter :
        Sound w
        → (job : Job) (rest : List Job) → w.queue ≡ job ∷ rest
        → length rest ≤ stripe_queue_cap
    shorter h job rest e =
        let n : length w.queue ≡ suc (length rest) = ap length e in
        let most = h.queue_bounded in omega arith

fewer :
    (before after running : List Job) (job : Job)
    → running ≡ before ++ job ∷ after
    → suc (length (before ++ after)) ≡ length running
fewer before after running job e =
    let n = ap length e ∙ length-append before (job ∷ after) in
    let m = length-append before after in omega arith

finish_job-Sound :
    (w : Worker) (before after : List Job) (job : Job) (v : Outcome StripeError Answer)
    → w.running ≡ before ++ job ∷ after
    → Sound w
    → Sound (finish_job job (before ++ after) v w)
unfolding finish_job
finish_job-Sound w before after job v e h = record {
  queue_bounded = h.queue_bounded;
  running_bounded =
      let n = fewer before after w.running job e in let most = h.running_bounded in omega arith;
  manned = let n = fewer before after w.running job e in let most = h.manned in omega arith;
  crewed = h.crewed;
  timely = h.timely;
  single = λ r.
      let same = places-finish_job r w before after job v e in let once = h.single r in omega arith;
  fresh = λ r new. places-finish_job r w before after job v e ∙ h.fresh r new;
}

lose_job-Sound :
    (w : Worker) (before after : List Job) (job : Job)
    → w.running ≡ before ++ job ∷ after
    → Sound w
    → Sound (lose_job job (before ++ after) w)
lose_job-Sound w before after job e h =
    let n = fewer before after w.running job e in
    let m = h.manned in
    let c = h.crewed in
    let others = before ++ after in
    record {
      queue_bounded =
          lose_job-cases (λ v. length v.queue ≤ stripe_queue_cap) job others w h.queue_bounded
            (omega arith);
      running_bounded =
          lose_job-cases (λ v. length v.running ≤ stripe_workers) job others w (omega arith)
            (omega arith);
      manned =
          lose_job-cases (λ v. length v.running ≤ v.threads) job others w (omega arith)
            (omega arith);
      crewed =
          lose_job-cases (λ v. v.threads ≤ stripe_workers) job others w (omega arith) (omega arith);
      timely =
          lose_job-cases (λ v. All (λ (c : Call). c.at < c.job.deadline) v.calls) job others w
            h.timely h.timely;
      single = λ r.
          let same = places-lose_job r w before after job e in let once = h.single r in omega arith;
      fresh = λ r new.
          places-lose_job r w before after job e
          ∙ h.fresh r (
              lose_job-cases (λ v. v.next_reply ≤ r → w.next_reply ≤ r) job others w (λ new. new)
                (λ new. new) new);
    }

Step-Sound : (w : Worker) {u : Worker} → Step w u → Sound w → Sound u
Step-Sound w (tick ms) h = tick-Sound ms w h
Step-Sound w (submit kind) h = enqueue-Sound kind w h
Step-Sound w (take idle) h = take_job-Sound w idle h
Step-Sound w (finish before after job v e) h = finish_job-Sound w before after job v e h
Step-Sound w (die before after job e) h = lose_job-Sound w before after job e h

Step-places : (r : ℕ) (w : Worker) {u : Worker} → Step w u → places r w ≤ places r u
Step-places r w (tick ms) = omega arith
Step-places r w (submit kind) =
    enqueue-cases (λ o v. places r w ≤ places r v) kind w
      (λ room. let added = places-queued r kind w in omega arith) (λ e. omega arith)
Step-places r w (take idle) = let same = places-take_job r w in omega arith
Step-places r w (finish before after job v e) =
    let same = places-finish_job r w before after job v e in omega arith
Step-places r w (die before after job e) =
    let same = places-lose_job r w before after job e in omega arith

started-Sound : (now : ℕ) → Sound (started now)
unfolding count
started-Sound now = record {
  queue_bounded = omega arith;
  running_bounded = omega arith;
  manned = omega arith;
  crewed = omega arith;
  timely = tt;
  single = λ r. omega arith;
  fresh = λ r new. refl;
}

-- Whatever callers, threads and the client do, the queue never holds more than 32 jobs, no more than
-- two calls run, no call of the client begins at or after its job's deadline, and no caller's channel
-- is answered twice or both answered and still waiting.
pub Reach-Sound : (now : ℕ) {w : Worker} → Reach (started now) w → Sound w
Reach-Sound now here = started-Sound now
Reach-Sound now (next {t = t} run step) = Step-Sound t step (Reach-Sound now run)

Reach-places : (r : ℕ) (w : Worker) {u : Worker} → Reach w u → places r w ≤ places r u
Reach-places r w here = omega arith
Reach-places r w (next {t = t} run step) =
    let before = Reach-places r w run in let last = Step-places r t step in omega arith

Reach-trans : (s w : Worker) {u : Worker} → Reach s w → Reach w u → Reach s u
Reach-trans s w first here = first
Reach-trans s w first (next run step) = next (Reach-trans s w first run) step

queued-placed :
    (kind : JobKind) (w : Worker) (r : ℕ)
    → ◌≡◌ {A = Outcome StripeError ℕ} (ok w.next_reply) (ok r)
    → 1 ≤ places r (queued kind w)
queued-placed kind w r e =
    let same : w.next_reply ≡ r = cc in
    let added = places-queued r kind w in
    let this = (nat_beq_iff w.next_reply r).1 same in ground arith

enqueue-placed :
    (kind : JobKind) (w : Worker) (r : ℕ)
    → (enqueue kind w).0 ≡ ok r
    → 1 ≤ places r (enqueue kind w).1
enqueue-placed kind w r =
    enqueue-cases (λ o v. o ≡ ok r → 1 ≤ places r v) kind w (λ room e. queued-placed kind w r e)
      (λ e h. cc)

-- A job that `enqueue` has taken is never doubled and never forgotten, whatever steps follow, also if
-- threads die: its reply channel is in one place, in the queue, with a thread, among the replies, or
-- among the channels dropped by a thread that died; and as long as it is not in the queue or with a
-- thread, `wait` answers its caller.
pub enqueue-places :
    (now : ℕ) {w u : Worker} (kind : JobKind) (r began : ℕ)
    → Reach (started now) w
    → (enqueue kind w).0 ≡ ok r
    → Reach (enqueue kind w).1 u
    → (places r u ≡ 1)
      × ((1 ≤ count r (channels u.queue) + count r (channels u.running))
          ⊎ ((v : Outcome StripeError Answer) × (wait began r u ≡ some v)))
enqueue-places now {w} {u} kind r began run accepted rest =
    let placed = enqueue-placed kind w r accepted in
    let later = Reach-places r (enqueue kind w).1 rest in
    let once =
      (Reach-Sound now
          (Reach-trans (started now) (enqueue kind w).1 (next run (submit kind)) rest)).single
        r in
    let one : places r u ≡ 1 = omega arith in (one, wait-places r began u one)
