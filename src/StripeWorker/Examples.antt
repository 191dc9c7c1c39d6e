-- ===== src/StripeWorker/Examples.antt =====
-- Runs of the workers of backend/src/stripe_worker.rs on concrete jobs.
use tldr_tv.Prelude.{◌+◌, ◌≤◌, ◌⊎◌, [], ◌≡◌, arith, refl, some, length}
use tldr_tv.Prelude.Text.{codes}
use tldr_tv.Prelude.Exec.{Outcome, err}
use tldr_tv.Stripe.{StripeError}
use tldr_tv.StripeWorker.{
  Worker, Job, JobKind, Answer, enqueue, take_job, lose_job, channels, wait, worker_died,
}
use tldr_tv.StripeWorker.Steps.{
  Reach, here, next, tick, submit, take, die, new_job, count, started, places, Sound,
}
use tldr_tv.StripeWorker.Invariant.{Reach-Sound, enqueue-places}

abbrev lookup : JobKind
lookup = JobKind.price_id_job (codes "premium")

abbrev waiting : Worker
waiting = (enqueue lookup (started 5)).1

abbrev late : Worker
late = take_job (record waiting { now = waiting.now + 10000 })

waiting_reached : Reach (started 5) waiting
waiting_reached = next here (submit lookup)

late_reached : Reach waiting late
unfolding enqueue
late_reached = next (next here (tick 10000)) (take (omega arith))

-- The job that waited for ten seconds is answered without a call.
late_answered : wait 5 0 late ≡ some (err StripeError.timed_out)
unfolding take_job enqueue
late_answered = refl

late_uncalled : length late.calls ≡ 0
unfolding take_job enqueue
late_uncalled = refl

Reach-Sound_example : Sound late
unfolding enqueue
Reach-Sound_example = Reach-Sound 5 (next (next waiting_reached (tick 10000)) (take (omega arith)))

-- The thread takes the job in time, and dies in the call.
abbrev taken : Worker
taken = take_job waiting

abbrev job : Job
job = new_job lookup (started 5)

lost_reached : Reach waiting (lose_job job [] taken)
unfolding enqueue take_job
lost_reached = next (next here (take (omega arith))) (die [] [] job refl)

enqueue-places_example :
    (places 0 (lose_job job [] taken) ≡ 1)
    × ((1
          ≤ count 0 (channels (lose_job job [] taken).queue)
            + count 0 (channels (lose_job job [] taken).running))
        ⊎ ((v : Outcome StripeError Answer) × (wait 5 0 (lose_job job [] taken) ≡ some v)))
unfolding enqueue
enqueue-places_example = enqueue-places 5 lookup 0 5 here refl lost_reached

died_answered : wait 5 0 (lose_job job [] taken) ≡ some (err worker_died)
unfolding enqueue take_job lose_job
died_answered = refl
