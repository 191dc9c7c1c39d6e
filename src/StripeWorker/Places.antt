-- ===== src/StripeWorker/Places.antt =====
-- Where reply channels stand, step by step, for the workers of backend/src/stripe_worker.rs.
use tldr_tv.Prelude.{
  ◌≤◌, ◌⊎◌, inl, inr, true, false, Bool-cases, Option, some, none, some_passes, leb, leb→le,
  leb_false→lt, ℕ, ◌+◌, ◌≡◌, ◌∙◌, refl, ap, List, [], ◌∷◌, ◌++◌, map, arith, nat_beq, if◌then◌else◌,
}
use tldr_tv.Prelude.Exec.{Outcome, err}
use tldr_tv.Stripe.{StripeError}
use tldr_tv.StripeWorker.{
  Worker, Job, JobKind, Answer, take_job, finish_job, lose_job, channels, reply_on, wait,
  worker_died, stripe_call_timeout,
}
use tldr_tv.StripeWorker.Steps.{count, places, new_job, queued, take_job-cases, lose_job-cases}

count-append : (r : ℕ) (xs ys : List ℕ) → count r (xs ++ ys) ≡ count r xs + count r ys
unfolding count
count-append r [] ys = omega arith
count-append r (x ∷ xs) ys = let ih = count-append r xs ys in grind arith

channels-append : (js ks : List Job) → channels (js ++ ks) ≡ channels js ++ channels ks
channels-append [] ks = refl
channels-append (j ∷ js) ks = ap (λ cs. j.reply ∷ cs) (channels-append js ks)

replied-append :
    (rs ss : List (ℕ × Outcome StripeError Answer))
    → map (λ p. p.0) (rs ++ ss) ≡ map (λ p. p.0) rs ++ map (λ p. p.0) ss
replied-append [] ss = refl
replied-append (p ∷ rs) ss = ap (λ cs. p.0 ∷ cs) (replied-append rs ss)

count-channels :
    (r : ℕ) (js : List Job) (j : Job) (ks : List Job)
    → count r (channels (js ++ j ∷ ks))
      ≡ (if nat_beq j.reply r then 1 else 0) + count r (channels (js ++ ks))
unfolding count
count-channels r js j ks =
    let whole : count r (channels (js ++ j ∷ ks))
        ≡ count r (channels js) + count r (channels (j ∷ ks)) =
      ap (count r) (channels-append js (j ∷ ks))
      ∙ count-append r (channels js) (channels (j ∷ ks)) in
    let rest : count r (channels (js ++ ks)) ≡ count r (channels js) + count r (channels ks) =
      ap (count r) (channels-append js ks) ∙ count-append r (channels js) (channels ks) in
    grind arith

count-replied :
    (r : ℕ) (rs : List (ℕ × Outcome StripeError Answer)) (reply : ℕ)
    (v : Outcome StripeError Answer)
    → count r (map (λ p. p.0) (rs ++ (reply, v) ∷ []))
      ≡ (if nat_beq reply r then 1 else 0) + count r (map (λ p. p.0) rs)
unfolding count
count-replied r rs reply v =
    let whole =
      ap (count r) (replied-append rs ((reply, v) ∷ []))
      ∙ count-append r (map (λ p. p.0) rs) (reply ∷ []) in
    grind arith

start_of :
    (r : ℕ) (job : Job) (rest queue : List Job)
    → queue ≡ job ∷ rest
    → count r (channels queue) ≡ (if nat_beq job.reply r then 1 else 0) + count r (channels rest)
unfolding count
start_of r job rest queue e = ap (λ js. count r (channels js)) e

pub places-take_job : (r : ℕ) (w : Worker) → places r (take_job w) ≡ places r w
unfolding count
places-take_job r w =
    take_job-cases (λ v. places r v ≡ places r w) w refl
      (λ job rest e.
        let first = start_of r job rest w.queue e in
        let replied = count-replied r w.replies job.reply (err StripeError.timed_out) in
        grind arith)
      (λ job rest e early. let first = start_of r job rest w.queue e in grind arith)

pub places-queued :
    (r : ℕ) (kind : JobKind) (w : Worker)
    → places r (queued kind w) ≡ (if nat_beq w.next_reply r then 1 else 0) + places r w
unfolding count
places-queued r kind w =
    let added =
      ap (count r) (channels-append w.queue (new_job kind w ∷ []))
      ∙ count-append r (channels w.queue) (w.next_reply ∷ []) in
    grind arith

pub places-finish_job :
    (r : ℕ) (w : Worker) (before after : List Job) (job : Job) (v : Outcome StripeError Answer)
    → w.running ≡ before ++ job ∷ after
    → places r (finish_job job (before ++ after) v w) ≡ places r w
unfolding finish_job
places-finish_job r w before after job v e =
    let ran = ap (λ js. count r (channels js)) e ∙ count-channels r before job after in
    let replied = count-replied r w.replies job.reply v in grind arith

pub places-lose_job :
    (r : ℕ) (w : Worker) (before after : List Job) (job : Job)
    → w.running ≡ before ++ job ∷ after
    → places r (lose_job job (before ++ after) w) ≡ places r w
unfolding count
places-lose_job r w before after job e =
    let ran = ap (λ js. count r (channels js)) e ∙ count-channels r before job after in
    let dropped = count-append r (channels w.queue) (job.reply ∷ w.lost) in
    lose_job-cases (λ v. places r v ≡ places r w) job (before ++ after) w (grind arith)
      (grind arith)

less : (r q : ℕ) (qs : List ℕ) → nat_beq q r ≡ false → 1 ≤ count r (q ∷ qs) → 1 ≤ count r qs
unfolding count
less r q qs other h = ground arith

reply_on-some :
    (r : ℕ) (rs : List (ℕ × Outcome StripeError Answer))
    → 1 ≤ count r (map (λ p. p.0) rs)
    → (v : Outcome StripeError Answer) × (reply_on r rs ≡ some v)
unfolding count
reply_on-some r [] h = absurd (omega arith)
reply_on-some r ((q, v) ∷ rs) h = elim (Bool-cases (nat_beq q r)) [
  | inl same ↦ (v, rw same refl)
  | inr other ↦
      let (v', found) = reply_on-some r rs (less r q (map (λ p. p.0) rs) other h) in
      (v', rw other found)
]

dropped-passes :
    (r : ℕ) (lost : List ℕ) → 1 ≤ count r lost → some_passes (λ q. nat_beq q r) lost ≡ true
unfolding count
dropped-passes r [] h = absurd (omega arith)
dropped-passes r (q ∷ lost) h = elim (Bool-cases (nat_beq q r)) [
  | inl same ↦ rw same refl
  | inr other ↦ rw other (dropped-passes r lost (less r q lost other h))
]

-- `wait`, by what stands among the replies
abbrev wait_on :
    ℕ → ℕ → Worker → Option (Outcome StripeError Answer) → Option (Outcome StripeError Answer)
wait_on r began w o = elim o [
  | some v ↦ some v
  | none ↦
      if some_passes (λ q. nat_beq q r) w.lost
      then some (err worker_died)
      else if leb (began + stripe_call_timeout) w.now
      then some (err StripeError.timed_out)
      else none
]

-- a caller whose channel was dropped
died :
    (r began : ℕ) (w : Worker) (o : Option (Outcome StripeError Answer))
    → 1 ≤ count r w.lost
    → (v : Outcome StripeError Answer) × (wait_on r began w o ≡ some v)
died r began w (some v) h = (v, refl)
died r began w none h = (err worker_died, rw (dropped-passes r w.lost h) refl)

-- A caller whose channel stands somewhere waits for its job, or is answered.
pub wait-places :
    (r began : ℕ) (w : Worker)
    → places r w ≡ 1
    → (1 ≤ count r (channels w.queue) + count r (channels w.running))
      ⊎ ((v : Outcome StripeError Answer) × (wait began r w ≡ some v))
wait-places r began w h =
    elim (Bool-cases (leb 1 (count r (channels w.queue) + count r (channels w.running)))) [
      | inl waits ↦ inl (leb→le 1 (count r (channels w.queue) + count r (channels w.running)) waits)
      | inr out ↦ elim (Bool-cases (leb 1 (count r (map (λ p. p.0) w.replies)))) [
        | inl answered ↦
            let (v, found) =
              reply_on-some r w.replies (leb→le 1 (count r (map (λ p. p.0) w.replies)) answered) in
            inr (v, ap (wait_on r began w) found)
        | inr unanswered ↦
            let none_waits =
              leb_false→lt 1 (count r (channels w.queue) + count r (channels w.running)) out in
            let none_answered = leb_false→lt 1 (count r (map (λ p. p.0) w.replies)) unanswered in
            inr (died r began w (reply_on r w.replies) (omega arith))
      ]
    ]
