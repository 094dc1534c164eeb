-- ===== src/Command/Serving/Ends.antt =====
-- How the process of `serve` in cmd/hookman/main.go can end.
use hookman.Common.{
  ℕ, zero, suc, ◌+◌, ◌≡◌, ◌<◌, ◌⊎◌, inl, inr, refl, ◌∙◌, Bool, true, false, List, [], ◌∷◌, ◌++◌,
  some, sum_of, arith,
}
use hookman.World.{Env, World}
use hookman.Delivery.Deliver.{Client, failed, DeliveryJob}
use hookman.Worker.Pool.Goroutines.{
  Goroutine, waiting, received, processing, returned, all_returned,
}
use hookman.Worker.Pool.Goroutines.Ledger.{tally, in_hand, jobs_are_kept, turn-IsFair}
use hookman.Worker.Pool.Goroutines.Draining.{
  stuck_or_done, unreturned-moves, work_left, turn-work_left,
}
use hookman.Api.Stats.{handle_health}
use hookman.Api.RateLimit.{RateLib}
use hookman.Command.{Started}
use hookman.Command.Serving.{
  Phase, ready, announced, halted, unserved, awaiting, exited, panicked, crashed, is_positive,
  is_live, Process, boot, Move, works, signals, halts, drains, closes, finishes, Run, here,
}
use hookman.Command.Serving.Panics.{round_at, first, ready-CanPanic}
use hookman.Command.Serving.Order.{PhaseHolds, OrderHolds, Run-OrderHolds}

all_returned-empty_handed :
    (p : DeliveryJob → Bool) (gs : List Goroutine)
    → all_returned gs ≡ true
    → sum_of (in_hand p) gs ≡ 0
all_returned-empty_handed p [] h = refl
all_returned-empty_handed p (waiting ∷ gs) h = cc
all_returned-empty_handed p (received job ∷ gs) h = cc
all_returned-empty_handed p (processing job ∷ gs) h = cc
all_returned-empty_handed p (returned ∷ gs) h = omega (arith, all_returned-empty_handed p gs h)

unavailable_status : (b : Bool) → b ≡ true → (handle_health b).status ≡ 503
unfolding handle_health
unavailable_status true e = refl
unavailable_status false e = cc

later_of : {a b : Bool} → (a ≡ false) ⊎ (b ≡ true) → a ≡ true → b ≡ true
later_of (inl e) h = cc
later_of (inr e) h = e

module _ {L : Type 0} (env : Env) (lib : RateLib L) (st : Started L) where
  abbrev CanExit : Process L → Type 0
  CanExit s = (t : Process L) × Run env lib st s t × (t.phase ≡ exited 0)

  first-CanExit :
      {s : Process L} (t : Process L)
      → is_live s.phase ≡ true
      → Move env lib st s t
      → CanExit t
      → CanExit s
  first-CanExit t l m (u, r, e) = (u, first env lib st l m r, e)

  no_request : Client
  no_request = record { new_request_error = λ url. some []; send = λ req. failed [] }

  -- The workers finish one after the other; `fuel` bounds their moves.
  awaiting-CanExit :
      (fuel : ℕ) (s : Process L)
      → work_left s.workers < fuel
      → s.phase ≡ awaiting
      → s.workers.closed ≡ true
      → CanExit s
  awaiting-CanExit zero s f e c = absurd (omega arith)
  awaiting-CanExit (suc fuel) s f e c = elim (stuck_or_done s.workers.goroutines) [
    | inl all ↦ first-CanExit _ (rw e refl) (finishes e all) (_, here, refl)
    | inr (i, g, at, b) ↦
        let (u, m) = unreturned-moves s.workers i g c at b in
        first-CanExit _ (rw e refl) (works no_request 0 i m) (
          awaiting-CanExit fuel _ (omega (arith, turn-work_left i s.workers u m)) e
            ((turn-IsFair i s.workers u m).shut ∙ c))
  ]

  unserved-CanExit : (s : Process L) → s.phase ≡ unserved → CanExit s
  unserved-CanExit s e =
      first-CanExit _ (rw e refl) (closes e)
        (awaiting-CanExit (suc (work_left s.workers)) _ (omega arith) refl refl)

  halted-CanExit : (s : Process L) → s.phase ≡ halted → CanExit s
  halted-CanExit s e = first-CanExit _ (rw e refl) (drains e) (unserved-CanExit _ refl)

  announced-CanExit : (s : Process L) → s.phase ≡ announced → CanExit s
  announced-CanExit s e = first-CanExit _ (rw e refl) (halts e) (halted-CanExit _ refl)

  ready-CanExit : (s : Process L) → s.phase ≡ ready → CanExit s
  ready-CanExit s e = first-CanExit _ (rw e refl) (signals e) (announced-CanExit _ refl)

  live-CanExit :
      (ph : Phase) (s : Process L)
      → s.phase ≡ ph
      → is_live ph ≡ true
      → OrderHolds env lib st s
      → CanExit s
  live-CanExit ready s e l h = ready-CanExit s e
  live-CanExit announced s e l h = announced-CanExit s e
  live-CanExit halted s e l h = halted-CanExit s e
  live-CanExit unserved s e l h = unserved-CanExit s e
  live-CanExit awaiting s e l h =
      awaiting-CanExit (suc (work_left s.workers)) s (omega arith) e (rw e at h.at)
  live-CanExit (exited n) s e l h = cc
  live-CanExit panicked s e l h = cc
  live-CanExit crashed s e l h = cc

-- When `serve` exits with status 0, the health check answers 503, the context is cancelled, the
-- channel is closed and every worker has returned; of the jobs that were sent, those taken have been
-- delivered or abandoned, by every test on jobs, and the others are left in the channel.
pub clean_exit :
    {L : Type 0} (env : Env) (lib : RateLib L) (st : Started L) (w : World) (s : Process L)
    (p : DeliveryJob → Bool)
    → Run env lib st (boot st w) s
    → s.phase ≡ exited 0
    → ((handle_health s.server.shutting_down).status ≡ 503)
      × (s.workers.cancelled ≡ true)
      × (s.workers.closed ≡ true)
      × (all_returned s.workers.goroutines ≡ true)
      × (s.workers.sent ≡ s.workers.taken ++ s.workers.buffer)
      × (tally p s.workers.taken ≡ tally p s.workers.finished + tally p s.workers.abandoned)
clean_exit env lib st w s p r e =
    let h = Run-OrderHolds env lib st w s r in
    let (shut, all) : PhaseHolds (exited 0) s.server.shutting_down s.workers = rw e at h.at in
    let stopped = later_of h.closing shut in
    let (in_order, bounded, balanced, patient) = jobs_are_kept st.pool s.workers p h.pool_run in
    (
      unavailable_status s.server.shutting_down (later_of h.notice stopped),
      stopped,
      shut,
      all,
      in_order,
      omega (arith, balanced, all_returned-empty_handed p s.workers.goroutines all),
    )

-- However the process of `serve` runs, it abandons a job that a worker has taken only once the health
-- check answers 503, and it closes the channel of jobs only after the workers' context is cancelled.
pub notice_first :
    {L : Type 0} (env : Env) (lib : RateLib L) (st : Started L) (w : World) (s : Process L)
    → Run env lib st (boot st w) s
    → ((s.workers.abandoned ≡ []) ⊎ ((handle_health s.server.shutting_down).status ≡ 503))
      × ((s.workers.closed ≡ false) ⊎ (s.workers.cancelled ≡ true))
notice_first env lib st w s r =
    let h = Run-OrderHolds env lib st w s r in
    let (in_order, bounded, balanced, patient) =
      jobs_are_kept st.pool s.workers (λ job. true) h.pool_run in
    (
      elim patient [
        | inl stopped ↦ inr (unavailable_status _ (later_of h.notice stopped))
        | inr none_left ↦ inl none_left
      ],
      h.closing,
    )

-- Whatever has happened in the process of `serve`, as long as it has not ended, it can go on to the
-- exit with status 0.
can_exit :
    {L : Type 0} (env : Env) (lib : RateLib L) (st : Started L) (w : World) (s : Process L)
    → Run env lib st (boot st w) s
    → is_live s.phase ≡ true
    → (t : Process L) × Run env lib st s t × (t.phase ≡ exited 0)
can_exit env lib st w s r l =
    live-CanExit env lib st s.phase s refl l (Run-OrderHolds env lib st w s r)

-- The poller is not waited for: where the poll interval is positive, so that the poller has a ticker,
-- and a round on the tables at the start has a job to send, the process of `serve` can end in a
-- panic, with a send on the channel after the main goroutine has closed it.
pub poller_can_panic :
    {L : Type 0} (env : Env) (lib : RateLib L) (st : Started L) (w : World) (time : ℕ)
    (job : DeliveryJob) (jobs : List DeliveryJob)
    → is_positive st.poller.interval ≡ true
    → (round_at env st.poller time w).jobs ≡ job ∷ jobs
    → (t : Process L) × Run env lib st (boot st w) t × (t.phase ≡ panicked)
unfolding boot
poller_can_panic env lib st w time job jobs ticks e =
    ready-CanPanic env lib st (boot st w) time job jobs refl refl ticks e
