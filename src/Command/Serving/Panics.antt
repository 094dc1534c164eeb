-- ===== src/Command/Serving/Panics.antt =====
-- How the poller's goroutine of `serve` meets the channel that cmd/hookman/main.go has closed.
use hookman.Common.{ℕ, ◌≡◌, refl, Bool, true, false, List, [], ◌∷◌, none, subst}
use hookman.World.{Env, World}
use hookman.Delivery.Deliver.{DeliveryJob}
use hookman.Store.Models.{Event, DeliveryAttempt, Result, ok, err}
use hookman.Store.Postgres.{get_pending_events}
use hookman.Worker.Poller.{
  Poller, Polling, proceed, poll_event, poll_events, poll_attempt, poll_attempts, with_pending,
  with_retryable, poll_pending_events, poll_retryable_attempts, start, tick,
}
use hookman.Worker.Poller.Uncut.{IsUncut, poll_event-IsUncut, poll_attempt-IsUncut}
use hookman.Api.RateLimit.{RateLib}
use hookman.Command.{Started}
use hookman.Command.Serving.{
  ready, panicked, is_positive, is_live, Process, alone, Move, at_ticker, looping, offering, events,
  attempts, Todo, polls, takes_event, turns, takes_attempt, goes_on, sends_closed, signals, halts,
  drains, closes, Run, here, after, polled, pending_read, retryable_read,
}

-- A whole round of the poller, without a cancellation.
abbrev pub round_at : Env → Poller → ℕ → World → Polling
round_at env p time w = start env p (tick time ∷ []) (alone w)

-- A state with no jobs and no cancellation is its world.
is_alone : (t : Polling) → t.jobs ≡ [] → t.sends_left ≡ none → t ≡ alone t.world
is_alone t j l = λ i. record { world = t.world; jobs = j i; sends_left = l i }

module _ {L : Type 0} (env : Env) (lib : RateLib L) (st : Started L) where
  pub Run-trans : {s t u : Process L} → Run env lib st s t → Run env lib st t u → Run env lib st s u
  Run-trans r here = r
  Run-trans r (after q l m) = after (Run-trans r q) l m

  -- One live step, then a run.
  pub first :
      {s t u : Process L}
      → is_live s.phase ≡ true
      → Move env lib st s t
      → Run env lib st t u
      → Run env lib st s u
  first l m r = Run-trans (after here l m) r

  abbrev pub CanPanic : Process L → Type 0
  CanPanic s = (t : Process L) × Run env lib st s t × (t.phase ≡ panicked)

  first-CanPanic :
      {s : Process L} (t : Process L)
      → s.phase ≡ ready
      → Move env lib st s t
      → CanPanic t
      → CanPanic s
  first-CanPanic t e m (u, r, k) = (u, first (rw e refl) m r, k)

  -- The main goroutine closes the channel while the poller has a job to send.
  offering-CanPanic :
      (s : Process L) (job : DeliveryJob) (jobs : List DeliveryJob) (todo : Todo)
      → s.phase ≡ ready
      → s.poller ≡ offering (job ∷ jobs) todo
      → CanPanic s
  offering-CanPanic s job jobs todo e at =
      let r1 = after here (rw e refl) (signals e) in
      let r2 = after (after (after r1 refl (halts refl)) refl (drains refl)) refl (closes refl) in
      (_, after r2 refl (sends_closed job jobs todo at refl), refl)

  -- One turn of a loop: it has a job to send, or the round goes on from the state after it. `onward` is
  -- the part of the round behind the loop.
  turn-CanPanic :
      (s : Process L) (todo : Todo) (rest : Polling → Bool × Polling) (onward : Polling → Polling)
      (r : Bool × Polling) (js : List DeliveryJob) (job : DeliveryJob) (jobs : List DeliveryJob)
      → s.phase ≡ ready
      → IsUncut r
      → r.1.jobs ≡ js
      → (onward (proceed rest r).1).jobs ≡ job ∷ jobs
      → ((onward (rest (alone r.1.world)).1).jobs ≡ job ∷ jobs
          → CanPanic (record s { world = r.1.world; poller = looping todo }))
      → CanPanic (polled s todo r.1)
  turn-CanPanic s todo rest onward r (j ∷ js) job jobs e uncut own after_it go =
      offering-CanPanic (polled s todo r.1) j js todo e (rw own refl)
  turn-CanPanic s todo rest onward (true, t) [] job jobs e (flag, uncut) own after_it go =
      first-CanPanic _ e (goes_on todo (rw own refl))
        (go (subst (λ u. (onward (rest u).1).jobs ≡ job ∷ jobs) (is_alone t own uncut) after_it))
  turn-CanPanic s todo rest onward (false, t) [] job jobs e (flag, uncut) own after_it go = cc

  attempts-CanPanic :
      (rows : List DeliveryAttempt) (s : Process L) (job : DeliveryJob) (jobs : List DeliveryJob)
      → s.phase ≡ ready
      → s.poller ≡ looping (attempts rows)
      → (poll_attempts env st.poller rows (alone s.world)).1.jobs ≡ job ∷ jobs
      → CanPanic s
  unfolding poll_attempts
  attempts-CanPanic [] s job jobs e at some_jobs = cc
  attempts-CanPanic (a ∷ rows) s job jobs e at some_jobs =
      let r = poll_attempt env st.poller a (alone s.world) in
      first-CanPanic _ e (takes_attempt a rows at) (
        turn-CanPanic s (attempts rows) (poll_attempts env st.poller rows) (λ t. t) r r.1.jobs job
          jobs e (poll_attempt-IsUncut env st.poller a (alone s.world) refl) refl some_jobs
          (λ more.
            attempts-CanPanic rows
              (record s { world = r.1.world; poller = looping (attempts rows) }) job jobs e refl
              more))

  retryable_read-CanPanic :
      (s : Process L) (r : Result (List DeliveryAttempt)) (w : World) (job : DeliveryJob)
      (jobs : List DeliveryJob)
      → s.phase ≡ ready
      → (with_retryable env st.poller (alone s.world) (r, w)).jobs ≡ job ∷ jobs
      → CanPanic (retryable_read s (r, w))
  unfolding with_retryable
  retryable_read-CanPanic s (err x) w job jobs e some_jobs = cc
  retryable_read-CanPanic s (ok rows) w job jobs e some_jobs =
      attempts-CanPanic rows _ job jobs e refl some_jobs

  events-CanPanic :
      (es : List Event) (s : Process L) (job : DeliveryJob) (jobs : List DeliveryJob)
      → s.phase ≡ ready
      → s.poller ≡ looping (events es)
      → (poll_retryable_attempts env st.poller
          (poll_events env st.poller es (alone s.world)).1).jobs
        ≡ job ∷ jobs
      → CanPanic s
  unfolding poll_events poll_retryable_attempts
  events-CanPanic [] s job jobs e at some_jobs =
      first-CanPanic _ e (turns at) (retryable_read-CanPanic s _ _ job jobs e some_jobs)
  events-CanPanic (x ∷ es) s job jobs e at some_jobs =
      let r = poll_event env st.poller x (alone s.world) in
      first-CanPanic _ e (takes_event x es at) (
        turn-CanPanic s (events es) (poll_events env st.poller es)
          (poll_retryable_attempts env st.poller) r r.1.jobs job jobs e
          (poll_event-IsUncut env st.poller x (alone s.world) refl) refl some_jobs
          (λ more.
            events-CanPanic es (record s { world = r.1.world; poller = looping (events es) }) job
              jobs e refl more))

  pending_read-CanPanic :
      (s : Process L) (before : World) (r : Result (List Event)) (w : World) (job : DeliveryJob)
      (jobs : List DeliveryJob)
      → s.phase ≡ ready
      → (poll_retryable_attempts env st.poller
          (with_pending env st.poller (alone before) (r, w))).jobs
        ≡ job ∷ jobs
      → CanPanic (pending_read s (r, w))
  unfolding with_pending poll_events
  pending_read-CanPanic s before (err x) w job jobs e some_jobs =
      events-CanPanic [] _ job jobs e refl some_jobs
  pending_read-CanPanic s before (ok es) w job jobs e some_jobs =
      events-CanPanic es _ job jobs e refl some_jobs

  -- The poller starts a round that has a job to send.
  pub ready-CanPanic :
      (s : Process L) (time : ℕ) (job : DeliveryJob) (jobs : List DeliveryJob)
      → s.phase ≡ ready
      → s.poller ≡ at_ticker
      → is_positive st.poller.interval ≡ true
      → (round_at env st.poller time s.world).jobs ≡ job ∷ jobs
      → CanPanic s
  unfolding start poll_pending_events
  ready-CanPanic s time job jobs e at ticks some_jobs =
      let w = record s.world { now = time } in
      let r = get_pending_events st.poller.batch_size w in
      first-CanPanic _ e (polls time at ticks)
        (pending_read-CanPanic s w r.0 r.1 job jobs e some_jobs)
