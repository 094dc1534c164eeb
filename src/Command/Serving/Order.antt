-- ===== src/Command/Serving/Order.antt =====
-- The order in which `serve` of cmd/hookman/main.go stops its parts.
use hookman.Common.{
  ℕ, zero, suc, ◌≡◌, ◌⊎◌, inl, inr, refl, ◌∙◌, Bool, true, false, some, Bool-cases,
}
use hookman.World.{Env, World}
use hookman.Common.{List}
use hookman.Store.Models.{Event, DeliveryAttempt, Result, ok, err}
use hookman.Worker.Pool.Goroutines.{
  Workers, start_workers, turn, send_job, all_returned, Steps, here as none_yet, after as then_step,
  sends as sends_one, turns as turns_one, cancels, closes as closes_channel,
}
use hookman.Worker.Pool.Goroutines.Ledger.{turn-IsFair}
use hookman.Api.RateLimit.{RateLib}
use hookman.Api.Server.{get_health, get_ready, api, Server, serve}
use hookman.Api.Server.Router.{Target, to_server, to_dashboard, to_metrics, build_router}
use hookman.Command.{Started}
use hookman.Command.Serving.{
  Phase, ready, announced, halted, unserved, awaiting, exited, panicked, crashed, is_live, Process,
  boot, Move, drifts, tidies, requests, works, polls, takes_event, turns, takes_attempt, goes_on,
  pending_read, retryable_read, sends, sends_closed, declines, rests, retires, crashes, breaks,
  signals, halts, drains, overruns, closes, finishes, Run, here, after,
}

-- What each phase says of the flags of the server and of the workers.
abbrev pub PhaseHolds : Phase → (shutting_down : Bool) → Workers → Type 0
PhaseHolds ready b w = w.closed ≡ false
PhaseHolds announced b w = (w.closed ≡ false) × (b ≡ true)
PhaseHolds halted b w = (w.closed ≡ false) × (b ≡ true) × (w.cancelled ≡ true)
PhaseHolds unserved b w = (w.closed ≡ false) × (b ≡ true) × (w.cancelled ≡ true)
PhaseHolds awaiting b w = w.closed ≡ true
PhaseHolds (exited zero) b w = (w.closed ≡ true) × (all_returned w.goroutines ≡ true)
PhaseHolds (exited (suc n)) b w = Unit
PhaseHolds panicked b w = w.closed ≡ true
PhaseHolds crashed b w = Unit

-- In a live process the phase says nothing of the goroutines.
PhaseHolds-same :
    (ph : Phase) (b : Bool) (w v : Workers)
    → is_live ph ≡ true
    → v.closed ≡ w.closed
    → v.cancelled ≡ w.cancelled
    → PhaseHolds ph b w
    → PhaseHolds ph b v
PhaseHolds-same ready b w v l c k h = c ∙ h
PhaseHolds-same announced b w v l c k (h, g) = (c ∙ h, g)
PhaseHolds-same halted b w v l c k (h, g, m) = (c ∙ h, g, k ∙ m)
PhaseHolds-same unserved b w v l c k (h, g, m) = (c ∙ h, g, k ∙ m)
PhaseHolds-same awaiting b w v l c k h = c ∙ h
PhaseHolds-same (exited n) b w v l c k h = cc
PhaseHolds-same panicked b w v l c k h = cc
PhaseHolds-same crashed b w v l c k h = cc

module _ {L : Type 0} (env : Env) (lib : RateLib L) (st : Started L) where
  build_router-shutting_down :
      (t : Target) (srv : Server L) (w : World)
      → (build_router env lib st.cfg t srv w).1.0.shutting_down ≡ srv.shutting_down
  unfolding build_router serve
  build_router-shutting_down (to_server get_health) srv w = refl
  build_router-shutting_down (to_server get_ready) srv w = refl
  build_router-shutting_down (to_server (api req)) srv w = refl
  build_router-shutting_down (to_dashboard v) srv w = elim (Bool-cases st.cfg.dashboard_enabled) [
    | inl e ↦ rw e refl
    | inr e ↦ rw e refl
  ]
  build_router-shutting_down to_metrics srv w = refl

  -- Cancelled only after the notice, closed only after the cancellation; and the workers are those of
  -- a pool that was started.
  pub record IsOrdered (ph : Phase) (b : Bool) (w : Workers) : Type 0 where
    pub notice : (w.cancelled ≡ false) ⊎ (b ≡ true)
    pub closing : (w.closed ≡ false) ⊎ (w.cancelled ≡ true)
    pub at : PhaseHolds ph b w
    pub pool_run : Steps st.pool.capacity (start_workers st.pool) w

  abbrev pub OrderHolds : Process L → Type 0
  OrderHolds s = IsOrdered s.phase s.server.shutting_down s.workers

  boot-OrderHolds : (w : World) → OrderHolds (boot st w)
  unfolding boot start_workers
  boot-OrderHolds w = record {
    notice = inl refl;
    closing = inl refl;
    at = refl;
    pool_run = none_yet;
  }

  turn-IsOrdered :
      (ph : Phase) (b : Bool) (i : ℕ) (w v : Workers)
      → is_live ph ≡ true
      → turn i w ≡ some v
      → IsOrdered ph b w
      → IsOrdered ph b v
  turn-IsOrdered ph b i w v l e h =
      let f = turn-IsFair i w v e in
      record {
        notice = rw f.quiet h.notice;
        closing = rw (f.shut, f.quiet) h.closing;
        at = PhaseHolds-same ph b w v l f.shut f.quiet h.at;
        pool_run = then_step h.pool_run (turns_one i e);
      }

  pending_read-OrderHolds :
      (s : Process L) (r : Result (List Event) × World)
      → OrderHolds s
      → OrderHolds (pending_read s r)
  pending_read-OrderHolds s (ok es, w) h = h
  pending_read-OrderHolds s (err e, w) h = h

  retryable_read-OrderHolds :
      (s : Process L) (r : Result (List DeliveryAttempt) × World)
      → OrderHolds s
      → OrderHolds (retryable_read s r)
  retryable_read-OrderHolds s (ok rows, w) h = h
  retryable_read-OrderHolds s (err e, w) h = h

  Move-OrderHolds :
      (s t : Process L) → is_live s.phase ≡ true → Move env lib st s t → OrderHolds s → OrderHolds t
  unfolding send_job
  Move-OrderHolds s _ l (drifts w e) h = h
  Move-OrderHolds s _ l (tidies now) h = h
  Move-OrderHolds s _ l (requests t e) h = rw (build_router-shutting_down t s.server s.world) h
  Move-OrderHolds s _ l (works {u} client elapsed i e) h =
      turn-IsOrdered s.phase s.server.shutting_down i s.workers u l e h
  Move-OrderHolds s _ l (polls time e v) h = pending_read-OrderHolds s _ h
  Move-OrderHolds s _ l (takes_event e es q) h = h
  Move-OrderHolds s _ l (turns q) h = retryable_read-OrderHolds s _ h
  Move-OrderHolds s _ l (takes_attempt a rows q) h = h
  Move-OrderHolds s _ l (goes_on todo q) h = h
  Move-OrderHolds s _ l (sends job jobs todo e unclosed room) h = record {
    notice = h.notice;
    closing = h.closing;
    at = PhaseHolds-same s.phase _ s.workers (send_job job s.workers) l refl refl h.at;
    pool_run = then_step h.pool_run (sends_one job unclosed room);
  }
  Move-OrderHolds s _ l (sends_closed job jobs todo e shut) h = record {
    notice = h.notice;
    closing = h.closing;
    at = shut;
    pool_run = h.pool_run;
  }
  Move-OrderHolds s _ l (declines job jobs todo e c) h = h
  Move-OrderHolds s _ l (rests e) h = h
  Move-OrderHolds s _ l (retires e v c) h = h
  Move-OrderHolds s _ l (crashes e v) h = record {
    notice = h.notice;
    closing = h.closing;
    at = tt;
    pool_run = h.pool_run;
  }
  Move-OrderHolds s _ l (breaks e) h = record {
    notice = h.notice;
    closing = h.closing;
    at = tt;
    pool_run = h.pool_run;
  }
  Move-OrderHolds s _ l (signals e) h =
      let unclosed : s.workers.closed ≡ false = rw e at h.at in
      record {
        notice = inr refl;
        closing = inl unclosed;
        at = (unclosed, refl);
        pool_run = h.pool_run;
      }
  Move-OrderHolds s _ l (halts e) h =
      let (unclosed, told) = rw e at h.at in
      record {
        notice = inr told;
        closing = inl unclosed;
        at = (unclosed, told, refl);
        pool_run = then_step h.pool_run cancels;
      }
  Move-OrderHolds s _ l (drains e) h =
      let halted_at = rw e at h.at in
      record { notice = h.notice; closing = h.closing; at = halted_at; pool_run = h.pool_run }
  Move-OrderHolds s _ l (overruns e) h =
      let halted_at = rw e at h.at in
      record { notice = h.notice; closing = h.closing; at = halted_at; pool_run = h.pool_run }
  Move-OrderHolds s _ l (closes e) h =
      let (unclosed, told, stopped) = rw e at h.at in
      record {
        notice = inr told;
        closing = inr stopped;
        at = refl;
        pool_run = then_step h.pool_run (closes_channel unclosed);
      }
  Move-OrderHolds s _ l (finishes e all) h =
      let shut = rw e at h.at in
      record { notice = h.notice; closing = h.closing; at = (shut, all); pool_run = h.pool_run }

  pub Run-OrderHolds : (w : World) (s : Process L) → Run env lib st (boot st w) s → OrderHolds s
  Run-OrderHolds w _ here = boot-OrderHolds w
  Run-OrderHolds w s (after {t} r l m) = Move-OrderHolds t s l m (Run-OrderHolds w t r)
