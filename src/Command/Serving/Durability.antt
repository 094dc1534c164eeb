-- ===== src/Command/Serving/Durability.antt =====
-- What the process of `serve` does to the events that are stored.
use hookman.Common.{
  ℕ, ◌≡◌, sym, subst, Bool, true, false, List, [], ◌∷◌, ◌++◌, Option, none, some, if◌then◌else◌,
}
use hookman.World.{Env, World}
use hookman.Delivery.Deliver.{Client}
use hookman.Store.Integrity.{Writes, done}
use hookman.Store.Integrity.Log.{Posted, log_of, Writes-log_of}
use hookman.Store.Postgres.Evolution.{
  Evolves, Writes-trans, get_pending_events-Evolves, get_retryable_attempts-Evolves,
}
use hookman.Worker.Pool.{worker}
use hookman.Worker.Pool.Evolution.{worker-Evolves}
use hookman.Worker.Pool.Goroutines.{Goroutine, waiting, received, processing, returned}
use hookman.Worker.Poller.Evolution.{poll_event-Evolves, poll_attempt-Evolves}
use hookman.Store.Models.{Event, DeliveryAttempt, Result, ok, err}
use hookman.Store.Integrity.Dead.{Writes-DeadAreAttempted}
use hookman.Store.Postgres.{get_pending_events, get_retryable_attempts}
use hookman.Api.RateLimit.{RateLib}
use hookman.Api.Server.{Server}
use hookman.Api.Server.Access.{serve-Evolves}
use hookman.Api.Server.Router.{Target, Answer, to_server, to_dashboard, to_metrics, build_router}
use hookman.Dashboard.Evolution.{visit-Evolves}
use hookman.System.{Reachable}
use hookman.System.Guarantees.{Reachable-DeadAreAttempted}
use hookman.Command.{Started}
use hookman.Command.Serving.{
  Process, boot, delivered_by, Move, drifts, tidies, requests, works, polls, takes_event, turns,
  takes_attempt, goes_on, pending_read, retryable_read, alone, sends, sends_closed, declines, rests,
  retires, crashes, breaks, signals, halts, drains, overruns, closes, finishes, Run, here, after,
}

module _ {L : Type 0} (env : Env) (lib : RateLib L) (st : Started L) where
  mounted-Evolves :
      (b : Bool) (there missing : Answer × (Server L × World)) (w : World)
      → Evolves env w there.1.1
      → Evolves env w missing.1.1
      → Evolves env w (if b then there else missing).1.1
  mounted-Evolves true there missing w h k = h
  mounted-Evolves false there missing w h k = k

  build_router-Evolves :
      (t : Target) (srv : Server L) (w : World)
      → Evolves env w (build_router env lib st.cfg t srv w).1.1
  unfolding build_router
  build_router-Evolves (to_server req) srv w = serve-Evolves env lib st.cfg req srv w
  build_router-Evolves (to_dashboard v) srv w =
      mounted-Evolves st.cfg.dashboard_enabled _ _ w (visit-Evolves env v w) done
  build_router-Evolves to_metrics srv w = done

  delivered_by-Evolves :
      (client : Client) (elapsed : ℕ) (g : Option Goroutine) (w : World)
      → Evolves env w (delivered_by env client elapsed g w)
  unfolding worker
  delivered_by-Evolves client elapsed none w = done
  delivered_by-Evolves client elapsed (some waiting) w = done
  delivered_by-Evolves client elapsed (some (received job)) w = done
  delivered_by-Evolves client elapsed (some (processing job)) w =
      worker-Evolves env client ((job, elapsed, false) ∷ []) w
  delivered_by-Evolves client elapsed (some returned) w = done

  pending_read-Evolves :
      (s : Process L) (r : Result (List Event) × World)
      → Evolves env s.world r.1
      → Evolves env s.world (pending_read s r).world
  pending_read-Evolves s (ok es, w) h = h
  pending_read-Evolves s (err e, w) h = h

  retryable_read-Evolves :
      (s : Process L) (r : Result (List DeliveryAttempt) × World)
      → Evolves env s.world r.1
      → Evolves env s.world (retryable_read s r).world
  retryable_read-Evolves s (ok rows, w) h = h
  retryable_read-Evolves s (err e, w) h = h

  Move-Evolves : (s t : Process L) → Move env lib st s t → Evolves env s.world t.world
  Move-Evolves s _ (drifts w e) = subst (Writes env.storable s.world.db) (sym e) done
  Move-Evolves s _ (tidies now) = done
  Move-Evolves s _ (requests t e) = build_router-Evolves t s.server s.world
  Move-Evolves s _ (works client elapsed i e) = delivered_by-Evolves client elapsed _ s.world
  Move-Evolves s _ (polls time e v) =
      pending_read-Evolves s
        (get_pending_events st.poller.batch_size (record s.world { now = time }))
        (get_pending_events-Evolves env (record s.world { now = time }) st.poller.batch_size)
  Move-Evolves s _ (takes_event e es q) = poll_event-Evolves env st.poller e (alone s.world)
  Move-Evolves s _ (turns q) =
      retryable_read-Evolves s (get_retryable_attempts s.world.now st.poller.batch_size s.world)
        (get_retryable_attempts-Evolves env s.world s.world.now st.poller.batch_size)
  Move-Evolves s _ (takes_attempt a rows q) = poll_attempt-Evolves env st.poller a (alone s.world)
  Move-Evolves s _ (goes_on todo q) = done
  Move-Evolves s _ (sends job jobs todo e unclosed room) = done
  Move-Evolves s _ (sends_closed job jobs todo e shut) = done
  Move-Evolves s _ (declines job jobs todo e c) = done
  Move-Evolves s _ (rests e) = done
  Move-Evolves s _ (retires e v c) = done
  Move-Evolves s _ (crashes e v) = done
  Move-Evolves s _ (breaks e) = done
  Move-Evolves s _ (signals e) = done
  Move-Evolves s _ (halts e) = done
  Move-Evolves s _ (drains e) = done
  Move-Evolves s _ (overruns e) = done
  Move-Evolves s _ (closes e) = done
  Move-Evolves s _ (finishes e all) = done

  Run-Evolves : (s t : Process L) → Run env lib st s t → Evolves env s.world t.world
  Run-Evolves s _ here = done
  Run-Evolves s t (after {t = u} r l m) = Writes-trans (Run-Evolves s u r) (Move-Evolves u t m)

-- The events are a log that only grows: between any two points of the life of the process of `serve`,
-- started on tables that the program reaches, every stored event stays in its place with the
-- identifier, the topic, the payload, the idempotency key and the time with which it was stored, and
-- new events come behind it.
pub events_are_durable :
    {L : Type 0} (env : Env) (lib : RateLib L) (st : Started L) (w : World) (s t : Process L)
    → Reachable env lib st.cfg w
    → Run env lib st (boot st w) s
    → Run env lib st s t
    → (more : List Posted) × (log_of t.world.db ≡ log_of s.world.db ++ more)
unfolding boot
events_are_durable env lib st w s t h r q =
    Writes-log_of env.storable s.world.db (Run-Evolves env lib st s t q) (
      Writes-DeadAreAttempted env.storable w.db (Run-Evolves env lib st (boot st w) s r)
        (Reachable-DeadAreAttempted env lib st.cfg w h))
