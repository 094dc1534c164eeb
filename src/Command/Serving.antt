-- ===== src/Command/Serving.antt =====
-- The process that `serve` of cmd/hookman/main.go is: the main goroutine from "hookman ready" to the
-- end, the HTTP server's, the poller's and the workers', interleaved in any order. One request is one
-- step, and so is one delivery; the poller makes each read of a round in one step, the calls for one
-- event or one attempt in one step, and its sends one by one. After a signal the main goroutine goes
-- through the phases in their order.
pub mod Order
pub mod Panics
pub mod Ends
pub mod Durability
use hookman.Common.{
  ℕ, ◌≡◌, ◌<◌, Bool, true, false, List, [], ◌∷◌, Option, none, some, length, get_elem?,
}
use hookman.Common.Int.{ℤ, pos, ltb_ℤ}
use hookman.Config.{Config}
use hookman.World.{Env, World, measure}
use hookman.Delivery.Deliver.{Client, DeliveryJob}
use hookman.Worker.Pool.{process_job}
use hookman.Worker.Pool.Goroutines.{
  Workers, Goroutine, processing, start_workers, send_job, turn, cancel, close_jobs, all_returned,
}
use hookman.Worker.Poller.{Poller, Polling, poll_event, poll_attempt}
use hookman.Store.Models.{Event, DeliveryAttempt, Result, ok, err}
use hookman.Store.Queries.Events.{pending}
use hookman.Store.Postgres.{get_pending_events, get_retryable_attempts}
use hookman.Metrics.{record_queue_depth}
use hookman.Api.RateLimit.{RateLib, cleanup}
use hookman.Api.Server.{Server, notify_shutdown}
use hookman.Api.Server.Router.{Target, Answer, build_router}
use hookman.Command.{Started}

-- Where the main goroutine is: before the signal, in the sleep, before srv.Shutdown, before wp.Stop,
-- in its wait; or the process has ended.
pub data Phase : Type 0 where
  ready announced halted unserved awaiting : Phase
  exited : ℕ → Phase
  -- By a send on the closed channel, and by time.NewTicker.
  panicked crashed : Phase

-- What is left of a loop of the poller's round.
pub data Todo : Type 0 where
  events : List Event → Todo
  attempts : List DeliveryAttempt → Todo

-- The poller is about to start or waits for its ticker, is at the head of a loop, has jobs to send for
-- what it took from the loop, or has returned.
pub data PollerAt : Type 0 where
  at_ticker at_end : PollerAt
  looping : Todo → PollerAt
  offering : List DeliveryJob → Todo → PollerAt

-- `handling` says whether requests are still handled.
pub record Process (L : Type 0) : Type 0 where
  pub world : World
  pub server : Server L
  pub handling : Bool
  pub workers : Workers
  pub poller : PollerAt
  pub phase : Phase

abbrev pub is_live : Phase → Bool
is_live (exited n) = false
is_live panicked = false
is_live crashed = false
is_live _ = true

-- "hookman ready": everything is started.
unfoldable pub boot : {L : Type 0} → Started L → World → Process L
boot st w = record {
  world = w;
  server = st.server;
  handling = true;
  workers = start_workers st.pool;
  poller = at_ticker;
  phase = ready;
}

-- The world after a worker's move: a delivery that ends has been processed.
abbrev pub delivered_by : Env → Client → ℕ → Option Goroutine → World → World
delivered_by env client elapsed (some (processing job)) w = process_job env client elapsed job w
delivered_by env client elapsed _ w = w

abbrev pub is_positive : ℤ → Bool
is_positive z = ltb_ℤ (pos 0) z

-- The calls of one event or one attempt, with all its sends still to come.
abbrev pub alone : World → Polling
alone w = record { world = w; jobs = []; sends_left = none }

-- A select that takes the cancellation ends the method, and the round goes on with the other half.
abbrev pub declined : Todo → PollerAt
declined (events es) = looping (events [])
declined (attempts rows) = at_ticker

module _ {L : Type 0} where
  abbrev pub answered : Process L → Answer × (Server L × World) → Process L
  answered s (r, (srv, w)) = record s { server = srv; world = w }

  abbrev pub polled : Process L → Todo → Polling → Process L
  polled s todo r = record s { world = r.world; poller = offering r.jobs todo }

  -- The first call of each half of a round.
  abbrev pub pending_read : Process L → Result (List Event) × World → Process L
  pending_read s (err e, w) = record s { world = w; poller = looping (events []) }
  pending_read s (ok es, w) = record s {
    world = measure (record_queue_depth pending (length es)) w;
    poller = looping (events es);
  }

  abbrev pub retryable_read : Process L → Result (List DeliveryAttempt) × World → Process L
  retryable_read s (err e, w) = record s { world = w; poller = at_ticker }
  retryable_read s (ok rows, w) = record s { world = w; poller = looping (attempts rows) }

module _ {L : Type 0} (env : Env) (lib : RateLib L) (st : Started L) where
  pub data Move (s : Process L) : Process L → Type 0 where
    -- Time passes, the rate limiter forgets, a request is handled.
    drifts : (w : World) → w.db ≡ s.world.db → Move s (record s { world = w })
    tidies :
        (now : ℕ)
        → Move s (record s { server = record s.server { limiter = cleanup now s.server.limiter } })
    requests :
        (t : Target)
        → s.handling ≡ true
        → Move s (answered s (build_router env lib st.cfg t s.server s.world))
    -- A worker goes on.
    works :
        {u : Workers} (client : Client) (elapsed i : ℕ)
        → turn i s.workers ≡ some u
        → Move s (record s {
          workers = u;
          world = delivered_by env client elapsed (get_elem? s.workers.goroutines i) s.world;
        })
    -- The poller: a tick with the read of the pending events, an event of the batch, the read of the
    -- attempts, an attempt, the select at a send with its two cases, and the ends of the loops.
    polls :
        (time : ℕ)
        → s.poller ≡ at_ticker
        → is_positive st.poller.interval ≡ true
        → Move s (
            pending_read s
              (get_pending_events st.poller.batch_size (record s.world { now = time })))
    takes_event :
        (e : Event) (es : List Event)
        → s.poller ≡ looping (events (e ∷ es))
        → Move s (polled s (events es) (poll_event env st.poller e (alone s.world)).1)
    turns :
        s.poller ≡ looping (events [])
        → Move s
            (retryable_read s (get_retryable_attempts s.world.now st.poller.batch_size s.world))
    takes_attempt :
        (a : DeliveryAttempt) (rows : List DeliveryAttempt)
        → s.poller ≡ looping (attempts (a ∷ rows))
        → Move s (polled s (attempts rows) (poll_attempt env st.poller a (alone s.world)).1)
    sends :
        (job : DeliveryJob) (jobs : List DeliveryJob) (todo : Todo)
        → s.poller ≡ offering (job ∷ jobs) todo
        → s.workers.closed ≡ false
        → length s.workers.buffer < st.pool.capacity
        → Move s (record s { workers = send_job job s.workers; poller = offering jobs todo })
    sends_closed :
        (job : DeliveryJob) (jobs : List DeliveryJob) (todo : Todo)
        → s.poller ≡ offering (job ∷ jobs) todo
        → s.workers.closed ≡ true
        → Move s (record s { phase = panicked })
    declines :
        (job : DeliveryJob) (jobs : List DeliveryJob) (todo : Todo)
        → s.poller ≡ offering (job ∷ jobs) todo
        → s.workers.cancelled ≡ true
        → Move s (record s { poller = declined todo })
    goes_on :
        (todo : Todo) → s.poller ≡ offering [] todo → Move s (record s { poller = looping todo })
    rests : s.poller ≡ looping (attempts []) → Move s (record s { poller = at_ticker })
    retires :
        s.poller ≡ at_ticker
        → is_positive st.poller.interval ≡ true
        → s.workers.cancelled ≡ true
        → Move s (record s { poller = at_end })
    -- The poller's time.NewTicker panics at an interval that is not positive.
    crashes :
        s.poller ≡ at_ticker
        → is_positive st.poller.interval ≡ false
        → Move s (record s { phase = crashed })
    -- ListenAndServe fails.
    breaks : s.handling ≡ true → Move s (record s { phase = exited 1 })
    -- The main goroutine: a signal and NotifyShutdown, cancel(), srv.Shutdown in time or with handlers
    -- left, the close and the wait of wp.Stop.
    signals :
        s.phase ≡ ready → Move s (record s { phase = announced; server = notify_shutdown s.server })
    halts : s.phase ≡ announced → Move s (record s { phase = halted; workers = cancel s.workers })
    drains : s.phase ≡ halted → Move s (record s { phase = unserved; handling = false })
    overruns : s.phase ≡ halted → Move s (record s { phase = unserved })
    closes :
        s.phase ≡ unserved → Move s (record s { phase = awaiting; workers = close_jobs s.workers })
    finishes :
        s.phase ≡ awaiting
        → all_returned s.workers.goroutines ≡ true
        → Move s (record s { phase = exited 0 })

  -- A process that has ended does nothing more.
  pub data Run (s : Process L) : Process L → Type 0 where
    here : Run s s
    after : {t u : Process L} → Run s t → is_live t.phase ≡ true → Move t u → Run s u
