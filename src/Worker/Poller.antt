-- ===== src/Worker/Poller.antt =====
-- internal/worker/poller.go. The channel is the list of the jobs sent so far; `sends_left` says
-- how many more sends succeed before the context is cancelled, if it is.
pub mod Evolution
pub mod Jobs
pub mod Once
pub mod Uncut
pub mod Lost
pub mod Retries
use hookman.Common.{
  ℕ, zero, suc, String, Bool, true, false, List, [], ◌∷◌, ◌++◌, Option, none, some, map, length,
  if◌then◌else◌,
}
use hookman.Common.Int.{ℤ, pos, incr}
use hookman.Metrics.{record_queue_depth}
use hookman.Delivery.Deliver.{DeliveryJob}
use hookman.World.{Env, World, measure}
use hookman.Store.Models.{Event, Endpoint, DeliveryAttempt, Result, ok, err}
use hookman.Store.Queries.Events.{pending, processing}
use hookman.Store.Postgres.{
  update_status_params, update_event_status, get_pending_events, get_endpoints_by_topic,
  get_retryable_attempts, get_event, get_endpoint,
}

pub record Poller : Type 0 where
  pub interval : ℤ
  pub max_retries : ℤ
  pub batch_size : ℕ

unfoldable pub new_poller : ℤ → ℤ → Poller
new_poller interval max_retries = record {
  interval = interval;
  max_retries = max_retries;
  batch_size = 50;
}

pub record Polling : Type 0 where
  pub world : World
  pub jobs : List DeliveryJob
  pub sends_left : Option ℕ

-- select { case p.jobs <- job: … case <-ctx.Done(): return }; false means return.
unfoldable pub send_within : Option ℕ → DeliveryJob → Polling → Bool × Polling
send_within none job s = (true, record s { jobs = s.jobs ++ job ∷ [] })
send_within (some zero) job s = (false, s)
send_within (some (suc n)) job s =
    (true, record s { jobs = s.jobs ++ job ∷ []; sends_left = some n })

unfoldable pub send : DeliveryJob → Polling → Bool × Polling
unfolding send_within
send job s = send_within s.sends_left job s

-- A step of a loop: go on with the rest, or return from the method.
abbrev pub proceed : (Polling → Bool × Polling) → Bool × Polling → Bool × Polling
proceed rest (true, s) = rest s
proceed rest (false, s) = (false, s)

unfoldable pub send_all : List DeliveryJob → Polling → Bool × Polling
unfolding send
send_all [] s = (true, s)
send_all (job ∷ jobs) s = proceed (send_all jobs) (send job s)

-- One round of the loop's select: the ticker fires at a time, or the context is done.
pub data Signal : Type 0 where
  tick : (time : ℕ) → Signal
  done : Signal

module _ (env : Env) (p : Poller) where
  unfoldable pub first_job : Event → Endpoint → DeliveryJob
  first_job event ep = record {
    event_id = event.id;
    endpoint_id = ep.id;
    endpoint_url = ep.url;
    signing_secret = ep.signing_secret;
    payload = event.payload;
    attempt_number = pos 1;
    max_retries = p.max_retries;
  }

  -- After the event was marked: the jobs for its endpoints; an error skips the event.
  unfoldable pub dispatch :
      Event → List Endpoint → Polling → Result (Unit {0}) × World → Bool × Polling
  dispatch event eps s (err e, w) = (true, record s { world = w })
  dispatch event eps s (ok u, w) = send_all (map (first_job event) eps) (record s { world = w })

  -- An event with no endpoint is skipped, and so is one whose endpoints cannot be read.
  unfoldable pub mark_processing : Event → Polling → Result (List Endpoint) × World → Bool × Polling
  unfolding dispatch
  mark_processing event s (err e, w) = (true, record s { world = w })
  mark_processing event s (ok [], w) = (true, record s { world = w })
  mark_processing event s (ok (ep ∷ eps), w) =
      dispatch event (ep ∷ eps) s (update_event_status (update_status_params event.id processing) w)

  unfoldable pub poll_event : Event → Polling → Bool × Polling
  unfolding mark_processing
  poll_event event s = mark_processing event s (get_endpoints_by_topic env event.topic s.world)

  unfoldable pub poll_events : List Event → Polling → Bool × Polling
  unfolding poll_event
  poll_events [] s = (true, s)
  poll_events (event ∷ events) s = proceed (poll_events events) (poll_event event s)

  unfoldable pub with_pending : Polling → Result (List Event) × World → Polling
  unfolding poll_events
  with_pending s (err e, w) = record s { world = w }
  with_pending s (ok events, w) =
      (poll_events events
        (record s { world = measure (record_queue_depth pending (length events)) w })).1

  unfoldable pub poll_pending_events : Polling → Polling
  unfolding with_pending
  poll_pending_events s = with_pending s (get_pending_events p.batch_size s.world)

  unfoldable pub retry_job : Event → Endpoint → DeliveryAttempt → DeliveryJob
  retry_job event endpoint attempt = record {
    event_id = event.id;
    endpoint_id = endpoint.id;
    endpoint_url = endpoint.url;
    signing_secret = endpoint.signing_secret;
    payload = event.payload;
    attempt_number = incr attempt.attempt_number;
    max_retries = p.max_retries;
  }

  unfoldable pub with_endpoint :
      DeliveryAttempt → Event → Polling → Result Endpoint × World → Bool × Polling
  unfolding retry_job
  with_endpoint attempt event s (err e, w) = (true, record s { world = w })
  with_endpoint attempt event s (ok endpoint, w) =
      send (retry_job event endpoint attempt) (record s { world = w })

  unfoldable pub with_event : DeliveryAttempt → Polling → Result Event × World → Bool × Polling
  unfolding with_endpoint
  with_event attempt s (err e, w) = (true, record s { world = w })
  with_event attempt s (ok event, w) =
      with_endpoint attempt event s (get_endpoint attempt.endpoint_id w)

  unfoldable pub poll_attempt : DeliveryAttempt → Polling → Bool × Polling
  unfolding with_event
  poll_attempt attempt s = with_event attempt s (get_event attempt.event_id s.world)

  unfoldable pub poll_attempts : List DeliveryAttempt → Polling → Bool × Polling
  unfolding poll_attempt
  poll_attempts [] s = (true, s)
  poll_attempts (attempt ∷ attempts) s = proceed (poll_attempts attempts) (poll_attempt attempt s)

  unfoldable pub with_retryable : Polling → Result (List DeliveryAttempt) × World → Polling
  unfolding poll_attempts
  with_retryable s (err e, w) = record s { world = w }
  with_retryable s (ok attempts, w) = (poll_attempts attempts (record s { world = w })).1

  unfoldable pub poll_retryable_attempts : Polling → Polling
  unfolding with_retryable
  poll_retryable_attempts s =
      with_retryable s (get_retryable_attempts s.world.now p.batch_size s.world)

  unfoldable pub start : List Signal → Polling → Polling
  unfolding poll_pending_events poll_retryable_attempts
  start [] s = s
  start (done ∷ signals) s = s
  start (tick time ∷ signals) s = start signals (
      poll_retryable_attempts
        (poll_pending_events (record s { world = record s.world { now = time } })))
