-- ===== src/Worker/Poller/Evolution.antt =====
-- The poller, internal/worker/poller.go, and what it does to the tables.
use hookman.Common.{
  inl, inr, refl, ℕ, zero, suc, ◌≡◌, Bool, true, false, List, [], ◌∷◌, Option, none, some,
}
use hookman.World.{Env, World}
use hookman.Delivery.Deliver.{DeliveryJob}
use hookman.Store.Models.{Event, Endpoint, DeliveryAttempt, Result, ok, err}
use hookman.Store.Integrity.{done}
use hookman.Store.Postgres.{
  update_event_status, get_endpoints_by_topic, get_pending_events, get_event, get_endpoint,
  get_retryable_attempts,
}
use hookman.Store.Postgres.Evolution.{
  Evolves, Writes-trans, update_event_status-Evolves, get_endpoints_by_topic-Evolves,
  get_pending_events-Evolves, get_event-Evolves, get_endpoint-Evolves,
  get_retryable_attempts-Evolves,
}
use hookman.Worker.Poller.{
  Poller, Polling, Signal, tick, done as over, send_within, send, proceed, send_all, dispatch,
  mark_processing, poll_event, poll_events, with_pending, poll_pending_events, with_endpoint,
  with_event, poll_attempt, poll_attempts, with_retryable, poll_retryable_attempts, start,
}

send_within-world :
    (o : Option ℕ) (job : DeliveryJob) (s : Polling) → (send_within o job s).1.world ≡ s.world
unfolding send_within
send_within-world none job s = refl
send_within-world (some zero) job s = refl
send_within-world (some (suc n)) job s = refl

pub send-world : (job : DeliveryJob) (s : Polling) → (send job s).1.world ≡ s.world
unfolding send
send-world job s = send_within-world s.sends_left job s

send_next-world :
    (jobs : List DeliveryJob) (r : Bool × Polling)
    → ((s : Polling) → (send_all jobs s).1.world ≡ s.world)
    → (proceed (send_all jobs) r).1.world ≡ r.1.world
send_next-world jobs (true, s) ih = ih s
send_next-world jobs (false, s) ih = refl

pub send_all-world : (jobs : List DeliveryJob) (s : Polling) → (send_all jobs s).1.world ≡ s.world
unfolding send_all
send_all-world [] s = refl
send_all-world (job ∷ jobs) s =
    rw (send_next-world jobs (send job s) (send_all-world jobs)) (send-world job s)

module _ (env : Env) (p : Poller) where
  proceed-Evolves :
      (rest : Polling → Bool × Polling) (r : Bool × Polling)
      → ((s : Polling) → Evolves env s.world (rest s).1.world)
      → Evolves env r.1.world (proceed rest r).1.world
  proceed-Evolves rest (true, s) h = h s
  proceed-Evolves rest (false, s) h = done

  dispatch-Evolves :
      (event : Event) (eps : List Endpoint) (s : Polling) (r : Result (Unit {0})) (w : World)
      → Evolves env w (dispatch env p event eps s (r, w)).1.world
  unfolding dispatch
  dispatch-Evolves event eps s (err e) w = done
  dispatch-Evolves event eps s (ok u) w = rw (send_all-world _ (record s { world = w })) done

  mark_processing-Evolves :
      (event : Event) (s : Polling) (r : Result (List Endpoint)) (w : World)
      → Evolves env w (mark_processing env p event s (r, w)).1.world
  unfolding mark_processing
  mark_processing-Evolves event s (err e) w = done
  mark_processing-Evolves event s (ok []) w = done
  mark_processing-Evolves event s (ok (ep ∷ eps)) w =
      Writes-trans (update_event_status-Evolves env w _ (inr (inl refl)) (λ d. cc d)) (
        dispatch-Evolves event (ep ∷ eps) s (update_event_status _ w).0 (update_event_status _ w).1)

  pub poll_event-Evolves :
      (event : Event) (s : Polling) → Evolves env s.world (poll_event env p event s).1.world
  unfolding poll_event
  poll_event-Evolves event s =
      Writes-trans (get_endpoints_by_topic-Evolves env s.world event.topic) (
        mark_processing-Evolves event s (get_endpoints_by_topic env event.topic s.world).0
          (get_endpoints_by_topic env event.topic s.world).1)

  poll_events-Evolves :
      (events : List Event) (s : Polling) → Evolves env s.world (poll_events env p events s).1.world
  unfolding poll_events
  poll_events-Evolves [] s = done
  poll_events-Evolves (event ∷ events) s = Writes-trans (poll_event-Evolves event s) (
      proceed-Evolves (poll_events env p events) (poll_event env p event s)
        (poll_events-Evolves events))

  with_pending-Evolves :
      (s : Polling) (r : Result (List Event)) (w : World)
      → Evolves env w (with_pending env p s (r, w)).world
  unfolding with_pending
  with_pending-Evolves s (err e) w = done
  with_pending-Evolves s (ok events) w = poll_events-Evolves events _

  pub poll_pending_events-Evolves :
      (s : Polling) → Evolves env s.world (poll_pending_events env p s).world
  unfolding poll_pending_events
  poll_pending_events-Evolves s =
      Writes-trans (get_pending_events-Evolves env s.world p.batch_size) (
        with_pending-Evolves s (get_pending_events p.batch_size s.world).0
          (get_pending_events p.batch_size s.world).1)

  with_endpoint-Evolves :
      (a : DeliveryAttempt) (event : Event) (s : Polling) (r : Result Endpoint) (w : World)
      → Evolves env w (with_endpoint env p a event s (r, w)).1.world
  unfolding with_endpoint
  with_endpoint-Evolves a event s (err e) w = done
  with_endpoint-Evolves a event s (ok endpoint) w = rw (send-world _ (record s { world = w })) done

  with_event-Evolves :
      (a : DeliveryAttempt) (s : Polling) (r : Result Event) (w : World)
      → Evolves env w (with_event env p a s (r, w)).1.world
  unfolding with_event
  with_event-Evolves a s (err e) w = done
  with_event-Evolves a s (ok event) w = Writes-trans (get_endpoint-Evolves env w a.endpoint_id) (
      with_endpoint-Evolves a event s (get_endpoint a.endpoint_id w).0
        (get_endpoint a.endpoint_id w).1)

  pub poll_attempt-Evolves :
      (a : DeliveryAttempt) (s : Polling) → Evolves env s.world (poll_attempt env p a s).1.world
  unfolding poll_attempt
  poll_attempt-Evolves a s =
      Writes-trans (get_event-Evolves env s.world a.event_id)
        (with_event-Evolves a s (get_event a.event_id s.world).0 (get_event a.event_id s.world).1)

  poll_attempts-Evolves :
      (attempts : List DeliveryAttempt) (s : Polling)
      → Evolves env s.world (poll_attempts env p attempts s).1.world
  unfolding poll_attempts
  poll_attempts-Evolves [] s = done
  poll_attempts-Evolves (a ∷ attempts) s = Writes-trans (poll_attempt-Evolves a s) (
      proceed-Evolves (poll_attempts env p attempts) (poll_attempt env p a s)
        (poll_attempts-Evolves attempts))

  with_retryable-Evolves :
      (s : Polling) (r : Result (List DeliveryAttempt)) (w : World)
      → Evolves env w (with_retryable env p s (r, w)).world
  unfolding with_retryable
  with_retryable-Evolves s (err e) w = done
  with_retryable-Evolves s (ok attempts) w = poll_attempts-Evolves attempts (record s { world = w })

  poll_retryable_attempts-Evolves :
      (s : Polling) → Evolves env s.world (poll_retryable_attempts env p s).world
  unfolding poll_retryable_attempts
  poll_retryable_attempts-Evolves s =
      Writes-trans (get_retryable_attempts-Evolves env s.world s.world.now p.batch_size) (
        with_retryable-Evolves s (get_retryable_attempts s.world.now p.batch_size s.world).0
          (get_retryable_attempts s.world.now p.batch_size s.world).1)

  -- Over any sequence of ticks, lost calls and cancellations, the poller changes the tables by
  -- lawful statements only.
  pub start-Evolves :
      (signals : List Signal) (s : Polling) → Evolves env s.world (start env p signals s).world
  unfolding start
  start-Evolves [] s = done
  start-Evolves (over ∷ signals) s = done
  start-Evolves (tick time ∷ signals) s =
      Writes-trans
        (poll_pending_events-Evolves (record s { world = record s.world { now = time } }))
        (Writes-trans (poll_retryable_attempts-Evolves _) (start-Evolves signals _))
