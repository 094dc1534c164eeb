-- ===== src/Examples/OfInterfaces.antt =====
-- Two clients of the store: an event is posted while another one is delivered and given up.
use hookman.Common.{◌≡◌, refl, true, inl, inr, [], ◌∷◌, none, some}
use hookman.Common.Int.{pos}
use hookman.World.{World, run}
use hookman.Store.Models.{Db}
use hookman.Store.Integrity.{has_attempt}
use hookman.Store.Integrity.Log.{Extends, log_of}
use hookman.Store.Queries.Events as Events
use hookman.Store.Queries.Events.{UpdateEventStatusParams, CreateEventParams}
use hookman.Store.Queries.Attempts as Attempts
use hookman.Store.Queries.Attempts.{CreateDeliveryAttemptParams}
use hookman.Store.Postgres.{
  create_event, update_event_status, update_status_params, create_delivery_attempt,
}
use hookman.Store.Interfaces.{new_postgres_store}
use hookman.Store.Interfaces.Lawful.{
  Session, idle, call, creates_event, updates_event_status, creates_delivery_attempt, IsSound,
  interleaved_calls-IsSound,
}
use hookman.Examples.Data.{an_env, world_of, an_event_row, an_endpoint_row}

abbrev one_event : Db
one_event = record { events = an_event_row ∷ []; endpoints = an_endpoint_row ∷ []; attempts = [] }

abbrev posts : CreateEventParams
posts = record {
  id = "evt_7";
  topic = "orders";
  payload = "{}";
  idempotency_key = some "k7";
  status = "pending";
}

abbrev tries : CreateDeliveryAttemptParams
tries = record {
  id = "da_7";
  event_id = "evt_1";
  endpoint_id = "ep_1";
  attempt_number = pos 5;
  http_status = some (pos 500);
  response_body = none;
  duration_ms = some (pos 3);
  status = "failed";
  next_retry_at = none;
}

abbrev after_post : World
after_post = (create_event posts (world_of one_event)).1

abbrev after_try : World
after_try = (create_delivery_attempt an_env tries after_post).1

abbrev after_dead : World
after_dead = (update_event_status (update_status_params "evt_1" "dead") after_try).1

tried : has_attempt "evt_1" after_try.db ≡ true
unfolding create_event create_delivery_attempt run Events.create_event
    Attempts.create_delivery_attempt
tried = refl

after_dead-Session : Session (new_postgres_store an_env) (world_of one_event) after_dead
unfolding new_postgres_store
after_dead-Session =
    call
      (call (call (idle (world_of one_event) refl) (creates_event posts refl) after_post refl)
        (creates_delivery_attempt tries) after_try refl)
      (updates_event_status (update_status_params "evt_1" "dead") (inr (inr (inr refl)))
        (λ e. tried))
      after_dead refl

one_event-IsSound : IsSound one_event
one_event-IsSound = record {
  consistent = record {
    event_keys = (refl, tt);
    endpoint_keys = (refl, tt);
    attempt_keys = tt;
    references = tt;
  };
  known = (inl refl, tt);
  attempted = (λ e. cc, tt);
}

interleaved_calls-IsSound_example :
    IsSound after_dead.db × Extends (log_of one_event) (log_of after_dead.db)
interleaved_calls-IsSound_example =
    interleaved_calls-IsSound an_env (world_of one_event) after_dead after_dead-Session
      one_event-IsSound
