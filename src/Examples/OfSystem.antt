-- ===== src/Examples/OfSystem.antt =====
-- A run of the whole program up to a dead event, and the guarantees at its end.

use hookman.Common.{ℕ, ◌≡◌, refl, ◌⊎◌, false, [], ◌∷◌, none, some}
use hookman.Common.Int.{pos}
use hookman.World.{World, run}
use hookman.Id.{new_event, new_endpoint, new_delivery_attempt}
use hookman.Delivery.Sign.{encode_to_string}
use hookman.Delivery.Retry.{next_retry_at, next_retry_delay}
use hookman.Delivery.Deliver.{deliver, conclude, DeliveryJob}
use hookman.Store.Models.{Event, empty_db}
use hookman.Store.Queries.Events as Events
use hookman.Store.Queries.Events.{has_status, dead, attempted}
use hookman.Store.Queries.Endpoints as Endpoints
use hookman.Store.Queries.Attempts as Attempts
use hookman.Store.Integrity.{IsConsistent}
use hookman.Store.Postgres.{
  create_event, get_event_by_idempotency_key, create_endpoint, create_delivery_attempt,
  update_event_status,
}
use hookman.Api.Response.{write_error}
use hookman.Api.Flow.{finish, pure, ◌>>=◌, require, require_some, attempt, observe}
use hookman.Api.Events.{store_event, handle_create_event}
use hookman.Api.Endpoints.{CreateEndpointRequest, generate_signing_secret, handle_create_endpoint}
use hookman.Api.DeadLetter.{handle_purge_dead_events}
use hookman.Api.Middleware.{auth_middleware, trim_prefix}
use hookman.Api.RateLimit.{get_limiter, rate_limit_middleware}
use hookman.Api.Server.{
  new_server, Route, post_event, post_endpoint, delete_dead, ApiRequest, api, Server, handler_of,
  serve_api, serve,
}
use hookman.Api.Server.Access.{unauthorized_is_refused}
use hookman.Worker.Pool.{
  record_attempt, attempt_params, after_attempt, update_status, process_job, worker,
}
use hookman.System.{Reachable, migrated, serves, works}
use hookman.System.Guarantees.{Reachable-IsConsistent, purge_is_always_refused}
use hookman.Examples.Data.{an_env, a_config, a_job, a_request, answers_500, counting, world_of}

abbrev a_server : Server ℕ
a_server = new_server a_config

abbrev authorized_request : Route → ApiRequest
authorized_request route = record {
  authorization = "Bearer secret";
  remote_addr = "10.0.0.1";
  real_ip = "";
  route = route;
}

abbrev new_endpoint_request : CreateEndpointRequest
new_endpoint_request = record {
  url = "https://example.org/hook";
  topics = "orders" ∷ [];
  description = none;
}

abbrev after_endpoint : World
after_endpoint =
    (serve an_env counting a_config
      (api (authorized_request (post_endpoint (some new_endpoint_request)))) a_server
      (world_of empty_db)).1.1

abbrev after_event : World
after_event =
    (serve an_env counting a_config (api (authorized_request (post_event (some a_request))))
      a_server after_endpoint).1.1

-- The last attempt that is allowed.
abbrev last_job : DeliveryJob
last_job = record a_job { event_id = "evt_C"; endpoint_id = "ep_B"; attempt_number = pos 5 }

abbrev after_death : World
after_death = worker an_env answers_500 ((last_job, 7, false) ∷ []) after_event

after_death-Reachable : Reachable an_env counting a_config after_death
after_death-Reachable = works answers_500 ((last_job, 7, false) ∷ []) (
    serves (api (authorized_request (post_event (some a_request)))) a_server (
      serves (api (authorized_request (post_endpoint (some new_endpoint_request)))) a_server
        (migrated refl)))

Reachable-IsConsistent_example : IsConsistent after_death.db
Reachable-IsConsistent_example =
    Reachable-IsConsistent an_env counting a_config after_death after_death-Reachable

abbrev the_dead_event : Event
the_dead_event = record {
  id = "evt_C";
  topic = "orders";
  payload = "{}";
  idempotency_key = some "k1";
  status = "dead";
  created_at = 100;
  updated_at = 100;
}

run_of_the_program : (after_death.faults ≡ []) × (after_death.db.events ≡ the_dead_event ∷ [])
unfolding new_server serve serve_api handler_of auth_middleware trim_prefix rate_limit_middleware
    get_limiter handle_create_event store_event handle_create_endpoint generate_signing_secret
    encode_to_string finish pure ◌>>=◌ require require_some attempt observe new_event new_endpoint
    new_delivery_attempt create_event get_event_by_idempotency_key create_endpoint
    create_delivery_attempt update_event_status Events.create_event
    Events.get_event_by_idempotency_key Events.update_event_status Endpoints.create_endpoint
    Attempts.create_delivery_attempt run worker process_job record_attempt attempt_params
    after_attempt update_status deliver conclude next_retry_at next_retry_delay
run_of_the_program = (refl, refl)

purge_is_always_refused_example :
    handle_purge_dead_events after_death
    ≡ (write_error 500 "failed to purge dead events", after_death)
purge_is_always_refused_example =
    purge_is_always_refused an_env counting a_config after_death after_death-Reachable
      run_of_the_program.0 (rw run_of_the_program.1 refl)

abbrev forged : ApiRequest
forged = record (authorized_request delete_dead) { authorization = "Bearer guess" }

unauthorized_is_refused_example :
    (((serve an_env counting a_config (api forged) a_server (world_of empty_db)).0.status ≡ 401)
      ⊎ ((serve an_env counting a_config (api forged) a_server (world_of empty_db)).0.status ≡ 429))
    × ((serve an_env counting a_config (api forged) a_server (world_of empty_db)).1.1
        ≡ world_of empty_db)
unauthorized_is_refused_example =
    unauthorized_is_refused an_env counting a_config forged a_server (world_of empty_db) (λ e. cc)
