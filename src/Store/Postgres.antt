-- ===== src/Store/Postgres.antt =====
-- internal/store/postgres.go and the convenience constructor of internal/store/interfaces.go: each
-- method of PostgresStore runs its statement over the connection pool.
pub mod Evolution
use hookman.Common.{ℕ, String, List, [], ◌∷◌, Option, some}
use hookman.World.{Env, Call, run}
use hookman.Store.Models.{Event, Endpoint, DeliveryAttempt}
use hookman.Store.Queries.Events as Events
use hookman.Store.Queries.Endpoints as Endpoints
use hookman.Store.Queries.Attempts as Attempts
use hookman.Store.Queries.Events.{
  CreateEventParams, ListEventsParams, UpdateEventStatusParams, GetDeadEventsParams, StatusCount,
}
use hookman.Store.Queries.Endpoints.{CreateEndpointParams, UpdateEndpointParams}
use hookman.Store.Queries.Attempts.{CreateDeliveryAttemptParams}

abbrev pub update_status_params : String → String → UpdateEventStatusParams
update_status_params id status = record { id = id; status = status }

unfoldable pub create_event : CreateEventParams → Call (Unit {0})
create_event params = run (Events.create_event params)

unfoldable pub get_event : String → Call Event
get_event id = run (Events.get_event id)

unfoldable pub get_event_by_idempotency_key : Option String → Call Event
get_event_by_idempotency_key key = run (Events.get_event_by_idempotency_key key)

unfoldable pub list_events : ListEventsParams → Call (List Event)
list_events params = run (Events.list_events params)

unfoldable pub update_event_status : UpdateEventStatusParams → Call (Unit {0})
update_event_status params = run (Events.update_event_status params)

unfoldable pub get_pending_events : ℕ → Call (List Event)
get_pending_events limit = run (Events.get_pending_events limit)

unfoldable pub get_dead_events : GetDeadEventsParams → Call (List Event)
get_dead_events params = run (Events.get_dead_events params)

unfoldable pub count_events_by_status : Call (List StatusCount)
count_events_by_status = run Events.count_events_by_status

unfoldable pub bulk_replay_dead_events : Call ℕ
bulk_replay_dead_events = run Events.bulk_replay_dead_events

unfoldable pub purge_dead_events : Call ℕ
purge_dead_events = run Events.purge_dead_events

unfoldable pub create_endpoint : CreateEndpointParams → Call (Unit {0})
create_endpoint params = run (Endpoints.create_endpoint params)

unfoldable pub get_endpoint : String → Call Endpoint
get_endpoint id = run (Endpoints.get_endpoint id)

unfoldable pub list_endpoints : Call (List Endpoint)
list_endpoints = run Endpoints.list_endpoints

unfoldable pub update_endpoint : UpdateEndpointParams → Call (Unit {0})
update_endpoint params = run (Endpoints.update_endpoint params)

unfoldable pub delete_endpoint : String → Call (Unit {0})
delete_endpoint id = run (Endpoints.delete_endpoint id)

unfoldable pub get_endpoints_by_topic : Env → String → Call (List Endpoint)
get_endpoints_by_topic env topic =
    run (Endpoints.get_endpoints_by_topic env.bind_topic (topic ∷ []))

unfoldable pub create_delivery_attempt : Env → CreateDeliveryAttemptParams → Call (Unit {0})
create_delivery_attempt env params = run (Attempts.create_delivery_attempt env.storable params)

unfoldable pub get_delivery_attempts_by_event : String → Call (List DeliveryAttempt)
get_delivery_attempts_by_event event_id = run (Attempts.get_delivery_attempts_by_event event_id)

unfoldable pub get_delivery_attempts_by_endpoint : String → ℕ → Call (List DeliveryAttempt)
get_delivery_attempts_by_endpoint endpoint_id limit =
    run (Attempts.get_delivery_attempts_by_endpoint endpoint_id limit)

unfoldable pub get_retryable_attempts : ℕ → ℕ → Call (List DeliveryAttempt)
get_retryable_attempts before limit = run (Attempts.get_retryable_attempts before limit)
