-- ===== src/Store/Interfaces.antt =====
-- internal/store/interfaces.go: what a client of the store can call, and NewPostgresStore of
-- internal/store/postgres.go, which offers it on the database.
pub mod Lawful
use hookman.Common.{ℕ, String, List, Option}
use hookman.World.{Env, Call}
use hookman.Store.Models.{Event, Endpoint, DeliveryAttempt}
use hookman.Store.Queries.Events.{
  CreateEventParams, ListEventsParams, UpdateEventStatusParams, GetDeadEventsParams, StatusCount,
}
use hookman.Store.Queries.Endpoints.{CreateEndpointParams, UpdateEndpointParams}
use hookman.Store.Queries.Attempts.{CreateDeliveryAttemptParams}
use hookman.Store.Postgres as Postgres

pub record EventStore : Type 0 where
  pub create_event : CreateEventParams → Call (Unit {0})
  pub get_event : String → Call Event
  pub get_event_by_idempotency_key : Option String → Call Event
  pub list_events : ListEventsParams → Call (List Event)
  pub update_event_status : UpdateEventStatusParams → Call (Unit {0})
  pub get_pending_events : ℕ → Call (List Event)
  pub get_dead_events : GetDeadEventsParams → Call (List Event)
  pub count_events_by_status : Call (List StatusCount)
  pub bulk_replay_dead_events : Call ℕ
  pub purge_dead_events : Call ℕ

pub record EndpointStore : Type 0 where
  pub create_endpoint : CreateEndpointParams → Call (Unit {0})
  pub get_endpoint : String → Call Endpoint
  pub list_endpoints : Call (List Endpoint)
  pub update_endpoint : UpdateEndpointParams → Call (Unit {0})
  pub delete_endpoint : String → Call (Unit {0})
  pub get_endpoints_by_topic : String → Call (List Endpoint)

pub record DeliveryStore : Type 0 where
  pub create_delivery_attempt : CreateDeliveryAttemptParams → Call (Unit {0})
  pub get_delivery_attempts_by_event : String → Call (List DeliveryAttempt)
  pub get_delivery_attempts_by_endpoint : String → ℕ → Call (List DeliveryAttempt)
  pub get_retryable_attempts : ℕ → ℕ → Call (List DeliveryAttempt)

pub record Store : Type 0 where
  pub events : EventStore
  pub endpoints : EndpointStore
  pub deliveries : DeliveryStore

-- The methods of PostgresStore as an implementation of the interface.
unfoldable pub new_postgres_store : Env → Store
new_postgres_store env = record {
  events = record {
    create_event = Postgres.create_event;
    get_event = Postgres.get_event;
    get_event_by_idempotency_key = Postgres.get_event_by_idempotency_key;
    list_events = Postgres.list_events;
    update_event_status = Postgres.update_event_status;
    get_pending_events = Postgres.get_pending_events;
    get_dead_events = Postgres.get_dead_events;
    count_events_by_status = Postgres.count_events_by_status;
    bulk_replay_dead_events = Postgres.bulk_replay_dead_events;
    purge_dead_events = Postgres.purge_dead_events;
  };
  endpoints = record {
    create_endpoint = Postgres.create_endpoint;
    get_endpoint = Postgres.get_endpoint;
    list_endpoints = Postgres.list_endpoints;
    update_endpoint = Postgres.update_endpoint;
    delete_endpoint = Postgres.delete_endpoint;
    get_endpoints_by_topic = Postgres.get_endpoints_by_topic env;
  };
  deliveries = record {
    create_delivery_attempt = Postgres.create_delivery_attempt env;
    get_delivery_attempts_by_event = Postgres.get_delivery_attempts_by_event;
    get_delivery_attempts_by_endpoint = Postgres.get_delivery_attempts_by_endpoint;
    get_retryable_attempts = Postgres.get_retryable_attempts;
  };
}
