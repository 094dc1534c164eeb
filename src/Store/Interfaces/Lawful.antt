-- ===== src/Store/Interfaces/Lawful.antt =====
-- Clients of the store, whoever they are, call by call.
use hookman.Common.{ℕ, Bool, List, String, ◌≡◌, true, ◌==◌, Option}
use hookman.World.{Env, World}
use hookman.Store.Models.{Db}
use hookman.Store.Integrity.{IsConsistent, IsKnown, has_attempt, Writes, done}
use hookman.Store.Integrity.Preserved.{Writes-IsConsistent}
use hookman.Store.Integrity.Log.{
  StatusesAreKnown, Writes-StatusesAreKnown, log_of, Extends, Writes-log_of,
}
use hookman.Store.Integrity.Dead.{DeadAreAttempted, Writes-DeadAreAttempted}
use hookman.Store.Queries.Events.{
  CreateEventParams, ListEventsParams, UpdateEventStatusParams, GetDeadEventsParams, pending, dead,
}
use hookman.Store.Queries.Endpoints.{CreateEndpointParams, UpdateEndpointParams}
use hookman.Store.Queries.Attempts.{CreateDeliveryAttemptParams}
use hookman.Store.Postgres.Evolution.{
  Evolves, Writes-trans, create_event-Evolves, get_event-Evolves,
  get_event_by_idempotency_key-Evolves, list_events-Evolves, update_event_status-Evolves,
  get_pending_events-Evolves, get_dead_events-Evolves, count_events_by_status-Evolves,
  bulk_replay_dead_events-Evolves, purge_dead_events-Evolves, create_endpoint-Evolves,
  get_endpoint-Evolves, list_endpoints-Evolves, update_endpoint-Evolves, delete_endpoint-Evolves,
  get_endpoints_by_topic-Evolves, create_delivery_attempt-Evolves,
  get_delivery_attempts_by_event-Evolves, get_delivery_attempts_by_endpoint-Evolves,
  get_retryable_attempts-Evolves,
}
use hookman.Store.Interfaces.{Store, new_postgres_store}

-- One call of the store, under what its callers in this program see to: an event is created
-- pending, a status is one of the four, and dead only where an attempt is on record.
pub data Uses (store : Store) : World → World → Type 0 where
  creates_event :
      {w : World} (p : CreateEventParams)
      → p.status ≡ pending
      → Uses store w (store.events.create_event p w).1
  gets_event : {w : World} (id : String) → Uses store w (store.events.get_event id w).1
  gets_event_by_idempotency_key :
      {w : World} (key : Option String)
      → Uses store w (store.events.get_event_by_idempotency_key key w).1
  lists_events : {w : World} (p : ListEventsParams) → Uses store w (store.events.list_events p w).1
  updates_event_status :
      {w : World} (p : UpdateEventStatusParams)
      → IsKnown p.status
      → ((p.status == dead) ≡ true → has_attempt p.id w.db ≡ true)
      → Uses store w (store.events.update_event_status p w).1
  gets_pending_events :
      {w : World} (limit : ℕ) → Uses store w (store.events.get_pending_events limit w).1
  gets_dead_events :
      {w : World} (p : GetDeadEventsParams) → Uses store w (store.events.get_dead_events p w).1
  counts_events_by_status : {w : World} → Uses store w (store.events.count_events_by_status w).1
  replays_dead_events : {w : World} → Uses store w (store.events.bulk_replay_dead_events w).1
  purges_dead_events : {w : World} → Uses store w (store.events.purge_dead_events w).1
  creates_endpoint :
      {w : World} (p : CreateEndpointParams) → Uses store w (store.endpoints.create_endpoint p w).1
  gets_endpoint : {w : World} (id : String) → Uses store w (store.endpoints.get_endpoint id w).1
  lists_endpoints : {w : World} → Uses store w (store.endpoints.list_endpoints w).1
  updates_endpoint :
      {w : World} (p : UpdateEndpointParams) → Uses store w (store.endpoints.update_endpoint p w).1
  deletes_endpoint :
      {w : World} (id : String) → Uses store w (store.endpoints.delete_endpoint id w).1
  gets_endpoints_by_topic :
      {w : World} (topic : String) → Uses store w (store.endpoints.get_endpoints_by_topic topic w).1
  creates_delivery_attempt :
      {w : World} (p : CreateDeliveryAttemptParams)
      → Uses store w (store.deliveries.create_delivery_attempt p w).1
  gets_attempts_by_event :
      {w : World} (id : String)
      → Uses store w (store.deliveries.get_delivery_attempts_by_event id w).1
  gets_attempts_by_endpoint :
      {w : World} (id : String) (limit : ℕ)
      → Uses store w (store.deliveries.get_delivery_attempts_by_endpoint id limit w).1
  gets_retryable_attempts :
      {w : World} (before limit : ℕ)
      → Uses store w (store.deliveries.get_retryable_attempts before limit w).1

-- Calls in the order in which the database serves them, whoever makes them. Between two calls only
-- the tables stay: time passes, identifiers are drawn, and faults come and go.
pub data Session (store : Store) : World → World → Type 0 where
  idle : {w : World} → (w' : World) → w'.db ≡ w.db → Session store w w'
  call :
      {w mid w' : World}
      → Session store w mid
      → Uses store mid w'
      → (next_world : World) → next_world.db ≡ w'.db
      → Session store w next_world

-- The law of a store: each call changes the tables by lawful statements only.
abbrev pub IsLawful : Env → Store → Type 0
IsLawful env store = (w w' : World) → Uses store w w' → Evolves env w w'

new_postgres_store-IsLawful : (env : Env) → IsLawful env (new_postgres_store env)
unfolding new_postgres_store
new_postgres_store-IsLawful env w _ (creates_event p h) = create_event-Evolves env w p h
new_postgres_store-IsLawful env w _ (gets_event id) = get_event-Evolves env w id
new_postgres_store-IsLawful env w _ (gets_event_by_idempotency_key key) =
    get_event_by_idempotency_key-Evolves env w key
new_postgres_store-IsLawful env w _ (lists_events p) = list_events-Evolves env w p
new_postgres_store-IsLawful env w _ (updates_event_status p h k) =
    update_event_status-Evolves env w p h k
new_postgres_store-IsLawful env w _ (gets_pending_events limit) =
    get_pending_events-Evolves env w limit
new_postgres_store-IsLawful env w _ (gets_dead_events p) = get_dead_events-Evolves env w p
new_postgres_store-IsLawful env w _ (counts_events_by_status) = count_events_by_status-Evolves env w
new_postgres_store-IsLawful env w _ (replays_dead_events) = bulk_replay_dead_events-Evolves env w
new_postgres_store-IsLawful env w _ (purges_dead_events) = purge_dead_events-Evolves env w
new_postgres_store-IsLawful env w _ (creates_endpoint p) = create_endpoint-Evolves env w p
new_postgres_store-IsLawful env w _ (gets_endpoint id) = get_endpoint-Evolves env w id
new_postgres_store-IsLawful env w _ (lists_endpoints) = list_endpoints-Evolves env w
new_postgres_store-IsLawful env w _ (updates_endpoint p) = update_endpoint-Evolves env w p
new_postgres_store-IsLawful env w _ (deletes_endpoint id) = delete_endpoint-Evolves env w id
new_postgres_store-IsLawful env w _ (gets_endpoints_by_topic topic) =
    get_endpoints_by_topic-Evolves env w topic
new_postgres_store-IsLawful env w _ (creates_delivery_attempt p) =
    create_delivery_attempt-Evolves env w p
new_postgres_store-IsLawful env w _ (gets_attempts_by_event id) =
    get_delivery_attempts_by_event-Evolves env w id
new_postgres_store-IsLawful env w _ (gets_attempts_by_endpoint id limit) =
    get_delivery_attempts_by_endpoint-Evolves env w id limit
new_postgres_store-IsLawful env w _ (gets_retryable_attempts before limit) =
    get_retryable_attempts-Evolves env w before limit

module _ (env : Env) (store : Store) (lawful : IsLawful env store) where
  -- What one call keeps, a session keeps.
  Session-Evolves : (w w' : World) → Session store w w' → Evolves env w w'
  Session-Evolves w _ (idle w' e) = rw e done
  Session-Evolves w _ (call s u w' e) = rw e (Writes-trans (Session-Evolves w _ s) (lawful _ _ u))

-- What holds between two calls.
pub record IsSound (db : Db) : Type 0 where
  pub consistent : IsConsistent db
  pub known : StatusesAreKnown db
  pub attempted : DeadAreAttempted db

Writes-IsSound :
    (storable : List ℕ → Bool) (db db' : Db) → Writes storable db db' → IsSound db → IsSound db'
Writes-IsSound storable db db' ws sound = record {
  consistent = Writes-IsConsistent storable db ws sound.consistent;
  known = Writes-StatusesAreKnown storable db ws sound.known;
  attempted = Writes-DeadAreAttempted storable db ws sound.attempted;
}

-- However the single calls of any clients of the store interleave, and whichever of them are lost:
-- if each client creates events as pending, gives only the four statuses, and dead only where an
-- attempt is on record, then the keys stay unique, the references stay valid, the statuses stay
-- known, each dead event has an attempt, and the log of accepted events only grows.
pub interleaved_calls-IsSound :
    (env : Env) (w w' : World)
    → Session (new_postgres_store env) w w'
    → IsSound w.db
    → IsSound w'.db × Extends (log_of w.db) (log_of w'.db)
interleaved_calls-IsSound env w w' s sound =
    let ws =
      Session-Evolves env (new_postgres_store env) (new_postgres_store-IsLawful env) w w' s in
    (
      Writes-IsSound env.storable w.db w'.db ws sound,
      Writes-log_of env.storable w.db ws sound.attempted,
    )
