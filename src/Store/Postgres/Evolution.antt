-- ===== src/Store/Postgres/Evolution.antt =====
-- The methods of internal/store/postgres.go and the changes that they make to the tables.
use hookman.Common.{
  ℕ, String, ◌≡◌, inl, inr, Bool, true, ◌==◌, List, Option, none, some, arith, subst, sym,
}
use hookman.World.{Env, World, run}
use hookman.World.Runs.{run-Ran}
use hookman.Store.Models.{Db, ok, Statement}
use hookman.Store.Integrity.{
  Writes, done, next, creates_event, updates_status, replays, purges, creates_endpoint,
  updates_endpoint, deletes_endpoint, creates_attempt, has_attempt, IsKnown,
}
use hookman.Store.Queries.Events as Events
use hookman.Store.Queries.Endpoints as Endpoints
use hookman.Store.Queries.Attempts as Attempts
use hookman.Store.Postgres

-- The tables of the second world come from those of the first by lawful statements.
abbrev pub Evolves : Env → World → World → Type 0
Evolves env w w' = Writes env.storable w.db w'.db

pub Writes-trans :
    {storable : List ℕ → Bool} {db mid db' : Db}
    → Writes storable db mid
    → Writes storable mid db'
    → Writes storable db db'
Writes-trans ws done = ws
Writes-trans ws (next vs v) = next (Writes-trans ws vs) v

-- A statement that only reads.
abbrev IsRead : {A : Type 0} → Statement A → Type 0
IsRead {A} s = (now : ℕ) (db db' : Db) (a : A) → s now db ≡ ok (a, db') → db' ≡ db

module _ (env : Env) where
  abbrev IsLawful : {A : Type 0} → Statement A → World → Type 0
  IsLawful {A} s w = (a : A) (db : Db) → s w.now w.db ≡ ok (a, db) → Writes env.storable w.db db

  run-Evolves :
      {A : Type 0} (s : Statement A) (w : World) → IsLawful s w → Evolves env w (run s w).1
  run-Evolves s w lawful = elim (run-Ran s w) [
    | inl e ↦ rw e done
    | inr (a, db, q, e) ↦ rw e (lawful a db q)
  ]

  read-Evolves : {A : Type 0} (s : Statement A) (w : World) → IsRead s → Evolves env w (run s w).1
  read-Evolves s w r =
      run-Evolves s w (λ a db q. subst (Writes env.storable w.db) (sym (r w.now w.db db a q)) done)

one-IsRead : {A : Type 0} (o : Option A) → IsRead (Events.one o)
one-IsRead none now db db' a e = cc
one-IsRead (some x) now db db' a e = ground arith

module _ (env : Env) (w : World) where
  pub get_event-Evolves : (id : String) → Evolves env w (Postgres.get_event id w).1
  unfolding Postgres.get_event Events.get_event
  get_event-Evolves id =
      read-Evolves env (Events.get_event id) w (λ now db db' a e. one-IsRead _ now db db' a e)

  pub get_event_by_idempotency_key-Evolves :
      (key : Option String) → Evolves env w (Postgres.get_event_by_idempotency_key key w).1
  unfolding Postgres.get_event_by_idempotency_key Events.get_event_by_idempotency_key
  get_event_by_idempotency_key-Evolves key =
      read-Evolves env (Events.get_event_by_idempotency_key key) w
        (λ now db db' a e. one-IsRead _ now db db' a e)

  pub list_events-Evolves :
      (p : Events.ListEventsParams) → Evolves env w (Postgres.list_events p w).1
  unfolding Postgres.list_events Events.list_events
  list_events-Evolves p = read-Evolves env (Events.list_events p) w (λ now db db' a e. ground arith)

  pub get_pending_events-Evolves :
      (limit : ℕ) → Evolves env w (Postgres.get_pending_events limit w).1
  unfolding Postgres.get_pending_events Events.get_pending_events
  get_pending_events-Evolves limit =
      read-Evolves env (Events.get_pending_events limit) w (λ now db db' a e. ground arith)

  pub get_dead_events-Evolves :
      (p : Events.GetDeadEventsParams) → Evolves env w (Postgres.get_dead_events p w).1
  unfolding Postgres.get_dead_events Events.get_dead_events
  get_dead_events-Evolves p =
      read-Evolves env (Events.get_dead_events p) w (λ now db db' a e. ground arith)

  pub count_events_by_status-Evolves : Evolves env w (Postgres.count_events_by_status w).1
  unfolding Postgres.count_events_by_status Events.count_events_by_status
  count_events_by_status-Evolves =
      read-Evolves env Events.count_events_by_status w (λ now db db' a e. ground arith)

  pub get_endpoint-Evolves : (id : String) → Evolves env w (Postgres.get_endpoint id w).1
  unfolding Postgres.get_endpoint Endpoints.get_endpoint
  get_endpoint-Evolves id =
      read-Evolves env (Endpoints.get_endpoint id) w (λ now db db' a e. one-IsRead _ now db db' a e)

  pub list_endpoints-Evolves : Evolves env w (Postgres.list_endpoints w).1
  unfolding Postgres.list_endpoints Endpoints.list_endpoints
  list_endpoints-Evolves =
      read-Evolves env Endpoints.list_endpoints w (λ now db db' a e. ground arith)

  pub get_endpoints_by_topic-Evolves :
      (topic : String) → Evolves env w (Postgres.get_endpoints_by_topic env topic w).1
  unfolding Postgres.get_endpoints_by_topic Endpoints.get_endpoints_by_topic
  get_endpoints_by_topic-Evolves topic =
      read-Evolves env (Endpoints.get_endpoints_by_topic env.bind_topic _) w
        (λ now db db' a e. ground arith)

  pub get_delivery_attempts_by_event-Evolves :
      (id : String) → Evolves env w (Postgres.get_delivery_attempts_by_event id w).1
  unfolding Postgres.get_delivery_attempts_by_event Attempts.get_delivery_attempts_by_event
  get_delivery_attempts_by_event-Evolves id =
      read-Evolves env (Attempts.get_delivery_attempts_by_event id) w
        (λ now db db' a e. ground arith)

  pub get_delivery_attempts_by_endpoint-Evolves :
      (id : String) (limit : ℕ)
      → Evolves env w (Postgres.get_delivery_attempts_by_endpoint id limit w).1
  unfolding Postgres.get_delivery_attempts_by_endpoint Attempts.get_delivery_attempts_by_endpoint
  get_delivery_attempts_by_endpoint-Evolves id limit =
      read-Evolves env (Attempts.get_delivery_attempts_by_endpoint id limit) w
        (λ now db db' a e. ground arith)

  pub get_retryable_attempts-Evolves :
      (before limit : ℕ) → Evolves env w (Postgres.get_retryable_attempts before limit w).1
  unfolding Postgres.get_retryable_attempts Attempts.get_retryable_attempts
  get_retryable_attempts-Evolves before limit =
      read-Evolves env (Attempts.get_retryable_attempts before limit) w
        (λ now db db' a e. ground arith)

  pub create_event-Evolves :
      (p : Events.CreateEventParams)
      → p.status ≡ Events.pending
      → Evolves env w (Postgres.create_event p w).1
  unfolding Postgres.create_event
  create_event-Evolves p lawful =
      run-Evolves env (Events.create_event p) w
        (λ a db q. next done (creates_event p w.now lawful q))

  pub update_event_status-Evolves :
      (p : Events.UpdateEventStatusParams)
      → IsKnown p.status
      → ((p.status == Events.dead) ≡ true → has_attempt p.id w.db ≡ true)
      → Evolves env w (Postgres.update_event_status p w).1
  unfolding Postgres.update_event_status
  update_event_status-Evolves p known lawful =
      run-Evolves env (Events.update_event_status p) w
        (λ a db q. next done (updates_status p w.now known lawful q))

  pub bulk_replay_dead_events-Evolves : Evolves env w (Postgres.bulk_replay_dead_events w).1
  unfolding Postgres.bulk_replay_dead_events
  bulk_replay_dead_events-Evolves =
      run-Evolves env Events.bulk_replay_dead_events w (λ n db q. next done (replays n w.now q))

  pub purge_dead_events-Evolves : Evolves env w (Postgres.purge_dead_events w).1
  unfolding Postgres.purge_dead_events
  purge_dead_events-Evolves =
      run-Evolves env Events.purge_dead_events w (λ n db q. next done (purges n w.now q))

  pub create_endpoint-Evolves :
      (p : Endpoints.CreateEndpointParams) → Evolves env w (Postgres.create_endpoint p w).1
  unfolding Postgres.create_endpoint
  create_endpoint-Evolves p =
      run-Evolves env (Endpoints.create_endpoint p) w
        (λ a db q. next done (creates_endpoint p w.now q))

  pub update_endpoint-Evolves :
      (p : Endpoints.UpdateEndpointParams) → Evolves env w (Postgres.update_endpoint p w).1
  unfolding Postgres.update_endpoint
  update_endpoint-Evolves p =
      run-Evolves env (Endpoints.update_endpoint p) w
        (λ a db q. next done (updates_endpoint p w.now q))

  pub delete_endpoint-Evolves : (id : String) → Evolves env w (Postgres.delete_endpoint id w).1
  unfolding Postgres.delete_endpoint
  delete_endpoint-Evolves id =
      run-Evolves env (Endpoints.delete_endpoint id) w
        (λ a db q. next done (deletes_endpoint id w.now q))

  pub create_delivery_attempt-Evolves :
      (p : Attempts.CreateDeliveryAttemptParams)
      → Evolves env w (Postgres.create_delivery_attempt env p w).1
  unfolding Postgres.create_delivery_attempt
  create_delivery_attempt-Evolves p =
      run-Evolves env (Attempts.create_delivery_attempt env.storable p) w
        (λ a db q. next done (creates_attempt p w.now q))
