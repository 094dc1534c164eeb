-- ===== src/Worker/Lifecycle.antt =====
-- From a pending event to a delivered one: a round of the poller, internal/worker/poller.go, and
-- one of the jobs that it sends, internal/worker/pool.go.
use hookman.Common.{
  ℕ, String, Bool, ◌≡◌, refl, inl, inr, true, ◌&&◌, List, [], ◌∷◌, ◌==◌, arith, any, In, Bool-cases,
  eq_refl, map,
}
use hookman.World.{Env, World}
use hookman.Delivery.Deliver.{DeliveryJob, Client, deliver}
use hookman.Store.Models.{Event, Endpoint, Db, ok}
use hookman.Store.Integrity.{Writes}
use hookman.Store.Integrity.Log.{posted, log_of, Writes-log_of}
use hookman.Store.Integrity.Dead.{DeadAreAttempted}
use hookman.Store.Postgres.Evolution.{Evolves, Writes-trans}
use hookman.Worker.Poller.Evolution.{poll_pending_events-Evolves}
use hookman.Store.Sql.{update_where}
use hookman.Store.Sql.Members.{any-In, any-append, In-map, In-append_left, In-append_right}
use hookman.Store.Queries.Events.{set_status, has_status, delivered, get_pending_events}
use hookman.Store.Queries.Events.Pending.{get_pending_events-In}
use hookman.Worker.Poller.{Poller, Polling, poll_pending_events}
use hookman.Worker.Poller.Jobs.{IsCalm, attempt_one, subscribers, jobs_for, poll_pending_events_lem}
use hookman.Worker.Pool.{record_attempt, process_job, attempt_params}
use hookman.Worker.Pool.Outcome.{process_job-IsRecorded}

-- Lawful statements take no event away.
any-posted :
    (id : String) (events : List Event)
    → any (λ q. q.id == id) (map posted events) ≡ any (λ e. e.id == id) events
any-posted id [] = refl
any-posted id (e ∷ es) = rw (any-posted id es) refl

Writes-any :
    (storable : List ℕ → Bool) (db : Db) {db' : Db}
    → Writes storable db db'
    → DeadAreAttempted db
    → (id : String) → any (λ e. e.id == id) db.events ≡ true
    → any (λ e. e.id == id) db'.events ≡ true
Writes-any storable db {db'} ws h id there =
    let (more, longer) = Writes-log_of storable db ws h in
    rw
      (
        ← any-posted id db'.events,
        longer,
        any-append (λ q. q.id == id) (log_of db) more,
        any-posted id db.events,
        there,
      )
      refl

-- An event of the table that is marked delivered is there as delivered.
marked_delivered :
    (id : String) (now : ℕ) (events : List Event)
    → any (λ e. e.id == id) events ≡ true
    → any
        (λ e. e.id == id && has_status delivered e)
        (update_where (λ e. e.id == id) (set_status delivered now) events)
      ≡ true
marked_delivered id now [] h = cc
marked_delivered id now (e ∷ es) h = elim (Bool-cases (e.id == id)) [
  | inl q ↦ rw q (ground arith)
  | inr q ↦ rw (q, marked_delivered id now es (ground arith)) (ground arith)
]

module _ (env : Env) (p : Poller) where
  jobs_for-In :
      (endpoints : List Endpoint) (batch : List Event) (event : Event) (ep : Endpoint)
      → In event batch
      → In ep (subscribers env endpoints event)
      → In (attempt_one env p event ep) (jobs_for env p endpoints batch)
  jobs_for-In endpoints [] event ep m k = absurd m
  jobs_for-In endpoints (e ∷ es) event ep (inl m) k = rw (← m) (
      In-append_left _ (jobs_for env p endpoints es) _
        (In-map (attempt_one env p event) (subscribers env endpoints event) ep k))
  jobs_for-In endpoints (e ∷ es) event ep (inr m) k =
      In-append_right (map (attempt_one env p e) (subscribers env endpoints e)) _ _
        (jobs_for-In endpoints es event ep m k)

  module _ (client : Client) (elapsed : ℕ) (event : Event) (ep : Endpoint) where
    abbrev job : DeliveryJob
    job = attempt_one env p event ep

    -- A recorded success of the job in a state whose events hold its event.
    success_is_kept :
        (w : World)
        → w.faults ≡ []
        → any (λ e. e.id == event.id) w.db.events ≡ true
        → (deliver env.hmac client job elapsed w.now).success ≡ true
        → (record_attempt env job (deliver env.hmac client job elapsed w.now) w).0 ≡ ok tt
        → (any
              (λ e. e.id == event.id && has_status delivered e)
              (process_job env client elapsed job w).db.events
            ≡ true)
          × (any
                (λ a. a.event_id == event.id && a.endpoint_id == ep.id && a.status == "success")
                (process_job env client elapsed job w).db.attempts
              ≡ true)
    unfolding attempt_params
    success_is_kept w f there s e =
        let done = process_job-IsRecorded env client elapsed job w f e in
        let events' : (process_job env client elapsed job w).db.events
            ≡ update_where (λ x. x.id == event.id) (set_status delivered w.now) w.db.events =
          rw (done.events, s) refl in
        (
          rw events' (marked_delivered event.id w.now w.db.events there),
          rw done.attempts (
              rw (any-append _ w.db.attempts _, s, eq_refl event.id, eq_refl ep.id) (ground arith)),
        )

    -- If no call is lost and the context is not cancelled, and every dead event has an attempt, as in
    -- every reachable state: a round sends a job with attempt number 1 for each event of its batch and
    -- each subscriber of it. Whatever lawful statements then change the tables, once that job gets a
    -- 2xx answer and its attempt is recorded, the event is in the table as delivered, with a successful
    -- attempt at that endpoint.
    pub pending_event_is_delivered :
        (s : Polling) (batch : List Event)
        → IsCalm s
        → DeadAreAttempted s.world.db
        → get_pending_events p.batch_size s.world.now s.world.db ≡ ok (batch, s.world.db)
        → In event batch
        → In ep (subscribers env s.world.db.endpoints event)
        → (w : World) → w.faults ≡ []
        → Evolves env (poll_pending_events env p s).world w
        → (deliver env.hmac client job elapsed w.now).success ≡ true
        → (record_attempt env job (deliver env.hmac client job elapsed w.now) w).0 ≡ ok tt
        → In job (poll_pending_events env p s).jobs
          × (any
                (λ e. e.id == event.id && has_status delivered e)
                (process_job env client elapsed job w).db.events
              ≡ true)
          × (any
                (λ a. a.event_id == event.id && a.endpoint_id == ep.id && a.status == "success")
                (process_job env client elapsed job w).db.attempts
              ≡ true)
    pending_event_is_delivered s batch c dead_known q m k w f writes won e =
        let (jobs, tables) = poll_pending_events_lem env p s batch c q in
        let sent =
          In-append_right s.jobs (jobs_for env p s.world.db.endpoints batch) job
            (jobs_for-In s.world.db.endpoints batch event ep m k) in
        let here =
          any-In (λ x. x.id == event.id) s.world.db.events event
            (get_pending_events-In p.batch_size s.world.now s.world.db batch event q m).0
            (eq_refl event.id) in
        let start = poll_pending_events-Evolves env p s in
        let kept =
          Writes-any env.storable s.world.db (Writes-trans start writes) dead_known event.id here in
        let (final, row) = success_is_kept w f kept won e in (rw jobs sent, final, row)
