-- ===== src/Worker/Pool/Outcome.antt =====
-- The tables after one job (processJob of internal/worker/pool.go).
use hookman.Common.{
  ℕ, String, ◌≡◌, refl, inl, inr, List, [], ◌∷◌, ◌++◌, ◌==◌, Option, none, some, arith,
  if◌then◌else◌, Bool-cases, Option-cases, ap,
}
use hookman.World.{Env, World, measure}
use hookman.World.Runs.{run-ok, run-served, run-rest}
use hookman.Id.{new_delivery_attempt}
use hookman.Delivery.Deliver.{DeliveryJob, DeliveryResult, Client, deliver}
use hookman.Metrics.{record_delivery_attempt}
use hookman.Store.Models.{Event, Db, Result, ok, err}
use hookman.Store.Sql.{update_where}
use hookman.Store.Queries.Events as Events
use hookman.Store.Queries.Events.{set_status, delivered, dead, has_status}
use hookman.Store.Queries.Attempts as Attempts
use hookman.Store.Queries.Attempts.{attempt_of, retryable, get_retryable_attempts, is_due}
use hookman.Store.Postgres.{create_delivery_attempt, update_event_status, update_status_params}
use hookman.Worker.Pool.{
  update_status, after_attempt, attempt_params, record_attempt, process_job, status_of,
}

-- The status that a recorded attempt gives to its event, if it gives one.
abbrev pub verdict : DeliveryResult → Option String
verdict r =
    if r.success then some "delivered" else elim r.retry_at [ none ↦ some "dead" | some t ↦ none ]

abbrev pub marked : Option String → String → ℕ → List Event → List Event
marked none id now events = events
marked (some status) id now events = update_where (λ e. e.id == id) (set_status status now) events

-- The tables when an attempt was recorded and the later calls are served.
pub record IsRecorded (job : DeliveryJob) (id : String) (r : DeliveryResult) (now : ℕ) (db db' : Db)
    : Type 0 where
  pub attempts : db'.attempts ≡ db.attempts ++ attempt_of (attempt_params id job r) now ∷ []
  pub events : db'.events ≡ marked (verdict r) job.event_id now db.events
  pub endpoints : db'.endpoints ≡ db.endpoints

update_event_status-served :
    (p : Events.UpdateEventStatusParams) (w : World)
    → w.faults ≡ []
    → update_event_status p w ≡ (
      ok tt,
      record w {
        db = record w.db {
          events = update_where (λ e. e.id == p.id) (set_status p.status w.now) w.db.events;
        };
      },
    )
unfolding update_event_status Events.update_event_status
update_event_status-served p w f = rw (run-served (Events.update_event_status p) w f) refl

-- The tables with the verdict, and no fault ahead.
abbrev Judged : DeliveryJob → DeliveryResult → World → World → Type 0
Judged job r w w' =
    (w'.db ≡ record w.db { events = marked (verdict r) job.event_id w.now w.db.events })
    × (w'.faults ≡ [])

update_status-Judged :
    (job : DeliveryJob) (r : DeliveryResult) (w : World)
    → w.faults ≡ []
    → Judged job r w (update_status job r w)
unfolding update_status
update_status-Judged job r w f = elim (Bool-cases r.success) [
  | inl s ↦
      rw
        (
          s,
          update_status,
          update_event_status-served (update_status_params job.event_id delivered) w f,
        )
        (refl, f)
  | inr s ↦ elim (Option-cases r.retry_at) [
    | inl q ↦
        rw
          (
            s,
            q,
            update_status,
            update_event_status-served (update_status_params job.event_id dead) w f,
          )
          (refl, f)
    | inr (t, q) ↦ rw (s, q, update_status) (refl, f)
  ]
]

after_attempt-Judged :
    (job : DeliveryJob) (r : DeliveryResult) (c : Result (Unit {0}) × World)
    → c.0 ≡ ok tt
    → c.1.faults ≡ []
    → Judged job r c.1 (after_attempt job r c)
unfolding after_attempt
after_attempt-Judged job r (ok u, w) e f =
    update_status-Judged job r (measure (record_delivery_attempt (status_of r) r.duration_ms) w) f
after_attempt-Judged job r (err x, w) e f = cc

after_attempt-err :
    (job : DeliveryJob) (r : DeliveryResult) (c : Result (Unit {0}) × World)
    → ¬ (c.0 ≡ ok tt)
    → after_attempt job r c ≡ c.1
unfolding after_attempt
after_attempt-err job r (ok u, w) e = absurd (e refl)
after_attempt-err job r (err x, w) e = refl

module _ (env : Env) where
  record_attempt-db :
      (job : DeliveryJob) (r : DeliveryResult) (w : World)
      → (record_attempt env job r w).0 ≡ ok tt
      → ((record_attempt env job r w).1.db ≡ record w.db {
        attempts =
            w.db.attempts
            ++ attempt_of (attempt_params (new_delivery_attempt env w).0 job r) w.now ∷ [];
      })
        × ((record_attempt env job r w).1.now ≡ w.now)
  unfolding record_attempt create_delivery_attempt Attempts.create_delivery_attempt
      new_delivery_attempt
  record_attempt-db job r w e =
      let params = attempt_params (new_delivery_attempt env w).0 job r in
      let w' = (new_delivery_attempt env w).1 in
      let s = Attempts.create_delivery_attempt env.storable params in
      let (db, q, same) = run-ok s w' tt e in
      let rows : record w.db { attempts = w.db.attempts ++ attempt_of params w.now ∷ [] } ≡ db =
        ground arith in
      (rw (same, rows) refl, (run-rest s w').0)

  record_attempt-faults :
      (job : DeliveryJob) (r : DeliveryResult) (w : World)
      → w.faults ≡ []
      → (record_attempt env job r w).1.faults ≡ []
  unfolding record_attempt create_delivery_attempt new_delivery_attempt
  record_attempt-faults job r w f = ground (
    arith,
    run-rest
        (Attempts.create_delivery_attempt env.storable
          (attempt_params (new_delivery_attempt env w).0 job r))
        (new_delivery_attempt env w).1,
  )

  module _ (client : Client) (elapsed : ℕ) (job : DeliveryJob) (w : World) where
    abbrev outcome : DeliveryResult
    outcome = deliver env.hmac client job elapsed w.now

    -- If no call is lost, a job whose attempt is recorded adds exactly that row, leaves the
    -- endpoints, and gives its event the status "delivered" after a success, "dead" after a failure
    -- with no retry left, and none after any other failure.
    pub process_job-IsRecorded :
        w.faults ≡ []
        → (record_attempt env job outcome w).0 ≡ ok tt
        → IsRecorded job
            (new_delivery_attempt env w).0
            outcome
            w.now
            w.db
            (process_job env client elapsed job w).db
    unfolding process_job
    process_job-IsRecorded f e =
        let (rows, time) = record_attempt-db job outcome w e in
        let final =
          (after_attempt-Judged job outcome (record_attempt env job outcome w) e
            (record_attempt-faults job outcome w f)).0 in
        rw final (record {
          attempts = ap (λ d. d.attempts) rows;
          events = rw (rows, time) refl;
          endpoints = ap (λ d. d.endpoints) rows;
        })

    -- A job loses no call that was served before it.
    pub process_job-faults :
        w.faults ≡ []
        → (record_attempt env job outcome w).0 ≡ ok tt
        → (process_job env client elapsed job w).faults ≡ []
    unfolding process_job
    process_job-faults f e =
        (after_attempt-Judged job outcome (record_attempt env job outcome w) e
          (record_attempt-faults job outcome w f)).1

    -- A job whose attempt cannot be recorded does no more: its event keeps its status.
    process_job-unrecorded :
        ¬ ((record_attempt env job outcome w).0 ≡ ok tt)
        → process_job env client elapsed job w ≡ (record_attempt env job outcome w).1
    unfolding process_job
    process_job-unrecorded e = after_attempt-err job outcome (record_attempt env job outcome w) e
