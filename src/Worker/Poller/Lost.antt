-- ===== src/Worker/Poller/Lost.antt =====
-- An event that no part of the poller finds: internal/worker/poller.go, whatever calls are lost.
pub mod Rounds
use hookman.Common.{
  ℕ, String, ◌≡◌, refl, inl, inr, Bool, true, false, ◌&&◌, List, [], ◌∷◌, ◌++◌, ◌==◌, Option, none,
  some, map, any, find, arith, zero, suc, Bool-cases, Option-cases, In, eq_iff, ap, ◌∙◌, sym,
}
use hookman.World.{Env, World, run, measure}
use hookman.World.Runs.{run-Ran, run-ok}
use hookman.Delivery.Deliver.{DeliveryJob}
use hookman.Store.Models.{Event, Endpoint, DeliveryAttempt, Result, ok, err, Db, Statement}
use hookman.Store.Sql.{update_where}
use hookman.Store.Sql.Members.{any-append, any-In, any-witness}
use hookman.Store.Integrity.{has_attempt}
use hookman.Store.Queries.Events as Events
use hookman.Store.Queries.Events.{set_status}
use hookman.Store.Queries.Events.Pending.{no_pending_row}
use hookman.Store.Queries.Endpoints as Endpoints
use hookman.Store.Queries.Attempts as Attempts
use hookman.Store.Queries.Attempts.Retryable.{get_retryable_attempts-retryable}
use hookman.Store.Postgres.{
  update_event_status, update_status_params, get_endpoints_by_topic, get_pending_events, get_event,
  get_endpoint, get_retryable_attempts,
}
use hookman.Worker.Poller.{
  Poller, Polling, Signal, tick, done as over, send_within, send, proceed, send_all, first_job,
  retry_job, dispatch, mark_processing, poll_event, poll_events, with_pending, poll_pending_events,
  with_endpoint, with_event, poll_attempt, poll_attempts, with_retryable, poll_retryable_attempts,
  start,
}
use hookman.Worker.Poller.Once.{waits, processing-waits}

-- The event is not pending, no attempt at it is on record, and no job for it has been sent.
pub record IsLost (id : String) (s : Polling) : Type 0 where
  pub unlisted : any (waits id) s.world.db.events ≡ false
  pub untried : has_attempt id s.world.db ≡ false
  pub unsent : any (λ j. j.event_id == id) s.jobs ≡ false

-- A call that only reads leaves the tables, lost or not.
pub reads :
    {A : Type 0} (q : Statement A) (w : World)
    → ((a : A) (db : Db) → q w.now w.db ≡ ok (a, db) → db ≡ w.db)
    → (run q w).1.db ≡ w.db
reads q w only = elim (run-Ran q w) [ inl e ↦ e | inr (a, db, h, e) ↦ e ∙ only a db h ]

-- Rows among others of which none passes a test.
pub none-In :
    {A : Type 0} (test : A → Bool) (rows table : List A)
    → ((a : A) → In a rows → test a ≡ true → any test table ≡ true)
    → any test table ≡ false
    → any test rows ≡ false
none-In test rows table sub none_there = elim (Bool-cases (any test rows)) [
  | inl e ↦ let (a, m, q) = any-witness test rows e in let there = sub a m q in cc
  | inr e ↦ e
]

module _ (id : String) where
  pub at_world :
      (s : Polling) (w : World)
      → w.db ≡ s.world.db
      → IsLost id s
      → IsLost id (record s { world = w })
  at_world s w e l = record {
    unlisted = rw e l.unlisted;
    untried = rw e l.untried;
    unsent = l.unsent;
  }

  appended :
      (s : Polling) (job : DeliveryJob) (left : Option ℕ)
      → job.event_id == id ≡ false
      → IsLost id s
      → IsLost id (record s { jobs = s.jobs ++ job ∷ []; sends_left = left })
  appended s job left e l = record {
    unlisted = l.unlisted;
    untried = l.untried;
    unsent = rw (any-append (λ j. j.event_id == id) s.jobs (job ∷ []), l.unsent, e) refl;
  }

  send_within-IsLost :
      (o : Option ℕ) (job : DeliveryJob) (s : Polling)
      → s.sends_left ≡ o
      → job.event_id == id ≡ false
      → IsLost id s
      → IsLost id (send_within o job s).1
  unfolding send_within
  send_within-IsLost none job s o e l = appended s job s.sends_left e l
  send_within-IsLost (some zero) job s o e l = l
  send_within-IsLost (some (suc n)) job s o e l = appended s job (some n) e l

  pub send-IsLost :
      (job : DeliveryJob) (s : Polling)
      → job.event_id == id ≡ false
      → IsLost id s
      → IsLost id (send job s).1
  unfolding send
  send-IsLost job s e l = send_within-IsLost s.sends_left job s refl e l

  pub proceed-IsLost :
      (rest : Polling → Bool × Polling) (r : Bool × Polling)
      → ((s : Polling) → IsLost id s → IsLost id (rest s).1)
      → IsLost id r.1
      → IsLost id (proceed rest r).1
  proceed-IsLost rest (true, s) h l = h s l
  proceed-IsLost rest (false, s) h l = l

  send_all-IsLost :
      (jobs : List DeliveryJob) (s : Polling)
      → any (λ j. j.event_id == id) jobs ≡ false
      → IsLost id s
      → IsLost id (send_all jobs s).1
  unfolding send_all
  send_all-IsLost [] s e l = l
  send_all-IsLost (job ∷ jobs) s e l =
      proceed-IsLost (send_all jobs) (send job s)
        (λ t k. send_all-IsLost jobs t (ground (arith, e)) k)
        (send-IsLost job s (ground (arith, e)) l)

  module _ (env : Env) (p : Poller) where
    first_jobs-id :
        (event : Event) (eps : List Endpoint)
        → event.id == id ≡ false
        → any (λ j. j.event_id == id) (map (first_job env p event) eps) ≡ false
    unfolding first_job
    first_jobs-id event [] h = refl
    first_jobs-id event (ep ∷ eps) h = rw (h, first_jobs-id event eps h) refl

    pub dispatch-IsLost :
        (event : Event) (eps : List Endpoint) (s : Polling) (r : Result (Unit {0})) (w : World)
        → event.id == id ≡ false
        → IsLost id (record s { world = w })
        → IsLost id (dispatch env p event eps s (r, w)).1
    unfolding dispatch
    dispatch-IsLost event eps s (err e) w h l = l
    dispatch-IsLost event eps s (ok u) w h l =
        send_all-IsLost _ (record s { world = w }) (first_jobs-id event eps h) l

    pub marked-IsLost :
        (event : Event) (s : Polling)
        → IsLost id s
        → IsLost id (record s {
          world = (update_event_status (update_status_params event.id "processing") s.world).1;
        })
    unfolding update_event_status Events.update_event_status
    marked-IsLost event s l =
        elim (run-Ran (Events.update_event_status (update_status_params event.id "processing"))
          s.world) [
            | inl e ↦ at_world s _ e l
            | inr (a, db, q, e) ↦
                let same : db ≡ record s.world.db {
                  events =
                      update_where (λ x. x.id == event.id) (set_status "processing" s.world.now)
                        s.world.db.events;
                } =
                  ground arith in
                record {
                  unlisted =
                      rw (e, same)
                        (processing-waits id event.id s.world.now s.world.db.events l.unlisted);
                  untried = rw (e, same) l.untried;
                  unsent = l.unsent;
                }
          ]
