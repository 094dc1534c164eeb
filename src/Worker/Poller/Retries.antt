-- ===== src/Worker/Poller/Retries.antt =====
-- What a round of the poller sends again.
use hookman.Common.{
  suc, ◌≡◌, refl, ap, ◌∙◌, inl, inr, Bool, true, List, [], ◌∷◌, ◌++◌, Option, none, some, ◌==◌, any,
  find, length, In, arith, Bool-cases, Option-cases,
}
use mathlib.Core.List.{append-nil, append_assoc}
use hookman.Common.Int.{incr}
use hookman.World.{Env}
use hookman.World.Runs.{run-read, run-served}
use hookman.Delivery.Deliver.{DeliveryJob}
use hookman.Store.Models.{Event, Endpoint, DeliveryAttempt, Db, ok}
use hookman.Store.Sql.Members.{All-In}
use hookman.Store.Queries.Events as Events
use hookman.Store.Queries.Endpoints as Endpoints
use hookman.Store.Queries.Attempts as Attempts
use hookman.Store.Queries.Attempts.Retryable.{get_retryable_attempts-retryable}
use hookman.Store.Integrity.{IsConsistent, Refers}
use hookman.Store.Postgres.{get_event, get_endpoint, get_retryable_attempts}
use hookman.Worker.Poller.{
  Poller, Polling, retry_job, with_endpoint, with_event, poll_attempt, poll_attempts,
  with_retryable, poll_retryable_attempts,
}
use hookman.Worker.Poller.Jobs.{IsCalm, send-calm}

module _ (env : Env) (p : Poller) where
  -- The next attempt for a row.
  abbrev pub next_attempt : Event → Endpoint → DeliveryAttempt → DeliveryJob
  next_attempt e ep a = record {
    event_id = e.id;
    endpoint_id = ep.id;
    endpoint_url = ep.url;
    signing_secret = ep.signing_secret;
    payload = e.payload;
    attempt_number = incr a.attempt_number;
    max_retries = p.max_retries;
  }

  -- The job for an attempt, where both rows that it refers to are there.
  abbrev pub retry_of : DeliveryAttempt → Option Event → Option Endpoint → List DeliveryJob
  retry_of a none ep = []
  retry_of a (some e) none = []
  retry_of a (some e) (some ep) = next_attempt e ep a ∷ []

  abbrev pub retries_for : Db → List DeliveryAttempt → List DeliveryJob
  retries_for db [] = []
  retries_for db (a ∷ as') =
      retry_of a (find (λ e. e.id == a.event_id) db.events)
        (find (λ e. e.id == a.endpoint_id) db.endpoints)
      ++ retries_for db as'

  with_jobs : Polling → List DeliveryJob → Bool × Polling
  with_jobs s js = (true, record s { jobs = js })

  poll_attempt-calm :
      (a : DeliveryAttempt) (s : Polling)
      → IsCalm s
      → poll_attempt env p a s ≡ (
        true,
        record s {
          jobs =
              s.jobs
              ++ retry_of a
                  (find (λ e. e.id == a.event_id) s.world.db.events)
                  (find (λ e. e.id == a.endpoint_id) s.world.db.endpoints);
        },
      )
  unfolding poll_attempt with_event with_endpoint retry_job get_event get_endpoint Events.get_event
      Endpoints.get_endpoint
  poll_attempt-calm a s c = elim (Option-cases (find (λ e. e.id == a.event_id) s.world.db.events)) [
    | inl h ↦
        rw (run-served (Events.get_event a.event_id) s.world c.faults, h, append-nil s.jobs) refl
    | inr (e, h) ↦ elim (Option-cases (find (λ x. x.id == a.endpoint_id) s.world.db.endpoints)) [
      | inl k ↦
          rw
            (
              run-served (Events.get_event a.event_id) s.world c.faults,
              h,
              run-served (Endpoints.get_endpoint a.endpoint_id) s.world c.faults,
              k,
              append-nil s.jobs,
            )
            refl
      | inr (ep, k) ↦
          rw
            (
              run-served (Events.get_event a.event_id) s.world c.faults,
              h,
              run-served (Endpoints.get_endpoint a.endpoint_id) s.world c.faults,
              k,
            )
            (send-calm (retry_job env p e ep a) s c.open_ended)
    ]
  ]

  poll_attempts-calm :
      (attempts : List DeliveryAttempt) (s : Polling)
      → IsCalm s
      → poll_attempts env p attempts s
        ≡ (true, record s { jobs = s.jobs ++ retries_for s.world.db attempts })
  unfolding poll_attempts with_jobs
  poll_attempts-calm [] s c = rw (append-nil s.jobs) refl
  poll_attempts-calm (a ∷ as') s c = rw (poll_attempt-calm a s c) (
      poll_attempts-calm as' _ (record { faults = c.faults; open_ended = c.open_ended })
      ∙ ap (with_jobs s) (append_assoc s.jobs _ _))

  find-there :
      {A : Type 0} (test : A → Bool) (xs : List A)
      → any test xs ≡ true
      → (x : A) × (find test xs ≡ some x)
  find-there test [] h = cc
  find-there test (x ∷ xs) h = elim (Bool-cases (test x)) [
    | inl e ↦ (x, rw e refl)
    | inr e ↦ let (y, k) = find-there test xs (ground arith) in (y, rw e k)
  ]

  length-retries_for :
      (db : Db) (rows : List DeliveryAttempt)
      → ((a : DeliveryAttempt) → In a rows → Refers db a)
      → length (retries_for db rows) ≡ length rows
  length-retries_for db [] h = refl
  length-retries_for db (a ∷ as') h =
      let (event, endpoint) = h a (inl refl) in
      let (e, k) = find-there (λ e. e.id == a.event_id) db.events event in
      let (ep, l) = find-there (λ e. e.id == a.endpoint_id) db.endpoints endpoint in
      rw (k, l) (ap suc (length-retries_for db as' (λ b m. h b (inr m))))

  -- If no call is lost, the context is not cancelled and the tables keep their constraints: a round
  -- sends exactly one job for each row of GetRetryableAttempts, with the attempt number one higher,
  -- and changes nothing in the tables.
  pub poll_retryable_attempts_lem :
      (s : Polling) (rows : List DeliveryAttempt)
      → IsCalm s
      → IsConsistent s.world.db
      → Attempts.get_retryable_attempts s.world.now p.batch_size s.world.now s.world.db
        ≡ ok (rows, s.world.db)
      → ((poll_retryable_attempts env p s).jobs ≡ s.jobs ++ retries_for s.world.db rows)
        × (length (retries_for s.world.db rows) ≡ length rows)
        × ((poll_retryable_attempts env p s).world ≡ s.world)
  unfolding poll_retryable_attempts with_retryable get_retryable_attempts
  poll_retryable_attempts_lem s rows c k q =
      let all_there = length-retries_for s.world.db rows λ a m.
        let due =
          get_retryable_attempts-retryable s.world.now p.batch_size s.world.db s.world.now rows
            s.world.db a q m in
        All-In (Refers s.world.db) s.world.db.attempts a k.references due.0 in
      let sent = poll_attempts-calm rows s c in
      rw
        (run-read (Attempts.get_retryable_attempts s.world.now p.batch_size) s.world rows c.faults
          q)
        (ap (λ r. r.1.jobs) sent, all_there, ap (λ r. r.1.world) sent)
