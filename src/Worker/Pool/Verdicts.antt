-- ===== src/Worker/Pool/Verdicts.antt =====
-- Two endpoints of one event, internal/worker/pool.go: a status is the event's, not the delivery's.
use hookman.Common.{
  ℕ, String, ◌≡◌, refl, inl, inr, true, false, not, ◌&&◌, List, [], ◌∷◌, ◌==◌, Option, none, some,
  arith, any, Bool-cases, eq_iff,
}
use hookman.World.{Env, World}
use hookman.Delivery.Deliver.{DeliveryJob, DeliveryResult, Client, deliver}
use hookman.Store.Models.{Event, DeliveryAttempt, ok}
use hookman.Store.Sql.{update_where}
use hookman.Store.Sql.Members.{any-witness}
use hookman.Store.Queries.Events.{set_status, dead, has_status}
use hookman.Store.Queries.Attempts.{retryable, get_retryable_attempts}
use hookman.Store.Queries.Attempts.Retryable.{get_retryable_attempts-retryable}
use hookman.Worker.Pool.{record_attempt, process_job}
use hookman.Worker.Pool.Outcome.{verdict, marked, process_job-IsRecorded, process_job-faults}

-- The later of two statuses is the one that stays.
update_where-twice :
    (id first last : String) (now later : ℕ) (es : List Event)
    → update_where
        (λ e. e.id == id)
        (set_status last later)
        (update_where (λ e. e.id == id) (set_status first now) es)
      ≡ update_where (λ e. e.id == id) (set_status last later) es
update_where-twice id first last now later [] = refl
update_where-twice id first last now later (e ∷ es) = elim (Bool-cases (e.id == id)) [
  | inl h ↦ rw (h, update_where-twice id first last now later es) (rw h refl)
  | inr h ↦ rw (h, update_where-twice id first last now later es) (rw h refl)
]

marked-over :
    (v : Option String) (id last : String) (now later : ℕ) (es : List Event)
    → marked (some last) id later (marked v id now es) ≡ marked (some last) id later es
marked-over none id last now later es = refl
marked-over (some first) id last now later es = update_where-twice id first last now later es

-- An event that was marked dead is not alive.
none_alive :
    (id : String) (now : ℕ) (es : List Event)
    → any
        (λ e. e.id == id && not (has_status dead e))
        (update_where (λ e. e.id == id) (set_status dead now) es)
      ≡ false
none_alive id now [] = refl
none_alive id now (e ∷ es) = elim (Bool-cases (e.id == id)) [
  | inl h ↦ rw (h, none_alive id now es) (rw h refl)
  | inr h ↦ rw (h, none_alive id now es) (rw h refl)
]

dead-not-retryable :
    (id : String) (now before : ℕ) (events : List Event) (a : DeliveryAttempt)
    → a.event_id == id ≡ true
    → retryable (update_where (λ e. e.id == id) (set_status dead now) events) before a ≡ false
dead-not-retryable id now before events a p =
    let same = (eq_iff a.event_id id).0 p in rw (same, none_alive id now events) refl

module _ (env : Env) where
  module _ (client : Client) (elapsed : ℕ) (job : DeliveryJob) (w : World) where
    abbrev outcome : DeliveryResult
    outcome = deliver env.hmac client job elapsed w.now

    -- If no call is lost, a recorded attempt that fails with no retry left takes every other
    -- attempt of the same event, whatever its endpoint, out of the answer of
    -- GetRetryableAttempts, at every time and limit.
    pub exhausted_ends_every_retry :
        w.faults ≡ []
        → (record_attempt env job outcome w).0 ≡ ok tt
        → outcome.success ≡ false
        → outcome.retry_at ≡ none
        → (before limit now : ℕ) (rows : List DeliveryAttempt)
        → get_retryable_attempts before limit now (process_job env client elapsed job w).db
          ≡ ok (rows, (process_job env client elapsed job w).db)
        → any (λ a. a.event_id == job.event_id) rows ≡ false
    exhausted_ends_every_retry f e s r before limit now rows q =
        let db' = (process_job env client elapsed job w).db in
        let done = process_job-IsRecorded env client elapsed job w f e in
        let events' : db'.events
            ≡ update_where (λ e. e.id == job.event_id) (set_status dead w.now) w.db.events =
          ground (arith, done.events) in
        elim (Bool-cases (any (λ a. a.event_id == job.event_id) rows)) [
          | inl h ↦
              let (a, m, p) = any-witness (λ a. a.event_id == job.event_id) rows h in
              let (there, due) =
                get_retryable_attempts-retryable before limit db' now rows db' a q m in
              let not_due = dead-not-retryable job.event_id w.now before w.db.events a p in
              let still : retryable db'.events before a ≡ false = rw events' not_due in cc
          | inr h ↦ h
        ]

    -- If no call is lost, of two recorded jobs of one event, which may be for different endpoints
    -- and any time apart, the later one that gives a status decides it alone: the events are then as
    -- if the earlier job had given none.
    pub last_verdict_wins :
        w.faults ≡ []
        → (record_attempt env job outcome w).0 ≡ ok tt
        → (other : Client) (took : ℕ) (second : DeliveryJob) (later : ℕ) (last : String)
        → second.event_id ≡ job.event_id
        → (record_attempt env second
            (deliver env.hmac other second took later)
            (record (process_job env client elapsed job w) { now = later })).0
          ≡ ok tt
        → verdict (deliver env.hmac other second took later) ≡ some last
        → (process_job env other took second
            (record (process_job env client elapsed job w) { now = later })).db.events
          ≡ marked (some last) job.event_id later w.db.events
    last_verdict_wins f e other took second later last same e' v =
        let one = process_job-IsRecorded env client elapsed job w f e in
        let w' = record (process_job env client elapsed job w) { now = later } in
        let f' = process_job-faults env client elapsed job w f e in
        let two = process_job-IsRecorded env other took second w' f' e' in
        rw (two.events, v, same, one.events)
          (marked-over (verdict outcome) job.event_id last w.now later w.db.events)
