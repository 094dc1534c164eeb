-- ===== src/Worker/Pool/Redelivery.antt =====
-- What stays retryable after a success.
use hookman.Common.{
  ℕ, String, ◌≡◌, refl, inl, inr, Bool, true, false, not, ◌&&◌, List, [], ◌∷◌, ◌++◌, ◌==◌, arith,
  any, select, Bool-cases, ◌∙◌,
}
use hookman.World.{Env, World}
use hookman.Id.{new_delivery_attempt}
use hookman.Delivery.Deliver.{DeliveryJob, DeliveryResult, Client, deliver}
use hookman.Store.Models.{Event, DeliveryAttempt, ok}
use hookman.Store.Sql.{update_where}
use hookman.Store.Queries.Events.{set_status, delivered, dead, has_status}
use hookman.Store.Queries.Attempts.{attempt_of, retryable, get_retryable_attempts, is_due}
use hookman.Worker.Pool.{status_of, attempt_params, record_attempt, process_job}
use hookman.Worker.Pool.Outcome.{process_job-IsRecorded}

abbrev alive : String → Event → Bool
alive id e = e.id == id && not (has_status dead e)

-- Marking an event delivered leaves the events that are alive, if it was not dead.
any-alive-marked :
    (id other : String) (now : ℕ) (es : List Event)
    → any (λ e. e.id == id && has_status dead e) es ≡ false
    → any (alive other) (update_where (λ e. e.id == id) (set_status delivered now) es)
      ≡ any (alive other) es
any-alive-marked id other now [] h = refl
any-alive-marked id other now (x ∷ es) h = elim (Bool-cases (x.id == id)) [
  | inl e ↦ rw e (ground (arith, any-alive-marked id other now es))
  | inr e ↦ rw e (ground (arith, any-alive-marked id other now es))
]

select-cong :
    {A : Type 0} (p q : A → Bool) (xs : List A) → ((x : A) → p x ≡ q x) → select p xs ≡ select q xs
select-cong p q [] h = refl
select-cong p q (x ∷ xs) h = ground (arith, h x, select-cong p q xs h)

select-append_none :
    {A : Type 0} (p : A → Bool) (xs : List A) (y : A)
    → p y ≡ false
    → select p (xs ++ y ∷ []) ≡ select p xs
select-append_none p [] y h = ground arith
select-append_none p (x ∷ xs) y h = ground (arith, select-append_none p xs y h)

status_of-success : (r : DeliveryResult) → r.success ≡ true → status_of r ≡ "success"
status_of-success r s = rw s

and_false : (a b : Bool) → (a && b && false) ≡ false
and_false a b = ground arith

success-not-retryable :
    (events : List Event) (before : ℕ) (row : DeliveryAttempt)
    → row.status ≡ "success"
    → retryable events before row ≡ false
success-not-retryable events before row e = rw e (
    and_false (any (λ x. x.id == row.event_id && not (has_status dead x)) events)
      (is_due row.next_retry_at before))

module _ (env : Env) (client : Client) (elapsed : ℕ) (job : DeliveryJob) (w : World) where
  abbrev outcome : DeliveryResult
  outcome = deliver env.hmac client job elapsed w.now

  -- A job that is delivered and recorded, with its event marked delivered, leaves the answer of
  -- GetRetryableAttempts as it was, at every time and limit, unless the event was dead before.
  -- So an attempt that was due before a successful retry is due again after it.
  pub redelivered_after_success :
      w.faults ≡ []
      → (record_attempt env job outcome w).0 ≡ ok tt
      → outcome.success ≡ true
      → any (λ e. e.id == job.event_id && has_status dead e) w.db.events ≡ false
      → (before limit now : ℕ) (rows : List DeliveryAttempt)
      → get_retryable_attempts before limit now w.db ≡ ok (rows, w.db)
      → get_retryable_attempts before limit now (process_job env client elapsed job w).db
        ≡ ok (rows, (process_job env client elapsed job w).db)
  unfolding get_retryable_attempts attempt_params
  redelivered_after_success f e s alive_before before limit now rows q =
      let done = process_job-IsRecorded env client elapsed job w f e in
      let db' = (process_job env client elapsed job w).db in
      let events' : db'.events
          ≡ update_where (λ e. e.id == job.event_id) (set_status delivered w.now) w.db.events =
        ground (arith, done.events) in
      let row = attempt_of (attempt_params (new_delivery_attempt env w).0 job outcome) w.now in
      let not_failed : retryable w.db.events before row ≡ false =
        success-not-retryable w.db.events before row (status_of-success outcome s) in
      let pointwise : (x : DeliveryAttempt)
          → retryable db'.events before x ≡ retryable w.db.events before x =
        (λ x. rw events' (
          ground
            (arith, any-alive-marked job.event_id x.event_id w.now w.db.events alive_before))) in
      let same : select (retryable db'.events before) db'.attempts
          ≡ select (retryable w.db.events before) w.db.attempts =
        select-cong (retryable db'.events before) (retryable w.db.events before) db'.attempts
          pointwise
        ∙ rw done.attempts
            (select-append_none (retryable w.db.events before) w.db.attempts row not_failed) in
      rw same (ground arith)
