-- ===== src/Worker/Pool/Evolution.antt =====
-- The workers, internal/worker/pool.go, and what they do to the tables.
use hookman.Common.{
  ℕ, ◌≡◌, refl, inl, inr, Bool, true, List, [], ◌∷◌, ◌++◌, ◌==◌, arith, Bool-cases, Option-cases,
  eq_refl,
}
use hookman.World.{Env, World}
use hookman.World.Runs.{run-ok}
use hookman.Id.{new_delivery_attempt}
use hookman.Delivery.Deliver.{DeliveryJob, DeliveryResult, Client, deliver}
use hookman.Store.Models.{Result, ok, err}
use hookman.Store.Integrity.{has_attempt, done}
use hookman.Store.Sql.Members.{any-append}
use hookman.Store.Queries.Attempts as Attempts
use hookman.Store.Queries.Attempts.{CreateDeliveryAttemptParams}
use hookman.Store.Postgres.{create_delivery_attempt}
use hookman.Store.Postgres.Evolution.{
  Evolves, Writes-trans, create_delivery_attempt-Evolves, update_event_status-Evolves,
}
use hookman.Worker.Pool.{update_status, after_attempt, attempt_params, process_job, worker}

module _ (env : Env) where
  -- A call that reports success has put the attempt on record.
  recorded :
      (p : CreateDeliveryAttemptParams) (w : World)
      → (create_delivery_attempt env p w).0 ≡ ok tt
      → has_attempt p.event_id (create_delivery_attempt env p w).1.db ≡ true
  unfolding create_delivery_attempt Attempts.create_delivery_attempt
  recorded p w e =
      let (db, q, same) = run-ok (Attempts.create_delivery_attempt env.storable p) w tt e in
      let rows : db.attempts ≡ w.db.attempts ++ Attempts.attempt_of p w.now ∷ [] = ground arith in
      rw (same, rows)
        (ground (
          arith,
          any-append (λ a. a.event_id == p.event_id) w.db.attempts
              (Attempts.attempt_of p w.now ∷ []),
          eq_refl p.event_id,
        ))

  update_status-Evolves :
      (job : DeliveryJob) (result : DeliveryResult) (w : World)
      → has_attempt job.event_id w.db ≡ true
      → Evolves env w (update_status job result w)
  unfolding update_status
  update_status-Evolves job result w h = elim (Bool-cases result.success) [
    | inl s ↦
        rw (s, update_status) (update_event_status-Evolves env w _ (inr (inr (inl refl))) (λ _. h))
    | inr s ↦ elim (Option-cases result.retry_at) [
      | inl r ↦
          rw (s, r, update_status)
            (update_event_status-Evolves env w _ (inr (inr (inr refl))) (λ _. h))
      | inr (t, r) ↦ rw (s, r, update_status) done
    ]
  ]

  after_attempt-Evolves :
      (job : DeliveryJob) (result : DeliveryResult) (r : Result (Unit {0})) (w : World)
      → (r ≡ ok tt → has_attempt job.event_id w.db ≡ true)
      → Evolves env w (after_attempt job result (r, w))
  unfolding after_attempt
  after_attempt-Evolves job result (err e) w h = done
  after_attempt-Evolves job result (ok u) w h = update_status-Evolves job result _ (h refl)

  module _ (client : Client) where
    pub process_job-Evolves :
        (elapsed : ℕ) (job : DeliveryJob) (w : World)
        → Evolves env w (process_job env client elapsed job w)
    unfolding process_job new_delivery_attempt attempt_params
    process_job-Evolves elapsed job w =
        let result = deliver env.hmac client job elapsed w.now in
        let (id, w') = new_delivery_attempt env w in
        let params = attempt_params id job result in
        Writes-trans (create_delivery_attempt-Evolves env w' params) (
          after_attempt-Evolves job result (create_delivery_attempt env params w').0
            (create_delivery_attempt env params w').1 (λ e. recorded params w' e))

    -- Whatever jobs a worker receives, whatever the network answers and whichever calls of the
    -- database are lost, the tables change by lawful statements only.
    pub worker-Evolves :
        (jobs : List (DeliveryJob × ℕ × Bool)) (w : World)
        → Evolves env w (worker env client jobs w)
    unfolding worker
    worker-Evolves [] w = done
    worker-Evolves ((job, elapsed, cancelled) ∷ jobs) w = elim (Bool-cases cancelled) [
      | inl c ↦ rw c done
      | inr c ↦ rw c (
          Writes-trans (process_job-Evolves elapsed job w)
            (worker-Evolves jobs (process_job env client elapsed job w)))
    ]
