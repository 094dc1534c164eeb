-- ===== src/Worker/Pool.antt =====
-- internal/worker/pool.go. A worker's loop is a run over the jobs that it receives; each comes
-- with what ctx.Err() says then. Logging is left out. `w.now` is the time at which a delivery
-- ends, `elapsed` its duration in milliseconds.
pub mod Evolution
pub mod Outcome
pub mod Redelivery
pub mod Abandoned
pub mod Verdicts
pub mod Goroutines
use hookman.Common.{
  ℕ, ◌*◌, ltb, ◌&&◌, String, Bool, true, false, List, [], ◌∷◌, Option, none, some, if◌then◌else◌,
}
use hookman.Common.Int.{ℤ, pos, negsuc, to_int32}
use hookman.Metrics.{record_delivery_attempt, record_dead_letter}
use hookman.Delivery.Deliver.{DeliveryJob, DeliveryResult, Client, deliver}
use hookman.World.{Env, World, measure}
use hookman.Id.{new_delivery_attempt}
use hookman.Store.Models.{Result, ok, err}
use hookman.Store.Queries.Events.{delivered, dead}
use hookman.Store.Queries.Attempts.{CreateDeliveryAttemptParams}
use hookman.Store.Postgres.{update_status_params, update_event_status, create_delivery_attempt}

pub record Pool : Type 0 where
  pub concurrency : ℕ
  pub max_retries : ℤ
  pub timeout : ℕ
  pub capacity : ℕ

-- `none` is the panic of make(chan …): at a negative size, which concurrency*2 also is where it wraps
-- around, or at a size for which the runtime has no room, by `allocates`.
unfoldable pub new_pool : (ℕ → Bool) → ℤ → ℤ → ℕ → Option Pool
new_pool allocates (pos n) max_retries timeout =
    if ltb (n * 2) 9223372036854775808 && allocates (n * 2)
    then some
        (record { concurrency = n; max_retries = max_retries; timeout = timeout; capacity = n * 2 })
    else none
new_pool allocates (negsuc n) max_retries timeout = none

abbrev pub status_of : DeliveryResult → String
status_of result = if result.success then "success" else "failed"

abbrev pub text_or_null : List ℕ → Option (List ℕ)
text_or_null [] = none
text_or_null (b ∷ bs) = some (b ∷ bs)

abbrev pub int_or_null : Option ℕ → Option ℤ
int_or_null none = none
int_or_null (some n) = some (to_int32 (pos n))

unfoldable pub attempt_params : String → DeliveryJob → DeliveryResult → CreateDeliveryAttemptParams
attempt_params id job result = record {
  id = id;
  event_id = job.event_id;
  endpoint_id = job.endpoint_id;
  attempt_number = to_int32 job.attempt_number;
  http_status = int_or_null result.http_status;
  response_body = text_or_null result.response_body;
  duration_ms = some (to_int32 (pos result.duration_ms));
  status = status_of result;
  next_retry_at = result.retry_at;
}

-- The event's status after an attempt that is on record.
unfoldable pub update_status : DeliveryJob → DeliveryResult → World → World
update_status job result w =
    if result.success
    then (update_event_status (update_status_params job.event_id delivered) w).1
    else elim result.retry_at [
      | none ↦
          measure record_dead_letter
            (update_event_status (update_status_params job.event_id dead) w).1
      | some t ↦ w
    ]

-- A failure to record the attempt ends the job.
unfoldable pub after_attempt : DeliveryJob → DeliveryResult → Result (Unit {0}) × World → World
unfolding update_status
after_attempt job result (err e, w) = w
after_attempt job result (ok u, w) =
    update_status job result
      (measure (record_delivery_attempt (status_of result) result.duration_ms) w)

-- The row for the attempt, with a new identifier.
unfoldable pub record_attempt :
    Env → DeliveryJob → DeliveryResult → World → Result (Unit {0}) × World
record_attempt env job result w =
    let (id, w') = new_delivery_attempt env w in
    create_delivery_attempt env (attempt_params id job result) w'

module _ (env : Env) (client : Client) where
  unfoldable pub process_job : (elapsed : ℕ) → DeliveryJob → World → World
  unfolding after_attempt record_attempt
  process_job elapsed job w =
      let result = deliver env.hmac client job elapsed w.now in
      after_attempt job result (record_attempt env job result w)

  -- `for job := range p.jobs`, up to the end of the channel or a cancelled context.
  unfoldable pub worker : List (DeliveryJob × ℕ × Bool) → World → World
  unfolding process_job
  worker [] w = w
  worker ((job, elapsed, cancelled) ∷ jobs) w =
      let rest = worker jobs (process_job elapsed job w) in if cancelled then w else rest
