-- ===== src/Examples/OfVerdicts.antt =====
-- Two jobs of one event, the first of which exhausts its retries.
use hookman.Common.{◌≡◌, refl, false, some, none, [], ◌∷◌, ◌==◌, any}
use hookman.Common.Int.{pos}
use hookman.World.{World, run}
use hookman.Id.{new_delivery_attempt}
use hookman.Delivery.Deliver.{deliver, conclude, DeliveryJob}
use hookman.Delivery.Retry.{next_retry_at}
use hookman.Store.Models.{ok, DeliveryAttempt, Db}
use hookman.Store.Sql.{insert_sorted, order_by, distinct_from, distinct_on}
use hookman.Store.Queries.Events as Events
use hookman.Store.Queries.Attempts as Attempts
use hookman.Store.Queries.Attempts.{get_retryable_attempts}
use hookman.Store.Postgres.{create_delivery_attempt, update_event_status}
use hookman.Worker.Pool.{record_attempt, attempt_params, process_job, after_attempt, update_status}
use hookman.Worker.Pool.Outcome.{marked}
use hookman.Worker.Pool.Verdicts.{exhausted_ends_every_retry, last_verdict_wins}
use hookman.Examples.Data.{
  an_env, a_job, an_event_row, a_failed_attempt, answers_200, answers_500, world_of, two_events,
}

-- A retry is due for each of two events.
abbrev other_attempt : DeliveryAttempt
other_attempt = record a_failed_attempt { id = "da_3"; event_id = "evt_3" }

abbrev two_retries : Db
two_retries = record two_events {
  events = an_event_row ∷ record an_event_row { id = "evt_3" } ∷ [];
  attempts = a_failed_attempt ∷ other_attempt ∷ [];
}

abbrev last_job : DeliveryJob
last_job = record a_job { attempt_number = pos 5 }

abbrev exhausted_world : World
exhausted_world = process_job an_env answers_500 7 last_job (world_of two_retries)

last_recorded :
    (record_attempt an_env last_job
      (deliver an_env.hmac answers_500 last_job 7 100)
      (world_of two_retries)).0
    ≡ ok tt
unfolding record_attempt create_delivery_attempt Attempts.create_delivery_attempt run
    new_delivery_attempt attempt_params deliver conclude next_retry_at
last_recorded = refl

last_fails : (deliver an_env.hmac answers_500 last_job 7 100).success ≡ false
unfolding deliver conclude next_retry_at
last_fails = refl

last_has_no_retry : (deliver an_env.hmac answers_500 last_job 7 100).retry_at ≡ none
unfolding deliver conclude next_retry_at
last_has_no_retry = refl

one_left :
    get_retryable_attempts 60 50 60 exhausted_world.db ≡ ok (other_attempt ∷ [], exhausted_world.db)
unfolding get_retryable_attempts order_by insert_sorted distinct_on distinct_from process_job
    after_attempt update_status update_event_status Events.update_event_status record_attempt
    create_delivery_attempt Attempts.create_delivery_attempt run new_delivery_attempt attempt_params
    deliver conclude next_retry_at
one_left = refl

exhausted_ends_every_retry_example : any (λ a. a.event_id == "evt_1") (other_attempt ∷ []) ≡ false
exhausted_ends_every_retry_example =
    exhausted_ends_every_retry an_env answers_500 7 last_job (world_of two_retries) refl
      last_recorded last_fails last_has_no_retry 60 50 60 (other_attempt ∷ []) one_left

second_recorded :
    (record_attempt an_env a_job
      (deliver an_env.hmac answers_200 a_job 3 200)
      (record exhausted_world { now = 200 })).0
    ≡ ok tt
unfolding process_job after_attempt update_status update_event_status Events.update_event_status
    record_attempt create_delivery_attempt Attempts.create_delivery_attempt run new_delivery_attempt
    attempt_params deliver conclude next_retry_at
second_recorded = refl

last_verdict_wins_example :
    (process_job an_env answers_200 3 a_job (record exhausted_world { now = 200 })).db.events
    ≡ marked (some "delivered") "evt_1" 200 two_retries.events
unfolding deliver conclude next_retry_at
last_verdict_wins_example =
    last_verdict_wins an_env answers_500 7 last_job (world_of two_retries) refl last_recorded
      answers_200 3 a_job 200 "delivered" refl second_recorded refl
