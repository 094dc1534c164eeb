-- ===== src/Examples/OfWorker.antt =====
-- Jobs and rounds of the poller on small tables.
use hookman.Common.{◌≡◌, refl, true, false, [], ◌∷◌, ◌++◌}
use hookman.World.{run}
use hookman.Id.{new_delivery_attempt}
use hookman.Delivery.Deliver.{deliver, conclude, DeliveryJob}
use hookman.Store.Models.{Db, ok}
use hookman.Store.Sql.{insert_sorted, order_by, distinct_from, distinct_on}
use hookman.Store.Queries.Events as Events
use hookman.Store.Queries.Attempts as Attempts
use hookman.Store.Queries.Attempts.{get_retryable_attempts}
use hookman.Store.Postgres.{create_delivery_attempt}
use hookman.Worker.Pool.{record_attempt, attempt_params, process_job}
use hookman.Worker.Pool.Outcome.{IsRecorded, process_job-IsRecorded}
use hookman.Worker.Pool.Redelivery.{redelivered_after_success}
use hookman.Worker.Poller.{Polling, poll_pending_events}
use hookman.Worker.Poller.Once.{handed_out_once}
use hookman.Worker.Poller.Jobs.{
  jobs_for, marks_for, poll_pending_events_lem, unsubscribed_batch_starves,
}
use hookman.Worker.Poller.{poll_retryable_attempts}
use hookman.Worker.Poller.Retries.{retries_for, poll_retryable_attempts_lem}
use hookman.Common.{length, any, ◌==◌, List, inl}
use hookman.Worker.Pool.Abandoned.{restarted, dropped_job-IsLost}
use hookman.Worker.Poller.Lost.{IsLost}
use hookman.Worker.Poller.{start, tick}
use hookman.Common.{none}
use hookman.Examples.Data.{
  an_env, a_job, answers_200, world_of, two_events, a_failed_attempt, an_event_row, an_endpoint_row,
  a_poller, polling_on,
}

recorded :
    (record_attempt an_env a_job
      (deliver an_env.hmac answers_200 a_job 7 100)
      (world_of two_events)).0
    ≡ ok tt
unfolding record_attempt create_delivery_attempt Attempts.create_delivery_attempt run
    new_delivery_attempt attempt_params deliver conclude
recorded = refl

process_job-IsRecorded_example :
    IsRecorded a_job
      (new_delivery_attempt an_env (world_of two_events)).0
      (deliver an_env.hmac answers_200 a_job 7 100)
      100
      two_events
      (process_job an_env answers_200 7 a_job (world_of two_events)).db
process_job-IsRecorded_example =
    process_job-IsRecorded an_env answers_200 7 a_job (world_of two_events) refl recorded

due_rows : get_retryable_attempts 60 50 60 two_events ≡ ok (a_failed_attempt ∷ [], two_events)
unfolding get_retryable_attempts order_by insert_sorted distinct_on distinct_from
due_rows = refl

succeeds : (deliver an_env.hmac answers_200 a_job 7 100).success ≡ true
unfolding deliver conclude
succeeds = refl

redelivered_after_success_example :
    get_retryable_attempts 60 50 60
      (process_job an_env answers_200 7 a_job (world_of two_events)).db
    ≡ ok (a_failed_attempt ∷ [], (process_job an_env answers_200 7 a_job (world_of two_events)).db)
redelivered_after_success_example =
    redelivered_after_success an_env answers_200 7 a_job (world_of two_events) refl recorded
      succeeds refl 60 50 60 (a_failed_attempt ∷ []) due_rows

pending_batch :
    (db : Db)
    → Events.get_pending_events 50 100 (record db { events = an_event_row ∷ [] })
      ≡ ok (an_event_row ∷ [], record db { events = an_event_row ∷ [] })
unfolding Events.get_pending_events order_by insert_sorted
pending_batch db = refl

abbrev one_pending : Db
one_pending = record { events = an_event_row ∷ []; endpoints = an_endpoint_row ∷ []; attempts = [] }

poll_pending_events_lem_example :
    ((poll_pending_events an_env a_poller (polling_on one_pending)).jobs
      ≡ [] ++ jobs_for an_env a_poller one_pending.endpoints (an_event_row ∷ []))
    × ((poll_pending_events an_env a_poller (polling_on one_pending)).world.db
        ≡ record one_pending {
          events =
              marks_for an_env one_pending.endpoints 100 (an_event_row ∷ []) one_pending.events;
        })
poll_pending_events_lem_example =
    poll_pending_events_lem an_env a_poller (polling_on one_pending) (an_event_row ∷ [])
      (record { faults = refl; open_ended = refl }) (pending_batch one_pending)

abbrev no_endpoints : Db
no_endpoints = record { events = an_event_row ∷ []; endpoints = []; attempts = [] }

unsubscribed_batch_starves_example :
    ((poll_pending_events an_env a_poller (polling_on no_endpoints)).jobs ≡ [])
    × ((poll_pending_events an_env a_poller (polling_on no_endpoints)).world.db ≡ no_endpoints)
    × (Events.get_pending_events 50 100
          (poll_pending_events an_env a_poller (polling_on no_endpoints)).world.db
        ≡ ok (an_event_row ∷ [], no_endpoints))
unsubscribed_batch_starves_example =
    unsubscribed_batch_starves an_env a_poller (polling_on no_endpoints) (an_event_row ∷ [])
      (record { faults = refl; open_ended = refl }) (pending_batch no_endpoints) (refl, tt)

due_rows_at_100 :
    get_retryable_attempts 100 50 100 two_events ≡ ok (a_failed_attempt ∷ [], two_events)
unfolding get_retryable_attempts order_by insert_sorted distinct_on distinct_from
due_rows_at_100 = refl

poll_retryable_attempts_lem_example :
    ((poll_retryable_attempts an_env a_poller (polling_on two_events)).jobs
      ≡ [] ++ retries_for an_env a_poller two_events (a_failed_attempt ∷ []))
    × (length (retries_for an_env a_poller two_events (a_failed_attempt ∷ [])) ≡ 1)
    × ((poll_retryable_attempts an_env a_poller (polling_on two_events)).world
        ≡ world_of two_events)
poll_retryable_attempts_lem_example =
    poll_retryable_attempts_lem an_env a_poller (polling_on two_events) (a_failed_attempt ∷ [])
      (record { faults = refl; open_ended = refl })
      (record {
        event_keys = (refl, (refl, tt));
        endpoint_keys = (refl, tt);
        attempt_keys = (refl, tt);
        references = ((refl, refl), tt);
      })
      due_rows_at_100

-- The event is processing, and its only job is still in the channel.
abbrev taken : Db
taken = record one_pending { events = record an_event_row { status = "processing" } ∷ [] }

dropped_job-IsLost_example : IsLost "evt_1" (
    start an_env a_poller
      (tick 300 ∷ tick 301 ∷ [])
      (restarted an_env answers_200 a_job 7 [] (world_of taken) none))
dropped_job-IsLost_example =
    dropped_job-IsLost an_env answers_200 a_job 7 [] (world_of taken) a_poller
      (tick 300 ∷ tick 301 ∷ []) none refl refl

-- A second round, on the events that the first leaves.
abbrev next_round : Polling
next_round = polling_on (record one_pending {
  events = (poll_pending_events an_env a_poller (polling_on one_pending)).world.db.events;
})

handed_out_once_example :
    (new : List DeliveryJob) × ((poll_pending_events an_env a_poller next_round).jobs ≡ [] ++ new)
    × (any (λ j. j.event_id == "evt_1") new ≡ false)
handed_out_once_example =
    handed_out_once an_env a_poller (polling_on one_pending) (an_event_row ∷ []) an_event_row
      an_endpoint_row [] (record { faults = refl; open_ended = refl }) (pending_batch one_pending)
      (inl refl) refl next_round (record { faults = refl; open_ended = refl }) refl
