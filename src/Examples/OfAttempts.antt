-- ===== src/Examples/OfAttempts.antt =====
-- The first attempt at an endpoint fails, and the second follows from its row.
use hookman.Common.{◌<◌, ◌≡◌, ◌⊎◌, refl, none, some, arith}
use hookman.Common.Int.{pos}
use hookman.Delivery.Deliver.{deliver, conclude, DeliveryJob}
use hookman.Delivery.Retry.{next_retry_at}
use hookman.Store.Queries.Attempts.{attempt_of}
use hookman.Worker.Pool.{attempt_params}
use hookman.Worker.Poller.{first_job, retry_job}
use hookman.Worker.Attempts.{Tries, first, again, retries_end}
use hookman.Examples.Data.{an_env, an_event_row, an_endpoint_row, a_poller, answers_500}

abbrev first_try : DeliveryJob
first_try = first_job an_env a_poller an_event_row an_endpoint_row

abbrev second_try : DeliveryJob
second_try = retry_job an_env a_poller an_event_row an_endpoint_row (
    attempt_of (attempt_params "da_1" first_try (deliver an_env.hmac answers_500 first_try 7 100))
      100)

asks : (deliver an_env.hmac answers_500 first_try 7 100).retry_at ≡ some 30_000_000_100
unfolding deliver conclude next_retry_at first_job
asks = refl

second_try-Tries : Tries an_env a_poller "evt_1" "ep_1" second_try 1
unfolding first_job
second_try-Tries =
    again (first an_event_row an_endpoint_row refl refl) answers_500 7 100 "da_1" 30_000_000_100
      asks an_event_row an_endpoint_row refl refl

retries_end_example :
    (second_try.event_id ≡ "evt_1")
    × (second_try.endpoint_id ≡ "ep_1")
    × (second_try.attempt_number ≡ pos 2)
    × (1 < 5)
    × (((deliver an_env.hmac answers_500 second_try 7 900).retry_at ≡ none) ⊎ (2 < 5))
retries_end_example =
    retries_end an_env a_poller "evt_1" "ep_1" 5 refl (omega arith) (omega arith) second_try 1
      second_try-Tries answers_500 7 900
