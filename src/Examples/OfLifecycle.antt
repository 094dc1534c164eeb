-- ===== src/Examples/OfLifecycle.antt =====
-- An event is posted, sent in a round of the poller and delivered.
use hookman.Common.{◌≡◌, refl, true, inl, [], ◌∷◌, ◌==◌, ◌&&◌, any, In}
use hookman.World.{World, run}
use hookman.Id.{new_delivery_attempt}
use hookman.Delivery.Deliver.{deliver, conclude}
use hookman.Store.Models.{Db, ok}
use hookman.Store.Sql.{insert_sorted, order_by}
use hookman.Store.Queries.Events.{has_status, delivered, get_pending_events, update_event_status}
use hookman.Store.Queries.Attempts as Attempts
use hookman.Store.Queries.Endpoints as Endpoints
use hookman.Store.Postgres as Postgres
use hookman.Worker.Pool.{record_attempt, process_job, attempt_params}
use hookman.Worker.Poller.{
  poll_pending_events, with_pending, poll_events, poll_event, mark_processing, dispatch, send_all,
  send, send_within,
}
use hookman.Worker.Poller.Jobs.{attempt_one}
use hookman.Store.Integrity.{done}
use hookman.Worker.Lifecycle.{pending_event_is_delivered}
use hookman.Examples.Data.{
  an_env, an_event_row, an_endpoint_row, a_poller, answers_200, polling_on, world_of,
}

abbrev waiting : Db
waiting = record { events = an_event_row ∷ []; endpoints = an_endpoint_row ∷ []; attempts = [] }

abbrev after_round : World
after_round = world_of (poll_pending_events an_env a_poller (polling_on waiting)).world.db

found : get_pending_events 50 100 waiting ≡ ok (an_event_row ∷ [], waiting)
unfolding get_pending_events order_by insert_sorted
found = refl

accepted :
    (deliver an_env.hmac answers_200
      (attempt_one an_env a_poller an_event_row an_endpoint_row)
      7
      100).success
    ≡ true
unfolding deliver conclude
accepted = refl

on_record :
    (record_attempt an_env
      (attempt_one an_env a_poller an_event_row an_endpoint_row)
      (deliver an_env.hmac answers_200
        (attempt_one an_env a_poller an_event_row an_endpoint_row)
        7
        100)
      after_round).0
    ≡ ok tt
unfolding record_attempt attempt_params Postgres.create_delivery_attempt
    Attempts.create_delivery_attempt run new_delivery_attempt deliver conclude poll_pending_events
    with_pending poll_events poll_event mark_processing dispatch send_all send send_within
    Postgres.get_pending_events Postgres.get_endpoints_by_topic Postgres.update_event_status
    get_pending_events order_by insert_sorted Endpoints.get_endpoints_by_topic update_event_status
on_record = refl

pending_event_is_delivered_example :
    In
      (attempt_one an_env a_poller an_event_row an_endpoint_row)
      (poll_pending_events an_env a_poller (polling_on waiting)).jobs
    × (any
          (λ e. e.id == "evt_1" && has_status delivered e)
          (process_job an_env answers_200 7
            (attempt_one an_env a_poller an_event_row an_endpoint_row)
            after_round).db.events
        ≡ true)
    × (any
          (λ a. a.event_id == "evt_1" && a.endpoint_id == "ep_1" && a.status == "success")
          (process_job an_env answers_200 7
            (attempt_one an_env a_poller an_event_row an_endpoint_row)
            after_round).db.attempts
        ≡ true)
pending_event_is_delivered_example =
    pending_event_is_delivered an_env a_poller answers_200 7 an_event_row an_endpoint_row
      (polling_on waiting) (an_event_row ∷ []) (record { faults = refl; open_ended = refl })
      ((λ d. cc d), tt) found (inl refl) (inl refl) after_round refl done accepted on_record
