-- ===== src/Examples/OfServing.antt =====
-- Short lives of the serving process.
use hookman.Common.{◌≡◌, ℕ, ◌⊎◌, ◌+◌, refl, Bool, true, false, [], ◌∷◌, ◌++◌}
use hookman.Common.Int.{pos}
use hookman.World.{World, run}
use hookman.Store.Sql.{insert_sorted, order_by, distinct_from, distinct_on}
use hookman.Store.Queries.Events as Events
use hookman.Store.Queries.Endpoints as Endpoints
use hookman.Store.Queries.Attempts as Attempts
use hookman.Store.Postgres.{
  get_pending_events, get_endpoints_by_topic, update_event_status, get_retryable_attempts,
}
use hookman.Worker.Poller.{
  start, poll_pending_events, poll_retryable_attempts, with_pending, with_retryable, poll_events,
  poll_event, mark_processing, dispatch, send_all, send, send_within, first_job, poll_attempts,
}
use hookman.Delivery.Deliver.{DeliveryJob}
use hookman.Store.Models.{empty_db}
use hookman.Worker.Pool.Goroutines.{returned, start_workers, turn, move, receive, all_returned}
use hookman.Worker.Pool.Goroutines.Ledger.{tally}
use hookman.Api.Stats.{handle_health}
use hookman.Api.Server.{new_server}
use hookman.System.{migrated}
use hookman.Command.{Started, info_level}
use hookman.Command.Serving.{
  Process, boot, Run, here, after, signals, halts, drains, closes, finishes, works, exited,
  panicked,
}
use hookman.Store.Integrity.Log.{Posted, log_of}
use hookman.Command.Serving.Durability.{events_are_durable}
use hookman.Common.{List, some}
use hookman.Api.Server.{post_event, api}
use hookman.Api.Server.Router.{Target, to_server, build_router}
use hookman.Command.Serving.{answered, requests}
use hookman.Examples.Data.{a_request}
use hookman.Command.Serving.Ends.{clean_exit, notice_first, poller_can_panic}
use hookman.Examples.Data.{a_job, a_config, an_env, counting, answers_200, world_of, two_events}

abbrev one_worker : Started ℕ
one_worker = record {
  cfg = a_config;
  level = info_level;
  pool = record { concurrency = 1; max_retries = pos 5; timeout = 10; capacity = 2 };
  poller = record { interval = pos 1; max_retries = pos 5; batch_size = 50 };
  server = new_server a_config;
}

abbrev at_start : Process ℕ
at_start = boot one_worker (world_of empty_db)

abbrev at_exit : Process ℕ
at_exit = record at_start {
  server = record (new_server a_config) { shutting_down = true };
  handling = false;
  workers = record (start_workers one_worker.pool) {
    cancelled = true;
    closed = true;
    goroutines = returned ∷ [];
  };
  phase = exited 0;
}

whole_life : Run an_env counting one_worker at_start at_exit
unfolding boot start_workers turn move receive
whole_life =
    after
      (after
        (after (after (after (after here refl (signals refl)) refl (halts refl)) refl (drains refl))
          refl (closes refl))
        refl (works answers_200 0 0 refl))
      refl (finishes refl refl)

abbrev every_job : DeliveryJob → Bool
every_job job = true

clean_exit_example :
    ((handle_health at_exit.server.shutting_down).status ≡ 503)
    × (at_exit.workers.cancelled ≡ true)
    × (at_exit.workers.closed ≡ true)
    × (all_returned at_exit.workers.goroutines ≡ true)
    × (at_exit.workers.sent ≡ at_exit.workers.taken ++ at_exit.workers.buffer)
    × (tally every_job at_exit.workers.taken
        ≡ tally every_job at_exit.workers.finished + tally every_job at_exit.workers.abandoned)
clean_exit_example =
    clean_exit an_env counting one_worker (world_of empty_db) at_exit every_job whole_life refl

notice_first_example :
    ((at_exit.workers.abandoned ≡ []) ⊎ ((handle_health at_exit.server.shutting_down).status ≡ 503))
    × ((at_exit.workers.closed ≡ false) ⊎ (at_exit.workers.cancelled ≡ true))
notice_first_example =
    notice_first an_env counting one_worker (world_of empty_db) at_exit whole_life

abbrev an_event_to_send : World
an_event_to_send = world_of (record two_events { attempts = [] })

poller_can_panic_example :
    (t : Process ℕ) × Run an_env counting one_worker (boot one_worker an_event_to_send) t
    × (t.phase ≡ panicked)
unfolding start poll_pending_events poll_retryable_attempts with_pending with_retryable poll_events
    poll_event mark_processing dispatch send_all send send_within first_job get_pending_events
    get_endpoints_by_topic update_event_status get_retryable_attempts run Events.get_pending_events
    Events.update_event_status Endpoints.get_endpoints_by_topic Attempts.get_retryable_attempts
    insert_sorted order_by distinct_from distinct_on poll_attempts
poller_can_panic_example =
    poller_can_panic an_env counting one_worker an_event_to_send 100 a_job [] refl refl

-- A client posts an event.
abbrev posting : Target
posting = to_server (
    api (record {
      authorization = "Bearer secret";
      remote_addr = "10.0.0.1";
      real_ip = "";
      route = post_event (some a_request);
    }))

abbrev after_post : Process ℕ
after_post =
    answered at_start
      (build_router an_env counting a_config posting (new_server a_config) (world_of empty_db))

events_are_durable_example :
    (more : List Posted) × (log_of after_post.world.db ≡ log_of at_start.world.db ++ more)
unfolding boot
events_are_durable_example =
    events_are_durable an_env counting one_worker (world_of empty_db) at_start after_post
      (migrated refl) here (after here refl (requests posting refl))
