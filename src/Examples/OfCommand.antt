-- ===== src/Examples/OfCommand.antt =====
-- Commands, and short lives of the serving process.

use hookman.Common.{ltb}
use hookman.Common.{
  ℕ, ◌≡◌, ◌≤◌, ◌+◌, ◌*◌, ◌⊎◌, refl, String, Bool, true, [], ◌∷◌, ◌++◌, Option, some, ◌==◌,
  if◌then◌else◌, arith, length, sum_of,
}
use hookman.Common.Int.{ℤ, pos}
use hookman.Config.{Config, load, read_env}
use hookman.Delivery.Deliver.{DeliveryJob}
use hookman.Worker.Pool.{Pool}
use hookman.Worker.Pool.Goroutines.{
  Workers, Goroutine, start_workers, send_job, turn, move, receive, close_jobs, cancel, Steps, here,
  after, sends, turns, all_returned, processing,
}
use hookman.Worker.Pool.Goroutines.Ledger.{jobs_are_kept, tally, in_hand}
use hookman.Worker.Pool.Goroutines.Draining.{
  Turns, rest, then_turn, stop_lem, cancelled_finish, is_busy,
}
use hookman.Api.Server.{new_server}
use hookman.Command.{Outside, applied, debug_level, Started, main, run_migrate}
use hookman.Command.Exits.{StartsWith, IsMigrated, main_exits}
use hookman.Examples.Data.{a_job}

abbrev a_pool : Pool
a_pool = record { concurrency = 2; max_retries = pos 5; timeout = 10; capacity = 4 }

abbrev every_job : DeliveryJob → Bool
every_job job = true

abbrev other_job : DeliveryJob
other_job = record a_job { endpoint_id = "ep_2" }

-- Two jobs are sent, and the first worker is delivering the first.
abbrev one_busy : Workers
one_busy = record (start_workers a_pool) {
  buffer = other_job ∷ [];
  sent = a_job ∷ other_job ∷ [];
  taken = a_job ∷ [];
  goroutines = processing a_job ∷ Goroutine.waiting ∷ [];
}

one_busy-Steps : Steps a_pool.capacity (start_workers a_pool) one_busy
unfolding start_workers send_job turn move receive
one_busy-Steps =
    after
      (after
        (after (after here (sends a_job refl (omega arith))) (sends other_job refl (omega arith)))
        (turns 0 refl))
      (turns 0 refl)

jobs_are_kept_example :
    (one_busy.sent ≡ one_busy.taken ++ one_busy.buffer)
    × (length one_busy.buffer ≤ a_pool.capacity)
    × (tally every_job one_busy.taken
        ≡ tally every_job one_busy.finished
          + tally every_job one_busy.abandoned
          + sum_of (in_hand every_job) one_busy.goroutines)
    × ((one_busy.cancelled ≡ true) ⊎ (one_busy.abandoned ≡ []))
jobs_are_kept_example = jobs_are_kept a_pool one_busy every_job one_busy-Steps

abbrev stopping : Workers
stopping = close_jobs one_busy

abbrev one_delivered : Workers
one_delivered = record stopping {
  finished = a_job ∷ [];
  goroutines = Goroutine.waiting ∷ Goroutine.waiting ∷ [];
}

one_turn : Turns 1 stopping one_delivered
unfolding turn move start_workers
one_turn = then_turn rest 0 refl

stop_lem_example :
    (1 ≤ 3 * (length stopping.buffer + length stopping.goroutines))
    × ((all_returned one_delivered.goroutines ≡ true)
        ⊎ ((i : ℕ) × (u : Workers) × (turn i one_delivered ≡ some u)))
stop_lem_example = stop_lem 1 stopping one_delivered refl one_turn

abbrev halting : Workers
halting = cancel one_busy

abbrev last_delivered : Workers
last_delivered = record halting {
  finished = a_job ∷ [];
  goroutines = Goroutine.waiting ∷ Goroutine.waiting ∷ [];
}

last_Steps : Steps 4 halting last_delivered
unfolding turn move start_workers
last_Steps = after here (turns 0 refl)

cancelled_finish_example :
    length last_delivered.finished + sum_of is_busy last_delivered.goroutines
    ≤ length halting.finished + sum_of is_busy halting.goroutines
cancelled_finish_example = cancelled_finish 4 halting last_delivered refl last_Steps

abbrev seconds_only : String → Option ℤ
seconds_only s = some (pos 1000000000)

abbrev settings : String → String
settings key =
    if key == "PORT"
    then "8080"
    else if key == "LOG_LEVEL"
    then "debug"
    else if key == "RATE_LIMIT_RPS"
    then "0"
    else if key == "METRICS_ENABLED"
    then "true"
    else if key == "WORKER_CONCURRENCY"
    then "4"
    else "set"

abbrev an_outside : Outside
an_outside = record {
  parse_duration = seconds_only;
  getenv = settings;
  connects = λ url. true;
  pings = λ url. true;
  allocates = λ n. ltb n 1000;
  migrate_new = λ url. true;
  migrate_up = λ url. applied;
}

main_exits_example :
    (◌≡◌ {A = ℕ} 0 1)
    ⊎ ((◌≡◌ {A = ℕ} 0 0)
        × (StartsWith "version" ("migrate" ∷ [])
            ⊎ (StartsWith "migrate" ("migrate" ∷ []) × IsMigrated an_outside)))
unfolding main run_migrate load read_env
main_exits_example =
    main_exits {L = ℕ} an_outside ("migrate" ∷ []) 0 "migrations applied successfully" refl

abbrev the_config : Config
the_config = read_env seconds_only settings

abbrev the_start : Started ℕ
the_start = record {
  cfg = the_config;
  level = debug_level;
  pool = record { concurrency = 4; max_retries = pos 5; timeout = 1000000000; capacity = 8 };
  poller = record { interval = pos 1000000000; max_retries = pos 5; batch_size = 50 };
  server = new_server the_config;
}
