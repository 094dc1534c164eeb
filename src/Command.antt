-- ===== src/Command.antt =====
-- cmd/hookman/main.go: the commands, and how `serve` starts. What the code calls of pgxpool and
-- golang-migrate is a parameter. A log line is left out, except the one before an exit.
pub mod Exits
pub mod Serving
use Prim.Native.String
use hookman.Common.{
  ℕ, zero, suc, String, Bool, true, false, List, [], ◌∷◌, Option, none, some, ◌==◌, if◌then◌else◌,
}
use hookman.Common.Int.{ℤ, pos, negsuc}
use hookman.Config.{Config, loaded, failed, Loaded, load}
use hookman.Api.Server.{Server, new_server}
use hookman.Worker.Pool.{Pool, new_pool}
use hookman.Worker.Poller.{Poller, new_poller}

abbrev pub version : String
version = "0.4.0"

pub data Level : Type 0 where
  debug_level info_level warn_level error_level : Level

-- The switch of setupLogger.
unfoldable pub setup_logger : String → Level
setup_logger level =
    if level == "debug"
    then debug_level
    else if level == "warn"
    then warn_level
    else if level == "error"
    then error_level
    else info_level

-- m.Up(): migrations were applied, there were none to apply (ErrNoChange), or one failed.
pub data Migrated : Type 0 where
  applied no_change broken : Migrated

-- The environment, time.ParseDuration, whether pgxpool.New and Ping succeed, whether the runtime has
-- room for a channel of a capacity, and golang-migrate:
-- whether an instance for a URL can be made, and its Up.
pub record Outside : Type 0 where
  pub parse_duration : String → Option ℤ
  pub getenv : String → String
  pub connects : String → Bool
  pub pings : String → Bool
  pub allocates : ℕ → Bool
  pub migrate_new : String → Bool
  pub migrate_up : String → Migrated

-- What `serve` has set up when it is ready.
pub record Started (L : Type 0) : Type 0 where
  pub cfg : Config
  pub level : Level
  pub pool : Pool
  pub poller : Poller
  pub server : Server L

-- A command exits with a status and a last line, panics, or goes on serving.
pub data Ending (L : Type 0) : Type 0 where
  exits : ℕ → String → Ending L
  panics : Ending L
  serves : Started L → Ending L

abbrev pub usage : String
usage =
    "hookman — webhook delivery service\n\nUsage:\n  hookman serve      Start the HTTP server and worker pool\n  hookman migrate    Run database migrations\n  hookman version    Print version\n"

-- http.Client's Timeout: one that is not positive is none, here 0.
abbrev pub timeout_of : ℤ → ℕ
timeout_of (pos n) = n
timeout_of (negsuc n) = 0

module _ {L : Type 0} where
  abbrev pub with_pool : Config → Option Pool → Ending L
  with_pool cfg none = panics
  with_pool cfg (some pool) = serves (record {
    cfg = cfg;
    level = setup_logger cfg.log_level;
    pool = pool;
    poller = new_poller cfg.poll_interval cfg.max_retries;
    server = new_server cfg;
  })

  -- From the connection to "hookman ready".
  abbrev pub connect : Outside → Loaded → Ending L
  connect out (failed message) = exits 1 "failed to load config"
  connect out (loaded cfg) =
      if out.connects cfg.database_url
      then if out.pings cfg.database_url
        then with_pool cfg (
            new_pool out.allocates cfg.worker_concurrency cfg.max_retries
              (timeout_of cfg.request_timeout))
        else exits 1 "failed to ping database"
      else exits 1 "failed to connect to database"

  unfoldable pub run_serve : Outside → Ending L
  run_serve out = connect out (load out.parse_duration out.getenv)

  abbrev pub after_up : Migrated → Ending L
  after_up applied = exits 0 "migrations applied successfully"
  after_up no_change = exits 0 "migrations applied successfully"
  after_up broken = exits 1 "migration failed"

  abbrev pub migrate : Outside → Loaded → Ending L
  migrate out (failed message) = exits 1 "failed to load config"
  migrate out (loaded cfg) =
      if out.migrate_new cfg.database_url
      then after_up (out.migrate_up cfg.database_url)
      else exits 1 "failed to create migrate instance"

  unfoldable pub run_migrate : Outside → Ending L
  run_migrate out = migrate out (load out.parse_duration out.getenv)

  -- The arguments behind the program's name.
  unfoldable pub main : Outside → List String → Ending L
  unfolding run_serve run_migrate
  main out [] = exits 1 usage
  main out (command ∷ args) =
      if command == "serve"
      then run_serve out
      else if command == "migrate"
      then run_migrate out
      else if command == "version"
      then exits 0 (String.◌++◌ "hookman " version)
      else exits 1 usage
