-- ===== src/System.antt =====
-- The running program: `serve` of cmd/hookman/main.go starts the server, the poller and the workers
-- over one database. Each step is one request of the API or the dashboard, one run of the poller or
-- one worker's jobs; between steps the clock, the coming faults and the rest of the world may be
-- anything.
pub mod Guarantees
use hookman.Common.{ℕ, ◌≡◌, Bool, List, Option, String}
use hookman.Config.{Config}
use hookman.Delivery.Deliver.{Client, DeliveryJob}
use hookman.World.{Env, World}
use hookman.Store.Models.{Db, empty_db}
use hookman.Api.RateLimit.{RateLib}
use hookman.Api.Server.{Request, Server, serve}
use hookman.Dashboard.Routes.{Visit, visit}
use hookman.Worker.Pool.{worker}
use hookman.Worker.Poller.{Poller, Polling, Signal, start}

pub data Reachable {L : Type 0} (env : Env) (lib : RateLib L) (cfg : Config) : World → Type 0 where
  migrated : {w : World} → w.db ≡ empty_db → Reachable env lib cfg w
  drifts :
      {w : World} (w' : World) → w'.db ≡ w.db → Reachable env lib cfg w → Reachable env lib cfg w'
  serves :
      {w : World} (req : Request) (srv : Server L)
      → Reachable env lib cfg w
      → Reachable env lib cfg (serve env lib cfg req srv w).1.1
  visits :
      {w : World} (v : Visit) → Reachable env lib cfg w → Reachable env lib cfg (visit env v w).1
  polls :
      (p : Poller) (signals : List Signal) (s : Polling)
      → Reachable env lib cfg s.world
      → Reachable env lib cfg (start env p signals s).world
  works :
      {w : World} (client : Client) (jobs : List (DeliveryJob × ℕ × Bool))
      → Reachable env lib cfg w
      → Reachable env lib cfg (worker env client jobs w)
