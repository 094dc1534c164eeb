-- ===== src/Worker/Pool/Abandoned.antt =====
-- What becomes of a job that a cancelled worker of internal/worker/pool.go leaves in the channel.
use hookman.Common.{ℕ, ◌≡◌, refl, Bool, true, false, List, [], ◌∷◌, Option, any}
use hookman.World.{Env, World}
use hookman.Delivery.Deliver.{DeliveryJob, Client}
use hookman.Store.Integrity.{has_attempt}
use hookman.Worker.Poller.{Poller, Polling, Signal, start}
use hookman.Worker.Poller.Once.{waits}
use hookman.Worker.Poller.Lost.{IsLost}
use hookman.Worker.Poller.Lost.Rounds.{start-IsLost}
use hookman.Worker.Pool.{worker}

-- A poller, started anew, on the tables that a cancelled worker leaves with a job still to take.
abbrev pub restarted :
    Env → Client → DeliveryJob → ℕ → List (DeliveryJob × ℕ × Bool) → World → Option ℕ → Polling
restarted env client job elapsed jobs w sends_left = record {
  world = worker env client ((job, elapsed, true) ∷ jobs) w;
  jobs = [];
  sends_left = sends_left;
}

-- A worker that finds the context cancelled drops the job that it has received. If the job's event is
-- not pending, as the poller leaves it, and has no attempt on record, then a poller that is started
-- on the tables as they then are sends no job for the event in any number of rounds, at any times,
-- whichever calls of the database are lost and whenever it is cancelled; and the event still is
-- not pending and has no attempt. (A replay of the event or another attempt at it ends this.)
pub dropped_job-IsLost :
    (env : Env) (client : Client) (job : DeliveryJob) (elapsed : ℕ)
    (jobs : List (DeliveryJob × ℕ × Bool)) (w : World) (p : Poller) (signals : List Signal)
    (sends_left : Option ℕ)
    → any (waits job.event_id) w.db.events ≡ false
    → has_attempt job.event_id w.db ≡ false
    → IsLost job.event_id (start env p signals (restarted env client job elapsed jobs w sends_left))
unfolding worker
dropped_job-IsLost env client job elapsed jobs w p signals sends_left h k =
    start-IsLost job.event_id env p signals _ (record { unlisted = h; untried = k; unsent = refl })
