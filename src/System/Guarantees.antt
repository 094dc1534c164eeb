-- ===== src/System/Guarantees.antt =====
-- The tables in the states of the running program.
use hookman.Common.{◌≡◌, ◌⊎◌, refl, sym, subst, true, [], any, In}
use hookman.Config.{Config}
use hookman.World.{Env, World}
use hookman.World.Runs.{run-served}
use hookman.Store.Sql.Members.{All-In}
use hookman.Store.Models.{Event, empty_db}
use hookman.Store.Queries.Events.{pending, processing, delivered, dead, has_status, attempted}
use hookman.Store.Integrity.{IsConsistent, IsKnown, Writes, done}
use hookman.Store.Integrity.Preserved.{Writes-IsConsistent}
use hookman.Store.Integrity.Log.{Writes-StatusesAreKnown}
use hookman.Store.Integrity.Dead.{
  DeadIsAttempted, DeadAreAttempted, Writes-DeadAreAttempted, purge_refused,
}
use hookman.Store.Postgres.Evolution.{Writes-trans}
use hookman.Store.Postgres.{purge_dead_events}
use hookman.Api.Response.{write_error}
use hookman.Api.Flow.{attempt, finish, pure, ◌>>=◌}
use hookman.Api.DeadLetter.{handle_purge_dead_events}
use hookman.Api.RateLimit.{RateLib}
use hookman.Api.Server.Access.{serve-Evolves}
use hookman.Dashboard.Evolution.{visit-Evolves}
use hookman.Worker.Pool.Evolution.{worker-Evolves}
use hookman.Worker.Poller.Evolution.{start-Evolves}
use hookman.System.{Reachable, migrated, drifts, serves, visits, polls, works}

module _ {L : Type 0} (env : Env) (lib : RateLib L) (cfg : Config) where
  -- A reachable state's tables come from the empty ones by lawful statements.
  Reachable-Writes : (w : World) → Reachable env lib cfg w → Writes env.storable empty_db w.db
  Reachable-Writes w (migrated e) = subst (Writes env.storable empty_db) (sym e) done
  Reachable-Writes _ (drifts {w} w' e r) =
      subst (Writes env.storable empty_db) (sym e) (Reachable-Writes w r)
  Reachable-Writes _ (serves {w} req srv r) =
      Writes-trans (Reachable-Writes w r) (serve-Evolves env lib cfg req srv w)
  Reachable-Writes _ (visits {w} v r) = Writes-trans (Reachable-Writes w r) (visit-Evolves env v w)
  Reachable-Writes _ (polls p signals s r) =
      Writes-trans (Reachable-Writes s.world r) (start-Evolves env p signals s)
  Reachable-Writes _ (works {w} client jobs r) =
      Writes-trans (Reachable-Writes w r) (worker-Evolves env client jobs w)

empty_db-IsConsistent : IsConsistent empty_db
empty_db-IsConsistent = record {
  event_keys = tt;
  endpoint_keys = tt;
  attempt_keys = tt;
  references = tt;
}

-- In every reachable state of the running program, identifiers and idempotency keys are unique and
-- every delivery attempt refers to an event and an endpoint that exist.
pub Reachable-IsConsistent :
    {L : Type 0} (env : Env) (lib : RateLib L) (cfg : Config) (w : World)
    → Reachable env lib cfg w
    → IsConsistent w.db
Reachable-IsConsistent env lib cfg w r =
    Writes-IsConsistent env.storable empty_db (Reachable-Writes env lib cfg w r)
      empty_db-IsConsistent

pub Reachable-DeadAreAttempted :
    {L : Type 0} (env : Env) (lib : RateLib L) (cfg : Config) (w : World)
    → Reachable env lib cfg w
    → DeadAreAttempted w.db
Reachable-DeadAreAttempted env lib cfg w r =
    Writes-DeadAreAttempted env.storable empty_db (Reachable-Writes env lib cfg w r) tt

-- In every reachable state of the running program, the status of an event is pending, processing,
-- delivered or dead.
status_is_known :
    {L : Type 0} (env : Env) (lib : RateLib L) (cfg : Config) (w : World) (e : Event)
    → Reachable env lib cfg w
    → In e w.db.events
    → (e.status ≡ pending) ⊎ (e.status ≡ processing) ⊎ (e.status ≡ delivered) ⊎ (e.status ≡ dead)
status_is_known env lib cfg w e r m =
    All-In (λ x. IsKnown x.status) w.db.events e
      (Writes-StatusesAreKnown env.storable empty_db (Reachable-Writes env lib cfg w r) tt) m

-- In every reachable state of the running program, an event that is dead has an attempt on record.
dead_event_is_attempted :
    {L : Type 0} (env : Env) (lib : RateLib L) (cfg : Config) (w : World) (e : Event)
    → Reachable env lib cfg w
    → In e w.db.events
    → has_status dead e ≡ true
    → attempted w.db.attempts e ≡ true
dead_event_is_attempted env lib cfg w e r m d =
    All-In (DeadIsAttempted w.db.attempts) w.db.events e
      (Reachable-DeadAreAttempted env lib cfg w r) m d

-- In every reachable state of the running program with a dead event and no fault of the database
-- ahead, DELETE /api/events/dead answers 500 and deletes nothing: each dead event has
-- an attempt that refers to it, and the foreign key refuses the statement.
pub purge_is_always_refused :
    {L : Type 0} (env : Env) (lib : RateLib L) (cfg : Config) (w : World)
    → Reachable env lib cfg w
    → w.faults ≡ []
    → any (has_status dead) w.db.events ≡ true
    → handle_purge_dead_events w ≡ (write_error 500 "failed to purge dead events", w)
unfolding handle_purge_dead_events attempt finish pure ◌>>=◌ purge_dead_events
purge_is_always_refused env lib cfg w r f d =
    rw (run-served _ w f, purge_refused w.now w.db (Reachable-DeadAreAttempted env lib cfg w r) d)
      refl
