-- ===== src/Api/DeadLetter/Purge.antt =====
-- The two bulk operations on dead events.
use hookman.Common.{
  ℕ, ◌+◌, ◌≡◌, refl, inl, inr, false, List, [], ◌∷◌, any, select, length, arith, Bool-cases, eq_iff,
}
use hookman.World.{World}
use hookman.World.Runs.{run-served}
use hookman.Store.Models.{Event}
use hookman.Store.Sql.{update_where}
use hookman.Store.Queries.Events as Events
use hookman.Store.Queries.Events.{has_status, dead, pending, set_status}
use hookman.Store.Postgres.{bulk_replay_dead_events}
use hookman.Api.Response.{write_json, object, text, number}
use hookman.Api.Flow.{◌>>=◌, pure, attempt, finish}
use hookman.Api.DeadLetter.{handle_bulk_replay_dead_events}

none_dead :
    (now : ℕ) (es : List Event)
    → any (has_status dead) (update_where (has_status dead) (set_status pending now) es) ≡ false
none_dead now [] = refl
none_dead now (e ∷ es) = elim (Bool-cases (has_status dead e)) [
  | inl d ↦ rw d (none_dead now es)
  | inr d ↦ rw (d, d) (none_dead now es)
]

-- The dead events join the pending ones, and no other event changes its status.
pending_after :
    (now : ℕ) (es : List Event)
    → length
        (select (has_status pending) (update_where (has_status dead) (set_status pending now) es))
      ≡ length (select (has_status pending) es) + length (select (has_status dead) es)
pending_after now [] = omega arith
pending_after now (e ∷ es) = elim (Bool-cases (has_status dead e)) [
  | inl d ↦
      let is_dead = (eq_iff e.status dead).0 d in
      rw (d, is_dead) (ground (arith, pending_after now es))
  | inr d ↦ rw d (ground (arith, pending_after now es))
]

-- POST /api/events/dead/replay, on a database that serves the call, reports the number of dead
-- events; afterwards none is dead, and as many more are pending.
pub handle_bulk_replay_dead_events_lem :
    (w : World)
    → w.faults ≡ []
    → (let out = handle_bulk_replay_dead_events w in
        (out.0
          ≡ write_json 200 (
              object (
                ("replayed", number (length (select (has_status dead) w.db.events)))
                ∷ ("status", text "pending")
                ∷ [])))
        × (any (has_status dead) out.1.db.events ≡ false)
        × (length (select (has_status pending) out.1.db.events)
            ≡ length (select (has_status pending) w.db.events)
              + length (select (has_status dead) w.db.events)))
unfolding handle_bulk_replay_dead_events attempt finish pure ◌>>=◌ bulk_replay_dead_events
    Events.bulk_replay_dead_events
handle_bulk_replay_dead_events_lem w f =
    rw (run-served Events.bulk_replay_dead_events w f)
      (refl, none_dead w.now w.db.events, pending_after w.now w.db.events)
