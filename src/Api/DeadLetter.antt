-- ===== src/Api/DeadLetter.antt =====
-- internal/api/deadletter.go.
pub mod Purge
use hookman.Common.{ℕ, String, List, [], ◌∷◌, Option, map}
use hookman.World.{World}
use hookman.Store.Queries.Events.{GetDeadEventsParams}
use hookman.Store.Postgres.{get_dead_events, bulk_replay_dead_events, purge_dead_events}
use hookman.Api.Response.{Response, write_json, write_error, object, text, number, some_events}
use hookman.Api.Flow.{◌>>=◌, ◌>>◌, pure, attempt, finish}
use hookman.Api.Events.{limit_of, filter_of, full}

unfoldable pub dead_params : (limit before : String) → GetDeadEventsParams
unfolding limit_of
dead_params limit before = record { before_id = filter_of before; limit_count = limit_of limit }

unfoldable pub handle_list_dead_events : (limit before : String) → World → Response × World
unfolding dead_params
handle_list_dead_events limit before = finish do
  events ←
      attempt (get_dead_events (dead_params limit before))
        (λ _. write_error 500 "failed to list dead events")
  pure (write_json 200 (some_events (map full events)))

unfoldable pub handle_bulk_replay_dead_events : World → Response × World
handle_bulk_replay_dead_events = finish do
  count ← attempt bulk_replay_dead_events (λ _. write_error 500 "failed to replay dead events")
  pure (write_json 200 (object (("replayed", number count) ∷ ("status", text "pending") ∷ [])))

unfoldable pub handle_purge_dead_events : World → Response × World
handle_purge_dead_events = finish do
  count ← attempt purge_dead_events (λ _. write_error 500 "failed to purge dead events")
  pure (write_json 200 (object (("purged", number count) ∷ [])))
