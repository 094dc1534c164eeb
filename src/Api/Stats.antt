-- ===== src/Api/Stats.antt =====
-- internal/api/stats.go, and internal/api/health.go.
pub mod Totals
use hookman.Common.{ℕ, ◌+◌, String, Bool, List, [], ◌∷◌, map, if◌then◌else◌}
use hookman.Metrics.{set_gauge}
use hookman.World.{World}
use hookman.Store.Queries.Events.{StatusCount}
use hookman.Store.Postgres.{count_events_by_status}
use hookman.Api.Response.{Response, Value, write_json, write_error, object, text, number}
use hookman.Api.Flow.{◌>>=◌, pure, attempt, finish}

-- The map that the handler starts from; `set_gauge` is the assignment to a key of a map.
abbrev pub no_counts : List (String × ℕ)
no_counts = ("pending", 0) ∷ ("processing", 0) ∷ ("delivered", 0) ∷ ("failed", 0) ∷ ("dead", 0) ∷ []

-- The loop over the rows, with the map and the total.
unfoldable pub add_rows : List StatusCount → List (String × ℕ) → ℕ → List (String × ℕ) × ℕ
add_rows [] stats total = (stats, total)
add_rows (row ∷ rows) stats total =
    add_rows rows (set_gauge row.status row.count stats) (total + row.count)

unfoldable pub stats_of : List StatusCount → List (String × ℕ)
unfolding add_rows
stats_of rows = let (stats, total) = add_rows rows no_counts 0 in set_gauge "total" total stats

abbrev pub entry : String × ℕ → String × Value
entry (k, n) = (k, number n)

unfoldable pub handle_stats : World → Response × World
unfolding stats_of
handle_stats = finish do
  rows ← attempt count_events_by_status (λ _. write_error 500 "failed to get stats")
  pure (write_json 200 (object (map entry (stats_of rows))))

unfoldable pub handle_health : Bool → Response
handle_health shutting_down =
    if shutting_down
    then write_json 503 (object (("status", text "shutting_down") ∷ []))
    else write_json 200 (object (("status", text "ok") ∷ []))
