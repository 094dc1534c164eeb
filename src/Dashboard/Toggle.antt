-- ===== src/Dashboard/Toggle.antt =====
-- The toggle of an endpoint on the dashboard, on a database that serves its calls.
use hookman.Common.{◌≡◌, ◌∙◌, refl, String, Bool, true, false, not, [], some, find, ap}
use hookman.World.{World}
use hookman.World.Runs.{run-served}
use hookman.Store.Models.{Endpoint}
use hookman.Store.Sql.{update_where}
use hookman.Store.Queries.Endpoints as Endpoints
use hookman.Store.Queries.Endpoints.{patched}
use hookman.Store.Postgres.{update_endpoint, list_endpoints}
use hookman.Api.Endpoints.Patch.{is_endpoint, find-patched, endpoint_found}
use hookman.Dashboard.{toggle_params, dashboard_endpoint_rows, dashboard_toggle_endpoint}

abbrev toggled_world : String → Endpoint → World → World
toggled_world id e w = record w {
  db = record w.db {
    endpoints = update_where (is_endpoint id) (patched (toggle_params id e) w.now) w.db.endpoints;
  };
}

toggle-world :
    (id : String) (w : World) (e : Endpoint)
    → w.faults ≡ []
    → find (is_endpoint id) w.db.endpoints ≡ some e
    → (dashboard_toggle_endpoint id w).1 ≡ toggled_world id e w
unfolding dashboard_toggle_endpoint update_endpoint Endpoints.update_endpoint
    dashboard_endpoint_rows list_endpoints Endpoints.list_endpoints
toggle-world id w e served found =
    rw
      (
        endpoint_found id w served e found,
        run-served (Endpoints.update_endpoint (toggle_params id e)) w served,
        run-served Endpoints.list_endpoints (toggled_world id e w) served,
      )
      refl

not-not : (b : Bool) → not (not b) ≡ b
not-not true = refl
not-not false = refl

-- On a database that serves its calls, the toggle of an endpoint that exists turns its `enabled`
-- around and leaves its other columns, except updated_at; and a second toggle at the same time
-- restores it.
dashboard_toggle_endpoint_lem :
    (id : String) (w : World) (e : Endpoint)
    → w.faults ≡ []
    → find (is_endpoint id) w.db.endpoints ≡ some e
    → (let w' = (dashboard_toggle_endpoint id w).1 in
        let w'' = (dashboard_toggle_endpoint id w').1 in
        (find (is_endpoint id) w'.db.endpoints
          ≡ some (record e { enabled = not e.enabled; updated_at = w.now }))
        × (find (is_endpoint id) w''.db.endpoints ≡ some (record e { updated_at = w.now })))
dashboard_toggle_endpoint_lem id w e served found =
    let once = find-patched (toggle_params id e) w.now w.db.endpoints e found in
    let e' = record e { enabled = not e.enabled; updated_at = w.now } in
    let w' = toggled_world id e w in
    let twice = find-patched (toggle_params id e') w.now w'.db.endpoints e' once in
    let back = ap (λ b. some (record e { enabled = b; updated_at = w.now })) (not-not e.enabled) in
    rw (toggle-world id w e served found)
      (once, rw (toggle-world id w' e' served once) (twice ∙ back))
