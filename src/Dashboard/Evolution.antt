-- ===== src/Dashboard/Evolution.antt =====
-- The handlers of internal/dashboard/dashboard.go and what they do to the tables.
use hookman.Common.{inl, refl, ℕ, String, inr, ◌||◌, List, Option, none, some, ◌==◌, Bool-cases}
use hookman.World.{Env, World}
use hookman.Id.{new_endpoint}
use hookman.Store.Models.{Event, Endpoint, Result, ok, err}
use hookman.Store.Queries.Events.{StatusCount, pending}
use hookman.Store.Integrity.{done}
use hookman.Store.Postgres.{
  get_event, get_endpoint, count_events_by_status, bulk_replay_dead_events, list_endpoints,
  update_endpoint, delete_endpoint, create_endpoint, update_event_status, update_status_params,
}
use hookman.Store.Postgres.Evolution.{
  Evolves, Writes-trans, create_endpoint-Evolves, get_event-Evolves, list_events-Evolves,
  update_event_status-Evolves, get_delivery_attempts_by_event-Evolves,
  bulk_replay_dead_events-Evolves, count_events_by_status-Evolves, get_endpoint-Evolves,
  list_endpoints-Evolves, update_endpoint-Evolves, delete_endpoint-Evolves,
}
use hookman.Dashboard.{
  EndpointForm, of_stats, event_params, with_detail, replayed, bulk_replayed, endpoints_page,
  rows_page, rows_or_toast, endpoint_from_form, toggle_params, toggled, trim_space, dashboard_stats,
  dashboard_events, dashboard_event_rows, dashboard_event_detail, dashboard_replay_event,
  dashboard_bulk_replay, dashboard_endpoints, dashboard_endpoint_rows, dashboard_create_endpoint,
  dashboard_toggle_endpoint, dashboard_delete_endpoint,
}
use hookman.Dashboard.Routes.{
  Visit, visit, sees_stats, sees_endpoints, sees_endpoint_rows, replays_dead, sees_events,
  sees_event_rows, sees_event, replays_event, toggles_endpoint, removes_endpoint, adds_endpoint,
}

module _ (env : Env) (w : World) where
  of_stats-Evolves :
      (r : Result (List StatusCount)) (w' : World)
      → Evolves env w w'
      → Evolves env w (of_stats (r, w')).1
  of_stats-Evolves (ok rows) w' h = h
  of_stats-Evolves (err e) w' h = h

  with_detail-Evolves :
      (id : String) (r : Result Event) (w' : World)
      → Evolves env w w'
      → Evolves env w (with_detail id (r, w')).1
  with_detail-Evolves id (ok e) w' h =
      Writes-trans h (get_delivery_attempts_by_event-Evolves env w' id)
  with_detail-Evolves id (err e) w' h = h

  replayed-Evolves :
      (r : Result (Unit {0})) (w' : World) → Evolves env w w' → Evolves env w (replayed (r, w')).1
  replayed-Evolves (ok u) w' h = h
  replayed-Evolves (err e) w' h = h

  bulk_replayed-Evolves :
      (r : Result ℕ) (w' : World) → Evolves env w w' → Evolves env w (bulk_replayed (r, w')).1
  bulk_replayed-Evolves (ok n) w' h = h
  bulk_replayed-Evolves (err e) w' h = h

  endpoints_page-Evolves :
      (r : Result (List Endpoint)) (w' : World)
      → Evolves env w w'
      → Evolves env w (endpoints_page (r, w')).1
  endpoints_page-Evolves (ok eps) w' h = h
  endpoints_page-Evolves (err e) w' h = h

  rows_page-Evolves :
      (r : Result (List Endpoint)) (w' : World)
      → Evolves env w w'
      → Evolves env w (rows_page (r, w')).1
  rows_page-Evolves (ok eps) w' h = h
  rows_page-Evolves (err e) w' h = h

module _ (env : Env) where
  dashboard_endpoint_rows-Evolves : (w : World) → Evolves env w (dashboard_endpoint_rows w).1
  unfolding dashboard_endpoint_rows
  dashboard_endpoint_rows-Evolves w =
      rows_page-Evolves env w (list_endpoints w).0 (list_endpoints w).1
        (list_endpoints-Evolves env w)

  rows_or_toast-Evolves :
      (message : String) (r : Result (Unit {0})) (w w' : World)
      → Evolves env w w'
      → Evolves env w (rows_or_toast message (r, w')).1
  rows_or_toast-Evolves message (ok u) w w' h = Writes-trans h (dashboard_endpoint_rows-Evolves w')
  rows_or_toast-Evolves message (err e) w w' h = h

  dashboard_create_endpoint-Evolves :
      (form : Option EndpointForm) (w : World)
      → Evolves env w (dashboard_create_endpoint env form w).1
  unfolding dashboard_create_endpoint endpoint_from_form new_endpoint
  dashboard_create_endpoint-Evolves none w = done
  dashboard_create_endpoint-Evolves (some form) w =
      elim (Bool-cases (trim_space form.url == "" || trim_space form.topics == "")) [
        | inl e ↦ rw e done
        | inr e ↦
            let (params, w') = endpoint_from_form env form w in
            rw e (
              rows_or_toast-Evolves _ (create_endpoint params w').0 w (create_endpoint params w').1
                (create_endpoint-Evolves env w' params))
      ]

  toggled-Evolves :
      (id : String) (r : Result Endpoint) (w w' : World)
      → Evolves env w w'
      → Evolves env w (toggled id (r, w')).1
  toggled-Evolves id (err e) w w' h = h
  toggled-Evolves id (ok ep) w w' h = Writes-trans h (
      rows_or_toast-Evolves _ (update_endpoint (toggle_params id ep) w').0 w' _
        (update_endpoint-Evolves env w' (toggle_params id ep)))

-- Whatever is requested of the dashboard, and whichever calls of the database are lost, it changes
-- the tables by lawful statements only.
pub visit-Evolves : (env : Env) (v : Visit) (w : World) → Evolves env w (visit env v w).1
unfolding visit dashboard_stats dashboard_events dashboard_event_rows dashboard_event_detail
    dashboard_replay_event dashboard_bulk_replay dashboard_endpoints dashboard_toggle_endpoint
    dashboard_delete_endpoint
visit-Evolves env sees_stats w =
    of_stats-Evolves env w (count_events_by_status w).0 (count_events_by_status w).1
      (count_events_by_status-Evolves env w)
visit-Evolves env (sees_events topic status before) w =
    list_events-Evolves env w (event_params topic status before)
visit-Evolves env (sees_event_rows topic status before) w =
    list_events-Evolves env w (event_params topic status before)
visit-Evolves env (sees_event id) w =
    with_detail-Evolves env w id (get_event id w).0 (get_event id w).1 (get_event-Evolves env w id)
visit-Evolves env (replays_event id) w =
    let params = update_status_params id pending in
    replayed-Evolves env w (update_event_status params w).0 (update_event_status params w).1
      (update_event_status-Evolves env w params (inl refl) (λ e. cc))
visit-Evolves env replays_dead w =
    bulk_replayed-Evolves env w (bulk_replay_dead_events w).0 (bulk_replay_dead_events w).1
      (bulk_replay_dead_events-Evolves env w)
visit-Evolves env sees_endpoints w =
    endpoints_page-Evolves env w (list_endpoints w).0 (list_endpoints w).1
      (list_endpoints-Evolves env w)
visit-Evolves env (adds_endpoint form) w = dashboard_create_endpoint-Evolves env form w
visit-Evolves env (toggles_endpoint id) w =
    toggled-Evolves env id (get_endpoint id w).0 w (get_endpoint id w).1
      (get_endpoint-Evolves env w id)
visit-Evolves env (removes_endpoint id) w =
    rows_or_toast-Evolves env _ (delete_endpoint id w).0 w (delete_endpoint id w).1
      (delete_endpoint-Evolves env w id)
visit-Evolves env sees_endpoint_rows w = dashboard_endpoint_rows-Evolves env w
