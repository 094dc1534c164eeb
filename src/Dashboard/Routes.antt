-- ===== src/Dashboard/Routes.antt =====
-- RegisterRoutes of internal/dashboard/dashboard.go: the requests under /dashboard, which need no
-- API key.
use hookman.Common.{String, Option}
use hookman.World.{Env, World}
use hookman.Dashboard.{
  Page, EndpointForm, dashboard_stats, dashboard_events, dashboard_event_rows,
  dashboard_event_detail, dashboard_replay_event, dashboard_bulk_replay, dashboard_endpoints,
  dashboard_endpoint_rows, dashboard_create_endpoint, dashboard_toggle_endpoint,
  dashboard_delete_endpoint,
}

pub data Visit : Type 0 where
  sees_stats sees_endpoints sees_endpoint_rows replays_dead : Visit
  sees_events sees_event_rows : (topic status before : String) → Visit
  sees_event replays_event toggles_endpoint removes_endpoint : (id : String) → Visit
  adds_endpoint : Option EndpointForm → Visit

unfoldable pub visit : Env → Visit → World → Page × World
visit env sees_stats = dashboard_stats
visit env (sees_events topic status before) = dashboard_events topic status before
visit env (sees_event id) = dashboard_event_detail id
visit env (replays_event id) = dashboard_replay_event id
visit env replays_dead = dashboard_bulk_replay
visit env sees_endpoints = dashboard_endpoints
visit env (adds_endpoint form) = dashboard_create_endpoint env form
visit env (toggles_endpoint id) = dashboard_toggle_endpoint id
visit env (removes_endpoint id) = dashboard_delete_endpoint id
visit env (sees_event_rows topic status before) = dashboard_event_rows topic status before
visit env sees_endpoint_rows = dashboard_endpoint_rows
