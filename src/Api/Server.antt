-- ===== src/Api/Server.antt =====
-- internal/api/server.go: the routes, and the middleware in front of them. chi's matching of a
-- path is left out: a request names the route it matches.
pub mod Access
pub mod Router
use hookman.Common.{
  ℕ, ◌∙◌, String, ◌≡◌, ◌≢◌, refl, sym, ap, ◌⊎◌, inl, inr, Bool, true, false, Option, none, some,
  ltb, if◌then◌else◌, Bool-cases,
}
use hookman.Common.Int.{ℤ, pos, ltb_ℤ}
use Prim.Native.String
use hookman.Common.Decimal.{itoa}
use hookman.Config.{Config}
use hookman.World.{Env, World}
use hookman.Api.Response.{Response, HttpHandler, write_error, refuse}
use hookman.Api.Events.{
  CreateEventRequest, ListQuery, handle_create_event, handle_list_events, handle_get_event,
  handle_replay_event,
}
use hookman.Api.DeadLetter.{
  handle_list_dead_events, handle_bulk_replay_dead_events, handle_purge_dead_events,
}
use hookman.Api.Endpoints.{
  CreateEndpointRequest, UpdateEndpointRequest, handle_create_endpoint, handle_list_endpoints,
  handle_update_endpoint, handle_delete_endpoint, handle_endpoint_deliveries,
}
use hookman.Api.Stats.{handle_stats, handle_health}
use hookman.Api.Middleware.{auth_middleware, auth_middleware_lem}
use hookman.Api.RateLimit.{
  RateLib, RateLimiter, new_rate_limiter, rate_limit_middleware, get_limiter, allow_at,
}

-- The routes under /api, with what their handlers read of the request.
pub data Route : Type 0 where
  post_event : Option CreateEventRequest → Route
  get_events : ListQuery → Route
  get_event_by : (id : String) → Route
  post_event_replay : (id : String) → Route
  get_dead : (limit before : String) → Route
  post_dead_replay delete_dead : Route
  post_endpoint : Option CreateEndpointRequest → Route
  get_endpoints : Route
  patch_endpoint : (id : String) → Option UpdateEndpointRequest → Route
  remove_endpoint get_deliveries : (id : String) → Route
  get_stats : Route

unfoldable pub handler_of : Env → Route → HttpHandler World
handler_of env (post_event body) = handle_create_event env body
handler_of env (get_events q) = handle_list_events q
handler_of env (get_event_by id) = handle_get_event id
handler_of env (post_event_replay id) = handle_replay_event id
handler_of env (get_dead limit before) = handle_list_dead_events limit before
handler_of env post_dead_replay = handle_bulk_replay_dead_events
handler_of env delete_dead = handle_purge_dead_events
handler_of env (post_endpoint body) = handle_create_endpoint env body
handler_of env get_endpoints = handle_list_endpoints
handler_of env (patch_endpoint id body) = handle_update_endpoint id body
handler_of env (remove_endpoint id) = handle_delete_endpoint id
handler_of env (get_deliveries id) = handle_endpoint_deliveries id
handler_of env get_stats = handle_stats

pub record ApiRequest : Type 0 where
  pub authorization : String
  pub remote_addr : String
  pub real_ip : String
  pub route : Route

pub data Request : Type 0 where
  get_health get_ready : Request
  api : ApiRequest → Request

pub record Server (L : Type 0) : Type 0 where
  pub addr : String
  pub limiter : RateLimiter L
  pub shutting_down : Bool

-- NewServer: the address to listen at, a limiter with no clients, and an open shutdown channel.
unfoldable pub new_server : {L : Type 0} → Config → Server L
new_server cfg = record {
  addr = String.◌++◌ ":" (itoa cfg.port);
  limiter = new_rate_limiter cfg.rate_limit_rps cfg.rate_limit_burst;
  shutting_down = false;
}

-- close(s.shutdownCh)
abbrev pub notify_shutdown : {L : Type 0} → Server L → Server L
notify_shutdown srv = record srv { shutting_down = true }

module _ {L : Type 0} (env : Env) (lib : RateLib L) (cfg : Config) where
  abbrev pub authorized : ApiRequest → HttpHandler World
  authorized req = auth_middleware cfg.api_key req.authorization (handler_of env req.route)

  -- r.Route("/api", …)
  unfoldable pub serve_api : ApiRequest → RateLimiter L → World → Response × (RateLimiter L × World)
  serve_api req rl w =
      if ltb_ℤ (pos 0) cfg.rate_limit_rps
      then rate_limit_middleware lib req.remote_addr req.real_ip w.now rl (authorized req) w
      else let (r, w') = authorized req w in (r, (rl, w'))

  unfoldable pub serve : Request → Server L → World → Response × (Server L × World)
  unfolding serve_api
  serve get_health srv w = (handle_health srv.shutting_down, (srv, w))
  serve get_ready srv w = (handle_health srv.shutting_down, (srv, w))
  serve (api req) srv w =
      let (r, (rl, w')) = serve_api req srv.limiter w in (r, (record srv { limiter = rl }, w'))
