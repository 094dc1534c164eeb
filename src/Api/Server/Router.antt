-- ===== src/Api/Server/Router.antt =====
-- buildRouter of internal/api/server.go: what is mounted beside /api, by the configuration.
use hookman.Common.{if◌then◌else◌}
use hookman.Config.{Config}
use hookman.Metrics.{Metrics}
use hookman.World.{Env, World}
use hookman.Api.Response.{Response}
use hookman.Api.RateLimit.{RateLib}
use hookman.Api.Server.{Request, Server, serve}
use hookman.Dashboard.{Page}
use hookman.Dashboard.Routes.{Visit, visit}

-- What a path and a method lead to.
pub data Target : Type 0 where
  to_server : Request → Target
  to_dashboard : Visit → Target
  to_metrics : Target

-- promhttp shows the metrics; a path that is not mounted is answered with 404.
pub data Answer : Type 0 where
  response : Response → Answer
  page : Page → Answer
  exposition : Metrics → Answer
  not_found : Answer

module _ {L : Type 0} (env : Env) (lib : RateLib L) (cfg : Config) where
  abbrev pub serves_request : Response × (Server L × World) → Answer × (Server L × World)
  serves_request (r, after) = (response r, after)

  abbrev pub serves_page : Server L → Page × World → Answer × (Server L × World)
  serves_page srv (p, w) = (page p, (srv, w))

  unfoldable pub build_router : Target → Server L → World → Answer × (Server L × World)
  build_router (to_server req) srv w = serves_request (serve env lib cfg req srv w)
  build_router (to_dashboard v) srv w =
      if cfg.dashboard_enabled then serves_page srv (visit env v w) else (not_found, (srv, w))
  build_router to_metrics srv w =
      (if cfg.metrics_enabled then exposition w.metrics else not_found, (srv, w))
