-- ===== src/Api/Server/Access.antt =====
-- Who reaches the handlers under /api, and what the server does to the tables.
use Prim.Native.String
use hookman.Common.{ℕ, ◌∙◌, String, ◌≡◌, ◌≢◌, refl, ap, ◌⊎◌, inl, inr, Bool-cases}
use hookman.Common.Int.{pos, ltb_ℤ}
use hookman.Config.{Config}
use hookman.World.{Env, World}
use hookman.Store.Integrity.{done}
use hookman.Store.Postgres.Evolution.{Evolves}
use hookman.Api.Response.{HttpHandler, refuse}
use hookman.Api.Middleware.{auth_middleware_lem}
use hookman.Api.RateLimit.{
  RateLib, RateLimiter, rate_limit_middleware, get_limiter, allow_at, client_ip,
}
use hookman.Api.Evolution.{
  handle_create_event-Evolves, handle_list_events-Evolves, handle_get_event-Evolves,
  handle_replay_event-Evolves, handle_list_dead_events-Evolves,
  handle_bulk_replay_dead_events-Evolves, handle_purge_dead_events-Evolves, handle_stats-Evolves,
  handle_create_endpoint-Evolves, handle_list_endpoints-Evolves, handle_update_endpoint-Evolves,
  handle_delete_endpoint-Evolves, handle_endpoint_deliveries-Evolves,
}
use hookman.Api.Server.{
  Route, post_event, get_events, get_event_by, post_event_replay, get_dead, post_dead_replay,
  delete_dead, post_endpoint, get_endpoints, patch_endpoint, remove_endpoint, get_deliveries,
  get_stats, handler_of, ApiRequest, Request, get_health, get_ready, api, Server, authorized,
  serve_api, serve,
}

handler_of-Evolves :
    (env : Env) (route : Route) (w : World) → Evolves env w (handler_of env route w).1
unfolding handler_of
handler_of-Evolves env (post_event body) w = handle_create_event-Evolves env body w
handler_of-Evolves env (get_events q) w = handle_list_events-Evolves env q w
handler_of-Evolves env (get_event_by id) w = handle_get_event-Evolves env id w
handler_of-Evolves env (post_event_replay id) w = handle_replay_event-Evolves env id w
handler_of-Evolves env (get_dead limit before) w =
    handle_list_dead_events-Evolves env limit before w
handler_of-Evolves env post_dead_replay w = handle_bulk_replay_dead_events-Evolves env w
handler_of-Evolves env delete_dead w = handle_purge_dead_events-Evolves env w
handler_of-Evolves env (post_endpoint body) w = handle_create_endpoint-Evolves env body w
handler_of-Evolves env get_endpoints w = handle_list_endpoints-Evolves env w
handler_of-Evolves env (patch_endpoint id body) w = handle_update_endpoint-Evolves env id body w
handler_of-Evolves env (remove_endpoint id) w = handle_delete_endpoint-Evolves env id w
handler_of-Evolves env (get_deliveries id) w = handle_endpoint_deliveries-Evolves env id w
handler_of-Evolves env get_stats w = handle_stats-Evolves env w

-- The rate limiter answers itself, or lets the handler answer.
rate_limit_middleware-cases :
    {L W : Type 0} (lib : RateLib L) (remote_addr real_ip : String) (now : ℕ) (rl : RateLimiter L)
    (next : HttpHandler W) (w : W)
    → (let out = rate_limit_middleware lib remote_addr real_ip now rl next w in
        ((out.0, out.1.1) ≡ refuse 429 "rate limit exceeded" w) ⊎ ((out.0, out.1.1) ≡ next w))
unfolding rate_limit_middleware
rate_limit_middleware-cases lib remote_addr real_ip now rl next w =
    let (p, rl') = get_limiter lib (client_ip remote_addr real_ip) now rl in
    elim (Bool-cases (allow_at lib now p rl').0) [
      | inl e ↦ rw e (inr refl)
      | inr e ↦ rw e (inl refl)
    ]

module _ {L : Type 0} (env : Env) (lib : RateLib L) (cfg : Config) where
  serve_api-cases :
      (req : ApiRequest) (rl : RateLimiter L) (w : World)
      → (let out = serve_api env lib cfg req rl w in
          ((out.0, out.1.1) ≡ refuse 429 "rate limit exceeded" w)
          ⊎ ((out.0, out.1.1) ≡ authorized env lib cfg req w))
  unfolding serve_api
  serve_api-cases req rl w = elim (Bool-cases (ltb_ℤ (pos 0) cfg.rate_limit_rps)) [
    | inl e ↦ rw e (
        rate_limit_middleware-cases lib req.remote_addr req.real_ip w.now rl
          (authorized env lib cfg req) w)
    | inr e ↦ rw e (inr refl)
  ]

  authorized-Evolves :
      (req : ApiRequest) (w : World) → Evolves env w (authorized env lib cfg req w).1
  authorized-Evolves req w =
      elim (auth_middleware_lem cfg.api_key req.authorization (handler_of env req.route)) [
        | inl (h, e) ↦ rw e (handler_of-Evolves env req.route w)
        | inr (h, (m, e)) ↦ rw e done
      ]

  serve_api-Evolves :
      (req : ApiRequest) (rl : RateLimiter L) (w : World)
      → Evolves env w (serve_api env lib cfg req rl w).1.1
  serve_api-Evolves req rl w = elim (serve_api-cases req rl w) [
    | inl e ↦ rw (ap (λ p. p.1) e) done
    | inr e ↦ rw (ap (λ p. p.1) e) (authorized-Evolves req w)
  ]

-- Whatever is requested, and whichever calls of the database are lost, the server changes the
-- tables by lawful statements only.
pub serve-Evolves :
    {L : Type 0} (env : Env) (lib : RateLib L) (cfg : Config) (req : Request) (srv : Server L)
    (w : World)
    → Evolves env w (serve env lib cfg req srv w).1.1
unfolding serve
serve-Evolves env lib cfg get_health srv w = done
serve-Evolves env lib cfg get_ready srv w = done
serve-Evolves env lib cfg (api req) srv w = serve_api-Evolves env lib cfg req srv.limiter w

-- A request under /api whose Authorization header is not "Bearer " and the API key is answered with
-- 401 or 429, and nothing of the program's tables, metrics and random draws changes.
pub unauthorized_is_refused :
    {L : Type 0} (env : Env) (lib : RateLib L) (cfg : Config) (req : ApiRequest) (srv : Server L)
    (w : World)
    → req.authorization ≢ String.◌++◌ "Bearer " cfg.api_key
    → (let out = serve env lib cfg (api req) srv w in
        ((out.0.status ≡ 401) ⊎ (out.0.status ≡ 429)) × (out.1.1 ≡ w))
unfolding serve
unauthorized_is_refused env lib cfg req srv w h =
    elim (serve_api-cases env lib cfg req srv.limiter w) [
      | inl e ↦ (inr (ap (λ p. p.0.status) e), ap (λ p. p.1) e)
      | inr e ↦
          elim (auth_middleware_lem cfg.api_key req.authorization (handler_of env req.route)) [
            | inl (k, q) ↦ absurd (h k)
            | inr (k, (m, q)) ↦ (
              inl (ap (λ p. p.0.status) e ∙ ap (λ f. (f w).0.status) q),
              ap (λ p. p.1) e ∙ ap (λ f. (f w).1) q,
            )
          ]
    ]
