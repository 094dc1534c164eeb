-- ===== src/Examples/OfApi.antt =====
-- Requests on small tables.

use hookman.Common.{
  ◌++◌, ℕ, ◌+◌, ◌≡◌, ◌≢◌, refl, ◌⊎◌, true, false, String, [], ◌∷◌, none, some, ◌==◌, any, find,
  select, length, eq_refl,
}
use hookman.Common.Int.{pos}
use hookman.World.{run}
use hookman.Id.{new_event}
use hookman.Store.Models.{Event, Endpoint, empty_db}
use hookman.Store.Queries.Events as Events
use hookman.Store.Queries.Events.{has_status, event_clashes, listed}
use hookman.Store.Postgres.{create_event, get_event_by_idempotency_key}
use hookman.Api.Response.{
  HttpHandler, write_json, write_error, no_content, object, text, number, an_event, an_endpoint,
}
use hookman.Api.Flow.{finish, pure, ◌>>=◌, require, require_some, attempt, observe}
use hookman.Api.Events.{brief, created, store_event, handle_create_event, ListQuery}
use hookman.Api.Events.Create.{
  new_row, stored, has_key, create_event_again, handle_create_event_lem,
}
use hookman.Api.DeadLetter.{handle_bulk_replay_dead_events}
use hookman.Api.DeadLetter.Purge.{handle_bulk_replay_dead_events_lem}
use hookman.Api.Endpoints.{UpdateEndpointRequest, handle_update_endpoint, handle_delete_endpoint}
use hookman.Api.Endpoints.Patch.{
  shown, is_endpoint, patched_world, handle_update_endpoint_lem, handle_delete_endpoint_lem,
}
use hookman.Api.RateLimit.{RateLimiter, new_rate_limiter, get_limiter, rate_limit_middleware}
use hookman.Api.RateLimit.Isolation.{bucket_of}
use hookman.Api.RateLimit.Clients.{starts, gets, others_keep_their_buckets}
use hookman.Store.Models.{ok}
use hookman.Id.{new_endpoint}
use hookman.Store.Postgres.{get_endpoints_by_topic}
use hookman.Api.Endpoints.{CreateEndpointRequest, generate_signing_secret, handle_create_endpoint}
use hookman.Api.Endpoints.Create.{answer_for, listing, handle_create_endpoint_lem, endpoint_for}
use hookman.Examples.Data.{
  an_env, world_of, a_request, other_request, two_events, an_endpoint_row, counting,
}

first_is_created : (handle_create_event an_env (some a_request) (world_of empty_db)).0.status ≡ 201
unfolding handle_create_event store_event finish pure ◌>>=◌ require require_some attempt observe
    new_event create_event get_event_by_idempotency_key Events.create_event
    Events.get_event_by_idempotency_key run
first_is_created = refl

create_event_again_example :
    handle_create_event an_env
      (some other_request)
      (handle_create_event an_env (some a_request) (world_of empty_db)).1
    ≡ (
      write_json 200 (an_event (brief (new_row an_env a_request (world_of empty_db)))),
      (handle_create_event an_env (some a_request) (world_of empty_db)).1,
    )
create_event_again_example =
    create_event_again an_env a_request other_request (world_of empty_db) "k1" refl refl refl refl
      refl refl refl first_is_created

handle_create_event_lem_example :
    ((e : Event) × (find (has_key "k1") [] ≡ some e)
      × (handle_create_event an_env (some a_request) (world_of empty_db)
          ≡ (write_json 200 (an_event (brief e)), world_of empty_db)))
    ⊎ ((find (has_key "k1") [] ≡ none)
        × (handle_create_event an_env (some a_request) (world_of empty_db) ≡ (
          created (new_row an_env a_request (world_of empty_db)).id a_request,
          stored an_env a_request (world_of empty_db),
        )))
    ⊎ ((find (has_key "k1") [] ≡ none)
        × (any {A = Event} (λ e. e.id == (new_row an_env a_request (world_of empty_db)).id) []
            ≡ true)
        × ((handle_create_event an_env (some a_request) (world_of empty_db)).0.status ≡ 500))
handle_create_event_lem_example =
    handle_create_event_lem an_env a_request (world_of empty_db) "k1" refl refl refl refl

abbrev first_page : ListQuery
first_page = record { limit = "1"; topic = "orders"; status = ""; before = "" }

handle_bulk_replay_dead_events_lem_example :
    ((handle_bulk_replay_dead_events (world_of two_events)).0
      ≡ write_json 200 (object (("replayed", number 1) ∷ ("status", text "pending") ∷ [])))
    × (any
          (has_status Events.dead)
          (handle_bulk_replay_dead_events (world_of two_events)).1.db.events
        ≡ false)
    × (length (
          select
            (has_status Events.pending)
            (handle_bulk_replay_dead_events (world_of two_events)).1.db.events)
        ≡ 1 + 1)
handle_bulk_replay_dead_events_lem_example =
    handle_bulk_replay_dead_events_lem (world_of two_events) refl

abbrev a_patch : UpdateEndpointRequest
a_patch = record { url = none; topics = none; description = none; enabled = some false }

handle_update_endpoint_lem_example :
    (e' : Endpoint) × (handle_update_endpoint "ep_1" (some a_patch) (world_of two_events) ≡ (
      write_json 200 (an_endpoint (shown e')),
      patched_world "ep_1" a_patch (world_of two_events),
    ))
    × (find (is_endpoint "ep_1") (patched_world "ep_1" a_patch (world_of two_events)).db.endpoints
        ≡ some e')
    × (e'.url ≡ "https://example.org/hook")
    × (e'.description ≡ none)
    × (e'.topics ≡ "orders" ∷ [])
    × (e'.enabled ≡ false)
    × (e'.signing_secret ≡ "whsec_00")
handle_update_endpoint_lem_example =
    handle_update_endpoint_lem "ep_1" a_patch (world_of two_events) an_endpoint_row refl refl

handle_delete_endpoint_lem_example :
    handle_delete_endpoint "ep_1" (world_of two_events)
    ≡ (write_error 500 "failed to delete endpoint", world_of two_events)
handle_delete_endpoint_lem_example =
    handle_delete_endpoint_lem "ep_1" (world_of two_events) an_endpoint_row refl refl

abbrev answers : HttpHandler ℕ
answers n = (no_content, 1 + n)

abbrev one_client : RateLimiter ℕ
one_client = new_rate_limiter (pos 100) (pos 200)

differ : (s t : String) → (s == t) ≡ false → s ≢ t
differ s t h e = cc (rw (e, eq_refl t) at h)

others_keep_their_buckets_example :
    bucket_of "b"
      (rate_limit_middleware counting "a" "" 9
        (get_limiter counting "b" 5 one_client).1
        answers
        0).1.0
    ≡ bucket_of "b" (get_limiter counting "b" 5 one_client).1
others_keep_their_buckets_example =
    others_keep_their_buckets counting (pos 100) (pos 200) (get_limiter counting "b" 5 one_client).1
      (gets "b" 5 starts) "a" "" "b" 9 answers 0 (differ "b" "a" refl)

abbrev an_endpoint_request : CreateEndpointRequest
an_endpoint_request = record {
  url = "https://example.org/hook";
  topics = "orders" ∷ "users" ∷ [];
  description = none;
}

handle_create_endpoint_lem_example :
    (let out = handle_create_endpoint an_env (some an_endpoint_request) (world_of two_events) in
      (out.0 ≡ answer_for an_env an_endpoint_request (world_of two_events))
      × (get_endpoints_by_topic an_env "orders" out.1 ≡ (
        ok (
            listing "orders" two_events.endpoints
            ++ endpoint_for an_env an_endpoint_request (world_of two_events) ∷ []),
        out.1,
      )))
unfolding new_endpoint generate_signing_secret
handle_create_endpoint_lem_example =
    handle_create_endpoint_lem an_env an_endpoint_request (world_of two_events) "orders" "orders"
      refl refl refl refl refl refl refl
