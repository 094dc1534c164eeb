-- ===== src/Api/Endpoints/Patch.antt =====
-- PATCH and DELETE of an endpoint, on a database that serves its calls.
use hookman.Common.{
  ℕ, ◌≡◌, refl, inl, inr, String, Bool, true, List, [], ◌∷◌, none, some, ◌==◌, any, find, arith,
  if◌then◌else◌, Bool-cases,
}
use hookman.World.{World}
use hookman.World.Runs.{run-served}
use hookman.Store.Models.{Endpoint, ok, err, no_rows}
use hookman.Store.Sql.{update_where, delete_where, coalesce}
use hookman.Store.Queries.Endpoints as Endpoints
use hookman.Store.Queries.Endpoints.{patched}
use hookman.Store.Postgres.{get_endpoint, update_endpoint, delete_endpoint}
use hookman.Api.Response.{
  write_json, write_error, no_content, an_endpoint, EndpointResponse, formatted,
}
use hookman.Api.Flow.{◌>>=◌, pure, attempt, finish, require_some}
use hookman.Api.Endpoints.{
  UpdateEndpointRequest, patch_params, handle_update_endpoint, handle_delete_endpoint,
}

abbrev pub is_endpoint : String → Endpoint → Bool
is_endpoint id e = e.id == id

module _ (id : String) (w : World) (served : w.faults ≡ []) where
  pub endpoint_found :
      (e : Endpoint) → find (is_endpoint id) w.db.endpoints ≡ some e → get_endpoint id w ≡ (ok e, w)
  unfolding get_endpoint Endpoints.get_endpoint
  endpoint_found e h = rw (run-served (Endpoints.get_endpoint id) w served, h) refl

  endpoint_missing :
      find (is_endpoint id) w.db.endpoints ≡ none → get_endpoint id w ≡ (err no_rows, w)
  unfolding get_endpoint Endpoints.get_endpoint
  endpoint_missing h = rw (run-served (Endpoints.get_endpoint id) w served, h) refl

pub find-patched :
    (p : Endpoints.UpdateEndpointParams) (now : ℕ) (es : List Endpoint) (e : Endpoint)
    → find (is_endpoint p.id) es ≡ some e
    → find (is_endpoint p.id) (update_where (is_endpoint p.id) (patched p now) es)
      ≡ some (patched p now e)
find-patched p now [] e h = cc
find-patched p now (x ∷ xs) e h = ground (arith, find-patched p now xs e)

-- The world after the update.
abbrev pub patched_world : String → UpdateEndpointRequest → World → World
patched_world id req w = record w {
  db = record w.db {
    endpoints = update_where (is_endpoint id) (patched (patch_params id req) w.now) w.db.endpoints;
  };
}

-- A row as the API shows it, without its secret.
abbrev pub shown : Endpoint → EndpointResponse
shown e = record {
  id = e.id;
  url = e.url;
  topics = e.topics;
  description = e.description;
  signing_secret = "";
  enabled = e.enabled;
  created_at = formatted e.created_at;
}

-- PATCH /api/endpoints/{id} of an endpoint that exists answers 200 with the endpoint as it is stored
-- afterwards: url, description, topics and enabled keep their values where the request leaves them
-- out, and the signing secret always.
pub handle_update_endpoint_lem :
    (id : String) (req : UpdateEndpointRequest) (w : World) (e : Endpoint)
    → w.faults ≡ []
    → find (is_endpoint id) w.db.endpoints ≡ some e
    → (e' : Endpoint) × (handle_update_endpoint id (some req) w
        ≡ (write_json 200 (an_endpoint (shown e')), patched_world id req w))
      × (find (is_endpoint id) (patched_world id req w).db.endpoints ≡ some e')
      × (e'.url ≡ coalesce req.url e.url)
      × (e'.description ≡ elim req.description [ none ↦ e.description | some d ↦ some d ])
      × (e'.topics ≡ coalesce req.topics e.topics)
      × (e'.enabled ≡ coalesce req.enabled e.enabled)
      × (e'.signing_secret ≡ e.signing_secret)
unfolding handle_update_endpoint attempt finish pure ◌>>=◌ require_some update_endpoint
    Endpoints.update_endpoint
handle_update_endpoint_lem id req w e f h =
    let there = find-patched (patch_params id req) w.now w.db.endpoints e h in
    (
      patched (patch_params id req) w.now e,
      rw
          (
            endpoint_found id w f e h,
            run-served (Endpoints.update_endpoint (patch_params id req)) w f,
            endpoint_found id (patched_world id req w) f _ there,
          )
          refl,
      there,
      refl,
      refl,
      refl,
      refl,
      refl,
    )

find-any :
    (p : Endpoint → Bool) (es : List Endpoint) (e : Endpoint) → find p es ≡ some e → any p es ≡ true
find-any p [] e h = cc
find-any p (x ∷ xs) e h = ground (arith, find-any p xs e)

-- DELETE /api/endpoints/{id} of an endpoint that exists answers 204 and deletes it where no attempt
-- refers to it, and answers 500 and deletes nothing where one does.
pub handle_delete_endpoint_lem :
    (id : String) (w : World) (e : Endpoint)
    → w.faults ≡ []
    → find (is_endpoint id) w.db.endpoints ≡ some e
    → handle_delete_endpoint id w ≡ (
        if any (λ a. a.endpoint_id == id) w.db.attempts
        then (write_error 500 "failed to delete endpoint", w)
        else (
          no_content,
          record w {
            db = record w.db { endpoints = delete_where (is_endpoint id) w.db.endpoints };
          },
        ))
unfolding handle_delete_endpoint attempt finish pure ◌>>=◌ delete_endpoint Endpoints.delete_endpoint
handle_delete_endpoint_lem id w e f h =
    let known = find-any (is_endpoint id) w.db.endpoints e h in
    elim (Bool-cases (any (λ a. a.endpoint_id == id) w.db.attempts)) [
      | inl c ↦
          rw (endpoint_found id w f e h, run-served (Endpoints.delete_endpoint id) w f, known, c)
            refl
      | inr c ↦
          rw (endpoint_found id w f e h, run-served (Endpoints.delete_endpoint id) w f, known, c)
            refl
    ]
