-- ===== src/Api/Endpoints/Create.antt =====
-- POST /api/endpoints on a database that serves its calls.

use hookman.Common.{
  ℕ, suc, ◌≡◌, refl, inl, inr, String, Bool, true, false, List, [], ◌∷◌, ◌++◌, some, none, ◌==◌,
  ◌&&◌, any, select, Bool-cases,
}
use hookman.World.{Env, World}
use hookman.World.Runs.{run-served}
use hookman.Id.{new_endpoint}
use hookman.Store.Models.{Endpoint, Db, ok}
use hookman.Store.Queries.Endpoints as Endpoints
use hookman.Store.Queries.Endpoints.{subscribes}
use hookman.Store.Postgres.{create_endpoint, get_endpoints_by_topic}
use hookman.Api.Response.{Response, write_json, an_endpoint, unset}
use hookman.Api.Flow.{◌>>=◌, pure, attempt, finish, require, require_some}
use hookman.Api.Endpoints.{
  CreateEndpointRequest, endpoint_params, generate_signing_secret, is_empty, handle_create_endpoint,
}

select-append :
    {A : Type 0} (p : A → Bool) (xs : List A) (a : A)
    → p a ≡ true
    → select p (xs ++ a ∷ []) ≡ select p xs ++ a ∷ []
select-append p [] a h = rw h refl
select-append p (x ∷ xs) a h = elim (Bool-cases (p x)) [
  | inl e ↦ rw (e, select-append p xs a h) refl
  | inr e ↦ rw (e, select-append p xs a h) refl
]

-- The secret, the identifier and the row of a request.
abbrev pub secret_for : Env → World → String
secret_for env w = (generate_signing_secret env w).0

abbrev pub id_for : Env → World → String
id_for env w = (new_endpoint env (generate_signing_secret env w).1).0

abbrev pub endpoint_for : Env → CreateEndpointRequest → World → Endpoint
endpoint_for env req w = record {
  id = id_for env w;
  url = req.url;
  topics = req.topics;
  description = req.description;
  signing_secret = secret_for env w;
  enabled = true;
  created_at = w.now;
  updated_at = w.now;
}

-- The answer to the request, with the secret.
abbrev pub answer_for : Env → CreateEndpointRequest → World → Response
answer_for env req w = write_json 201 (
    an_endpoint (record {
      id = id_for env w;
      url = req.url;
      topics = req.topics;
      description = none;
      signing_secret = secret_for env w;
      enabled = true;
      created_at = unset;
    }))

-- The world after the endpoint is stored.
abbrev pub created_world : Env → CreateEndpointRequest → World → World
created_world env req w = record w {
  draws = suc (suc w.draws);
  db = record w.db { endpoints = w.db.endpoints ++ endpoint_for env req w ∷ [] };
}

handle_create_endpoint_stores :
    (env : Env) (req : CreateEndpointRequest) (w : World)
    → w.faults ≡ []
    → (req.url == "") ≡ false
    → env.valid_uri req.url ≡ true
    → is_empty req.topics ≡ false
    → any (λ e. e.id == id_for env w) w.db.endpoints ≡ false
    → handle_create_endpoint env (some req) w ≡ (answer_for env req w, created_world env req w)
unfolding handle_create_endpoint generate_signing_secret new_endpoint create_endpoint
    Endpoints.create_endpoint attempt finish pure require require_some ◌>>=◌
handle_create_endpoint_stores env req w served named valid some_topics fresh =
    let params = endpoint_params (id_for env w) (secret_for env w) req in
    let drawn = record w { draws = suc (suc w.draws) } in
    rw
      (named, valid, some_topics, run-served (Endpoints.create_endpoint params) drawn served, fresh)
      refl

-- The enabled endpoints that list a topic.
abbrev pub listing : String → List Endpoint → List Endpoint
listing topic = select (λ ep. ep.enabled && any (λ t. t == topic) ep.topics)

bound_rows :
    (env : Env) (topic text : String) (now : ℕ) (db : Db)
    → env.bind_topic (topic ∷ []) ≡ some text
    → Endpoints.get_endpoints_by_topic env.bind_topic (topic ∷ []) now db
      ≡ ok (listing text db.endpoints, db)
unfolding Endpoints.get_endpoints_by_topic
bound_rows env topic text now db bound = rw (bound, Endpoints.get_endpoints_by_topic) refl

-- On a database that serves its calls, with an identifier that is not taken, a valid POST
-- /api/endpoints is answered with 201 and a signing secret, and the row that is stored, enabled and
-- with that secret, comes right after it among those that GetEndpointsByTopic finds, behind those
-- found before, for each event topic that the driver passes on as one of the endpoint's topics.
pub handle_create_endpoint_lem :
    (env : Env) (req : CreateEndpointRequest) (w : World) (topic text : String)
    → w.faults ≡ []
    → (req.url == "") ≡ false
    → env.valid_uri req.url ≡ true
    → is_empty req.topics ≡ false
    → any (λ e. e.id == id_for env w) w.db.endpoints ≡ false
    → env.bind_topic (topic ∷ []) ≡ some text
    → any (λ t. t == text) req.topics ≡ true
    → (let out = handle_create_endpoint env (some req) w in
        (out.0 ≡ answer_for env req w)
        × (get_endpoints_by_topic env topic out.1
            ≡ (ok (listing text w.db.endpoints ++ endpoint_for env req w ∷ []), out.1)))
unfolding get_endpoints_by_topic
handle_create_endpoint_lem env req w topic text served named valid some_topics fresh bound listed =
    let stored = handle_create_endpoint_stores env req w served named valid some_topics fresh in
    let behind = select-append (subscribes text) w.db.endpoints (endpoint_for env req w) listed in
    rw stored (
      refl,
      rw
          (
            run-served (Endpoints.get_endpoints_by_topic env.bind_topic (topic ∷ []))
                (created_world env req w) served,
            bound_rows env topic text w.now (created_world env req w).db bound,
            behind,
          )
          refl,
    )
