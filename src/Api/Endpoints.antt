-- ===== src/Api/Endpoints.antt =====
-- internal/api/endpoints.go.
pub mod Patch
pub mod Create
use Prim.Native.String
use hookman.Common.{
  ℕ, suc, String, Bool, true, false, not, List, [], ◌∷◌, Option, none, some, map, ◌==◌,
  if◌then◌else◌,
}
use hookman.World.{Env, World}
use hookman.Id.{new_endpoint}
use hookman.Delivery.Sign.{encode_to_string}
use hookman.Store.Models.{Endpoint, DeliveryAttempt, Result, ok, err}
use hookman.Store.Queries.Endpoints.{CreateEndpointParams, UpdateEndpointParams}
use hookman.Store.Postgres.{
  create_endpoint, get_endpoint, list_endpoints, update_endpoint, delete_endpoint,
  get_delivery_attempts_by_endpoint,
}
use hookman.Api.Response.{
  Response, unset, formatted, EndpointResponse, DeliveryAttemptResponse, write_json, write_error,
  no_content, object, text, an_endpoint, some_endpoints, deliveries,
}
use hookman.Api.Flow.{
  Flow, Handler, carry, ◌>>=◌, ◌>>◌, pure, require, require_some, attempt, finish,
}
use hookman.Api.Events.{lookup_failed}

pub record CreateEndpointRequest : Type 0 where
  pub url : String
  pub topics : List String
  pub description : Option String

pub record UpdateEndpointRequest : Type 0 where
  pub url : Option String
  pub topics : Option (List String)
  pub description : Option String
  pub enabled : Option Bool

unfoldable pub generate_signing_secret : Env → World → String × World
generate_signing_secret env w = (
  String.◌++◌ "whsec_" (encode_to_string (env.random_bytes w.draws)),
  record w { draws = suc w.draws },
)

abbrev pub draw_secret : Env → Handler String
draw_secret env w = let (s, w') = generate_signing_secret env w in (carry s, w')

abbrev pub draw_endpoint_id : Env → Handler String
draw_endpoint_id env w = let (id, w') = new_endpoint env w in (carry id, w')

abbrev pub is_empty {ℓ} : {A : Type ℓ} → List A → Bool
is_empty [] = true
is_empty (x ∷ xs) = false

abbrev pub endpoint_params : String → String → CreateEndpointRequest → CreateEndpointParams
endpoint_params id secret req = record {
  id = id;
  url = req.url;
  topics = req.topics;
  description = req.description;
  signing_secret = secret;
  enabled = true;
}

abbrev pub created_endpoint : String → String → CreateEndpointRequest → Response
created_endpoint id secret req = write_json 201 (
    an_endpoint (record {
      id = id;
      url = req.url;
      topics = req.topics;
      description = none;
      signing_secret = secret;
      enabled = true;
      created_at = unset;
    }))

unfoldable pub handle_create_endpoint :
    Env → Option CreateEndpointRequest → World → Response × World
unfolding generate_signing_secret
handle_create_endpoint env body = finish do
  req ← require_some body (write_error 400 "invalid JSON body")
  require (not (req.url == "")) (write_error 400 "url is required")
  require (env.valid_uri req.url) (write_error 400 "invalid url")
  require (not (is_empty req.topics)) (write_error 400 "at least one topic is required")
  secret ← draw_secret env
  id ← draw_endpoint_id env
  attempt (create_endpoint (endpoint_params id secret req))
      (λ _. write_error 500 "failed to create endpoint")
  pure (created_endpoint id secret req)

abbrev pub endpoint_response : Endpoint → EndpointResponse
endpoint_response ep = record {
  id = ep.id;
  url = ep.url;
  topics = ep.topics;
  description = ep.description;
  signing_secret = "";
  enabled = ep.enabled;
  created_at = formatted ep.created_at;
}

unfoldable pub handle_list_endpoints : World → Response × World
handle_list_endpoints = finish do
  endpoints ← attempt list_endpoints (λ _. write_error 500 "failed to list endpoints")
  pure (write_json 200 (some_endpoints (map endpoint_response endpoints)))

abbrev pub patch_params : String → UpdateEndpointRequest → UpdateEndpointParams
patch_params id req = record {
  url = req.url;
  topics = req.topics;
  description = req.description;
  enabled = req.enabled;
  id = id;
}

-- The answer of the PATCH, with the endpoint read back if that works.
abbrev pub updated_response : String → Result Endpoint → Response
updated_response id (ok updated) = write_json 200 (an_endpoint (endpoint_response updated))
updated_response id (err e) =
    write_json 200 (object (("id", text id) ∷ ("status", text "updated") ∷ []))

abbrev pub read_back : String → Handler Response
read_back id w = let (r, w') = get_endpoint id w in (carry (updated_response id r), w')

unfoldable pub handle_update_endpoint :
    String → Option UpdateEndpointRequest → World → Response × World
handle_update_endpoint id body = finish do
  attempt (get_endpoint id) (lookup_failed "endpoint not found")
  req ← require_some body (write_error 400 "invalid JSON body")
  attempt (update_endpoint (patch_params id req)) (λ _. write_error 500 "failed to update endpoint")
  read_back id

unfoldable pub handle_delete_endpoint : String → World → Response × World
handle_delete_endpoint id = finish do
  attempt (get_endpoint id) (lookup_failed "endpoint not found")
  attempt (delete_endpoint id) (λ _. write_error 500 "failed to delete endpoint")
  pure no_content

abbrev pub delivery_response : DeliveryAttempt → DeliveryAttemptResponse
delivery_response a = record {
  id = a.id;
  endpoint_id = a.endpoint_id;
  attempt_number = a.attempt_number;
  http_status = a.http_status;
  response_body = none;
  duration_ms = a.duration_ms;
  status = a.status;
  attempted_at = formatted a.attempted_at;
  next_retry_at = none;
}

unfoldable pub handle_endpoint_deliveries : String → World → Response × World
handle_endpoint_deliveries id = finish do
  attempt (get_endpoint id) (lookup_failed "endpoint not found")
  attempts ←
      attempt (get_delivery_attempts_by_endpoint id 50) (λ _. write_error 500 "internal error")
  pure (write_json 200 (deliveries (map delivery_response attempts)))
