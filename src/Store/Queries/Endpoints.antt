-- ===== src/Store/Queries/Endpoints.antt =====
-- internal/store/queries/endpoints.sql.go: the statements on `endpoints`.
use hookman.Common.{
  ℕ, String, Bool, ◌&&◌, List, [], ◌∷◌, ◌++◌, Option, none, some, ◌==◌, ltb, if◌then◌else◌, select,
  find, any,
}
use hookman.Store.Sql.{order_by, update_where, delete_where, coalesce}
use hookman.Store.Models.{
  Endpoint, Statement, ok, err, unique_violation, foreign_key_violation, bad_argument,
}
use hookman.Store.Queries.Events.{one}

pub record CreateEndpointParams : Type 0 where
  pub id : String
  pub url : String
  pub topics : List String
  pub description : Option String
  pub signing_secret : String
  pub enabled : Bool

abbrev pub endpoint_of : CreateEndpointParams → ℕ → Endpoint
endpoint_of p now = record {
  id = p.id;
  url = p.url;
  topics = p.topics;
  description = p.description;
  signing_secret = p.signing_secret;
  enabled = p.enabled;
  created_at = now;
  updated_at = now;
}

-- An argument that the server does not store fails the call before this (World.Fault), here and in
-- UpdateEndpoint.
unfoldable pub create_endpoint : CreateEndpointParams → Statement (Unit {0})
create_endpoint p now db =
    if any (λ e. e.id == p.id) db.endpoints
    then err unique_violation
    else ok (tt, record db { endpoints = db.endpoints ++ endpoint_of p now ∷ [] })

-- delivery_attempts.endpoint_id REFERENCES endpoints(id), with no ON DELETE clause.
unfoldable pub delete_endpoint : String → Statement (Unit {0})
delete_endpoint id now db =
    if any (λ e. e.id == id) db.endpoints && any (λ a. a.endpoint_id == id) db.attempts
    then err foreign_key_violation
    else ok (tt, record db { endpoints = delete_where (λ e. e.id == id) db.endpoints })

unfoldable pub get_endpoint : String → Statement Endpoint
get_endpoint id now db = one (find (λ e. e.id == id) db.endpoints) now db

abbrev pub subscribes : String → Endpoint → Bool
subscribes topic e = e.enabled && any (λ t. t == topic) e.topics

-- `$1 = ANY(topics)` takes one text, and the method passes a slice: `bind_topic` is the text that
-- the driver makes of the slice, or `none` if it refuses the argument, as a driver may that has no
-- encoding of a slice as a text.
unfoldable pub get_endpoints_by_topic :
    (List String → Option String) → List String → Statement (List Endpoint)
get_endpoints_by_topic bind_topic topics now db = elim (bind_topic topics) [
  | none ↦ err bad_argument
  | some topic ↦ ok (select (subscribes topic) db.endpoints, db)
]

unfoldable pub list_endpoints : Statement (List Endpoint)
list_endpoints now db = ok (order_by (λ x y. ltb y.created_at x.created_at) db.endpoints, db)

pub record UpdateEndpointParams : Type 0 where
  pub url : Option String
  pub topics : Option (List String)
  pub description : Option String
  pub enabled : Option Bool
  pub id : String

abbrev pub patched : UpdateEndpointParams → ℕ → Endpoint → Endpoint
patched p now e = record e {
  url = coalesce p.url e.url;
  topics = coalesce p.topics e.topics;
  description = elim p.description [ none ↦ e.description | some d ↦ some d ];
  enabled = coalesce p.enabled e.enabled;
  updated_at = now;
}

unfoldable pub update_endpoint : UpdateEndpointParams → Statement (Unit {0})
update_endpoint p now db =
    ok (tt, record db { endpoints = update_where (λ e. e.id == p.id) (patched p now) db.endpoints })
