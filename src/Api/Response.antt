-- ===== src/Api/Response.antt =====
-- internal/api/response.go and the response types of events.go and endpoints.go. A body is the
-- value that is encoded as JSON. A `Stamp` is a time under the layout "2006-01-02T15:04:05Z", or
-- the empty text; an optional field that is left out of the JSON is `none` or "".
use hookman.Common.{ℕ, String, Bool, List, [], ◌∷◌, Option, none, some}
use hookman.Common.Int.{ℤ}

pub data Stamp : Type 0 where
  unset : Stamp
  formatted : ℕ → Stamp

pub record EventResponse : Type 0 where
  pub id : String
  pub topic : String
  pub payload : String
  pub status : String
  pub created_at : Stamp

pub record DeliveryAttemptResponse : Type 0 where
  pub id : String
  pub endpoint_id : String
  pub attempt_number : ℤ
  pub http_status : Option ℤ
  pub response_body : Option (List ℕ)
  pub duration_ms : Option ℤ
  pub status : String
  pub attempted_at : Stamp
  pub next_retry_at : Option Stamp

pub record EventDetailResponse : Type 0 where
  pub event : EventResponse
  pub delivery_attempts : List DeliveryAttemptResponse

pub record EndpointResponse : Type 0 where
  pub id : String
  pub url : String
  pub topics : List String
  pub description : Option String
  pub signing_secret : String
  pub enabled : Bool
  pub created_at : Stamp

pub data Value : Type 0 where
  text : String → Value
  number : ℕ → Value

pub data Body : Type 0 where
  empty : Body
  object : List (String × Value) → Body
  an_event : EventResponse → Body
  some_events : List EventResponse → Body
  event_detail : EventDetailResponse → Body
  an_endpoint : EndpointResponse → Body
  some_endpoints : List EndpointResponse → Body
  deliveries : List DeliveryAttemptResponse → Body

pub record Response : Type 0 where
  pub status : ℕ
  pub content_type : Option String
  pub body : Body

abbrev pub write_json : ℕ → Body → Response
write_json status body = record {
  status = status;
  content_type = some "application/json";
  body = body;
}

abbrev pub write_error : ℕ → String → Response
write_error status message = write_json status (object (("error", text message) ∷ []))

-- w.WriteHeader(http.StatusNoContent), with no body.
abbrev pub no_content : Response
no_content = record { status = 204; content_type = none; body = empty }

-- An http.Handler, for one request: it answers, and changes the state behind it.
abbrev pub HttpHandler : Type 0 → Type 0
HttpHandler W = W → Response × W

-- A middleware's own answer in place of the handler's.
abbrev pub refuse : {W : Type 0} → ℕ → String → HttpHandler W
refuse status message w = (write_error status message, w)
