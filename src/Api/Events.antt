-- ===== src/Api/Events.antt =====
-- internal/api/events.go. A request's body comes decoded, `none` where decoding fails; a query
-- parameter that is missing is the empty text, as in r.URL.Query().Get.
pub mod Create
pub mod Query
use hookman.Common.{
  ℕ, String, Bool, true, false, not, ◌&&◌, List, [], ◌∷◌, Option, none, some, map, ◌==◌, ltb, leb,
  if◌then◌else◌,
}
use hookman.Common.Int.{ℤ, pos, negsuc}
use hookman.Common.Strconv.{atoi}
use hookman.Metrics.{record_event_created}
use hookman.World.{Env, World}
use hookman.Id.{new_event}
use hookman.Store.Models.{Event, DeliveryAttempt, DbError, no_rows, Result, ok, err}
use hookman.Store.Queries.Events.{CreateEventParams, ListEventsParams, pending}
use hookman.Store.Postgres.{
  create_event, get_event, get_event_by_idempotency_key, list_events, update_event_status,
  update_status_params, get_delivery_attempts_by_event,
}
use hookman.Api.Response.{
  Response, Stamp, unset, formatted, EventResponse, DeliveryAttemptResponse, write_json,
  write_error, object, text, an_event, some_events, event_detail,
}
use hookman.Api.Flow.{
  Flow, Handler, respond, carry, ◌>>=◌, ◌>>◌, pure, return, require, require_some, attempt, observe,
  finish,
}

pub record CreateEventRequest : Type 0 where
  pub topic : String
  pub payload : String
  pub idempotency_key : Option String

-- A key that is given and not empty.
abbrev pub key_of : Option String → Option String
key_of none = none
key_of (some k) = if k == "" then none else some k

abbrev pub brief : Event → EventResponse
brief e = record {
  id = e.id;
  topic = e.topic;
  payload = "";
  status = e.status;
  created_at = formatted e.created_at;
}

abbrev pub full : Event → EventResponse
full e = record (brief e) { payload = e.payload }

abbrev pub check_existing : Result Event × World → Flow (Unit {0}) × World
check_existing (ok existing, w) = (respond (write_json 200 (an_event (brief existing))), w)
check_existing (err no_rows, w) = (carry tt, w)
check_existing (err _, w) = (respond (write_error 500 "internal error"), w)

abbrev pub check_idempotency : Option String → Handler (Unit {0})
check_idempotency none w = pure tt w
check_idempotency (some key) w = check_existing (get_event_by_idempotency_key (some key) w)

abbrev pub create_params : String → CreateEventRequest → CreateEventParams
create_params id req = record {
  id = id;
  topic = req.topic;
  payload = req.payload;
  idempotency_key = key_of req.idempotency_key;
  status = pending;
}

abbrev pub draw_event_id : Env → Handler String
draw_event_id env w = let (id, w') = new_event env w in (carry id, w')

abbrev pub created : String → CreateEventRequest → Response
created id req = write_json 201 (
    an_event
      (record { id = id; topic = req.topic; payload = ""; status = pending; created_at = unset }))

-- The part behind the checks of the request.
unfoldable pub store_event : Env → CreateEventRequest → Handler Response
store_event env req = do
  check_idempotency (key_of req.idempotency_key)
  id ← draw_event_id env
  attempt (create_event (create_params id req)) (λ _. write_error 500 "failed to create event")
  observe (record_event_created req.topic)
  pure (created id req)

unfoldable pub handle_create_event : Env → Option CreateEventRequest → World → Response × World
unfolding store_event
handle_create_event env body = finish do
  req ← require_some body (write_error 400 "invalid JSON body")
  require (not (req.topic == "")) (write_error 400 "topic is required")
  require (not (req.payload == "")) (write_error 400 "payload is required")
  store_event env req

abbrev pub limit_in_range : Option ℤ → ℕ
limit_in_range none = 50
limit_in_range (some (pos n)) = if ltb 0 n && leb n 200 then n else 50
limit_in_range (some (negsuc n)) = 50

-- The page size of a listing.
unfoldable pub limit_of : String → ℕ
unfolding atoi
limit_of l = if l == "" then 50 else limit_in_range (atoi l)

-- A filter that is given and not empty.
abbrev pub filter_of : String → Option String
filter_of s = if s == "" then none else some s

pub record ListQuery : Type 0 where
  pub limit : String
  pub topic : String
  pub status : String
  pub before : String

unfoldable pub list_params : ListQuery → ListEventsParams
unfolding limit_of
list_params q = record {
  topic = filter_of q.topic;
  status = filter_of q.status;
  before_id = filter_of q.before;
  limit_count = limit_of q.limit;
}

unfoldable pub handle_list_events : ListQuery → World → Response × World
unfolding list_params
handle_list_events q = finish do
  events ← attempt (list_events (list_params q)) (λ _. write_error 500 "failed to list events")
  pure (write_json 200 (some_events (map full events)))

abbrev pub stamp_of : Option ℕ → Option Stamp
stamp_of none = none
stamp_of (some t) = some (formatted t)

abbrev pub attempt_response : DeliveryAttempt → DeliveryAttemptResponse
attempt_response a = record {
  id = a.id;
  endpoint_id = a.endpoint_id;
  attempt_number = a.attempt_number;
  http_status = a.http_status;
  response_body = a.response_body;
  duration_ms = a.duration_ms;
  status = a.status;
  attempted_at = formatted a.attempted_at;
  next_retry_at = stamp_of a.next_retry_at;
}

abbrev pub lookup_failed : String → DbError → Response
lookup_failed missing no_rows = write_error 404 missing
lookup_failed missing _ = write_error 500 "internal error"

unfoldable pub handle_get_event : String → World → Response × World
handle_get_event event_id = finish do
  event ← attempt (get_event event_id) (lookup_failed "event not found")
  attempts ←
      attempt (get_delivery_attempts_by_event event_id) (λ _. write_error 500 "internal error")
  pure (
      write_json 200 (
        event_detail
          (record { event = full event; delivery_attempts = map attempt_response attempts })))

unfoldable pub handle_replay_event : String → World → Response × World
handle_replay_event event_id = finish do
  attempt (get_event event_id) (lookup_failed "event not found")
  attempt (update_event_status (update_status_params event_id pending))
      (λ _. write_error 500 "failed to replay event")
  pure (write_json 200 (object (("id", text event_id) ∷ ("status", text "pending") ∷ [])))
