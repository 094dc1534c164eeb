-- ===== src/Store/Queries/Attempts.antt =====
-- internal/store/queries/delivery_attempts.sql.go: the statements on `delivery_attempts`.
pub mod Retryable
use hookman.Common.{
  ℕ, String, Bool, true, false, not, ◌&&◌, ◌||◌, List, [], ◌∷◌, ◌++◌, Option, none, some, ◌==◌, ltb,
  leb, if◌then◌else◌, select, any, take,
}
use hookman.Common.Order.{lex}
use hookman.Common.Int.{ℤ, ltb_ℤ}
use hookman.Common.Text.{text_ltb}
use hookman.Store.Sql.{order_by, distinct_on}
use hookman.Store.Models.{
  Event, DeliveryAttempt, Db, Statement, Result, ok, err, unique_violation, foreign_key_violation,
  bad_argument,
}
use hookman.Store.Queries.Events.{has_status, dead}

pub record CreateDeliveryAttemptParams : Type 0 where
  pub id : String
  pub event_id : String
  pub endpoint_id : String
  pub attempt_number : ℤ
  pub http_status : Option ℤ
  pub response_body : Option (List ℕ)
  pub duration_ms : Option ℤ
  pub status : String
  pub next_retry_at : Option ℕ

abbrev pub attempt_of : CreateDeliveryAttemptParams → ℕ → DeliveryAttempt
attempt_of p now = record {
  id = p.id;
  event_id = p.event_id;
  endpoint_id = p.endpoint_id;
  attempt_number = p.attempt_number;
  http_status = p.http_status;
  response_body = p.response_body;
  duration_ms = p.duration_ms;
  status = p.status;
  attempted_at = now;
  next_retry_at = p.next_retry_at;
}

abbrev pub body_storable : (List ℕ → Bool) → Option (List ℕ) → Bool
body_storable storable none = true
body_storable storable (some b) = storable b

-- `storable` says whether the server takes these bytes as a TEXT value.
unfoldable pub create_delivery_attempt :
    (List ℕ → Bool) → CreateDeliveryAttemptParams → Statement (Unit {0})
create_delivery_attempt storable p now db =
    if not (body_storable storable p.response_body)
    then err bad_argument
    else if any (λ a. a.id == p.id) db.attempts
    then err unique_violation
    else if any (λ e. e.id == p.event_id) db.events && any (λ e. e.id == p.endpoint_id) db.endpoints
    then ok (tt, record db { attempts = db.attempts ++ attempt_of p now ∷ [] })
    else err foreign_key_violation

unfoldable pub get_delivery_attempts_by_endpoint : String → ℕ → Statement (List DeliveryAttempt)
get_delivery_attempts_by_endpoint endpoint_id limit now db = ok (
  take limit (
      order_by (λ x y. ltb y.attempted_at x.attempted_at)
        (select (λ a. a.endpoint_id == endpoint_id) db.attempts)),
  db,
)

unfoldable pub get_delivery_attempts_by_event : String → Statement (List DeliveryAttempt)
get_delivery_attempts_by_event event_id now db = ok (
  order_by (λ x y. ltb x.attempted_at y.attempted_at)
      (select (λ a. a.event_id == event_id) db.attempts),
  db,
)

abbrev pub is_due : Option ℕ → ℕ → Bool
is_due none before = false
is_due (some t) before = leb t before

-- The JOIN on the event, and the WHERE clause.
abbrev pub retryable : List Event → ℕ → DeliveryAttempt → Bool
retryable events before a =
    any (λ e. e.id == a.event_id && not (has_status dead e)) events
    && is_due a.next_retry_at before
    && a.status == "failed"

abbrev pub same_pair : DeliveryAttempt → DeliveryAttempt → Bool
same_pair x y = x.event_id == y.event_id && x.endpoint_id == y.endpoint_id

-- ORDER BY event_id, endpoint_id
abbrev pub pair_order : DeliveryAttempt → DeliveryAttempt → Bool
pair_order =
    lex (λ x y. text_ltb x.event_id y.event_id) (λ x y. x.event_id == y.event_id)
      (λ x y. text_ltb x.endpoint_id y.endpoint_id)

-- attempt_number DESC
abbrev pub newer : DeliveryAttempt → DeliveryAttempt → Bool
newer x y = ltb_ℤ y.attempt_number x.attempt_number

abbrev pub retry_order : DeliveryAttempt → DeliveryAttempt → Bool
retry_order = lex pair_order same_pair newer

unfoldable pub get_retryable_attempts : ℕ → ℕ → Statement (List DeliveryAttempt)
get_retryable_attempts before limit now db = ok (
  take limit (
      distinct_on same_pair
        (order_by retry_order (select (retryable db.events before) db.attempts))),
  db,
)
