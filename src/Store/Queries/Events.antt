-- ===== src/Store/Queries/Events.antt =====
-- internal/store/queries/events.sql.go: the statements on `events`.
pub mod Pages
pub mod Pending
use hookman.Common.{
  ℕ, suc, String, Bool, true, false, ◌&&◌, ◌||◌, List, [], ◌∷◌, ◌++◌, Option, none, some, ◌==◌, ltb,
  if◌then◌else◌, select, find, any, take, length,
}
use hookman.Common.Text.{text_ltb}
use hookman.Store.Sql.{order_by, update_where, delete_where}
use hookman.Store.Models.{
  Event, DeliveryAttempt, Statement, ok, err, no_rows, unique_violation, foreign_key_violation,
}

abbrev pub pending : String
pending = "pending"

abbrev pub processing : String
processing = "processing"

abbrev pub delivered : String
delivered = "delivered"

abbrev pub dead : String
dead = "dead"

-- `column = $1` where the argument or the column may be NULL.
abbrev pub null_eq : Option String → Option String → Bool
null_eq none b = false
null_eq (some a) none = false
null_eq (some a) (some b) = a == b

-- `$1::text IS NULL OR …`
abbrev pub null_or : Option String → (String → Bool) → Bool
null_or none p = true
null_or (some a) p = p a

pub record CreateEventParams : Type 0 where
  pub id : String
  pub topic : String
  pub payload : String
  pub idempotency_key : Option String
  pub status : String

abbrev pub event_of : CreateEventParams → ℕ → Event
event_of p now = record {
  id = p.id;
  topic = p.topic;
  payload = p.payload;
  idempotency_key = p.idempotency_key;
  status = p.status;
  created_at = now;
  updated_at = now;
}

-- The primary key and the unique idempotency key.
abbrev pub event_clashes : CreateEventParams → Event → Bool
event_clashes p e = e.id == p.id || null_eq e.idempotency_key p.idempotency_key

-- It fails by a key that is taken; an argument that the server does not store fails the call before
-- that (World.Fault).
unfoldable pub create_event : CreateEventParams → Statement (Unit {0})
create_event p now db =
    if any (event_clashes p) db.events
    then err unique_violation
    else ok (tt, record db { events = db.events ++ event_of p now ∷ [] })

-- A `:one` query: the first row, or pgx.ErrNoRows.
abbrev pub one : {A : Type 0} → Option A → Statement A
one none now db = err no_rows
one (some a) now db = ok (a, db)

unfoldable pub get_event : String → Statement Event
get_event id now db = one (find (λ e. e.id == id) db.events) now db

unfoldable pub get_event_by_idempotency_key : Option String → Statement Event
get_event_by_idempotency_key key now db =
    one (find (λ e. null_eq key e.idempotency_key) db.events) now db

pub record ListEventsParams : Type 0 where
  pub topic : Option String
  pub status : Option String
  pub before_id : Option String
  pub limit_count : ℕ

abbrev pub listed : ListEventsParams → Event → Bool
listed p e =
    null_or p.topic (λ t. e.topic == t)
    && null_or p.status (λ s. e.status == s)
    && null_or p.before_id (λ b. text_ltb e.id b)

unfoldable pub list_events : ListEventsParams → Statement (List Event)
list_events p now db =
    ok (take p.limit_count (order_by (λ x y. text_ltb y.id x.id) (select (listed p) db.events)), db)

pub record UpdateEventStatusParams : Type 0 where
  pub id : String
  pub status : String

abbrev pub set_status : String → ℕ → Event → Event
set_status status now e = record e { status = status; updated_at = now }

unfoldable pub update_event_status : UpdateEventStatusParams → Statement (Unit {0})
update_event_status p now db = ok (
  tt,
  record db { events = update_where (λ e. e.id == p.id) (set_status p.status now) db.events },
)

abbrev pub has_status : String → Event → Bool
has_status status e = e.status == status

unfoldable pub get_pending_events : ℕ → Statement (List Event)
get_pending_events limit now db = ok (
  take limit
      (order_by (λ x y. ltb x.created_at y.created_at) (select (has_status pending) db.events)),
  db,
)

pub record GetDeadEventsParams : Type 0 where
  pub before_id : Option String
  pub limit_count : ℕ

abbrev pub dead_before : GetDeadEventsParams → Event → Bool
dead_before p e = has_status dead e && null_or p.before_id (λ b. text_ltb e.id b)

unfoldable pub get_dead_events : GetDeadEventsParams → Statement (List Event)
get_dead_events p now db = ok (
  take p.limit_count
      (order_by (λ x y. ltb y.updated_at x.updated_at) (select (dead_before p) db.events)),
  db,
)

pub record StatusCount : Type 0 where
  pub status : String
  pub count : ℕ

-- GROUP BY status, COUNT(*): one row more for a status, in the groups so far.
unfoldable pub count_in : String → List StatusCount → List StatusCount
count_in s [] = record { status = s; count = 1 } ∷ []
count_in s (r ∷ rs) =
    if r.status == s then record r { count = suc r.count } ∷ rs else r ∷ count_in s rs

unfoldable pub group_by_status : List Event → List StatusCount
unfolding count_in
group_by_status [] = []
group_by_status (e ∷ es) = count_in e.status (group_by_status es)

unfoldable pub count_events_by_status : Statement (List StatusCount)
count_events_by_status now db = ok (group_by_status db.events, db)

-- The result is the number of affected rows.
unfoldable pub bulk_replay_dead_events : Statement ℕ
bulk_replay_dead_events now db = ok (
  length (select (has_status dead) db.events),
  record db { events = update_where (has_status dead) (set_status pending now) db.events },
)

-- delivery_attempts.event_id REFERENCES events(id), with no ON DELETE clause.
abbrev pub attempted : List DeliveryAttempt → Event → Bool
attempted attempts e = any (λ a. a.event_id == e.id) attempts

unfoldable pub purge_dead_events : Statement ℕ
purge_dead_events now db =
    let gone = select (has_status dead) db.events in
    if any (attempted db.attempts) gone
    then err foreign_key_violation
    else ok (length gone, record db { events = delete_where (has_status dead) db.events })
