-- ===== src/Store/Models.antt =====
-- internal/store/queries/models.go and the tables of migrations/. A nullable column is an `Option`
-- (pgtype's `Valid` flag), a time is a number of nanoseconds, a response body is its bytes.
use hookman.Common.{ℕ, String, Bool, List, [], Option}
use hookman.Common.Int.{ℤ}

pub record Event : Type 0 where
  pub id : String
  pub topic : String
  pub payload : String
  pub idempotency_key : Option String
  pub status : String
  pub created_at : ℕ
  pub updated_at : ℕ

pub record Endpoint : Type 0 where
  pub id : String
  pub url : String
  pub topics : List String
  pub description : Option String
  pub signing_secret : String
  pub enabled : Bool
  pub created_at : ℕ
  pub updated_at : ℕ

pub record DeliveryAttempt : Type 0 where
  pub id : String
  pub event_id : String
  pub endpoint_id : String
  pub attempt_number : ℤ
  pub http_status : Option ℤ
  pub response_body : Option (List ℕ)
  pub duration_ms : Option ℤ
  pub status : String
  pub attempted_at : ℕ
  pub next_retry_at : Option ℕ

-- The three tables, rows in the order of their insertion.
pub record Db : Type 0 where
  pub events : List Event
  pub endpoints : List Endpoint
  pub attempts : List DeliveryAttempt

abbrev pub empty_db : Db
empty_db = record { events = []; endpoints = []; attempts = [] }

-- no_rows is pgx.ErrNoRows; the others are what the driver or the server reports.
pub data DbError : Type 0 where
  no_rows unique_violation foreign_key_violation bad_argument unavailable : DbError

pub data Result {ℓ} (A : Type ℓ) : Type ℓ where
  ok : A → Result A
  err : DbError → Result A

-- One statement, run at the time that NOW() gives. A statement that fails changes nothing.
abbrev pub Statement : Type 0 → Type 0
Statement A = ℕ → Db → Result (A × Db)
