-- ===== src/World.antt =====
-- What the operations of the program read and change: the tables behind the connection pool, the
-- clock, the random source and the metrics; and the code that is not part of the repository.
pub mod Runs
use hookman.Common.{ℕ, String, Bool, List, [], ◌∷◌, Option}
use hookman.Metrics.{Metrics}
use hookman.Store.Models.{Db, Result, ok, err, unavailable, Statement}

-- HMAC-SHA256 from key and message; the ulid library and crypto/rand by the number of the draw;
-- which bytes the server stores as TEXT; what the driver makes of a slice for a text argument;
-- whether url.ParseRequestURI accepts a text.
pub record Env : Type 0 where
  pub hmac : String → String → List ℕ
  pub ulid : ℕ → String
  pub random_bytes : ℕ → List ℕ
  pub storable : List ℕ → Bool
  pub bind_topic : List String → Option String
  pub valid_uri : String → Bool

-- What happens to one call of the database: it is served; it fails before the statement changes
-- anything, for a reason that is not in the tables (a broken connection, a cancelled context, or a
-- text among its arguments that the server does not store, as one with a zero byte); or the statement
-- runs and its reply is lost.
pub data Fault : Type 0 where
  served lost_request lost_reply : Fault

-- `faults` foretells the coming calls; past its end every call is served.
pub record World : Type 0 where
  pub db : Db
  pub now : ℕ
  pub draws : ℕ
  pub faults : List Fault
  pub metrics : Metrics

abbrev pub Call : Type 0 → Type 0
Call A = World → Result A × World

abbrev pub next_fault : List Fault → Fault
next_fault [] = served
next_fault (f ∷ fs) = f

abbrev pub later_faults : List Fault → List Fault
later_faults [] = []
later_faults (f ∷ fs) = fs

module _ {A : Type 0} where
  abbrev pub settle : Result (A × Db) → World → Result A × World
  settle (ok (a, db)) w = (ok a, record w { db = db })
  settle (err e) w = (err e, w)

  abbrev pub answer : Fault → Result (A × Db) → World → Result A × World
  answer served r w = settle r w
  answer lost_request r w = (err unavailable, w)
  answer lost_reply r w = (err unavailable, (settle r w).1)

  -- One statement over the connection pool.
  unfoldable pub run : Statement A → Call A
  run s w =
      answer (next_fault w.faults) (s w.now w.db) (record w { faults = later_faults w.faults })

-- A metric is updated in place.
abbrev pub measure : (Metrics → Metrics) → World → World
measure f w = record w { metrics = f w.metrics }
