-- ===== src/Store/Integrity.antt =====
-- The constraints of migrations/: primary keys, the unique idempotency key and the foreign keys;
-- and the changes that statements make to the tables, one at a time.
pub mod Apart
pub mod Preserved
pub mod Dead
pub mod Log
use hookman.Common.{
  ℕ, String, ◌≡◌, ◌⊎◌, Bool, true, ◌&&◌, ◌||◌, List, [], ◌∷◌, Option, ◌==◌, any, All, false,
}
use hookman.Store.Models.{Event, Endpoint, DeliveryAttempt, Db, ok}
use hookman.Store.Queries.Events as Events
use hookman.Store.Queries.Endpoints as Endpoints
use hookman.Store.Queries.Attempts as Attempts
use hookman.Store.Queries.Events.{null_eq}

-- Two events that the primary key or the unique key of `events` does not allow together.
abbrev pub same_event : Event → Event → Bool
same_event x y = x.id == y.id || null_eq x.idempotency_key y.idempotency_key

abbrev pub same_endpoint : Endpoint → Endpoint → Bool
same_endpoint x y = x.id == y.id

abbrev pub same_attempt : DeliveryAttempt → DeliveryAttempt → Bool
same_attempt x y = x.id == y.id

module _ {A : Type 0} where
  abbrev pub AreApart : (A → A → Bool) → List A → Type 0
  AreApart clash [] = Unit
  AreApart clash (x ∷ xs) = (any (λ y. clash x y) xs ≡ false) × AreApart clash xs

-- Both rows that an attempt refers to are there.
abbrev pub Refers : Db → DeliveryAttempt → Type 0
Refers db a =
    (any (λ e. e.id == a.event_id) db.events ≡ true)
    × (any (λ e. e.id == a.endpoint_id) db.endpoints ≡ true)

pub record IsConsistent (db : Db) : Type 0 where
  pub event_keys : AreApart same_event db.events
  pub endpoint_keys : AreApart same_endpoint db.endpoints
  pub attempt_keys : AreApart same_attempt db.attempts
  pub references : All (Refers db) db.attempts

abbrev pub has_attempt : String → Db → Bool
has_attempt id db = any (λ a. a.event_id == id) db.attempts

-- The statuses that the program gives to an event.
abbrev pub IsKnown : String → Type 0
IsKnown s =
    (s ≡ Events.pending) ⊎ (s ≡ Events.processing) ⊎ (s ≡ Events.delivered) ⊎ (s ≡ Events.dead)

-- One successful statement that writes, as the program uses it: events are created pending, given
-- known statuses, and one is marked dead only when an attempt to deliver it is on record.
pub data Write (storable : List ℕ → Bool) (db db' : Db) : Type 0 where
  creates_event :
      (p : Events.CreateEventParams) (now : ℕ)
      → p.status ≡ Events.pending
      → Events.create_event p now db ≡ ok (tt, db')
      → Write storable db db'
  updates_status :
      (p : Events.UpdateEventStatusParams) (now : ℕ)
      → IsKnown p.status
      → ((p.status == Events.dead) ≡ true → has_attempt p.id db ≡ true)
      → Events.update_event_status p now db ≡ ok (tt, db')
      → Write storable db db'
  replays :
      (n now : ℕ) → Events.bulk_replay_dead_events now db ≡ ok (n, db') → Write storable db db'
  purges : (n now : ℕ) → Events.purge_dead_events now db ≡ ok (n, db') → Write storable db db'
  creates_endpoint :
      (p : Endpoints.CreateEndpointParams) (now : ℕ)
      → Endpoints.create_endpoint p now db ≡ ok (tt, db')
      → Write storable db db'
  updates_endpoint :
      (p : Endpoints.UpdateEndpointParams) (now : ℕ)
      → Endpoints.update_endpoint p now db ≡ ok (tt, db')
      → Write storable db db'
  deletes_endpoint :
      (id : String) (now : ℕ)
      → Endpoints.delete_endpoint id now db ≡ ok (tt, db')
      → Write storable db db'
  creates_attempt :
      (p : Attempts.CreateDeliveryAttemptParams) (now : ℕ)
      → Attempts.create_delivery_attempt storable p now db ≡ ok (tt, db')
      → Write storable db db'

-- What any interleaving of requests, poller and workers can make of the tables.
pub data Writes (storable : List ℕ → Bool) (db : Db) : Db → Type 0 where
  done : Writes storable db db
  next : {mid db' : Db} → Writes storable db mid → Write storable mid db' → Writes storable db db'
