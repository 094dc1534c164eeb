-- ===== src/Store/Integrity/Log.antt =====
-- The events of the table as a log of what was posted, and their statuses.
use mathlib.Core.List.{map-append, append-nil, append_assoc}
use hookman.Common.{
  ℕ, String, ◌≡◌, refl, sym, ap, ◌∙◌, inl, inr, Bool, false, List, [], ◌∷◌, ◌++◌, Option, map, any,
  All, arith, Bool-cases, ◌==◌,
}
use hookman.Store.Sql.{update_where, delete_where}
use hookman.Store.Sql.Members.{All-append}
use hookman.Store.Models.{Event, Db, ok}
use hookman.Store.Queries.Events as Events
use hookman.Store.Queries.Events.{has_status, dead, set_status}
use hookman.Store.Queries.Endpoints as Endpoints
use hookman.Store.Queries.Attempts as Attempts
use hookman.Store.Integrity.{
  IsKnown, Write, Writes, creates_event, updates_status, replays, purges, creates_endpoint,
  updates_endpoint, deletes_endpoint, creates_attempt, done, next,
}
use hookman.Store.Integrity.Dead.{
  DeadAreAttempted, Writes-DeadAreAttempted, All-select, All-update_where, purge_refused,
}

-- What a client has posted, with the time of its arrival.
pub record Posted : Type 0 where
  pub id : String
  pub topic : String
  pub payload : String
  pub idempotency_key : Option String
  pub created_at : ℕ

abbrev pub posted : Event → Posted
posted e = record {
  id = e.id;
  topic = e.topic;
  payload = e.payload;
  idempotency_key = e.idempotency_key;
  created_at = e.created_at;
}

-- The log, in the order of the table.
abbrev pub log_of : Db → List Posted
log_of db = map posted db.events

abbrev pub Extends : List Posted → List Posted → Type 0
Extends old new = (more : List Posted) × (new ≡ old ++ more)

Extends-refl : (xs : List Posted) → Extends xs xs
Extends-refl xs = ([], sym (append-nil xs))

Extends-trans : (xs ys zs : List Posted) → Extends xs ys → Extends ys zs → Extends xs zs
Extends-trans xs ys zs (a, p) (b, q) = (a ++ b, q ∙ ap (λ l. l ++ b) p ∙ append_assoc xs a b)

map-update_where :
    (q : Event → Bool) (f : Event → Event) (xs : List Event)
    → ((e : Event) → posted (f e) ≡ posted e)
    → map posted (update_where q f xs) ≡ map posted xs
map-update_where q f [] same = refl
map-update_where q f (x ∷ xs) same = elim (Bool-cases (q x)) [
  | inl e ↦ rw (e, same x, map-update_where q f xs same) refl
  | inr e ↦ rw (e, map-update_where q f xs same) refl
]

delete_where_none : (q : Event → Bool) (xs : List Event) → any q xs ≡ false → delete_where q xs ≡ xs
delete_where_none q [] h = refl
delete_where_none q (x ∷ xs) h = ground (arith, delete_where_none q xs)

-- A purge that succeeds found no dead event.
purge-events :
    (n now : ℕ) (db db' : Db)
    → DeadAreAttempted db
    → Events.purge_dead_events now db ≡ ok (n, db')
    → db'.events ≡ db.events
unfolding Events.purge_dead_events
purge-events n now db db' h e = elim (Bool-cases (any (has_status dead) db.events)) [
  | inl d ↦ absurd (cc (rw (purge_refused now db h d) at e))
  | inr d ↦ let none_dead = delete_where_none (has_status dead) db.events d in ground arith
]

Write-log_of :
    (storable : List ℕ → Bool) (db db' : Db)
    → Write storable db db'
    → DeadAreAttempted db
    → Extends (log_of db) (log_of db')
unfolding Events.create_event Events.update_event_status Events.bulk_replay_dead_events
    Endpoints.create_endpoint Endpoints.update_endpoint Endpoints.delete_endpoint
    Attempts.create_delivery_attempt
Write-log_of storable db db' (creates_event p now lawful e) h =
    let same : db'.events ≡ db.events ++ Events.event_of p now ∷ [] = ground arith in
    (
      posted (Events.event_of p now) ∷ [],
      rw same (map-append posted db.events (Events.event_of p now ∷ [])),
    )
Write-log_of storable db db' (updates_status p now _ _ e) h =
    let same : db'.events ≡ update_where (λ x. x.id == p.id) (set_status p.status now) db.events =
      ground arith in
    let kept =
      map-update_where (λ x. x.id == p.id) (set_status p.status now) db.events (λ x. refl) in
    rw (same, kept) (Extends-refl (log_of db))
Write-log_of storable db db' (replays n now e) h =
    let same : db'.events
        ≡ update_where (has_status dead) (set_status Events.pending now) db.events =
      ground arith in
    let kept =
      map-update_where (has_status dead) (set_status Events.pending now) db.events (λ x. refl) in
    rw (same, kept) (Extends-refl (log_of db))
Write-log_of storable db db' (purges n now e) h =
    rw (purge-events n now db db' h e) (Extends-refl (log_of db))
Write-log_of storable db db' (creates_endpoint p now e) h =
    let same : db'.events ≡ db.events = ground arith in rw same (Extends-refl (log_of db))
Write-log_of storable db db' (updates_endpoint p now e) h =
    let same : db'.events ≡ db.events = ground arith in rw same (Extends-refl (log_of db))
Write-log_of storable db db' (deletes_endpoint id now e) h =
    let same : db'.events ≡ db.events = ground arith in rw same (Extends-refl (log_of db))
Write-log_of storable db db' (creates_attempt p now e) h =
    let same : db'.events ≡ db.events = ground arith in rw same (Extends-refl (log_of db))

-- Any sequence of writes only appends to the log.
pub Writes-log_of :
    (storable : List ℕ → Bool) (db : Db) {db' : Db}
    → Writes storable db db'
    → DeadAreAttempted db
    → Extends (log_of db) (log_of db')
Writes-log_of storable db done h = Extends-refl (log_of db)
Writes-log_of storable db (next {mid} {db'} ws w) h =
    Extends-trans (log_of db) (log_of mid) (log_of db') (Writes-log_of storable db ws h)
      (Write-log_of storable mid db' w (Writes-DeadAreAttempted storable db ws h))

abbrev pub StatusesAreKnown : Db → Type 0
StatusesAreKnown db = All (λ e. IsKnown e.status) db.events

Write-StatusesAreKnown :
    (storable : List ℕ → Bool) (db db' : Db)
    → Write storable db db'
    → StatusesAreKnown db
    → StatusesAreKnown db'
unfolding Events.create_event Events.update_event_status Events.bulk_replay_dead_events
    Events.purge_dead_events Endpoints.create_endpoint Endpoints.update_endpoint
    Endpoints.delete_endpoint Attempts.create_delivery_attempt
Write-StatusesAreKnown storable db db' (creates_event p now lawful e) h =
    let same : db'.events ≡ db.events ++ Events.event_of p now ∷ [] = ground arith in
    rw same (All-append _ db.events (Events.event_of p now ∷ []) h (inl lawful, tt))
Write-StatusesAreKnown storable db db' (updates_status p now known _ e) h =
    let same : db'.events ≡ update_where (λ x. x.id == p.id) (set_status p.status now) db.events =
      ground arith in
    rw same (
      All-update_where _ (λ x. x.id == p.id) (set_status p.status now) db.events (λ x q _. known) h)
Write-StatusesAreKnown storable db db' (replays n now e) h =
    let same : db'.events
        ≡ update_where (has_status dead) (set_status Events.pending now) db.events =
      ground arith in
    rw same (
      All-update_where _ (has_status dead) (set_status Events.pending now) db.events
        (λ x q _. inl refl) h)
Write-StatusesAreKnown storable db db' (purges n now e) h =
    let same : db'.events ≡ delete_where (has_status dead) db.events = ground arith in
    rw same (All-select _ _ db.events h)
Write-StatusesAreKnown storable db db' (creates_endpoint p now e) h =
    let same : db'.events ≡ db.events = ground arith in rw same h
Write-StatusesAreKnown storable db db' (updates_endpoint p now e) h =
    let same : db'.events ≡ db.events = ground arith in rw same h
Write-StatusesAreKnown storable db db' (deletes_endpoint id now e) h =
    let same : db'.events ≡ db.events = ground arith in rw same h
Write-StatusesAreKnown storable db db' (creates_attempt p now e) h =
    let same : db'.events ≡ db.events = ground arith in rw same h

pub Writes-StatusesAreKnown :
    (storable : List ℕ → Bool) (db : Db) {db' : Db}
    → Writes storable db db'
    → StatusesAreKnown db
    → StatusesAreKnown db'
Writes-StatusesAreKnown storable db done h = h
Writes-StatusesAreKnown storable db (next ws w) h =
    Write-StatusesAreKnown storable _ _ w (Writes-StatusesAreKnown storable db ws h)
