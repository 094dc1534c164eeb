-- ===== src/Store/Integrity/Dead.antt =====
-- Dead events and the attempts that refer to them.
use hookman.Common.{
  ℕ, ◌≡◌, inl, inr, Bool, true, List, [], ◌∷◌, ◌++◌, ◌==◌, arith, subst, any, select, All,
  Bool-cases, eq_iff,
}
use hookman.Store.Sql.{update_where, delete_where}
use hookman.Store.Sql.Members.{
  any-append, All-append, All-map, All-In, any-In, any-witness, In-select,
}
use hookman.Store.Models.{Event, DeliveryAttempt, Db, err, foreign_key_violation}
use hookman.Store.Queries.Events as Events
use hookman.Store.Queries.Events.{has_status, dead, set_status, attempted}
use hookman.Store.Queries.Endpoints as Endpoints
use hookman.Store.Queries.Attempts as Attempts
use hookman.Store.Integrity.{
  Write, Writes, creates_event, updates_status, replays, purges, creates_endpoint, updates_endpoint,
  deletes_endpoint, creates_attempt, done, next,
}

-- A dead event has an attempt on record.
abbrev pub DeadIsAttempted : List DeliveryAttempt → Event → Type 0
DeadIsAttempted attempts e =
    has_status dead e ≡ true → any (λ a. a.event_id == e.id) attempts ≡ true

abbrev pub DeadAreAttempted : Db → Type 0
DeadAreAttempted db = All (DeadIsAttempted db.attempts) db.events

pub All-select :
    {A : Type 0} (P : A → Type 0) (q : A → Bool) (xs : List A) → All P xs → All P (select q xs)
All-select P q [] h = tt
All-select P q (x ∷ xs) (px, h) = elim (Bool-cases (q x)) [
  | inl e ↦ rw e (px, All-select P q xs h)
  | inr e ↦ rw e (All-select P q xs h)
]

pub All-update_where :
    {A : Type 0} (P : A → Type 0) (q : A → Bool) (f : A → A) (xs : List A)
    → ((x : A) → q x ≡ true → P x → P (f x))
    → All P xs
    → All P (update_where q f xs)
All-update_where P q f [] k h = tt
All-update_where P q f (x ∷ xs) k (px, h) = elim (Bool-cases (q x)) [
  | inl e ↦ rw e (k x e px, All-update_where P q f xs k h)
  | inr e ↦ rw e (px, All-update_where P q f xs k h)
]

Write-DeadAreAttempted :
    (storable : List ℕ → Bool) (db db' : Db)
    → Write storable db db'
    → DeadAreAttempted db
    → DeadAreAttempted db'
unfolding Events.create_event Events.update_event_status Events.bulk_replay_dead_events
    Events.purge_dead_events Endpoints.create_endpoint Endpoints.update_endpoint
    Endpoints.delete_endpoint Attempts.create_delivery_attempt
Write-DeadAreAttempted storable db db' (creates_event p now lawful e) h =
    let same : record db { events = db.events ++ Events.event_of p now ∷ [] } ≡ db' =
      ground arith in
    subst DeadAreAttempted same
      (All-append _ db.events (Events.event_of p now ∷ []) h ((λ d. cc (rw lawful at d)), tt))
Write-DeadAreAttempted storable db db' (updates_status p now _ lawful e) h =
    let same : record db {
      events = update_where (λ x. x.id == p.id) (set_status p.status now) db.events;
    }
        ≡ db' =
      ground arith in
    subst DeadAreAttempted same (
      All-update_where _ (λ x. x.id == p.id) (set_status p.status now) db.events
        (λ x q _ d. rw ((eq_iff x.id p.id).0 q) (lawful d)) h)
Write-DeadAreAttempted storable db db' (replays n now e) h =
    let same : record db {
      events = update_where (has_status dead) (set_status Events.pending now) db.events;
    }
        ≡ db' =
      ground arith in
    subst DeadAreAttempted same (
      All-update_where _ (has_status dead) (set_status Events.pending now) db.events
        (λ x q _ d. cc d) h)
Write-DeadAreAttempted storable db db' (purges n now e) h =
    let same : record db { events = delete_where (has_status dead) db.events } ≡ db' =
      ground arith in
    subst DeadAreAttempted same (All-select _ _ db.events h)
Write-DeadAreAttempted storable db db' (creates_endpoint p now e) h =
    let same : db'.events ≡ db.events = ground arith in
    let same' : db'.attempts ≡ db.attempts = ground arith in rw (same, same') h
Write-DeadAreAttempted storable db db' (updates_endpoint p now e) h =
    let same : db'.events ≡ db.events = ground arith in
    let same' : db'.attempts ≡ db.attempts = ground arith in rw (same, same') h
Write-DeadAreAttempted storable db db' (deletes_endpoint id now e) h =
    let same : db'.events ≡ db.events = ground arith in
    let same' : db'.attempts ≡ db.attempts = ground arith in rw (same, same') h
Write-DeadAreAttempted storable db db' (creates_attempt p now e) h =
    let same : record db { attempts = db.attempts ++ Attempts.attempt_of p now ∷ [] } ≡ db' =
      ground arith in
    subst DeadAreAttempted same (
      All-map _ _ db.events
        (λ x k d. ground (
          arith,
          k d,
          any-append (λ a. a.event_id == x.id) db.attempts (Attempts.attempt_of p now ∷ []),
        ))
        h)

pub Writes-DeadAreAttempted :
    (storable : List ℕ → Bool) (db : Db) {db' : Db}
    → Writes storable db db'
    → DeadAreAttempted db
    → DeadAreAttempted db'
Writes-DeadAreAttempted storable db done h = h
Writes-DeadAreAttempted storable db (next ws w) h =
    Write-DeadAreAttempted storable _ _ w (Writes-DeadAreAttempted storable db ws h)

-- Where every dead event has an attempt, a purge is refused as soon as there is a dead event.
pub purge_refused :
    (now : ℕ) (db : Db)
    → DeadAreAttempted db
    → any (has_status dead) db.events ≡ true
    → Events.purge_dead_events now db ≡ err foreign_key_violation
unfolding Events.purge_dead_events
purge_refused now db h d =
    let (e, m, q) = any-witness (has_status dead) db.events d in
    let attempt = All-In (DeadIsAttempted db.attempts) db.events e h m q in
    let found =
      any-In (attempted db.attempts) (select (has_status dead) db.events) e
        (In-select (has_status dead) db.events e m q) attempt in
    ground arith
