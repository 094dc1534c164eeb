-- ===== src/Api/Events/Create.antt =====
-- POST /api/events (internal/api/events.go), on a database that serves its calls.
use Prim.Native.String
use hookman.Common.{
  suc, String, ◌≡◌, refl, ◌∙◌, ap, ◌⊎◌, inl, inr, Bool, true, false, List, [], ◌∷◌, ◌++◌, none,
  some, ◌==◌, any, find, arith, Bool-cases, Option-cases, Option, eq_refl, eq_iff,
}
use hookman.Metrics.{record_event_created}
use hookman.World.{Env, World}
use hookman.World.Runs.{run-served}
use hookman.Id.{new_event}
use hookman.Store.Models.{Event, ok, err, unique_violation}
use hookman.Store.Queries.Events as Events
use hookman.Store.Queries.Events.{event_of, event_clashes, null_eq, CreateEventParams}
use hookman.Store.Postgres.{create_event, get_event_by_idempotency_key}
use hookman.Api.Response.{write_json, an_event}
use hookman.Api.Flow.{respond, carry, ◌>>=◌, pure, require, require_some, attempt, observe, finish}
use hookman.Api.Events.{
  CreateEventRequest, key_of, brief, check_idempotency, create_params, created, store_event,
  handle_create_event,
}

-- The event that a request stores.
abbrev pub new_row : Env → CreateEventRequest → World → Event
new_row env req w = event_of (create_params (String.◌++◌ "evt_" (env.ulid w.draws)) req) w.now

-- The world in which it is stored.
abbrev pub stored : Env → CreateEventRequest → World → World
stored env req w = record w {
  db = record w.db { events = w.db.events ++ new_row env req w ∷ [] };
  draws = suc w.draws;
  metrics = record_event_created req.topic w.metrics;
}

abbrev pub has_key : String → Event → Bool
has_key key e = null_eq (some key) e.idempotency_key

key_found :
    (key : String) (w : World) (e : Event)
    → w.faults ≡ []
    → find (has_key key) w.db.events ≡ some e
    → check_idempotency (some key) w ≡ (respond (write_json 200 (an_event (brief e))), w)
unfolding get_event_by_idempotency_key Events.get_event_by_idempotency_key
key_found key w e served h =
    rw (run-served (Events.get_event_by_idempotency_key (some key)) w served, h) refl

key_not_found :
    (key : String) (w : World)
    → w.faults ≡ []
    → find (has_key key) w.db.events ≡ none
    → check_idempotency (some key) w ≡ (carry tt, w)
unfolding get_event_by_idempotency_key Events.get_event_by_idempotency_key
key_not_found key w served h =
    rw (run-served (Events.get_event_by_idempotency_key (some key)) w served, h) refl

module _ (p : Events.CreateEventParams) (w : World) (served : w.faults ≡ []) where
  create_fresh :
      any (event_clashes p) w.db.events ≡ false
      → create_event p w
        ≡ (ok tt, record w { db = record w.db { events = w.db.events ++ event_of p w.now ∷ [] } })
  unfolding create_event Events.create_event
  create_fresh fresh = rw (run-served (Events.create_event p) w served, fresh) refl

  create_clash :
      any (event_clashes p) w.db.events ≡ true → create_event p w ≡ (err unique_violation, w)
  unfolding create_event Events.create_event
  create_clash clash = rw (run-served (Events.create_event p) w served, clash) refl

module _ (env : Env) (req : CreateEventRequest) (w : World) (served : w.faults ≡ [])
    (topic : (req.topic == "") ≡ false) (payload : (req.payload == "") ≡ false) (key : String)
    (with_key : key_of req.idempotency_key ≡ some key) where
  reaches_store : handle_create_event env (some req) w ≡ finish (store_event env req) w
  unfolding handle_create_event require_some require finish pure ◌>>=◌
  reaches_store = rw (topic, payload) refl

  existing_is_returned :
      (e : Event)
      → find (has_key key) w.db.events ≡ some e
      → handle_create_event env (some req) w ≡ (write_json 200 (an_event (brief e)), w)
  unfolding store_event finish ◌>>=◌
  existing_is_returned e h = reaches_store ∙ rw (with_key, key_found key w e served h) refl

  checked :
      find (has_key key) w.db.events ≡ none
      → check_idempotency (key_of req.idempotency_key) w ≡ (carry tt, w)
  checked h = ap (λ k. check_idempotency k w) with_key ∙ key_not_found key w served h

  new_is_stored :
      find (has_key key) w.db.events ≡ none
      → any (event_clashes (create_params (new_row env req w).id req)) w.db.events ≡ false
      → handle_create_event env (some req) w
        ≡ (created (new_row env req w).id req, stored env req w)
  unfolding store_event finish ◌>>=◌ new_event attempt observe pure
  new_is_stored h fresh =
      let made =
        create_fresh (create_params (new_row env req w).id req) (record w { draws = suc w.draws })
          served fresh in
      reaches_store ∙ rw (checked h, made) refl

  clash_is_refused :
      find (has_key key) w.db.events ≡ none
      → any (event_clashes (create_params (new_row env req w).id req)) w.db.events ≡ true
      → (handle_create_event env (some req) w).0.status ≡ 500
  unfolding store_event finish ◌>>=◌ new_event attempt observe pure
  clash_is_refused h clash =
      let made =
        create_clash (create_params (new_row env req w).id req) (record w { draws = suc w.draws })
          served clash in
      ap (λ p. p.0.status) reaches_store ∙ rw (checked h, made) refl

find-stored :
    (key : String) (events : List Event) (e : Event)
    → find (has_key key) events ≡ none
    → e.idempotency_key ≡ some key
    → find (has_key key) (events ++ e ∷ []) ≡ some e
find-stored key [] e h k = rw (k, eq_refl key) refl
find-stored key (x ∷ xs) e h k = ground (arith, find-stored key xs e)

found-not-none :
    (test : Event → Bool) (e : Event) (es : List Event)
    → test e ≡ true
    → ¬ (find test (e ∷ es) ≡ none)
found-not-none test e es t h = let some_e : find test (e ∷ es) ≡ some e = rw t refl in cc

find-later :
    (test : Event → Bool) (e : Event) (es : List Event)
    → find test (e ∷ es) ≡ none
    → find test es ≡ none
find-later test e es h = elim (Bool-cases (test e)) [
  | inl t ↦ absurd (found-not-none test e es t h)
  | inr t ↦ ground (arith, h, t)
]

eq_comm : (a b : String) → a == b ≡ true → b == a ≡ true
eq_comm a b h = rw ((eq_iff a b).0 h) (eq_refl b)

null_eq_comm :
    (o : Option String) (key : String) → null_eq o (some key) ≡ true → null_eq (some key) o ≡ true
null_eq_comm none key h = cc
null_eq_comm (some a) key h = eq_comm a key h

-- Where no event has the key, it is the identifier that clashes.
id_is_taken :
    (key : String) (p : CreateEventParams) (events : List Event)
    → p.idempotency_key ≡ some key
    → find (has_key key) events ≡ none
    → any (event_clashes p) events ≡ true
    → any (λ e. e.id == p.id) events ≡ true
id_is_taken key p [] k h c = cc
id_is_taken key p (e ∷ es) k h c = elim (Bool-cases (e.id == p.id)) [
  | inl q ↦ rw q refl
  | inr q ↦ elim (Bool-cases (null_eq e.idempotency_key p.idempotency_key)) [
    | inl n ↦
        let same = null_eq_comm e.idempotency_key key (rw (← k) n) in
        absurd (found-not-none (has_key key) e es same h)
    | inr n ↦ rw q (id_is_taken key p es k (find-later (has_key key) e es h) (ground arith))
  ]
]

-- What POST /api/events does with a valid request that carries an idempotency key, on a database
-- that serves its calls: it returns the event with that key if there is one; else it stores the
-- event and answers 201, or answers 500 when the new identifier is taken.
pub handle_create_event_lem :
    (env : Env) (req : CreateEventRequest) (w : World) (key : String)
    → w.faults ≡ []
    → (req.topic == "") ≡ false
    → (req.payload == "") ≡ false
    → key_of req.idempotency_key ≡ some key
    → ((e : Event) × (find (has_key key) w.db.events ≡ some e)
        × (handle_create_event env (some req) w ≡ (write_json 200 (an_event (brief e)), w)))
      ⊎ ((find (has_key key) w.db.events ≡ none)
          × (handle_create_event env (some req) w
              ≡ (created (new_row env req w).id req, stored env req w)))
      ⊎ ((find (has_key key) w.db.events ≡ none)
          × (any (λ e. e.id == (new_row env req w).id) w.db.events ≡ true)
          × ((handle_create_event env (some req) w).0.status ≡ 500))
handle_create_event_lem env req w key served topic payload with_key =
    elim (Option-cases (find (has_key key) w.db.events)) [
      | inr (e, h) ↦
          inl (e, h, existing_is_returned env req w served topic payload key with_key e h)
      | inl h ↦
          let params = create_params (new_row env req w).id req in
          elim (Bool-cases (any (event_clashes params) w.db.events)) [
            | inl c ↦ inr (
                inr (
                  h,
                  id_is_taken key params w.db.events with_key h c,
                  clash_is_refused env req w served topic payload key with_key h c,
                ))
            | inr c ↦ inr (inl (h, new_is_stored env req w served topic payload key with_key h c))
          ]
    ]

-- POST /api/events is idempotent, on a database that serves its calls: after a valid request with
-- an idempotency key was answered with 201, a valid request with the same key, whatever else it
-- says, is answered with 200 and the first request's event, and changes nothing.
pub create_event_again :
    (env : Env) (req again : CreateEventRequest) (w : World) (key : String)
    → w.faults ≡ []
    → (req.topic == "") ≡ false
    → (req.payload == "") ≡ false
    → (again.topic == "") ≡ false
    → (again.payload == "") ≡ false
    → key_of req.idempotency_key ≡ some key
    → key_of again.idempotency_key ≡ some key
    → (handle_create_event env (some req) w).0.status ≡ 201
    → handle_create_event env (some again) (handle_create_event env (some req) w).1 ≡ (
      write_json 200 (an_event (brief (new_row env req w))),
      (handle_create_event env (some req) w).1,
    )
create_event_again env req again w key served topic payload topic' payload' k k' made =
    elim (handle_create_event_lem env req w key served topic payload k) [
      | inl (e, h, r) ↦ absurd (omega (arith, ap (λ p. p.0.status) r, made))
      | inr (inl (h, r)) ↦ rw (ap (λ p. p.1) r) (
          existing_is_returned env again (stored env req w) served topic' payload' key k'
            (new_row env req w) (find-stored key w.db.events (new_row env req w) h k))
      | inr (inr (h, c, r)) ↦ absurd (omega (arith, made, r))
    ]
