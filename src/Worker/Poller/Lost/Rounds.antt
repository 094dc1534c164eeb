-- ===== src/Worker/Poller/Lost/Rounds.antt =====
-- The rounds of the poller leave a lost event lost.
use hookman.Common.{
  ℕ, String, ◌≡◌, refl, inl, inr, Bool, true, false, List, [], ◌∷◌, ◌==◌, Option, none, some, any,
  find, arith, Bool-cases, Option-cases, eq_iff,
}
use hookman.World.{Env, World, run}
use hookman.World.Runs.{run-ok}
use hookman.Store.Models.{Event, Endpoint, DeliveryAttempt, Result, ok, err, Db}
use hookman.Store.Sql.Members.{any-In}
use hookman.Store.Queries.Events as Events
use hookman.Store.Queries.Events.Pending.{no_pending_row}
use hookman.Store.Queries.Endpoints as Endpoints
use hookman.Store.Queries.Attempts as Attempts
use hookman.Store.Queries.Attempts.Retryable.{get_retryable_attempts-retryable}
use hookman.Store.Postgres.{
  get_endpoints_by_topic, get_pending_events, get_event, get_endpoint, get_retryable_attempts,
}
use hookman.Worker.Poller.{
  Poller, Polling, Signal, tick, done as over, retry_job, mark_processing, poll_event, poll_events,
  with_pending, poll_pending_events, with_endpoint, with_event, poll_attempt, poll_attempts,
  with_retryable, poll_retryable_attempts, start,
}
use hookman.Worker.Poller.Lost.{
  IsLost, reads, none-In, at_world, send-IsLost, proceed-IsLost, dispatch-IsLost, marked-IsLost,
}

-- A row that is found passes the test.
find-passes :
    {A : Type 0} (test : A → Bool) (xs : List A) (x : A) → find test xs ≡ some x → test x ≡ true
find-passes test [] x h = cc
find-passes test (y ∷ ys) x h = elim (Bool-cases (test y)) [
  | inl e ↦ let same : y ≡ x = ground (arith, h, e) in rw (← same) e
  | inr e ↦ find-passes test ys x (ground (arith, h, e))
]

one-found :
    {A : Type 0} (o : Option A) (now : ℕ) (db db' : Db) (a : A)
    → Events.one o now db ≡ ok (a, db')
    → (o ≡ some a) × (db' ≡ db)
one-found none now db db' a e = cc
one-found (some x) now db db' a e = (ground arith, ground arith)

bound_reads :
    (env : Env) (topics : List String) (now : ℕ) (db db' : Db) (a : List Endpoint)
    → Endpoints.get_endpoints_by_topic env.bind_topic topics now db ≡ ok (a, db')
    → db' ≡ db
unfolding Endpoints.get_endpoints_by_topic
bound_reads env topics now db db' a e = elim (Option-cases (env.bind_topic topics)) [
  | inl b ↦ let refused = (rw (b, Endpoints.get_endpoints_by_topic) at e) in cc
  | inr (t, b) ↦ let found = (rw (b, Endpoints.get_endpoints_by_topic) at e) in ground arith
]

module _ (id : String) (env : Env) (p : Poller) where
  mark_processing-IsLost :
      (event : Event) (s : Polling) (r : Result (List Endpoint)) (w : World)
      → event.id == id ≡ false
      → IsLost id (record s { world = w })
      → IsLost id (mark_processing env p event s (r, w)).1
  unfolding mark_processing
  mark_processing-IsLost event s (err e) w h l = l
  mark_processing-IsLost event s (ok []) w h l = l
  mark_processing-IsLost event s (ok (ep ∷ eps)) w h l =
      dispatch-IsLost id env p event (ep ∷ eps) s _ _ h
        (marked-IsLost id env p event (record s { world = w }) l)

  poll_event-IsLost :
      (event : Event) (s : Polling)
      → event.id == id ≡ false
      → IsLost id s
      → IsLost id (poll_event env p event s).1
  unfolding poll_event get_endpoints_by_topic
  poll_event-IsLost event s h l =
      let same =
        reads (Endpoints.get_endpoints_by_topic env.bind_topic (event.topic ∷ [])) s.world
          (λ a db q. bound_reads env (event.topic ∷ []) s.world.now s.world.db db a q) in
      mark_processing-IsLost event s _ _ h (at_world id s _ same l)

  poll_events-IsLost :
      (events : List Event) (s : Polling)
      → any (λ e. e.id == id) events ≡ false
      → IsLost id s
      → IsLost id (poll_events env p events s).1
  unfolding poll_events
  poll_events-IsLost [] s h l = l
  poll_events-IsLost (e ∷ es) s h l =
      proceed-IsLost id (poll_events env p es) (poll_event env p e s)
        (λ t k. poll_events-IsLost es t (ground (arith, h)) k)
        (poll_event-IsLost e s (ground (arith, h)) l)

  with_pending-IsLost :
      (s : Polling) (r : Result (List Event)) (w : World)
      → ((events : List Event) → r ≡ ok events → any (λ e. e.id == id) events ≡ false)
      → IsLost id (record s { world = w })
      → IsLost id (with_pending env p s (r, w))
  unfolding with_pending
  with_pending-IsLost s (err e) w h l = l
  with_pending-IsLost s (ok events) w h l =
      poll_events-IsLost events _ (h events refl) (at_world id (record s { world = w }) _ refl l)

  poll_pending_events-IsLost : (s : Polling) → IsLost id s → IsLost id (poll_pending_events env p s)
  unfolding poll_pending_events get_pending_events Events.get_pending_events
  poll_pending_events-IsLost s l =
      let q = Events.get_pending_events p.batch_size in
      let same = reads q s.world (λ a db k. ground arith) in
      with_pending-IsLost s (run q s.world).0 (run q s.world).1
        (λ events e.
          let (db, k, there) = run-ok q s.world events e in
          let left : db ≡ s.world.db = ground arith in
          no_pending_row p.batch_size s.world.now s.world.db id events l.unlisted (rw left at k))
        (at_world id s _ same l)

  with_endpoint-IsLost :
      (a : DeliveryAttempt) (event : Event) (s : Polling) (r : Result Endpoint) (w : World)
      → event.id == id ≡ false
      → IsLost id (record s { world = w })
      → IsLost id (with_endpoint env p a event s (r, w)).1
  unfolding with_endpoint retry_job
  with_endpoint-IsLost a event s (err e) w h l = l
  with_endpoint-IsLost a event s (ok ep) w h l = send-IsLost id _ (record s { world = w }) h l

  with_event-IsLost :
      (a : DeliveryAttempt) (s : Polling) (r : Result Event) (w : World)
      → ((event : Event) → r ≡ ok event → event.id == id ≡ false)
      → IsLost id (record s { world = w })
      → IsLost id (with_event env p a s (r, w)).1
  unfolding with_event get_endpoint Endpoints.get_endpoint
  with_event-IsLost a s (err e) w h l = l
  with_event-IsLost a s (ok event) w h l =
      let same =
        reads (Endpoints.get_endpoint a.endpoint_id) w
          (λ x db k. (one-found _ w.now w.db db x k).1) in
      with_endpoint-IsLost a event s _ _ (h event refl)
        (at_world id (record s { world = w }) _ same l)

  poll_attempt-IsLost :
      (a : DeliveryAttempt) (s : Polling)
      → a.event_id == id ≡ false
      → IsLost id s
      → IsLost id (poll_attempt env p a s).1
  unfolding poll_attempt get_event Events.get_event
  poll_attempt-IsLost a s h l =
      let q = Events.get_event a.event_id in
      let same = reads q s.world (λ x db k. (one-found _ s.world.now s.world.db db x k).1) in
      with_event-IsLost a s (run q s.world).0 (run q s.world).1
        (λ event e.
          let (db, k, there) = run-ok q s.world event e in
          let found = (one-found _ s.world.now s.world.db db event k).0 in
          let hit = find-passes (λ x. x.id == a.event_id) s.world.db.events event found in
          rw ((eq_iff event.id a.event_id).0 hit) h)
        (at_world id s _ same l)

  poll_attempts-IsLost :
      (attempts : List DeliveryAttempt) (s : Polling)
      → any (λ a. a.event_id == id) attempts ≡ false
      → IsLost id s
      → IsLost id (poll_attempts env p attempts s).1
  unfolding poll_attempts
  poll_attempts-IsLost [] s h l = l
  poll_attempts-IsLost (a ∷ rest) s h l =
      proceed-IsLost id (poll_attempts env p rest) (poll_attempt env p a s)
        (λ t k. poll_attempts-IsLost rest t (ground (arith, h)) k)
        (poll_attempt-IsLost a s (ground (arith, h)) l)

  with_retryable-IsLost :
      (s : Polling) (r : Result (List DeliveryAttempt)) (w : World)
      → ((rows : List DeliveryAttempt) → r ≡ ok rows → any (λ a. a.event_id == id) rows ≡ false)
      → IsLost id (record s { world = w })
      → IsLost id (with_retryable env p s (r, w))
  unfolding with_retryable
  with_retryable-IsLost s (err e) w h l = l
  with_retryable-IsLost s (ok rows) w h l =
      poll_attempts-IsLost rows (record s { world = w }) (h rows refl) l

  poll_retryable_attempts-IsLost :
      (s : Polling) → IsLost id s → IsLost id (poll_retryable_attempts env p s)
  unfolding poll_retryable_attempts get_retryable_attempts Attempts.get_retryable_attempts
  poll_retryable_attempts-IsLost s l =
      let q = Attempts.get_retryable_attempts s.world.now p.batch_size in
      let same = reads q s.world (λ a db k. ground arith) in
      with_retryable-IsLost s (run q s.world).0 (run q s.world).1
        (λ rows e.
          let (db, k, there) = run-ok q s.world rows e in
          none-In (λ a. a.event_id == id) rows s.world.db.attempts
            (λ a m t.
              any-In (λ a. a.event_id == id) s.world.db.attempts a
                (get_retryable_attempts-retryable s.world.now p.batch_size s.world.db s.world.now
                  rows db a k m).0
                t)
            l.untried)
        (at_world id s _ same l)

  -- Over any sequence of ticks, lost calls and cancellations.
  pub start-IsLost :
      (signals : List Signal) (s : Polling) → IsLost id s → IsLost id (start env p signals s)
  unfolding start
  start-IsLost [] s l = l
  start-IsLost (over ∷ signals) s l = l
  start-IsLost (tick time ∷ signals) s l = start-IsLost signals _ (
      poll_retryable_attempts-IsLost _
        (poll_pending_events-IsLost _ (at_world id s (record s.world { now = time }) refl l)))
