-- ===== src/Worker/Poller/Once.antt =====
-- Two rounds of the poller: an event that was sent is not sent again.
use hookman.Common.{
  ℕ, String, ◌≡◌, refl, inl, inr, Bool, false, ◌&&◌, List, [], ◌∷◌, ◌++◌, ◌==◌, map, any, In, arith,
  Bool-cases, ◌∙◌, ap, take, select, ltb,
}
use hookman.World.{Env}
use hookman.Delivery.Deliver.{DeliveryJob}
use hookman.Store.Models.{Event, Endpoint, ok}
use hookman.Store.Sql.{update_where, order_by}
use hookman.Store.Sql.Members.{any-append}
use hookman.Store.Queries.Events.{set_status, has_status, pending, get_pending_events}
use hookman.Store.Queries.Events.Pending.{no_pending_row}
use hookman.Worker.Poller.{Poller, Polling, poll_pending_events}
use hookman.Worker.Poller.Jobs.{
  IsCalm, attempt_one, subscribers, jobs_for, mark_one, marks_for, poll_pending_events_lem,
}

abbrev pub waits : String → Event → Bool
waits id e = e.id == id && has_status pending e

-- Marking any event as processing makes no event pending.
pub processing-waits :
    (id other : String) (now : ℕ) (events : List Event)
    → any (waits id) events ≡ false
    → any (waits id) (update_where (λ e. e.id == other) (set_status "processing" now) events)
      ≡ false
processing-waits id other now [] h = refl
processing-waits id other now (e ∷ es) h = elim (Bool-cases (e.id == other)) [
  | inl q ↦ rw (q, processing-waits id other now es (ground arith)) (ground arith)
  | inr q ↦ rw (q, processing-waits id other now es (ground arith)) (ground arith)
]

-- Marking the event itself does so in every case.
marked-waits :
    (id : String) (now : ℕ) (events : List Event)
    → any (waits id) (update_where (λ e. e.id == id) (set_status "processing" now) events) ≡ false
marked-waits id now [] = refl
marked-waits id now (e ∷ es) = elim (Bool-cases (e.id == id)) [
  | inl q ↦ rw (q, marked-waits id now es) (ground arith)
  | inr q ↦ rw (q, marked-waits id now es) (ground arith)
]

mark_one-waits :
    (eps : List Endpoint) (id other : String) (now : ℕ) (events : List Event)
    → any (waits id) events ≡ false
    → any (waits id) (mark_one eps other now events) ≡ false
mark_one-waits [] id other now events h = h
mark_one-waits (ep ∷ eps) id other now events h = processing-waits id other now events h

marks_for-waits :
    (env : Env) (endpoints : List Endpoint) (id : String) (now : ℕ) (batch events : List Event)
    → any (waits id) events ≡ false
    → any (waits id) (marks_for env endpoints now batch events) ≡ false
marks_for-waits env endpoints id now [] events h = h
marks_for-waits env endpoints id now (e ∷ es) events h =
    marks_for-waits env endpoints id now es _
      (mark_one-waits (subscribers env endpoints e) id e.id now events h)

-- After a batch none of its events that has a subscriber is pending.
sent-waits :
    (env : Env) (endpoints : List Endpoint) (now : ℕ) (event : Event) (ep : Endpoint)
    (eps : List Endpoint) (batch events : List Event)
    → subscribers env endpoints event ≡ ep ∷ eps
    → In event batch
    → any (waits event.id) (marks_for env endpoints now batch events) ≡ false
sent-waits env endpoints now event ep eps [] events q m = absurd m
sent-waits env endpoints now event ep eps (x ∷ xs) events q (inl m) =
    marks_for-waits env endpoints event.id now xs _ (rw (← m, q) (marked-waits event.id now events))
sent-waits env endpoints now event ep eps (x ∷ xs) events q (inr m) =
    sent-waits env endpoints now event ep eps xs _ q m

module _ (env : Env) (p : Poller) where
  attempt_ones-ids :
      (event : Event) (id : String) (eps : List Endpoint)
      → event.id == id ≡ false
      → any (λ j. j.event_id == id) (map (attempt_one env p event) eps) ≡ false
  attempt_ones-ids event id [] h = refl
  attempt_ones-ids event id (ep ∷ eps) h = rw (h, attempt_ones-ids event id eps h) refl

  jobs_for-ids :
      (endpoints : List Endpoint) (id : String) (batch : List Event)
      → any (λ e. e.id == id) batch ≡ false
      → any (λ j. j.event_id == id) (jobs_for env p endpoints batch) ≡ false
  jobs_for-ids endpoints id [] h = refl
  jobs_for-ids endpoints id (e ∷ es) h =
      rw
        (
          any-append (λ j. j.event_id == id)
              (map (attempt_one env p e) (subscribers env endpoints e))
              (jobs_for env p endpoints es),
          attempt_ones-ids e id (subscribers env endpoints e) (ground arith),
          jobs_for-ids endpoints id es (ground arith),
        )
        refl

  -- If no call is lost and the context is not cancelled, the pending half of a round that finds an
  -- event not pending sends no job for it.
  not_pending_is_not_sent :
      (s : Polling) (id : String)
      → IsCalm s
      → any (waits id) s.world.db.events ≡ false
      → (new : List DeliveryJob) × ((poll_pending_events env p s).jobs ≡ s.jobs ++ new)
        × (any (λ j. j.event_id == id) new ≡ false)
  unfolding get_pending_events
  not_pending_is_not_sent s id c h =
      let batch = take p.batch_size (
        order_by (λ x y. ltb x.created_at y.created_at)
          (select (has_status pending) s.world.db.events)) in
      (
        jobs_for env p s.world.db.endpoints batch,
        (poll_pending_events_lem env p s batch c refl).0,
        jobs_for-ids s.world.db.endpoints id batch
            (no_pending_row p.batch_size s.world.now s.world.db id batch h refl),
      )

  -- If no call is lost and the context is not cancelled: for an event of the batch of a round that
  -- has a subscriber, poll_pending_events sends no job in a later round that finds the events as the
  -- first left them, whatever endpoints there are then. (The other half of a round is about
  -- attempts that failed.)
  pub handed_out_once :
      (s : Polling) (batch : List Event) (event : Event) (ep : Endpoint) (eps : List Endpoint)
      → IsCalm s
      → get_pending_events p.batch_size s.world.now s.world.db ≡ ok (batch, s.world.db)
      → In event batch
      → subscribers env s.world.db.endpoints event ≡ ep ∷ eps
      → (s' : Polling) → IsCalm s'
      → s'.world.db.events ≡ (poll_pending_events env p s).world.db.events
      → (new : List DeliveryJob) × ((poll_pending_events env p s').jobs ≡ s'.jobs ++ new)
        × (any (λ j. j.event_id == event.id) new ≡ false)
  handed_out_once s batch event ep eps c q m u s' c' same =
      let marks =
        sent-waits env s.world.db.endpoints s.world.now event ep eps batch s.world.db.events u m in
      let left : s'.world.db.events
          ≡ marks_for env s.world.db.endpoints s.world.now batch s.world.db.events =
        same ∙ ap (λ db. db.events) (poll_pending_events_lem env p s batch c q).1 in
      not_pending_is_not_sent s' event.id c' (rw left marks)
