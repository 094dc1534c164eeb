-- ===== src/Worker/Poller/Uncut.antt =====
-- Without a cancellation ahead, internal/worker/poller.go sends on: none comes in between.
use hookman.Common.{◌≡◌, refl, Bool, true, false, List, [], ◌∷◌, none}
use hookman.World.{Env, World}
use hookman.Delivery.Deliver.{DeliveryJob}
use hookman.Store.Models.{Event, Endpoint, DeliveryAttempt, Result, ok, err}
use hookman.Store.Postgres.{update_event_status, get_endpoints_by_topic, get_event, get_endpoint}
use hookman.Worker.Poller.{
  Poller, Polling, send_within, send, proceed, send_all, dispatch, mark_processing, poll_event,
  with_endpoint, with_event, poll_attempt,
}

-- The method goes on, and no cancellation is ahead.
abbrev pub IsUncut : Bool × Polling → Type 0
IsUncut r = (r.0 ≡ true) × (r.1.sends_left ≡ none)

send-IsUncut : (job : DeliveryJob) (s : Polling) → s.sends_left ≡ none → IsUncut (send job s)
unfolding send send_within
send-IsUncut job s e = rw e (refl, refl)

proceed-IsUncut :
    (rest : Polling → Bool × Polling) (r : Bool × Polling)
    → ((s : Polling) → s.sends_left ≡ none → IsUncut (rest s))
    → IsUncut r
    → IsUncut (proceed rest r)
proceed-IsUncut rest (true, s) h (flag, e) = h s e
proceed-IsUncut rest (false, s) h (flag, e) = cc

send_all-IsUncut :
    (jobs : List DeliveryJob) (s : Polling) → s.sends_left ≡ none → IsUncut (send_all jobs s)
unfolding send_all
send_all-IsUncut [] s e = (refl, e)
send_all-IsUncut (job ∷ jobs) s e =
    proceed-IsUncut (send_all jobs) (send job s) (send_all-IsUncut jobs) (send-IsUncut job s e)

module _ (env : Env) (p : Poller) where
  dispatch-IsUncut :
      (event : Event) (eps : List Endpoint) (s : Polling) (r : Result (Unit {0})) (w : World)
      → s.sends_left ≡ none
      → IsUncut (dispatch env p event eps s (r, w))
  unfolding dispatch
  dispatch-IsUncut event eps s (err e) w h = (refl, h)
  dispatch-IsUncut event eps s (ok u) w h = send_all-IsUncut _ (record s { world = w }) h

  mark_processing-IsUncut :
      (event : Event) (s : Polling) (r : Result (List Endpoint)) (w : World)
      → s.sends_left ≡ none
      → IsUncut (mark_processing env p event s (r, w))
  unfolding mark_processing
  mark_processing-IsUncut event s (err e) w h = (refl, h)
  mark_processing-IsUncut event s (ok []) w h = (refl, h)
  mark_processing-IsUncut event s (ok (ep ∷ eps)) w h =
      dispatch-IsUncut event (ep ∷ eps) s (update_event_status _ w).0 (update_event_status _ w).1 h

  pub poll_event-IsUncut :
      (event : Event) (s : Polling) → s.sends_left ≡ none → IsUncut (poll_event env p event s)
  unfolding poll_event
  poll_event-IsUncut event s h =
      mark_processing-IsUncut event s (get_endpoints_by_topic env event.topic s.world).0
        (get_endpoints_by_topic env event.topic s.world).1 h

  with_endpoint-IsUncut :
      (a : DeliveryAttempt) (event : Event) (s : Polling) (r : Result Endpoint) (w : World)
      → s.sends_left ≡ none
      → IsUncut (with_endpoint env p a event s (r, w))
  unfolding with_endpoint
  with_endpoint-IsUncut a event s (err e) w h = (refl, h)
  with_endpoint-IsUncut a event s (ok ep) w h = send-IsUncut _ (record s { world = w }) h

  with_event-IsUncut :
      (a : DeliveryAttempt) (s : Polling) (r : Result Event) (w : World)
      → s.sends_left ≡ none
      → IsUncut (with_event env p a s (r, w))
  unfolding with_event
  with_event-IsUncut a s (err e) w h = (refl, h)
  with_event-IsUncut a s (ok event) w h =
      with_endpoint-IsUncut a event s (get_endpoint a.endpoint_id w).0
        (get_endpoint a.endpoint_id w).1 h

  pub poll_attempt-IsUncut :
      (a : DeliveryAttempt) (s : Polling) → s.sends_left ≡ none → IsUncut (poll_attempt env p a s)
  unfolding poll_attempt
  poll_attempt-IsUncut a s h =
      with_event-IsUncut a s (get_event a.event_id s.world).0 (get_event a.event_id s.world).1 h
