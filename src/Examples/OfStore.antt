-- ===== src/Examples/OfStore.antt =====
-- The rows that are due, and two pages of a listing.
use hookman.Common.Text.{text_ltb}
use hookman.Common.{List, none, ◌++◌, ◌+◌, [], ◌∷◌, refl, ◌≡◌}
use hookman.Store.Models.{Event, ok}
use hookman.Store.Queries.Events as Events
use hookman.Store.Queries.Events.Pages.{behind, pages_join}
use hookman.Examples.Data.{a_dead_event, two_events}
use hookman.Common.{ℕ, some, ◌≤◌, ◌≡◌, refl, inl, true, false, [], ◌∷◌, none, arith, In}
use hookman.Common.Int.{ltb_ℤ}
use hookman.Store.Models.{DeliveryAttempt, ok}
use hookman.Store.Sql.{insert_sorted, order_by, distinct_from, distinct_on}
use hookman.Store.Sql.Distinct.{AreDistinct}
use hookman.Store.Queries.Events as Events
use hookman.Store.Queries.Attempts.{get_retryable_attempts, same_pair}
use hookman.Store.Queries.Attempts.Retryable.{
  get_retryable_attempts-due, get_retryable_attempts-one_each, get_retryable_attempts_complete,
}
use hookman.Examples.Data.{a_failed_attempt, two_events}

due_rows : get_retryable_attempts 60 50 60 two_events ≡ ok (a_failed_attempt ∷ [], two_events)
unfolding get_retryable_attempts order_by insert_sorted distinct_on distinct_from
due_rows = refl

get_retryable_attempts-due_example :
    In a_failed_attempt two_events.attempts
    × (a_failed_attempt.status ≡ "failed")
    × ((t : ℕ) × (a_failed_attempt.next_retry_at ≡ some t) × (t ≤ 60))
    × ((e : Event) × In e two_events.events × (e.id ≡ "evt_1") × ¬ (e.status ≡ "dead"))
get_retryable_attempts-due_example =
    get_retryable_attempts-due 60 50 two_events 60 (a_failed_attempt ∷ []) two_events
      a_failed_attempt due_rows (inl refl)

get_retryable_attempts-one_each_example : AreDistinct same_pair (a_failed_attempt ∷ []) × (1 ≤ 50)
get_retryable_attempts-one_each_example =
    get_retryable_attempts-one_each 60 50 two_events 60 (a_failed_attempt ∷ []) two_events due_rows

get_retryable_attempts_complete_example :
    (r : DeliveryAttempt) × In r (a_failed_attempt ∷ [])
    × (same_pair r a_failed_attempt ≡ true)
    × (ltb_ℤ r.attempt_number a_failed_attempt.attempt_number ≡ false)
get_retryable_attempts_complete_example =
    get_retryable_attempts_complete 60 50 two_events 60 (a_failed_attempt ∷ []) two_events
      a_failed_attempt due_rows (omega arith) (inl refl) refl

abbrev one_a_page : Events.ListEventsParams
one_a_page = record { topic = none; status = none; before_id = none; limit_count = 1 }

first_page : Events.list_events one_a_page 100 two_events ≡ ok ([] ++ a_dead_event ∷ [], two_events)
unfolding Events.list_events order_by insert_sorted text_ltb
first_page = refl

pages_join_example :
    (next_page : List Event) × (Events.list_events (behind one_a_page a_dead_event 3) 100 two_events
      ≡ ok (next_page, two_events))
    × (Events.list_events (record one_a_page { limit_count = 1 + 3 }) 100 two_events
        ≡ ok (([] ++ a_dead_event ∷ []) ++ next_page, two_events))
pages_join_example =
    pages_join one_a_page 3 100 two_events [] a_dead_event (refl, (refl, tt)) first_page
