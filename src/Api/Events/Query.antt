-- ===== src/Api/Events/Query.antt =====
-- The pages that GET /api/events and GET /api/events/dead list.
use Prim.Native.Nat.{min}
use hookman.Common.{
  ℕ, zero, suc, ◌≤◌, String, ◌≡◌, refl, ap, ◌∙◌, inl, inr, Bool, true, List, [], ◌∷◌, Option, none,
  some, map, ◌==◌, length, take, select, length-take, All, In, arith, Bool-cases,
}
use hookman.Common.Int.{ℤ, pos, negsuc}
use hookman.Common.Text.{text_ltb, text-IsOrder}
use hookman.Common.Order.{flip-IsOrder, on-IsOrder}
use hookman.Common.Strconv.{atoi}
use hookman.World.{World}
use hookman.World.Runs.{run-read}
use hookman.Store.Models.{Event}
use hookman.Store.Sql.{insert_sorted, order_by}
use hookman.Store.Sql.Members.{take-In, order_by-In, select-In}
use hookman.Store.Sql.Sorting.{IsOrdered, order_by-IsOrdered}
use hookman.Store.Queries.Events as Events
use hookman.Store.Queries.Events.{ListEventsParams, listed}
use hookman.Store.Postgres.{list_events}
use hookman.Api.Response.{write_json, some_events}
use hookman.Api.Flow.{◌>>=◌, pure, attempt, finish}
use hookman.Api.Events.{limit_in_range, limit_of, list_params, ListQuery, full, handle_list_events}

limit_in_range_bounds : (n : Option ℤ) → (1 ≤ limit_in_range n) × (limit_in_range n ≤ 200)
limit_in_range_bounds none = (omega arith, omega arith)
limit_in_range_bounds (some (negsuc n)) = (omega arith, omega arith)
limit_in_range_bounds (some (pos n)) = (ground arith, ground arith)

-- Whatever the parameter says, a page has from 1 to 200 places.
pub limit_of_bounds : (l : String) → (1 ≤ limit_of l) × (limit_of l ≤ 200)
unfolding limit_of
limit_of_bounds l = elim (Bool-cases (l == "")) [
  | inl e ↦ rw e (omega arith, omega arith)
  | inr e ↦ rw e (limit_in_range_bounds (atoi l))
]

abbrev pub newer_id : Event → Event → Bool
newer_id x y = text_ltb y.id x.id

All-take : {A : Type 0} (P : A → Type 0) (n : ℕ) (xs : List A) → All P xs → All P (take n xs)
All-take P zero xs h = tt
All-take P (suc n) [] h = tt
All-take P (suc n) (x ∷ xs) (h, hs) = (h, All-take P n xs hs)

take-IsOrdered :
    {A : Type 0} (lt : A → A → Bool) (n : ℕ) (xs : List A)
    → IsOrdered lt xs
    → IsOrdered lt (take n xs)
take-IsOrdered lt zero xs h = tt
take-IsOrdered lt (suc n) [] h = tt
take-IsOrdered lt (suc n) (x ∷ xs) (h, hs) = (All-take _ n xs h, take-IsOrdered lt n xs hs)

length-insert_sorted :
    {A : Type 0} (lt : A → A → Bool) (x : A) (ys : List A)
    → length (insert_sorted lt x ys) ≡ suc (length ys)
unfolding insert_sorted
length-insert_sorted lt x [] = refl
length-insert_sorted lt x (y ∷ ys) = ground (arith, length-insert_sorted lt x ys)

length-order_by :
    {A : Type 0} (lt : A → A → Bool) (xs : List A) → length (order_by lt xs) ≡ length xs
unfolding order_by
length-order_by lt [] = refl
length-order_by lt (x ∷ xs) =
    length-insert_sorted lt x (order_by lt xs) ∙ ap suc (length-order_by lt xs)

-- The rows of a page.
abbrev page_of : ListQuery → List Event → List Event
page_of q events =
    take (list_params q).limit_count (order_by newer_id (select (listed (list_params q)) events))

-- GET /api/events, on a database that serves the call, answers 200 with a page of at most 200
-- events: events of the table that pass the request's filters, newest identifier first, as many as
-- the limit and the filters let through.
handle_list_events_lem :
    (q : ListQuery) (w : World)
    → w.faults ≡ []
    → (page : List Event) × (handle_list_events q w
        ≡ (write_json 200 (some_events (map full page)), w))
      × (length page
          ≡ min (limit_of q.limit) (length (select (listed (list_params q)) w.db.events)))
      × (length page ≤ 200)
      × IsOrdered newer_id page
      × ((e : Event) → In e page → In e w.db.events × (listed (list_params q) e ≡ true))
unfolding handle_list_events attempt finish pure ◌>>=◌ list_events Events.list_events list_params
handle_list_events_lem q w f =
    let found = select (listed (list_params q)) w.db.events in
    let counted : length (page_of q w.db.events) ≡ min (limit_of q.limit) (length found) =
      length-take (limit_of q.limit) (order_by newer_id found)
      ∙ ap (min (limit_of q.limit)) (length-order_by newer_id found) in
    (
      page_of q w.db.events,
      rw (run-read (Events.list_events (list_params q)) w (page_of q w.db.events) f refl) refl,
      counted,
      omega (arith, counted, (limit_of_bounds q.limit).1),
      take-IsOrdered newer_id (limit_of q.limit) (order_by newer_id found)
          (order_by-IsOrdered (on-IsOrder (λ e. e.id) (flip-IsOrder text-IsOrder)) found),
      λ e m.
          select-In (listed (list_params q)) w.db.events e
            (order_by-In newer_id found e (take-In (limit_of q.limit) _ e m)),
    )
