-- ===== src/Store/Queries/Events/Pending.antt =====
-- GetPendingEvents of internal/store/queries/events.sql.go: only pending events are found.
use hookman.Common.{
  ℕ, ◌≡◌, refl, inl, inr, String, true, false, In, ◌&&◌, List, ◌==◌, any, select, take, arith, ltb,
  Bool-cases,
}
use hookman.Store.Models.{Event, Db, ok}
use hookman.Store.Sql.{order_by}
use hookman.Store.Sql.Members.{any-In, any-witness, take-In, order_by-In, select-In}
use hookman.Store.Queries.Events.{has_status, pending, get_pending_events}

-- What is found is in the table and pending.
pub get_pending_events-In :
    (limit now : ℕ) (db : Db) (batch : List Event) (x : Event)
    → get_pending_events limit now db ≡ ok (batch, db)
    → In x batch
    → In x db.events × (has_status pending x ≡ true)
unfolding get_pending_events
get_pending_events-In limit now db batch x q m =
    let found = select (has_status pending) db.events in
    let same : take limit (order_by (λ x y. ltb x.created_at y.created_at) found) ≡ batch =
      ground arith in
    select-In (has_status pending) db.events x
      (order_by-In (λ x y. ltb x.created_at y.created_at) found x (take-In limit _ x (rw same m)))

-- An identifier that no pending event has is not among the events found.
pub no_pending_row :
    (limit now : ℕ) (db : Db) (id : String) (batch : List Event)
    → any (λ e. e.id == id && has_status pending e) db.events ≡ false
    → get_pending_events limit now db ≡ ok (batch, db)
    → any (λ e. e.id == id) batch ≡ false
no_pending_row limit now db id batch h q = elim (Bool-cases (any (λ e. e.id == id) batch)) [
  | inl e ↦
      let (x, m, p) = any-witness (λ e. e.id == id) batch e in
      let (there, waiting) = get_pending_events-In limit now db batch x q m in
      let hit =
        any-In (λ e. e.id == id && has_status pending e) db.events x there (rw (p, waiting) refl) in
      cc
  | inr e ↦ e
]
