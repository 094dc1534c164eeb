-- ===== src/Store/Integrity/Preserved/OfEvents.antt =====
-- The statements of events.sql.go and the constraints.
use hookman.Common.{
  ℕ, String, ◌≡◌, refl, inl, inr, Bool, true, false, List, [], ◌∷◌, ◌++◌, ◌==◌, arith, any, select,
  All, In, Bool-cases, subst, eq_iff,
}
use hookman.Store.Sql.{update_where, delete_where}
use hookman.Store.Sql.Members.{any-append, any-update_where, All-map, All-In, any-In}
use hookman.Store.Models.{Event, DeliveryAttempt, Db, Result, ok}
use hookman.Store.Queries.Events as Events
use hookman.Store.Integrity.{IsConsistent, Refers, same_event}
use hookman.Store.Integrity.Apart.{AreApart-append, AreApart-update_where, AreApart-select}

-- A change of the events that loses no identifier keeps the references.
events_kept :
    (db : Db) (es : List Event)
    → ((id : String) → any (λ e. e.id == id) db.events ≡ true → any (λ e. e.id == id) es ≡ true)
    → All (Refers db) db.attempts
    → All (Refers (record db { events = es })) db.attempts
events_kept db es keep = All-map _ _ db.attempts (λ a r. (keep a.event_id r.0, r.1))

pub ok-db :
    {A : Type 0} {a b : A} {x y : Db} → ◌≡◌ {A = Result (A × Db)} (ok (a, x)) (ok (b, y)) → x ≡ y
ok-db e = cc

pub create_event-IsConsistent :
    (p : Events.CreateEventParams) (now : ℕ) (db db' : Db)
    → IsConsistent db
    → Events.create_event p now db ≡ ok (tt, db')
    → IsConsistent db'
unfolding Events.create_event
create_event-IsConsistent p now db db' c e =
    elim (Bool-cases (any (Events.event_clashes p) db.events)) [
      | inl h ↦ cc (rw h at e)
      | inr h ↦ subst IsConsistent (ok-db (rw h at e)) (record {
        event_keys = AreApart-append same_event db.events (Events.event_of p now) h c.event_keys;
        endpoint_keys = c.endpoint_keys;
        attempt_keys = c.attempt_keys;
        references =
            events_kept db (db.events ++ Events.event_of p now ∷ [])
              (λ id k.
                ground (arith, any-append (λ e. e.id == id) db.events (Events.event_of p now ∷ [])))
              c.references;
      })
    ]

-- Updates of the events that leave the identifier and the key.
update_events-IsConsistent :
    (q : Event → Bool) (status : String) (now : ℕ) (db : Db)
    → IsConsistent db
    → IsConsistent (record db { events = update_where q (Events.set_status status now) db.events })
update_events-IsConsistent q status now db c = record {
  event_keys =
      AreApart-update_where same_event q (Events.set_status status now) db.events (λ x y. refl)
        (λ x y. refl) c.event_keys;
  endpoint_keys = c.endpoint_keys;
  attempt_keys = c.attempt_keys;
  references =
      events_kept db _
        (λ id k.
          rw
            (any-update_where (λ e. e.id == id) q (Events.set_status status now) db.events
              (λ x. refl))
            k)
        c.references;
}

pub update_event_status-IsConsistent :
    (p : Events.UpdateEventStatusParams) (now : ℕ) (db db' : Db)
    → IsConsistent db
    → Events.update_event_status p now db ≡ ok (tt, db')
    → IsConsistent db'
unfolding Events.update_event_status
update_event_status-IsConsistent p now db db' c e =
    subst IsConsistent (ok-db e) (update_events-IsConsistent _ p.status now db c)

pub bulk_replay_dead_events-IsConsistent :
    (n now : ℕ) (db db' : Db)
    → IsConsistent db
    → Events.bulk_replay_dead_events now db ≡ ok (n, db')
    → IsConsistent db'
unfolding Events.bulk_replay_dead_events
bulk_replay_dead_events-IsConsistent n now db db' c e =
    subst IsConsistent (ok-db e) (update_events-IsConsistent _ Events.pending now db c)

-- A row that some attempt refers to is not among the purged ones.
not_purged :
    (db : Db) (a : DeliveryAttempt) (es : List Event)
    → any (Events.attempted db.attempts) (select (Events.has_status Events.dead) es) ≡ false
    → In a db.attempts
    → any (λ e. e.id == a.event_id) es ≡ true
    → any (λ e. e.id == a.event_id) (delete_where (Events.has_status Events.dead) es) ≡ true
not_purged db a [] h m k = k
not_purged db a (x ∷ es) h m k = ground (
  arith,
  not_purged db a es,
  any-In (λ b. b.event_id == x.id) db.attempts a m,
  eq_iff x.id a.event_id,
  eq_iff a.event_id x.id,
)

pub All-tabulate :
    {A : Type 0} (P : A → Type 0) (xs : List A) → ((a : A) → In a xs → P a) → All P xs
All-tabulate P [] f = tt
All-tabulate P (x ∷ xs) f = (f x (inl refl), All-tabulate P xs (λ a m. f a (inr m)))

pub purge_dead_events-IsConsistent :
    (n now : ℕ) (db db' : Db)
    → IsConsistent db
    → Events.purge_dead_events now db ≡ ok (n, db')
    → IsConsistent db'
unfolding Events.purge_dead_events
purge_dead_events-IsConsistent n now db db' c e =
    elim (Bool-cases
      (any (Events.attempted db.attempts) (select (Events.has_status Events.dead) db.events))) [
        | inl h ↦ cc (rw h at e)
        | inr h ↦ subst IsConsistent (ok-db (rw h at e)) (record {
          event_keys = AreApart-select same_event _ db.events c.event_keys;
          endpoint_keys = c.endpoint_keys;
          attempt_keys = c.attempt_keys;
          references = All-tabulate _ db.attempts (λ a m.
              let r = All-In (Refers db) db.attempts a c.references m in
              (not_purged db a db.events h m r.0, r.1));
        })
      ]
