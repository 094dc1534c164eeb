-- ===== src/Store/Integrity/Preserved/OfRest.antt =====
-- The statements of endpoints.sql.go and delivery_attempts.sql.go and the constraints.
use hookman.Common.{
  ℕ, String, ◌≡◌, refl, inl, inr, Bool, true, false, ◌&&◌, List, [], ◌∷◌, ◌++◌, ◌==◌, arith, any,
  In, Bool-cases, subst, eq_iff,
}
use hookman.Store.Sql.{delete_where}
use hookman.Store.Sql.Members.{any-append, any-update_where, All-append, All-map, All-In, any-In}
use hookman.Store.Models.{Endpoint, DeliveryAttempt, Db, ok}
use hookman.Store.Queries.Endpoints as Endpoints
use hookman.Store.Queries.Attempts as Attempts
use hookman.Store.Integrity.{IsConsistent, Refers, same_endpoint, same_attempt}
use hookman.Store.Integrity.Apart.{AreApart-append, AreApart-update_where, AreApart-select}
use hookman.Store.Integrity.Preserved.OfEvents.{ok-db, All-tabulate}

pub create_endpoint-IsConsistent :
    (p : Endpoints.CreateEndpointParams) (now : ℕ) (db db' : Db)
    → IsConsistent db
    → Endpoints.create_endpoint p now db ≡ ok (tt, db')
    → IsConsistent db'
unfolding Endpoints.create_endpoint
create_endpoint-IsConsistent p now db db' c e =
    elim (Bool-cases (any (λ e. e.id == p.id) db.endpoints)) [
      | inl h ↦ cc (rw h at e)
      | inr h ↦ subst IsConsistent (ok-db (rw h at e)) (record {
        event_keys = c.event_keys;
        endpoint_keys =
            AreApart-append same_endpoint db.endpoints (Endpoints.endpoint_of p now) h
              c.endpoint_keys;
        attempt_keys = c.attempt_keys;
        references =
            All-map _ _ db.attempts
              (λ a r. (
                r.0,
                ground (
                  arith,
                  any-append (λ e. e.id == a.endpoint_id) db.endpoints
                      (Endpoints.endpoint_of p now ∷ []),
                ),
              ))
              c.references;
      })
    ]

pub update_endpoint-IsConsistent :
    (p : Endpoints.UpdateEndpointParams) (now : ℕ) (db db' : Db)
    → IsConsistent db
    → Endpoints.update_endpoint p now db ≡ ok (tt, db')
    → IsConsistent db'
unfolding Endpoints.update_endpoint
update_endpoint-IsConsistent p now db db' c e = subst IsConsistent (ok-db e) (record {
  event_keys = c.event_keys;
  endpoint_keys =
      AreApart-update_where same_endpoint (λ e. e.id == p.id) (Endpoints.patched p now) db.endpoints
        (λ x y. refl) (λ x y. refl) c.endpoint_keys;
  attempt_keys = c.attempt_keys;
  references =
      All-map _ _ db.attempts
        (λ a r. (
          r.0,
          rw
              (any-update_where (λ e. e.id == a.endpoint_id) (λ e. e.id == p.id)
                (Endpoints.patched p now) db.endpoints (λ x. refl))
              r.1,
        ))
        c.references;
})

not_deleted :
    (id : String) (db : Db) (a : DeliveryAttempt) (es : List Endpoint)
    → (any (λ e. e.id == id) es && any (λ a. a.endpoint_id == id) db.attempts) ≡ false
    → In a db.attempts
    → any (λ e. e.id == a.endpoint_id) es ≡ true
    → any (λ e. e.id == a.endpoint_id) (delete_where (λ e. e.id == id) es) ≡ true
not_deleted id db a [] h m k = k
not_deleted id db a (x ∷ es) h m k = ground (
  arith,
  not_deleted id db a es,
  any-In (λ b. b.endpoint_id == id) db.attempts a m,
  eq_iff x.id a.endpoint_id,
  eq_iff x.id id,
  eq_iff a.endpoint_id id,
)

pub delete_endpoint-IsConsistent :
    (id : String) (now : ℕ) (db db' : Db)
    → IsConsistent db
    → Endpoints.delete_endpoint id now db ≡ ok (tt, db')
    → IsConsistent db'
unfolding Endpoints.delete_endpoint
delete_endpoint-IsConsistent id now db db' c e =
    elim (Bool-cases
      (any (λ e. e.id == id) db.endpoints && any (λ a. a.endpoint_id == id) db.attempts)) [
        | inl h ↦ cc (rw h at e)
        | inr h ↦ subst IsConsistent (ok-db (rw h at e)) (record {
          event_keys = c.event_keys;
          endpoint_keys = AreApart-select same_endpoint _ db.endpoints c.endpoint_keys;
          attempt_keys = c.attempt_keys;
          references = All-tabulate _ db.attempts (λ a m.
              let r = All-In (Refers db) db.attempts a c.references m in
              (r.0, not_deleted id db a db.endpoints h m r.1));
        })
      ]

pub create_delivery_attempt-IsConsistent :
    (storable : List ℕ → Bool) (p : Attempts.CreateDeliveryAttemptParams) (now : ℕ) (db db' : Db)
    → IsConsistent db
    → Attempts.create_delivery_attempt storable p now db ≡ ok (tt, db')
    → IsConsistent db'
unfolding Attempts.create_delivery_attempt
create_delivery_attempt-IsConsistent storable p now db db' c e =
    let fresh : any (λ a. a.id == p.id) db.attempts ≡ false = ground arith in
    let event : any (λ e. e.id == p.event_id) db.events ≡ true = ground arith in
    let endpoint : any (λ e. e.id == p.endpoint_id) db.endpoints ≡ true = ground arith in
    let same : record db { attempts = db.attempts ++ Attempts.attempt_of p now ∷ [] } ≡ db' =
      ground arith in
    subst IsConsistent same (record {
      event_keys = c.event_keys;
      endpoint_keys = c.endpoint_keys;
      attempt_keys =
          AreApart-append same_attempt db.attempts (Attempts.attempt_of p now) fresh c.attempt_keys;
      references =
          All-append _ db.attempts (Attempts.attempt_of p now ∷ []) c.references
            ((event, endpoint), tt);
    })
