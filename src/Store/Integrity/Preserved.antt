-- ===== src/Store/Integrity/Preserved.antt =====
-- The statements that write, and the constraints of migrations/.
mod OfEvents
mod OfRest
use hookman.Common.{
  ℕ, String, ◌≡◌, refl, inl, inr, Bool, true, false, ◌&&◌, List, [], ◌∷◌, ◌++◌, ◌==◌, arith, any,
  select, All, In, Bool-cases, subst, eq_iff,
}
use hookman.Store.Sql.{update_where, delete_where}
use hookman.Store.Sql.Members.{any-append, any-update_where, All-append, All-map, All-In, any-In}
use hookman.Store.Models.{Event, Endpoint, DeliveryAttempt, Db, Result, ok}
use hookman.Store.Queries.Events as Events
use hookman.Store.Queries.Endpoints as Endpoints
use hookman.Store.Queries.Attempts as Attempts
use hookman.Store.Integrity.{
  IsConsistent, Refers, Write, Writes, creates_event, updates_status, replays, purges,
  creates_endpoint, updates_endpoint, deletes_endpoint, creates_attempt, done, next, same_event,
  same_endpoint, same_attempt,
}
use hookman.Store.Integrity.Apart.{AreApart-append, AreApart-update_where, AreApart-select}
use hookman.Store.Integrity.Preserved.OfEvents.{
  create_event-IsConsistent, update_event_status-IsConsistent, bulk_replay_dead_events-IsConsistent,
  purge_dead_events-IsConsistent,
}
use hookman.Store.Integrity.Preserved.OfRest.{
  create_endpoint-IsConsistent, update_endpoint-IsConsistent, delete_endpoint-IsConsistent,
  create_delivery_attempt-IsConsistent,
}

-- Each statement that writes keeps the constraints.
pub Write-IsConsistent :
    (storable : List ℕ → Bool) (db db' : Db)
    → Write storable db db'
    → IsConsistent db
    → IsConsistent db'
Write-IsConsistent storable db db' (creates_event p now _ e) c =
    create_event-IsConsistent p now db db' c e
Write-IsConsistent storable db db' (updates_status p now _ _ e) c =
    update_event_status-IsConsistent p now db db' c e
Write-IsConsistent storable db db' (replays n now e) c =
    bulk_replay_dead_events-IsConsistent n now db db' c e
Write-IsConsistent storable db db' (purges n now e) c =
    purge_dead_events-IsConsistent n now db db' c e
Write-IsConsistent storable db db' (creates_endpoint p now e) c =
    create_endpoint-IsConsistent p now db db' c e
Write-IsConsistent storable db db' (updates_endpoint p now e) c =
    update_endpoint-IsConsistent p now db db' c e
Write-IsConsistent storable db db' (deletes_endpoint id now e) c =
    delete_endpoint-IsConsistent id now db db' c e
Write-IsConsistent storable db db' (creates_attempt p now e) c =
    create_delivery_attempt-IsConsistent storable p now db db' c e

-- Whatever statements run, in whatever order, identifiers and idempotency keys stay unique and
-- every delivery attempt refers to an event and an endpoint that are there.
pub Writes-IsConsistent :
    (storable : List ℕ → Bool) (db : Db) {db' : Db}
    → Writes storable db db'
    → IsConsistent db
    → IsConsistent db'
Writes-IsConsistent storable db done c = c
Writes-IsConsistent storable db (next ws w) c =
    Write-IsConsistent storable _ _ w (Writes-IsConsistent storable db ws c)
