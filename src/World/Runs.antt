-- ===== src/World/Runs.antt =====
-- What one call of the database can do, whether it is served or lost.
use hookman.Common.{◌≡◌, refl, ◌⊎◌, inl, inr, arith, []}
use hookman.Store.Models.{Db, Result, ok, err, Statement}
use hookman.World.{
  World, Fault, served, lost_request, lost_reply, settle, answer, run, next_fault, later_faults,
}

module _ {A : Type 0} where
  -- The tables are left alone, or the statement has run.
  abbrev pub Ran : Statement A → World → World → Type 0
  Ran s w w' = (w'.db ≡ w.db) ⊎ ((a : A) × (db : Db) × (s w.now w.db ≡ ok (a, db)) × (w'.db ≡ db))

  settle-db :
      (r : Result (A × Db)) (w : World)
      → ((settle r w).1.db ≡ w.db)
        ⊎ ((a : A) × (db : Db) × (r ≡ ok (a, db)) × ((settle r w).1.db ≡ db))
  settle-db (ok (a, db)) w = inr (a, db, refl, refl)
  settle-db (err e) w = inl refl

  answer-db :
      (f : Fault) (r : Result (A × Db)) (w : World)
      → ((answer f r w).1.db ≡ w.db)
        ⊎ ((a : A) × (db : Db) × (r ≡ ok (a, db)) × ((answer f r w).1.db ≡ db))
  answer-db served r w = settle-db r w
  answer-db lost_request r w = inl refl
  answer-db lost_reply r w = settle-db r w

  pub run-Ran : (s : Statement A) (w : World) → Ran s w (run s w).1
  unfolding run
  run-Ran s w =
      answer-db (next_fault w.faults) (s w.now w.db) (record w { faults = later_faults w.faults })

  answer-ok :
      (f : Fault) (r : Result (A × Db)) (w : World) (a : A)
      → (answer f r w).0 ≡ ok a
      → (db : Db) × (r ≡ ok (a, db)) × ((answer f r w).1.db ≡ db)
  answer-ok served (ok (b, db)) w a e = (db, ground arith, refl)
  answer-ok served (err x) w a e = cc
  answer-ok lost_request r w a e = cc
  answer-ok lost_reply r w a e = cc

  -- A call that returns a value has run its statement.
  pub run-ok :
      (s : Statement A) (w : World) (a : A)
      → (run s w).0 ≡ ok a
      → (db : Db) × (s w.now w.db ≡ ok (a, db)) × ((run s w).1.db ≡ db)
  unfolding run
  run-ok s w a e =
      answer-ok (next_fault w.faults) (s w.now w.db) (record w { faults = later_faults w.faults }) a
        e

  answer-rest :
      (f : Fault) (r : Result (A × Db)) (w : World)
      → ((answer f r w).1.now ≡ w.now)
        × ((answer f r w).1.metrics ≡ w.metrics)
        × ((answer f r w).1.draws ≡ w.draws)
        × ((answer f r w).1.faults ≡ w.faults)
  answer-rest served (ok (a, db)) w = (refl, refl, refl, refl)
  answer-rest served (err e) w = (refl, refl, refl, refl)
  answer-rest lost_request r w = (refl, refl, refl, refl)
  answer-rest lost_reply (ok (a, db)) w = (refl, refl, refl, refl)
  answer-rest lost_reply (err e) w = (refl, refl, refl, refl)

  -- A call changes neither the clock nor the metrics nor the random source.
  pub run-rest :
      (s : Statement A) (w : World)
      → ((run s w).1.now ≡ w.now)
        × ((run s w).1.metrics ≡ w.metrics)
        × ((run s w).1.draws ≡ w.draws)
        × ((run s w).1.faults ≡ later_faults w.faults)
  unfolding run
  run-rest s w =
      answer-rest (next_fault w.faults) (s w.now w.db) (record w { faults = later_faults w.faults })

  -- With no fault ahead the result is the statement's.
  pub run-served : (s : Statement A) (w : World) → w.faults ≡ [] → run s w ≡ settle (s w.now w.db) w
  unfolding run
  run-served s w e = ground arith

  -- A reading statement that succeeds, with no fault ahead, returns its value and changes nothing.
  pub run-read :
      (s : Statement A) (w : World) (a : A)
      → w.faults ≡ []
      → s w.now w.db ≡ ok (a, w.db)
      → run s w ≡ (ok a, w)
  run-read s w a f e = rw (run-served s w f) (rw (e, settle) refl)
