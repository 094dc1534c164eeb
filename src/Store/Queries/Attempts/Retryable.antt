-- ===== src/Store/Queries/Attempts/Retryable.antt =====
-- What GetRetryableAttempts returns.
use hookman.Common.{
  ℕ, zero, suc, ◌<◌, ap, subst, All, ◌≡◌, ◌≤◌, refl, Bool, true, false, not, ◌&&◌, List, [], ◌∷◌,
  arith, select, take, length, In, length-take, Option, none, some, eq_iff,
}
use hookman.Common.Int.{ℤ, pos, negsuc, ltb_ℤ}
use hookman.Common.Order.{IsOrder, lex, lex-IsOrder, on-IsOrder, flip-IsOrder}
use hookman.Common.Text.{text-IsOrder}
use hookman.Store.Sql.{order_by, distinct_on}
use hookman.Store.Sql.Members.{any-witness, take-In, select-In, In-select, order_by-In, In-order_by}
use hookman.Store.Sql.Sorting.{order_by-IsOrdered}
use hookman.Store.Sql.Distinct.{
  distinct_on-In, distinct_on-Stands, distinct_on-AreDistinct, AreDistinct,
}
use hookman.Store.Models.{Event, DeliveryAttempt, Db, ok}
use hookman.Store.Queries.Events.{dead, has_status}
use hookman.Store.Queries.Attempts.{
  is_due, newer, pair_order, retryable, same_pair, retry_order, get_retryable_attempts,
}

-- The parts of a WHERE clause.
two_tests : (a b : Bool) → (a && b) ≡ true → (a ≡ true) × (b ≡ true)
two_tests a b h = (ground arith, ground arith)

three_tests : (a b c : Bool) → (a && b && c) ≡ true → (a ≡ true) × (b ≡ true) × (c ≡ true)
three_tests a b c h = (ground arith, ground arith, ground arith)

due_time :
    (o : Option ℕ) (before : ℕ) → is_due o before ≡ true → (t : ℕ) × (o ≡ some t) × (t ≤ before)
due_time none before h = cc
due_time (some t) before h = (t, refl, ground arith)

not-dead : (e : Event) → not (has_status dead e) ≡ true → ¬ (e.status ≡ "dead")
not-dead e h d = let hit : has_status dead e ≡ true = rw d refl in cc

abbrev eq_ℤ : ℤ → ℤ → Bool
eq_ℤ x y = not (ltb_ℤ x y) && not (ltb_ℤ y x)

ltb_ℤ-asymm : (x y : ℤ) → ltb_ℤ x y ≡ true → ltb_ℤ y x ≡ false
ltb_ℤ-asymm (pos a) (pos b) h = ground arith
ltb_ℤ-asymm (pos a) (negsuc b) h = ground arith
ltb_ℤ-asymm (negsuc a) (pos b) h = ground arith
ltb_ℤ-asymm (negsuc a) (negsuc b) h = ground arith

ltb_ℤ-negtrans : (x y z : ℤ) → ltb_ℤ y x ≡ false → ltb_ℤ z y ≡ false → ltb_ℤ z x ≡ false
ltb_ℤ-negtrans x y z h k = ground arith

ℤ-IsOrder : IsOrder ltb_ℤ eq_ℤ
ℤ-IsOrder = record { asymm = ltb_ℤ-asymm; negtrans = ltb_ℤ-negtrans; ties = λ x y. refl }

pair-IsOrder : IsOrder pair_order same_pair
pair-IsOrder =
    lex-IsOrder (on-IsOrder (λ (a : DeliveryAttempt). a.event_id) text-IsOrder)
      (on-IsOrder (λ (a : DeliveryAttempt). a.endpoint_id) text-IsOrder)

full-IsOrder :
    IsOrder
      (lex pair_order same_pair newer)
      (λ x y. same_pair x y && eq_ℤ y.attempt_number x.attempt_number)
full-IsOrder =
    lex-IsOrder pair-IsOrder
      (flip-IsOrder (on-IsOrder (λ (a : DeliveryAttempt). a.attempt_number) ℤ-IsOrder))

not-newer :
    (r a : DeliveryAttempt)
    → same_pair r a ≡ true
    → retry_order a r ≡ false
    → ltb_ℤ r.attempt_number a.attempt_number ≡ false
not-newer r a s h = ground (arith, pair-IsOrder.ties r a, pair-IsOrder.ties a r)

All-take : {A : Type 0} (P : A → Type 0) (n : ℕ) (xs : List A) → All P xs → All P (take n xs)
All-take P zero xs h = tt
All-take P (suc n) [] h = tt
All-take P (suc n) (x ∷ xs) (px, h) = (px, All-take P n xs h)

take-AreDistinct :
    (n : ℕ) (xs : List DeliveryAttempt)
    → AreDistinct same_pair xs
    → AreDistinct same_pair (take n xs)
take-AreDistinct zero xs h = tt
take-AreDistinct (suc n) [] h = tt
take-AreDistinct (suc n) (x ∷ xs) (hx, h) = (All-take _ n xs hx, take-AreDistinct n xs h)

take_all : {A : Type 0} (n : ℕ) (xs : List A) → length (take n xs) < n → take n xs ≡ xs
take_all zero xs h = absurd (omega arith)
take_all (suc n) [] h = refl
take_all (suc n) (x ∷ xs) h = ap (λ ys. x ∷ ys) (take_all n xs (omega arith))

-- What the poller relies on in the rows that it gets.
pub record IsRetryBatch (before limit : ℕ) (db : Db) (rows : List DeliveryAttempt) : Type 0 where
  -- Each row is a failed attempt whose time has come, of an event that is there and not dead.
  pub due :
      (a : DeliveryAttempt) → In a rows → In a db.attempts × (retryable db.events before a ≡ true)
  -- No two rows are for the same event and endpoint.
  pub one_each : AreDistinct same_pair rows
  pub bounded : length rows ≤ limit
  -- Below the limit nothing is missed: every such attempt has a row for its event and endpoint,
  -- and none with a lower number.
  pub complete :
      length rows < limit
      → (a : DeliveryAttempt) → In a db.attempts
      → retryable db.events before a ≡ true
      → (r : DeliveryAttempt) × In r rows
        × (same_pair r a ≡ true)
        × (ltb_ℤ r.attempt_number a.attempt_number ≡ false)

module _ (before limit : ℕ) (db : Db) where
  abbrev candidates : List DeliveryAttempt
  candidates = order_by retry_order (select (retryable db.events before) db.attempts)

  finer : (x y : DeliveryAttempt) → retry_order y x ≡ false → pair_order y x ≡ false
  finer x y h = ground arith

  irrefl : (x : DeliveryAttempt) → retry_order x x ≡ false
  irrefl x = ground (arith, full-IsOrder.asymm x x)

  batch-due :
      (a : DeliveryAttempt)
      → In a (take limit (distinct_on same_pair candidates))
      → In a db.attempts × (retryable db.events before a ≡ true)
  batch-due a m =
      select-In (retryable db.events before) db.attempts a
        (order_by-In retry_order _ a (distinct_on-In same_pair candidates a (take-In limit _ a m)))

  batch_complete :
      length (take limit (distinct_on same_pair candidates)) < limit
      → (a : DeliveryAttempt) → In a db.attempts
      → retryable db.events before a ≡ true
      → (r : DeliveryAttempt) × In r (take limit (distinct_on same_pair candidates))
        × (same_pair r a ≡ true)
        × (ltb_ℤ r.attempt_number a.attempt_number ≡ false)
  batch_complete short a m q =
      let (r, found, s, l) =
        distinct_on-Stands same_pair pair-IsOrder finer irrefl candidates a
          (order_by-IsOrdered full-IsOrder (select (retryable db.events before) db.attempts))
          (In-order_by retry_order _ a
            (In-select (retryable db.events before) db.attempts a m q)) in
      (r, rw (take_all limit (distinct_on same_pair candidates) short) found, s, not-newer r a s l)

  pub get_retryable_attempts-IsRetryBatch :
      (now : ℕ) (rows : List DeliveryAttempt) (db' : Db)
      → get_retryable_attempts before limit now db ≡ ok (rows, db')
      → IsRetryBatch before limit db rows
  unfolding get_retryable_attempts
  get_retryable_attempts-IsRetryBatch now rows db' e =
      let same : take limit (distinct_on same_pair candidates) ≡ rows = ground arith in
      subst (IsRetryBatch before limit db) same (record {
        due = batch-due;
        one_each = take-AreDistinct limit _ (
            distinct_on-AreDistinct same_pair pair-IsOrder finer irrefl candidates
              (order_by-IsOrdered full-IsOrder (select (retryable db.events before) db.attempts)));
        bounded = omega (arith, length-take limit (distinct_on same_pair candidates));
        complete = batch_complete;
      })

  -- Every row is in the table and passes the clause's test.
  pub get_retryable_attempts-retryable :
      (now : ℕ) (rows : List DeliveryAttempt) (db' : Db) (a : DeliveryAttempt)
      → get_retryable_attempts before limit now db ≡ ok (rows, db')
      → In a rows
      → In a db.attempts × (retryable db.events before a ≡ true)
  get_retryable_attempts-retryable now rows db' a e m =
      (get_retryable_attempts-IsRetryBatch now rows db' e).due a m

  -- Every row of GetRetryableAttempts is a failed attempt on record whose retry time is set and not
  -- after the given time, of an event on record whose status is not dead.
  pub get_retryable_attempts-due :
      (now : ℕ) (rows : List DeliveryAttempt) (db' : Db) (a : DeliveryAttempt)
      → get_retryable_attempts before limit now db ≡ ok (rows, db')
      → In a rows
      → In a db.attempts
        × (a.status ≡ "failed")
        × ((t : ℕ) × (a.next_retry_at ≡ some t) × (t ≤ before))
        × ((e : Event) × In e db.events × (e.id ≡ a.event_id) × ¬ (e.status ≡ "dead"))
  get_retryable_attempts-due now rows db' a q m =
      let (there, passes) = get_retryable_attempts-retryable now rows db' a q m in
      let (joined, due, failed) = three_tests _ _ _ passes in
      let (e, k, same) = any-witness _ db.events joined in
      let (id, live) = two_tests _ _ same in
      (
        there,
        (eq_iff a.status "failed").0 failed,
        due_time a.next_retry_at before due,
        (e, k, (eq_iff e.id a.event_id).0 id, λ d. not-dead e live d),
      )

  -- The rows of GetRetryableAttempts are at most the limit, and no two of them are for the same
  -- event and endpoint.
  pub get_retryable_attempts-one_each :
      (now : ℕ) (rows : List DeliveryAttempt) (db' : Db)
      → get_retryable_attempts before limit now db ≡ ok (rows, db')
      → AreDistinct same_pair rows × (length rows ≤ limit)
  get_retryable_attempts-one_each now rows db' e =
      let batch = get_retryable_attempts-IsRetryBatch now rows db' e in
      (batch.one_each, batch.bounded)

  -- Where GetRetryableAttempts returns fewer rows than the limit, every due failed attempt of a live
  -- event has a row for its event and endpoint, with an attempt number that is not lower.
  pub get_retryable_attempts_complete :
      (now : ℕ) (rows : List DeliveryAttempt) (db' : Db) (a : DeliveryAttempt)
      → get_retryable_attempts before limit now db ≡ ok (rows, db')
      → length rows < limit
      → In a db.attempts
      → retryable db.events before a ≡ true
      → (r : DeliveryAttempt) × In r rows
        × (same_pair r a ≡ true)
        × (ltb_ℤ r.attempt_number a.attempt_number ≡ false)
  get_retryable_attempts_complete now rows db' a e l m d =
      (get_retryable_attempts-IsRetryBatch now rows db' e).complete l a m d
