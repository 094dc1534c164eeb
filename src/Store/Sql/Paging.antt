-- ===== src/Store/Sql/Paging.antt =====
-- ORDER BY and LIMIT over a key without ties: a page and the rows behind it.
use native.Mathlib.Nat.{zero-add, suc-add}
use hookman.Common.{
  ℕ, zero, suc, ◌+◌, ◌≡◌, refl, sym, ap, inl, inr, Bool, true, false, List, [], ◌∷◌, ◌++◌,
  Bool-cases, All, arith, if◌then◌else◌, select, take,
}
use hookman.Common.Order.{IsOrder}
use hookman.Store.Sql.{insert_sorted, order_by}
use hookman.Store.Sql.Sorting.{IsOrdered, All-later, All-insert_sorted, order_by-IsOrdered}

module _ {A : Type 0} where
  -- The rows behind the first `n`.
  abbrev pub drop : ℕ → List A → List A
  drop zero xs = xs
  drop (suc n) [] = []
  drop (suc n) (x ∷ xs) = drop n xs

  pub take-append-drop : (n : ℕ) (xs : List A) → take n xs ++ drop n xs ≡ xs
  take-append-drop zero xs = refl
  take-append-drop (suc n) [] = refl
  take-append-drop (suc n) (x ∷ xs) = ap (λ l. x ∷ l) (take-append-drop n xs)

  pub take_add : (n m : ℕ) (xs : List A) → take (n + m) xs ≡ take n xs ++ take m (drop n xs)
  take_add zero m xs = rw (zero-add m) refl
  take_add (suc n) zero [] = rw (suc-add n zero) refl
  take_add (suc n) (suc m) [] = rw (suc-add n (suc m)) refl
  take_add (suc n) m (x ∷ xs) = rw (suc-add n m) (ap (λ l. x ∷ l) (take_add n m xs))

  -- Every row comes strictly before the later ones.
  abbrev pub IsStrict : (A → A → Bool) → List A → Type 0
  IsStrict lt [] = Unit
  IsStrict lt (x ∷ xs) = All (λ y. lt x y ≡ true) xs × IsStrict lt xs

  abbrev pub AreUntied : (A → A → Bool) → List A → Type 0
  AreUntied tie [] = Unit
  AreUntied tie (x ∷ xs) = All (λ y. tie x y ≡ false) xs × AreUntied tie xs

  insert_sorted_first :
      (lt : A → A → Bool) (x : A) (zs : List A)
      → All (λ z. lt z x ≡ false) zs
      → insert_sorted lt x zs ≡ x ∷ zs
  unfolding insert_sorted
  insert_sorted_first lt x [] h = refl
  insert_sorted_first lt x (z ∷ zs) (e, h) = rw e refl

  All-selected : (P : A → Type 0) (q : A → Bool) (xs : List A) → All P xs → All P (select q xs)
  All-selected P q [] h = tt
  All-selected P q (x ∷ xs) (p, h) = elim (Bool-cases (q x)) [
    | inl e ↦ rw e (p, All-selected P q xs h)
    | inr e ↦ rw e (All-selected P q xs h)
  ]

  module _ {lt tie : A → A → Bool} (o : IsOrder lt tie) where
    select-insert_sorted :
        (q : A → Bool) (x : A) (ys : List A)
        → IsOrdered lt ys
        → select q (insert_sorted lt x ys)
          ≡ (if q x then insert_sorted lt x (select q ys) else select q ys)
    unfolding insert_sorted
    select-insert_sorted q x [] h = elim (Bool-cases (q x)) [
      | inl e ↦ rw e refl
      | inr e ↦ rw e refl
    ]
    select-insert_sorted q x (y ∷ ys) (below, h) = elim (Bool-cases (lt y x)) [
      | inl e ↦ elim (Bool-cases (q y)) [
        | inl c ↦ elim (Bool-cases (q x)) [
          | inl d ↦
              let ih = select-insert_sorted q x ys h in
              rw (e, c, d) (rw (e) (ap (λ l. y ∷ l) (rw d at ih)))
          | inr d ↦
              let ih = select-insert_sorted q x ys h in rw (e, c, d) (ap (λ l. y ∷ l) (rw d at ih))
        ]
        | inr c ↦ rw (e, c) (select-insert_sorted q x ys h)
      ]
      | inr e ↦ elim (Bool-cases (q x)) [
        | inl d ↦
            let later : All (λ z. lt z x ≡ false) (y ∷ ys) = (e, All-later o x y ys e below) in
            rw (e, d)
              (sym (insert_sorted_first lt x (select q (y ∷ ys)) (All-selected _ q (y ∷ ys) later)))
        | inr d ↦ rw (e, d) refl
      ]
    ]

    -- WHERE and ORDER BY commute.
    pub order_by-select :
        (q : A → Bool) (xs : List A) → order_by lt (select q xs) ≡ select q (order_by lt xs)
    unfolding order_by
    order_by-select q [] = refl
    order_by-select q (x ∷ xs) = elim (Bool-cases (q x)) [
      | inl e ↦
          let step = select-insert_sorted q x (order_by lt xs) (order_by-IsOrdered o xs) in
          rw (e, order_by-select q xs) (sym (rw e at step))
      | inr e ↦
          let step = select-insert_sorted q x (order_by lt xs) (order_by-IsOrdered o xs) in
          rw (e, order_by-select q xs) (sym (rw e at step))
    ]

    pub trans_lt : (x y z : A) → lt x y ≡ true → lt y z ≡ true → lt x z ≡ true
    trans_lt x y z h k = ground (arith, o.negtrans y z x, o.asymm y z)

    All-earlier :
        (x y : A) (zs : List A)
        → lt x y ≡ true
        → All (λ z. lt y z ≡ true) zs
        → All (λ z. lt x z ≡ true) zs
    All-earlier x y [] h k = tt
    All-earlier x y (z ∷ zs) h (k, ks) = (trans_lt x y z h k, All-earlier x y zs h ks)

    insert_sorted-IsStrict :
        (x : A) (ys : List A)
        → All (λ y. tie x y ≡ false) ys
        → IsStrict lt ys
        → IsStrict lt (insert_sorted lt x ys)
    unfolding insert_sorted
    insert_sorted-IsStrict x [] u h = (tt, tt)
    insert_sorted-IsStrict x (y ∷ ys) (apart, u) (above, h) = elim (Bool-cases (lt y x)) [
      | inl e ↦
          rw e (
            All-insert_sorted (λ z. lt y z ≡ true) lt x ys e above,
            insert_sorted-IsStrict x ys u h,
          )
      | inr e ↦
          let first : lt x y ≡ true = ground (arith, o.ties x y) in
          rw e ((first, All-earlier x y ys first above), (above, h))
    ]

    All-order_by : (P : A → Type 0) (xs : List A) → All P xs → All P (order_by lt xs)
    unfolding order_by
    All-order_by P [] h = tt
    All-order_by P (x ∷ xs) (p, h) =
        All-insert_sorted P lt x (order_by lt xs) p (All-order_by P xs h)

    pub order_by-IsStrict : (xs : List A) → AreUntied tie xs → IsStrict lt (order_by lt xs)
    unfolding order_by
    order_by-IsStrict [] u = tt
    order_by-IsStrict (x ∷ xs) (apart, u) =
        insert_sorted-IsStrict x (order_by lt xs) (All-order_by _ xs apart) (order_by-IsStrict xs u)

    select_kept : (x : A) (zs : List A) → All (λ z. lt x z ≡ true) zs → select (λ z. lt x z) zs ≡ zs
    select_kept x [] h = refl
    select_kept x (z ∷ zs) (e, h) = rw e (ap (λ l. z ∷ l) (select_kept x zs h))

    -- What comes strictly after a row of a strictly sorted list is what stands behind it.
    pub select_behind :
        (front : List A) (x : A) (behind : List A)
        → IsStrict lt (front ++ x ∷ behind)
        → select (λ z. lt x z) (front ++ x ∷ behind) ≡ behind
    select_behind [] x behind (above, h) =
        let self : lt x x ≡ false = ground (arith, o.asymm x x) in
        rw self (select_kept x behind above)
    select_behind (y ∷ ys) x behind (above, h) =
        let earlier : lt y x ≡ true = All-at ys x behind above in
        rw (o.asymm y x earlier) (select_behind ys x behind h)
      where
        All-at :
            (ys : List A) (x : A) (behind : List A)
            → All (λ z. lt y z ≡ true) (ys ++ x ∷ behind)
            → lt y x ≡ true
        All-at [] x behind (e, h) = e
        All-at (z ∷ zs) x behind (e, h) = All-at zs x behind h
