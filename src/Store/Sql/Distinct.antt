-- ===== src/Store/Sql/Distinct.antt =====
-- The rows after DISTINCT ON.
use hookman.Common.{
  ◌≡◌, refl, inl, inr, Bool, true, false, List, [], ◌∷◌, arith, Bool-cases, All, In,
}
use hookman.Common.Order.{IsOrder}
use hookman.Store.Sql.{distinct_from, distinct_on}
use hookman.Store.Sql.Sorting.{IsOrdered}

module _ {A : Type 0} (same : A → A → Bool) where
  distinct_from-In : (x : A) (ys : List A) (a : A) → In a (distinct_from same x ys) → In a (x ∷ ys)
  unfolding distinct_from
  distinct_from-In x [] a m = m
  distinct_from-In x (y ∷ ys) a m = ground (arith, distinct_from-In x ys a, distinct_from-In y ys a)

  pub distinct_on-In : (xs : List A) (a : A) → In a (distinct_on same xs) → In a xs
  unfolding distinct_on
  distinct_on-In [] a m = m
  distinct_on-In (x ∷ xs) a m = distinct_from-In x xs a m

  first-In : (x : A) (ys : List A) → In x (distinct_from same x ys)
  unfolding distinct_from
  first-In x [] = inl refl
  first-In x (y ∷ ys) = ground (arith, first-In x ys)

  All-distinct_from :
      (P : A → Type 0) (x : A) (ys : List A) → P x → All P ys → All P (distinct_from same x ys)
  unfolding distinct_from
  All-distinct_from P x [] px h = (px, tt)
  All-distinct_from P x (y ∷ ys) px (py, h) = elim (Bool-cases (same x y)) [
    | inl e ↦ rw e (All-distinct_from P x ys px h)
    | inr e ↦ rw e (px, All-distinct_from P y ys py h)
  ]

  -- No two rows of the list have the same key.
  abbrev pub AreDistinct : List A → Type 0
  AreDistinct [] = Unit
  AreDistinct (x ∷ xs) = All (λ y. same x y ≡ false) xs × AreDistinct xs

  -- The row that stands for `a` in a result: it has the key of `a`, and `a` is not before it.
  abbrev pub Stands : (A → A → Bool) → A → List A → Type 0
  Stands lt a rows = (r : A) × In r rows × (same r a ≡ true) × (lt a r ≡ false)

  module _ {lt key : A → A → Bool} (o : IsOrder key same)
      (finer : (x y : A) → lt y x ≡ false → key y x ≡ false)
      (irrefl : (x : A) → lt x x ≡ false) where
    same_self : (x : A) → same x x ≡ true
    same_self x = ground (arith, o.ties x x, finer x x (irrefl x))

    Stands-cons : {a x : A} (rows : List A) → Stands lt a rows → Stands lt a (x ∷ rows)
    Stands-cons rows (r, m, s, l) = (r, inr m, s, l)

    distinct_from-Stands :
        (x : A) (ys : List A) (a : A)
        → IsOrdered lt (x ∷ ys)
        → In a (x ∷ ys)
        → Stands lt a (distinct_from same x ys)
    unfolding distinct_from
    distinct_from-Stands x [] a h (inl e) = rw e (x, inl refl, same_self x, irrefl x)
    distinct_from-Stands x [] a h (inr m) = absurd m
    distinct_from-Stands x (y ∷ ys) a h m = elim (Bool-cases (same x y)) [
      | inl e ↦ rw e (elim m [
        | inl q ↦ distinct_from-Stands x ys a (h.0.1, h.1.1) (inl q)
        | inr (inl q) ↦ rw q (x, first-In x ys, e, h.0.0)
        | inr (inr q) ↦ distinct_from-Stands x ys a (h.0.1, h.1.1) (inr q)
      ])
      | inr e ↦ rw e (elim m [
        | inl q ↦ rw q (x, inl refl, same_self x, irrefl x)
        | inr q ↦ Stands-cons _ (distinct_from-Stands y ys a h.1 q)
      ])
    ]

    apart_later :
        (x y : A) (zs : List A)
        → same x y ≡ false
        → key y x ≡ false
        → All (λ z. lt z y ≡ false) zs
        → All (λ z. same x z ≡ false) zs
    apart_later x y [] s k h = tt
    apart_later x y (z ∷ zs) s k (l, h) = (
      ground (
        arith,
        o.ties x y,
        o.ties x z,
        finer y z l,
        o.negtrans x y z k,
        o.negtrans y z x,
        o.asymm x y,
      ),
      apart_later x y zs s k h,
    )

    distinct_from-AreDistinct :
        (x : A) (ys : List A) → IsOrdered lt (x ∷ ys) → AreDistinct (distinct_from same x ys)
    unfolding distinct_from
    distinct_from-AreDistinct x [] h = (tt, tt)
    distinct_from-AreDistinct x (y ∷ ys) h = elim (Bool-cases (same x y)) [
      | inl e ↦ rw e (distinct_from-AreDistinct x ys (h.0.1, h.1.1))
      | inr e ↦ rw e (
        All-distinct_from (λ z. same x z ≡ false) y ys e
            (apart_later x y ys e (finer x y h.0.0) h.1.0),
        distinct_from-AreDistinct y ys h.1,
      )
    ]

    -- Every row of an ordered table has a row that stands for it.
    pub distinct_on-Stands :
        (xs : List A) (a : A) → IsOrdered lt xs → In a xs → Stands lt a (distinct_on same xs)
    unfolding distinct_on
    distinct_on-Stands [] a h m = absurd m
    distinct_on-Stands (x ∷ xs) a h m = distinct_from-Stands x xs a h m

    pub distinct_on-AreDistinct :
        (xs : List A) → IsOrdered lt xs → AreDistinct (distinct_on same xs)
    unfolding distinct_on
    distinct_on-AreDistinct [] h = tt
    distinct_on-AreDistinct (x ∷ xs) h = distinct_from-AreDistinct x xs h
