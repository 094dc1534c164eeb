-- ===== src/Store/Sql/Sorting.antt =====
-- The order of the rows after ORDER BY.
use mathlib.Core.List.{Perm}
use mathlib.Core.List.Perm
use hookman.Common.{◌≡◌, inl, inr, Bool, false, List, [], ◌∷◌, Bool-cases, All}
use hookman.Common.Order.{IsOrder}
use hookman.Store.Sql.{insert_sorted, order_by}

module _ {ℓ} {A : Type ℓ} where
  -- No row stands behind one that should come after it.
  abbrev pub IsOrdered : (A → A → Bool) → List A → Type ℓ
  IsOrdered lt [] = Unit
  IsOrdered lt (x ∷ xs) = All (λ y. lt y x ≡ false) xs × IsOrdered lt xs

  insert_sorted-perm :
      (lt : A → A → Bool) (x : A) (ys : List A) → Perm (insert_sorted lt x ys) (x ∷ ys)
  unfolding insert_sorted
  insert_sorted-perm lt x [] = Perm.rfl
  insert_sorted-perm lt x (y ∷ ys) = elim (Bool-cases (lt y x)) [
    | inl e ↦ rw e (Perm.trans (Perm.cons y (insert_sorted-perm lt x ys)) (Perm.swap x y ys))
    | inr e ↦ rw e Perm.rfl
  ]

  pub order_by-perm : (lt : A → A → Bool) (xs : List A) → Perm (order_by lt xs) xs
  unfolding order_by
  order_by-perm lt [] = Perm.rfl
  order_by-perm lt (x ∷ xs) =
      Perm.trans (insert_sorted-perm lt x (order_by lt xs)) (Perm.cons x (order_by-perm lt xs))

  pub All-insert_sorted :
      (P : A → Type 0) (lt : A → A → Bool) (x : A) (ys : List A)
      → P x
      → All P ys
      → All P (insert_sorted lt x ys)
  unfolding insert_sorted
  All-insert_sorted P lt x [] px h = (px, tt)
  All-insert_sorted P lt x (y ∷ ys) px (py, h) = elim (Bool-cases (lt y x)) [
    | inl e ↦ rw e (py, All-insert_sorted P lt x ys px h)
    | inr e ↦ rw e (px, (py, h))
  ]

  module _ {lt tie : A → A → Bool} (o : IsOrder lt tie) where
    pub All-later :
        (x y : A) (zs : List A)
        → lt y x ≡ false
        → All (λ z. lt z y ≡ false) zs
        → All (λ z. lt z x ≡ false) zs
    All-later x y [] h k = tt
    All-later x y (z ∷ zs) h (k, ks) = (o.negtrans x y z h k, All-later x y zs h ks)

    insert_sorted-IsOrdered :
        (x : A) (ys : List A) → IsOrdered lt ys → IsOrdered lt (insert_sorted lt x ys)
    unfolding insert_sorted
    insert_sorted-IsOrdered x [] h = (tt, tt)
    insert_sorted-IsOrdered x (y ∷ ys) (below, h) = elim (Bool-cases (lt y x)) [
      | inl e ↦ rw e (
        All-insert_sorted (λ z. lt z y ≡ false) lt x ys (o.asymm y x e) below,
        insert_sorted-IsOrdered x ys h,
      )
      | inr e ↦ rw e ((e, All-later x y ys e below), (below, h))
    ]

    pub order_by-IsOrdered : (xs : List A) → IsOrdered lt (order_by lt xs)
    unfolding order_by
    order_by-IsOrdered [] = tt
    order_by-IsOrdered (x ∷ xs) = insert_sorted-IsOrdered x (order_by lt xs) (order_by-IsOrdered xs)
