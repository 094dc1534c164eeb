-- ===== src/Store/Sql/Members.antt =====
-- Which rows a clause returns.
use hookman.Common.{
  ℕ, zero, suc, ◌≡◌, refl, ◌⊎◌, inl, inr, Bool, true, false, not, ◌&&◌, ◌||◌, List, [], ◌∷◌, ◌++◌,
  arith, select, any, take, Bool-cases, All, In, map, ap,
}
use hookman.Store.Sql.{insert_sorted, order_by, update_where}

module _ {A : Type 0} where
  pub In-insert_sorted :
      (lt : A → A → Bool) (x : A) (ys : List A) (a : A)
      → (a ≡ x) ⊎ In a ys
      → In a (insert_sorted lt x ys)
  unfolding insert_sorted
  In-insert_sorted lt x [] a m = m
  In-insert_sorted lt x (y ∷ ys) a m = ground (arith, In-insert_sorted lt x ys a)

  pub insert_sorted-In :
      (lt : A → A → Bool) (x : A) (ys : List A) (a : A)
      → In a (insert_sorted lt x ys)
      → (a ≡ x) ⊎ In a ys
  unfolding insert_sorted
  insert_sorted-In lt x [] a m = m
  insert_sorted-In lt x (y ∷ ys) a m = ground (arith, insert_sorted-In lt x ys a)

  pub In-order_by : (lt : A → A → Bool) (xs : List A) (a : A) → In a xs → In a (order_by lt xs)
  unfolding order_by
  In-order_by lt [] a m = m
  In-order_by lt (x ∷ xs) a (inl e) = In-insert_sorted lt x (order_by lt xs) a (inl e)
  In-order_by lt (x ∷ xs) a (inr m) =
      In-insert_sorted lt x (order_by lt xs) a (inr (In-order_by lt xs a m))

  pub order_by-In : (lt : A → A → Bool) (xs : List A) (a : A) → In a (order_by lt xs) → In a xs
  unfolding order_by
  order_by-In lt [] a m = m
  order_by-In lt (x ∷ xs) a m =
      ground (arith, insert_sorted-In lt x (order_by lt xs) a m, order_by-In lt xs a)

  pub In-select : (p : A → Bool) (xs : List A) (a : A) → In a xs → p a ≡ true → In a (select p xs)
  In-select p [] a m h = m
  In-select p (x ∷ xs) a m h = ground (arith, In-select p xs a)

  pub select-In : (p : A → Bool) (xs : List A) (a : A) → In a (select p xs) → In a xs × (p a ≡ true)
  select-In p [] a m = absurd m
  select-In p (x ∷ xs) a m = ground (arith, select-In p xs a)

  pub take-In : (n : ℕ) (xs : List A) (a : A) → In a (take n xs) → In a xs
  take-In zero xs a m = absurd m
  take-In (suc n) [] a m = m
  take-In (suc n) (x ∷ xs) a m = ground (arith, take-In n xs a)

  pub any-In : (p : A → Bool) (xs : List A) (a : A) → In a xs → p a ≡ true → any p xs ≡ true
  any-In p [] a m h = absurd m
  any-In p (x ∷ xs) a m h = ground (arith, any-In p xs a)

  pub any-witness :
      (p : A → Bool) (xs : List A) → any p xs ≡ true → (a : A) × In a xs × (p a ≡ true)
  any-witness p [] h = cc
  any-witness p (x ∷ xs) h = elim (Bool-cases (p x)) [
    | inl e ↦ (x, inl refl, e)
    | inr e ↦ let (a, m, q) = any-witness p xs (ground arith) in (a, inr m, q)
  ]

  pub In-append_left : (xs ys : List A) (a : A) → In a xs → In a (xs ++ ys)
  In-append_left [] ys a m = absurd m
  In-append_left (x ∷ xs) ys a (inl m) = inl m
  In-append_left (x ∷ xs) ys a (inr m) = inr (In-append_left xs ys a m)

  pub In-append_right : (xs ys : List A) (a : A) → In a ys → In a (xs ++ ys)
  In-append_right [] ys a m = m
  In-append_right (x ∷ xs) ys a m = inr (In-append_right xs ys a m)

  pub All-In : (P : A → Type 0) (xs : List A) (a : A) → All P xs → In a xs → P a
  All-In P [] a h m = absurd m
  All-In P (x ∷ xs) a h (inl e) = rw e h.0
  All-In P (x ∷ xs) a h (inr m) = All-In P xs a h.1 m

  pub any-append : (p : A → Bool) (xs ys : List A) → any p (xs ++ ys) ≡ any p xs || any p ys
  any-append p [] ys = refl
  any-append p (x ∷ xs) ys = ground (arith, any-append p xs ys)

  -- An update that a test does not see leaves what the test finds.
  pub any-update_where :
      (p q : A → Bool) (f : A → A) (xs : List A)
      → ((x : A) → p (f x) ≡ p x)
      → any p (update_where q f xs) ≡ any p xs
  any-update_where p q f [] h = refl
  any-update_where p q f (x ∷ xs) h = ground (arith, any-update_where p q f xs h, h x)

  pub any-select_kept :
      (p q : A → Bool) (xs : List A)
      → any p xs ≡ true
      → any p (select (λ x. not (q x)) xs) ≡ false
      → any (λ x. p x && q x) xs ≡ true
  any-select_kept p q [] h k = h
  any-select_kept p q (x ∷ xs) h k = ground (arith, any-select_kept p q xs)

  pub All-append : (P : A → Type 0) (xs ys : List A) → All P xs → All P ys → All P (xs ++ ys)
  All-append P [] ys h k = k
  All-append P (x ∷ xs) ys (px, h) k = (px, All-append P xs ys h k)

  pub All-map : (P Q : A → Type 0) (xs : List A) → ((x : A) → P x → Q x) → All P xs → All Q xs
  All-map P Q [] f h = tt
  All-map P Q (x ∷ xs) f (px, h) = (f x px, All-map P Q xs f h)

pub In-map : {A B : Type 0} (f : A → B) (xs : List A) (a : A) → In a xs → In (f a) (map f xs)
In-map f [] a m = absurd m
In-map f (x ∷ xs) a (inl m) = inl (ap f m)
In-map f (x ∷ xs) a (inr m) = inr (In-map f xs a m)
