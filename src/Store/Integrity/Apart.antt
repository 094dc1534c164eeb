-- ===== src/Store/Integrity/Apart.antt =====
-- How inserts, updates and deletes keep the rows of a table apart.
use hookman.Common.{◌≡◌, refl, Bool, false, List, [], ◌∷◌, ◌++◌, arith, select, any}
use hookman.Store.Sql.{update_where}
use hookman.Store.Sql.Members.{any-append, any-update_where}
use hookman.Store.Integrity.{AreApart}

any-cong : {A : Type 0} (p q : A → Bool) (xs : List A) → ((x : A) → p x ≡ q x) → any p xs ≡ any q xs
any-cong p q [] h = refl
any-cong p q (x ∷ xs) h = ground (arith, h x, any-cong p q xs h)

module _ {A : Type 0} (clash : A → A → Bool) where
  pub AreApart-append :
      (xs : List A) (n : A)
      → any (λ x. clash x n) xs ≡ false
      → AreApart clash xs
      → AreApart clash (xs ++ n ∷ [])
  AreApart-append [] n h k = (refl, tt)
  AreApart-append (x ∷ xs) n h (k, ks) =
      (ground (arith, any-append (clash x) xs (n ∷ [])), AreApart-append xs n (ground arith) ks)

  pub AreApart-update_where :
      (p : A → Bool) (f : A → A) (xs : List A)
      → ((x y : A) → clash (f x) y ≡ clash x y)
      → ((x y : A) → clash x (f y) ≡ clash x y)
      → AreApart clash xs
      → AreApart clash (update_where p f xs)
  AreApart-update_where p f [] l r h = tt
  AreApart-update_where p f (x ∷ xs) l r (h, hs) = (
    ground (
      arith,
      any-update_where (clash x) p f xs (r x),
      any-update_where (clash (f x)) p f xs (r (f x)),
      any-cong (clash (f x)) (clash x) xs (l x),
    ),
    AreApart-update_where p f xs l r hs,
  )

  any-select-false : (p q : A → Bool) (xs : List A) → any p xs ≡ false → any p (select q xs) ≡ false
  any-select-false p q [] h = refl
  any-select-false p q (x ∷ xs) h = ground (arith, any-select-false p q xs)

  pub AreApart-select :
      (p : A → Bool) (xs : List A) → AreApart clash xs → AreApart clash (select p xs)
  AreApart-select p [] h = tt
  AreApart-select p (x ∷ xs) (h, hs) =
      ground (arith, any-select-false (clash x) p xs h, AreApart-select p xs hs)
