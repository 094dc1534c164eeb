-- ===== src/Store/Sql.antt =====
-- What the statements of internal/store/queries use of SQL: ORDER BY, LIMIT (`take`), WHERE
-- (`select`), DISTINCT ON, UPDATE and COALESCE. Rows that an ORDER BY does not tell apart keep
-- their order in the table.
pub mod Members
pub mod Sorting
pub mod Distinct
pub mod Paging
use hookman.Common.{Bool, not, List, [], ◌∷◌, Option, none, some, if◌then◌else◌, select}

module _ {ℓ} {A : Type ℓ} (before : A → A → Bool) where
  unfoldable pub insert_sorted : A → List A → List A
  insert_sorted x [] = x ∷ []
  insert_sorted x (y ∷ ys) = if before y x then y ∷ insert_sorted x ys else x ∷ y ∷ ys

  -- ORDER BY: `before y x` says that y comes strictly before x.
  unfoldable pub order_by : List A → List A
  order_by [] = []
  order_by (x ∷ xs) = insert_sorted x (order_by xs)

module _ {ℓ} {A : Type ℓ} where
  -- DISTINCT ON over sorted rows: the first row of each run of rows with the same key.
  unfoldable pub distinct_from : (A → A → Bool) → A → List A → List A
  distinct_from same x [] = x ∷ []
  distinct_from same x (y ∷ ys) =
      let kept = distinct_from same x ys in
      let next = x ∷ distinct_from same y ys in if same x y then kept else next

  unfoldable pub distinct_on : (A → A → Bool) → List A → List A
  unfolding distinct_from
  distinct_on same [] = []
  distinct_on same (x ∷ xs) = distinct_from same x xs

  -- UPDATE … SET … WHERE
  abbrev pub update_where : (A → Bool) → (A → A) → List A → List A
  update_where p f [] = []
  update_where p f (x ∷ xs) = (if p x then f x else x) ∷ update_where p f xs

  -- DELETE … WHERE
  abbrev pub delete_where : (A → Bool) → List A → List A
  delete_where p = select (λ x. not (p x))

  abbrev pub coalesce : Option A → A → A
  coalesce none d = d
  coalesce (some a) d = a
