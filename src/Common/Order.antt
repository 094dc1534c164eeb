-- ===== src/Common/Order.antt =====
-- Strict orders with ties, as Boolean tests: the laws that sorting needs, and lexicographic order.
use mathlib.Core.Path.{◌≡◌}
use mathlib.Core.Bool.{Bool, true, false, not, ◌&&◌, ◌||◌}
use native.Mathlib.Omega.{arith}

-- `tie x y` says that neither comes before the other.
pub record IsOrder {ℓ} {A : Type ℓ} (lt tie : A → A → Bool) : Type ℓ where
  pub asymm : (x y : A) → lt x y ≡ true → lt y x ≡ false
  pub negtrans : (x y z : A) → lt y x ≡ false → lt z y ≡ false → lt z x ≡ false
  pub ties : (x y : A) → tie x y ≡ not (lt x y) && not (lt y x)

module _ {ℓ} {A : Type ℓ} where
  abbrev pub lex : (A → A → Bool) → (A → A → Bool) → (A → A → Bool) → A → A → Bool
  lex lt tie next x y = lt x y || (tie x y && next x y)

  abbrev pub both : (A → A → Bool) → (A → A → Bool) → A → A → Bool
  both tie tie' x y = tie x y && tie' x y

  module _ {lt tie lt' tie' : A → A → Bool} (o : IsOrder lt tie) (o' : IsOrder lt' tie') where
    lex-asymm : (x y : A) → lex lt tie lt' x y ≡ true → lex lt tie lt' y x ≡ false
    lex-asymm x y h = ground (arith, o.asymm x y, o.ties x y, o.ties y x, o'.asymm x y)

    lex-negtrans :
        (x y z : A)
        → lex lt tie lt' y x ≡ false
        → lex lt tie lt' z y ≡ false
        → lex lt tie lt' z x ≡ false
    lex-negtrans x y z h k = ground (
      arith,
      o.ties y x,
      o.ties z y,
      o.ties z x,
      o.negtrans x y z,
      o.negtrans z y x,
      o.negtrans y z x,
      o.negtrans z x y,
      o.asymm z x,
      o'.negtrans x y z,
    )

    lex-ties : (x y : A) → both tie tie' x y ≡ not (lex lt tie lt' x y) && not (lex lt tie lt' y x)
    lex-ties x y = ground (arith, o.ties x y, o.ties y x, o'.ties x y)

    pub lex-IsOrder : IsOrder (lex lt tie lt') (both tie tie')
    lex-IsOrder = record { asymm = lex-asymm; negtrans = lex-negtrans; ties = lex-ties }

  pub on-IsOrder {κ} :
      {B : Type κ} {lt tie : B → B → Bool} (f : A → B)
      → IsOrder lt tie
      → IsOrder (λ x y. lt (f x) (f y)) (λ x y. tie (f x) (f y))
  on-IsOrder f o = record {
    asymm = λ x y. o.asymm (f x) (f y);
    negtrans = λ x y z. o.negtrans (f x) (f y) (f z);
    ties = λ x y. o.ties (f x) (f y);
  }

  pub flip-IsOrder :
      {lt tie : A → A → Bool} → IsOrder lt tie → IsOrder (λ x y. lt y x) (λ x y. tie y x)
  flip-IsOrder o = record {
    asymm = λ x y. o.asymm y x;
    negtrans = λ x y z h k. o.negtrans z y x k h;
    ties = λ x y. o.ties y x;
  }
