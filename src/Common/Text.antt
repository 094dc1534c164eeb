-- ===== src/Common/Text.antt =====
-- Texts as bytes, and the order of texts by code points, as ORDER BY and `<` on TEXT columns use it.
use Prim.Native.Char.{Char, code}
use Prim.Native.String.{String}
use Prim.Native.Nat.{ℕ, zero, suc}
use mathlib.Core.List.{List, [], ◌∷◌}
use mathlib.Core.Path.{◌≡◌, refl, ap₂}
use mathlib.Core.Bool.{Bool, true, false, not, ◌&&◌, ◌||◌}
use native.Mathlib.Omega.{arith}
use text.Mathlib.Text.{◌==◌}
use text.Mathlib.TextEquality.{eq_iff, Char-path}
use hookman.Common.Tests.{ltb, eqb}
use hookman.Common.Order.{IsOrder}

-- The bytes of an ASCII text.
abbrev pub bytes : String → List ℕ
bytes String.[] = []
bytes (String.◌∷◌ c s) = code c ∷ bytes s

-- The character at an index of a text; the caller keeps the index inside.
abbrev pub char_at : String → ℕ → Char
char_at String.[] i = "0"
char_at (String.◌∷◌ c s) zero = c
char_at (String.◌∷◌ c s) (suc i) = char_at s i

unfoldable pub text_ltb : String → String → Bool
text_ltb String.[] String.[] = false
text_ltb String.[] (String.◌∷◌ d t) = true
text_ltb (String.◌∷◌ c s) String.[] = false
text_ltb (String.◌∷◌ c s) (String.◌∷◌ d t) =
    ltb (code c) (code d) || (eqb (code c) (code d) && text_ltb s t)

text_ltb_asymm : (s t : String) → text_ltb s t ≡ true → text_ltb t s ≡ false
unfolding text_ltb
text_ltb_asymm String.[] String.[] h = refl
text_ltb_asymm String.[] (String.◌∷◌ d t) h = refl
text_ltb_asymm (String.◌∷◌ c s) String.[] h = cc
text_ltb_asymm (String.◌∷◌ c s) (String.◌∷◌ d t) h = ground (arith, text_ltb_asymm s t)

text_ltb_negtrans :
    (s t u : String) → text_ltb t s ≡ false → text_ltb u t ≡ false → text_ltb u s ≡ false
unfolding text_ltb
text_ltb_negtrans s t String.[] h k = empty s t h k
  where
    empty : (s t : String) → text_ltb t s ≡ false → text_ltb "" t ≡ false → text_ltb "" s ≡ false
    empty String.[] t h k = refl
    empty (String.◌∷◌ c s) String.[] h k = h
    empty (String.◌∷◌ c s) (String.◌∷◌ d t) h k = cc
text_ltb_negtrans String.[] t (String.◌∷◌ e u) h k = refl
text_ltb_negtrans (String.◌∷◌ c s) String.[] (String.◌∷◌ e u) h k = cc
text_ltb_negtrans (String.◌∷◌ c s) (String.◌∷◌ d t) (String.◌∷◌ e u) h k =
    ground (arith, text_ltb_negtrans s t u)

text_total : (s t : String) → text_ltb s t ≡ false → text_ltb t s ≡ false → s ≡ t
unfolding text_ltb
text_total String.[] String.[] h k = refl
text_total String.[] (String.◌∷◌ d t) h k = cc
text_total (String.◌∷◌ c s) String.[] h k = cc
text_total (String.◌∷◌ c s) (String.◌∷◌ d t) h k =
    ap₂ String.◌∷◌ (Char-path c d (ground arith)) (text_total s t (ground arith) (ground arith))

text_ltb_irrefl : (s : String) → text_ltb s s ≡ false
text_ltb_irrefl s = ground (arith, text_ltb_asymm s s)

text_ties : (s t : String) → (s == t) ≡ not (text_ltb s t) && not (text_ltb t s)
text_ties s t = ground (arith, eq_iff s t, text_total s t, text_ltb_irrefl s)

pub text-IsOrder : IsOrder text_ltb ◌==◌
text-IsOrder = record { asymm = text_ltb_asymm; negtrans = text_ltb_negtrans; ties = text_ties }
