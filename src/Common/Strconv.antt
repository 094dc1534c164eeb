-- ===== src/Common/Strconv.antt =====
-- strconv.Atoi and strconv.ParseBool of Go's standard library.
use hookman.Common.Tests.{ltb, leb, if◌then◌else◌}
use hookman.Common.Int.{ℤ, pos, negsuc}
use hookman.Common.Text.{bytes}
use Prim.Native.Nat.{ℕ, ◌+◌, ◌-◌, ◌*◌, ◌^◌}
use Prim.Native.String.{String}
use mathlib.Core.Bool.{Bool, true, false, ◌&&◌, ◌||◌}
use mathlib.Core.Option.{Option, none, some}
use mathlib.Core.List.{List, [], ◌∷◌}
use text.Mathlib.Text.{◌==◌}
use hookman.Common.Tests.{eqb}

abbrev pub is_digit : ℕ → Bool
is_digit c = leb b'0' c && leb c b'9'

-- The value of a run of digits after `acc`; `none` at any other byte.
abbrev pub digits_from : ℕ → List ℕ → Option ℕ
digits_from acc [] = some acc
digits_from acc (c ∷ cs) =
    let rest = digits_from (acc * 10 + (c - b'0')) cs in if is_digit c then rest else none

abbrev pub digits : List ℕ → Option ℕ
digits [] = none
digits (c ∷ cs) = digits_from 0 (c ∷ cs)

-- An int has 64 bits; a value out of range is an error.
abbrev pub positive : Option ℕ → Option ℤ
positive none = none
positive (some n) = if ltb n (2 ^ 63) then some (pos n) else none

abbrev pub negative : Option ℕ → Option ℤ
negative none = none
negative (some n) =
    if leb n (2 ^ 63) then some (if eqb n 0 then pos 0 else negsuc (n - 1)) else none

abbrev pub signed : List ℕ → Option ℤ
signed [] = none
signed (c ∷ cs) =
    if eqb c b'-'
    then negative (digits cs)
    else if eqb c b'+'
    then positive (digits cs)
    else positive (digits (c ∷ cs))

unfoldable pub atoi : String → Option ℤ
atoi s = signed (bytes s)

unfoldable pub parse_bool : String → Option Bool
parse_bool s =
    if s == "1" || s == "t" || s == "T" || s == "TRUE" || s == "true" || s == "True"
    then some true
    else if s == "0" || s == "f" || s == "F" || s == "FALSE" || s == "false" || s == "False"
    then some false
    else none
