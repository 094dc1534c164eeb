-- ===== src/Common/Decimal.antt =====
-- strconv.Itoa of Go's standard library, and its agreement with strconv.Atoi.
use Prim.Native.Char.{Char, code}
use Prim.Native.String.{String}
use Prim.Native.Nat.{ℕ, zero, suc, ◌+◌, ◌/◌, ◌%◌, ◌^◌, ◌<◌}
use mathlib.Core.Path.{◌≡◌, refl, ap, ◌∙◌}
use mathlib.Core.Logic.{inl, inr}
use mathlib.Core.Bool.{true}
use mathlib.Core.Option.{some}
use mathlib.Core.List.{List, ◌∷◌}
use native.Mathlib.Omega.{arith}
use hookman.Common.Tests.{ltb, eqb, if◌then◌else◌, Bool-cases, test_of_passes, eqb→eq}
use hookman.Common.Int.{ℤ, pos, negsuc}
use hookman.Common.Text.{bytes, char_at}
use hookman.Common.Strconv.{is_digit, digits_from, digits, positive, negative, signed, atoi}

abbrev pub digit : ℕ → Char
digit n = char_at "0123456789" n

-- The digits of `n` in front of `out`; each round leaves a digit less.
unfoldable pub print_from : (fuel : ℕ) → ℕ → String → String
print_from zero n out = out
print_from (suc fuel) n out =
    let rest = print_from fuel (n / 10) (String.◌∷◌ (digit (n % 10)) out) in
    if ltb n 10 then String.◌∷◌ (digit n) out else rest

-- A number has no more digits than its successor's value.
unfoldable pub format_nat : ℕ → String
unfolding print_from
format_nat n = print_from (suc n) n ""

unfoldable pub itoa : ℤ → String
unfolding format_nat
itoa (pos n) = format_nat n
itoa (negsuc n) = String.◌∷◌ "-" (format_nat (suc n))

code-digit : (n : ℕ) → n < 10 → code (digit n) ≡ 48 + n
code-digit n h =
    eqb→eq _ _
      (test_of_passes 0 10 n (λ d. eqb (code (digit d)) (48 + d)) (omega arith) (omega arith) refl)

-- Reading the digits of a printed number gives the number back.
digits_from-print_from :
    (fuel n : ℕ) (out : String)
    → n < fuel
    → digits_from 0 (bytes (print_from fuel n out)) ≡ digits_from n (bytes out)
unfolding print_from
digits_from-print_from zero n out h = absurd (omega arith)
digits_from-print_from (suc fuel) n out h = elim (Bool-cases (ltb n 10)) [
  | inl e ↦ rw e (ground (arith, code-digit n (ground arith)))
  | inr e ↦ rw e (
      digits_from-print_from fuel (n / 10) (String.◌∷◌ (digit (n % 10)) out) (ground arith)
      ∙ ground (arith, code-digit (n % 10) (omega arith)))
]

abbrev StartsWithDigit : List ℕ → Type 0
StartsWithDigit s = (c : ℕ) × (cs : List ℕ) × (s ≡ c ∷ cs) × (is_digit c ≡ true)

print_from-StartsWithDigit :
    (fuel n : ℕ) (out : String) → n < fuel → StartsWithDigit (bytes (print_from fuel n out))
unfolding print_from
print_from-StartsWithDigit zero n out h = absurd (omega arith)
print_from-StartsWithDigit (suc fuel) n out h = elim (Bool-cases (ltb n 10)) [
  | inl e ↦ rw e (code (digit n), bytes out, refl, ground (arith, code-digit n (ground arith)))
  | inr e ↦
      rw e
        (print_from-StartsWithDigit fuel (n / 10) (String.◌∷◌ (digit (n % 10)) out) (ground arith))
]

digits-format_nat : (n : ℕ) → digits (bytes (format_nat n)) ≡ some n
unfolding format_nat
digits-format_nat n =
    let (c, cs, e, d) = print_from-StartsWithDigit (suc n) n "" (omega arith) in
    let read = digits_from-print_from (suc n) n "" (omega arith) in rw e (rw e at read)

signed-format_nat : (n : ℕ) → signed (bytes (format_nat n)) ≡ positive (some n)
unfolding format_nat
signed-format_nat n =
    let (c, cs, e, d) = print_from-StartsWithDigit (suc n) n "" (omega arith) in
    let read : digits (c ∷ cs) ≡ some n = rw e at (digits-format_nat n) in rw e (ground arith)

abbrev pub IsInt64 : ℤ → Type 0
IsInt64 (pos n) = n < 2 ^ 63
IsInt64 (negsuc n) = n < 2 ^ 63

-- Atoi reads a printed int back.
pub atoi-itoa : (z : ℤ) → IsInt64 z → atoi (itoa z) ≡ some z
unfolding atoi itoa
atoi-itoa (pos n) h = signed-format_nat n ∙ ground arith
atoi-itoa (negsuc n) h = ap negative (digits-format_nat (suc n)) ∙ ground arith
