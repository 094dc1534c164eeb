-- ===== src/Delivery/Sign/Verify.antt =====
-- What a signature proves, and its form.
use Prim.Native.Char.{code}
use Prim.Native.String
use text.Mathlib.TextLemmas.{
  append_cancel_left, cons-eq-cons, nil≢cons, cons≢nil, length-append, length-cons,
}
use hookman.Common.{
  ℕ, ◌+◌, ◌*◌, ◌/◌, ◌%◌, ◌<◌, String, true, List, [], ◌∷◌, ◌≡◌, ◌↔◌, refl, ap, sym, ◌∙◌, eq_iff,
  All, arith, eqb, ltb, if◌then◌else◌, length,
}
use hookman.Common.{passes, test_of_passes, eqb→eq}
use hookman.Delivery.Sign.{hex_digit, encode_to_string, sign, verify}

abbrev IsByte : ℕ → Type 0
IsByte b = b < 256

abbrev code_of_digit : ℕ → ℕ
code_of_digit n = if ltb n 10 then 48 + n else 87 + n

digit_table : passes 0 16 (λ n. eqb (code (hex_digit n)) (code_of_digit n)) ≡ true
digit_table = refl

code-hex_digit : (n : ℕ) → n < 16 → code (hex_digit n) ≡ code_of_digit n
code-hex_digit n h = eqb→eq _ _ (
    test_of_passes 0 16 n (λ d. eqb (code (hex_digit d)) (code_of_digit d)) (omega arith)
      (omega arith) digit_table)

code_of_digit_inj : (m n : ℕ) → m < 16 → n < 16 → code_of_digit m ≡ code_of_digit n → m ≡ n
code_of_digit_inj m n h k e = ground arith

hex_digit_inj : (m n : ℕ) → m < 16 → n < 16 → hex_digit m ≡ hex_digit n → m ≡ n
hex_digit_inj m n h k e =
    code_of_digit_inj m n h k (sym (code-hex_digit m h) ∙ ap code e ∙ code-hex_digit n k)

encode_to_string_inj :
    (xs ys : List ℕ)
    → All IsByte xs
    → All IsByte ys
    → encode_to_string xs ≡ encode_to_string ys
    → xs ≡ ys
unfolding encode_to_string
encode_to_string_inj [] [] h k e = refl
encode_to_string_inj [] (y ∷ ys) h k e = absurd (nil≢cons e)
encode_to_string_inj (x ∷ xs) [] h k e = absurd (cons≢nil e)
encode_to_string_inj (x ∷ xs) (y ∷ ys) (hx, h) (hy, k) e =
    let (hi, rest) = cons-eq-cons.0 e in
    let (lo, tails) = cons-eq-cons.0 rest in
    let same_hi = hex_digit_inj (x / 16) (y / 16) (omega arith) (omega arith) hi in
    let same_lo = hex_digit_inj (x % 16) (y % 16) (omega arith) (omega arith) lo in
    let same : x ≡ y = omega arith in cc (encode_to_string_inj xs ys h k tails)

module _ (hmac : String → String → List ℕ)
    (digest_bytes : (k m : String) → All IsByte (hmac k m)) where
  -- For an HMAC whose digests are bytes: the signature of one payload under one secret is accepted
  -- for another payload and secret exactly if both digests are the same.
  pub verify-sign_iff :
      (payload secret payload' secret' : String)
      → (verify hmac payload (sign hmac payload' secret') secret ≡ true)
        ↔ (hmac secret payload ≡ hmac secret' payload')
  unfolding verify
  verify-sign_iff payload secret payload' secret' = (
    λ e.
        encode_to_string_inj _ _ (digest_bytes secret payload) (digest_bytes secret' payload')
          (append_cancel_left "sha256=" _ _ ((eq_iff _ _).0 e)),
    λ e. (eq_iff _ _).1 (ap (λ d. String.◌++◌ "sha256=" (encode_to_string d)) e),
  )

count-encode_to_string : (bs : List ℕ) → String.count (encode_to_string bs) ≡ 2 * length bs
unfolding encode_to_string
count-encode_to_string [] = refl
count-encode_to_string (b ∷ bs) =
    rw (length-cons, length-cons) (omega (arith, count-encode_to_string bs))

-- A signature has the seven characters of its prefix and two for each byte of the digest.
count-sign :
    (hmac : String → String → List ℕ) (payload secret : String)
    → String.count (sign hmac payload secret) ≡ 7 + 2 * length (hmac secret payload)
unfolding sign
count-sign hmac payload secret =
    rw (length-append, count-encode_to_string (hmac secret payload)) refl
