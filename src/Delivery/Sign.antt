-- ===== src/Delivery/Sign.antt =====
-- internal/delivery/sign.go. HMAC-SHA256 is a parameter, from key and message to digest bytes;
-- the hexadecimal text is written out.
pub mod Verify
use Prim.Native.Char.{Char}
use Prim.Native.String
use Prim.Native.String.{[] as nil, ◌∷◌ as cons}
use hookman.Common.Text.{char_at}
use hookman.Common.{ℕ, zero, suc, ◌/◌, ◌%◌, String, Bool, List, [], ◌∷◌, ◌==◌}

abbrev pub hex_digit : ℕ → Char
hex_digit n = char_at "0123456789abcdef" n

-- hex.EncodeToString, two digits for a byte.
unfoldable pub encode_to_string : List ℕ → String
encode_to_string [] = ""
encode_to_string (b ∷ bs) =
    String.◌∷◌ (hex_digit (b / 16)) (String.◌∷◌ (hex_digit (b % 16)) (encode_to_string bs))

module _ (hmac : String → String → List ℕ) where
  unfoldable pub sign : String → String → String
  sign payload secret = String.◌++◌ "sha256=" (encode_to_string (hmac secret payload))

  -- hmac.Equal compares the bytes of both texts.
  unfoldable pub verify : String → String → String → Bool
  unfolding sign
  verify payload signature secret = sign payload secret == signature
