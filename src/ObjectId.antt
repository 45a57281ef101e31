-- ===== src/ObjectId.antt =====
-- internal/objectid/objectid.go: `Parse`, with what it calls of encoding/hex. An identifier is the
-- list of its bytes.
pub mod Printing
use manipulate.Prelude.{
  ℕ, ◌+◌, ◌-◌, ◌*◌, String, Bool, ◌&&◌, Option, none, some, List, [], ◌∷◌, if◌then◌else◌, leb, eqb,
  length,
}
use Prim.Native.Char.{code}

-- The value of a hexadecimal digit, by its code.
unfoldable pub hex_digit : ℕ → Option ℕ
hex_digit c =
    if leb b'0' c && leb c b'9'
    then some (c - b'0')
    else if leb b'a' c && leb c b'f'
    then some (c - b'a' + 10)
    else if leb b'A' c && leb c b'F'
    then some (c - b'A' + 10)
    else none

abbrev byte_of : Option ℕ → Option ℕ → Option (List ℕ) → Option (List ℕ)
byte_of (some high) (some low) (some bytes) = some ((high * 16 + low) ∷ bytes)
byte_of _ _ _ = none

-- hex.DecodeString, where an odd length is an error.
unfoldable pub decode_hex : String → Option (List ℕ)
unfolding hex_digit
decode_hex String.[] = some []
decode_hex (String.◌∷◌ c String.[]) = none
decode_hex (String.◌∷◌ c (String.◌∷◌ d s)) =
    byte_of (hex_digit (code c)) (hex_digit (code d)) (decode_hex s)

-- len(s), for ASCII text.
unfoldable pub size : String → ℕ
size String.[] = 0
size (String.◌∷◌ c s) = size s + 1

abbrev pub twelve : Option (List ℕ) → Option (List ℕ)
twelve none = none
twelve (some bytes) = if eqb (length bytes) 12 then some bytes else none

unfoldable pub parse : String → Option (List ℕ)
unfolding decode_hex size
parse s = if eqb (size s) 24 then twelve (decode_hex s) else none
