-- ===== src/ObjectId/Printing.antt =====
-- Parsing what an object identifier prints as.
use manipulate.Prelude.{
  ℕ, zero, suc, ◌*◌, ◌/◌, ◌%◌, ◌<◌, ◌≡◌, refl, String, Bool, true, false, ◌&&◌, Option, none, some,
  List, [], ◌∷◌, arith, eqb, length, get_or, All,
}
use manipulate.ObjectId.{hex_digit, decode_hex, size, parse}
use Prim.Native.Char.{Char, code}

-- The digits of `Hex`, of the package bson.
abbrev digits : List Char
digits =
    "0" ∷ "1" ∷ "2" ∷ "3" ∷ "4" ∷ "5" ∷ "6" ∷ "7" ∷ "8" ∷ "9" ∷ "a" ∷ "b" ∷ "c" ∷ "d" ∷ "e" ∷ "f"
    ∷ []

unfoldable digit_char : ℕ → Char
digit_char n = get_or digits n "0"

-- Two digits for each byte.
unfoldable pub hex : List ℕ → String
unfolding digit_char
hex [] = String.[]
hex (b ∷ bytes) = String.◌∷◌ (digit_char (b / 16)) (String.◌∷◌ (digit_char (b % 16)) (hex bytes))

abbrev is_value : Option ℕ → ℕ → Bool
is_value none n = false
is_value (some m) n = eqb m n

is_read_back : ℕ → Bool
unfolding hex_digit digit_char
is_read_back d = is_value (hex_digit (code (digit_char d))) d

-- Whether every digit below the bound passes the test.
pass_under : (ℕ → Bool) → ℕ → Bool
pass_under test zero = true
pass_under test (suc bound) = pass_under test bound && test bound

test-pass_under :
    (test : ℕ → Bool) (bound d : ℕ) → d < bound → pass_under test bound ≡ true → test d ≡ true
unfolding pass_under
test-pass_under test zero d small passed = absurd (omega arith)
test-pass_under test (suc bound) d small passed = ground (arith, test-pass_under test bound d)

sixteen_digits : pass_under is_read_back 16 ≡ true
unfolding pass_under is_read_back
sixteen_digits = refl

value_of_test : (o : Option ℕ) (n : ℕ) → is_value o n ≡ true → o ≡ some n
value_of_test none n h = cc h
value_of_test (some m) n h = ground (arith, h)

hex_digit-digit_char : (n : ℕ) → n < 16 → hex_digit (code (digit_char n)) ≡ some n
unfolding is_read_back
hex_digit-digit_char n below =
    value_of_test _ n (test-pass_under is_read_back 16 n below sixteen_digits)

decode_hex-hex : (bytes : List ℕ) → All (λ b. b < 256) bytes → decode_hex (hex bytes) ≡ some bytes
unfolding decode_hex hex
decode_hex-hex [] h = refl
decode_hex-hex (b ∷ bytes) h =
    rw
      (
        hex_digit-digit_char (b / 16) (omega (arith, h.0)),
        hex_digit-digit_char (b % 16) (omega arith),
        decode_hex-hex bytes h.1,
      )
      (ground arith)

size-hex : (bytes : List ℕ) → size (hex bytes) ≡ 2 * length bytes
unfolding size hex
size-hex [] = omega arith
size-hex (b ∷ bytes) = omega (arith, size-hex bytes)

-- An identifier of twelve bytes is parsed from the text that it prints as.
pub parse-hex :
    (bytes : List ℕ) → length bytes ≡ 12 → All (λ b. b < 256) bytes → parse (hex bytes) ≡ some bytes
unfolding parse
parse-hex bytes twelve_bytes h =
    rw (size-hex bytes, twelve_bytes, decode_hex-hex bytes h) (ground (arith, twelve_bytes))
