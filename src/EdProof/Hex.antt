-- ===== src/EdProof/Hex.antt =====
-- encoding/hex: `EncodeToString` and `DecodeString`.
use mailservice.Prelude.{
  ℕ, ◌+◌, ◌-◌, ◌*◌, ◌/◌, ◌%◌, ◌<◌, ◌≡◌, refl, ◌&&◌, Option, none, some, [], ◌∷◌, ⊤, arith, leb, ltb,
  if◌then◌else◌, Bytes,
}

-- The lower-case digit of a number below 16
unfoldable pub hex_digit : ℕ → ℕ
hex_digit n = if ltb n 10 then n + 48 else n + 87

-- The value of a digit, in either case
unfoldable pub hex_value : ℕ → Option ℕ
hex_value c =
    if leb 48 c && leb c 57
    then some (c - 48)
    else if leb 97 c && leb c 102
    then some (c - 87)
    else if leb 65 c && leb c 70
    then some (c - 55)
    else none

unfoldable pub hex_encode : Bytes → Bytes
hex_encode [] = []
hex_encode (b ∷ s) = hex_digit (b / 16) ∷ hex_digit (b % 16) ∷ hex_encode s

abbrev push_byte : Option ℕ → Option ℕ → Option Bytes → Option Bytes
push_byte (some hi) (some lo) (some rest) = some ((hi * 16 + lo) ∷ rest)
push_byte _ _ _ = none

-- An odd length or a foreign digit is an error.
unfoldable pub hex_decode : Bytes → Option Bytes
hex_decode [] = some []
hex_decode (c ∷ []) = none
hex_decode (c ∷ d ∷ s) = push_byte (hex_value c) (hex_value d) (hex_decode s)

-- Every element of the list is a byte.
abbrev pub AreBytes : Bytes → Type 0
AreBytes [] = ⊤
AreBytes (b ∷ s) = (b < 256) × AreBytes s

hex_value-hex_digit : (n : ℕ) → n < 16 → hex_value (hex_digit n) ≡ some n
unfolding hex_value hex_digit
hex_value-hex_digit n h = ground arith

-- What was encoded decodes to itself.
pub hex_decode-hex_encode : (s : Bytes) → AreBytes s → hex_decode (hex_encode s) ≡ some s
unfolding hex_decode hex_encode
hex_decode-hex_encode [] h = refl
hex_decode-hex_encode (b ∷ s) h =
    ground (
      arith,
      hex_value-hex_digit (b / 16),
      hex_value-hex_digit (b % 16),
      hex_decode-hex_encode s h.1,
    )
