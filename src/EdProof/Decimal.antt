-- ===== src/EdProof/Decimal.antt =====
-- strconv: `FormatInt` of a number that is not negative, and `ParseInt` in base 10 for 64 bits.
pub mod RoundTrip
use mailservice.Prelude.{
  ℕ, zero, suc, ◌+◌, ◌-◌, ◌*◌, ◌/◌, ◌%◌, ◌^◌, ◌&&◌, Option, none, some, [], ◌∷◌, ◌++◌, leb, ltb,
  ◌==◌, if◌then◌else◌, Bytes,
}

-- An `int64`, by its sign and its size
pub data Int64 : Type 0 where
  nonneg negative : ℕ → Int64

-- The digits, with fuel for each of them
unfoldable pub format_digits : ℕ → ℕ → Bytes
format_digits zero n = []
format_digits (suc fuel) n =
    let more = format_digits fuel (n / 10) ++ (48 + n % 10) ∷ [] in
    if ltb n 10 then (48 + n) ∷ [] else more

-- strconv.FormatInt(n, 10)
unfoldable pub format_int : ℕ → Bytes
format_int n = format_digits (suc n) n

-- The number behind the digits read so far
unfoldable pub parse_digits : ℕ → Bytes → Option ℕ
parse_digits acc [] = some acc
parse_digits acc (c ∷ s) =
    let more = parse_digits (acc * 10 + (c - 48)) s in if leb 48 c && leb c 57 then more else none

-- At least one digit
unfoldable pub parse_uint : Bytes → Option ℕ
parse_uint [] = none
parse_uint (c ∷ s) = parse_digits 0 (c ∷ s)

abbrev below : ℕ → Option ℕ → Option ℕ
below limit none = none
below limit (some n) = if ltb n limit then some n else none

abbrev as_nonneg : Option ℕ → Option Int64
as_nonneg none = none
as_nonneg (some n) = some (nonneg n)

abbrev as_negative : Option ℕ → Option Int64
as_negative none = none
as_negative (some n) = some (negative n)

-- strconv.ParseInt(s, 10, 64); an error is `none`.
unfoldable pub parse_int : Bytes → Option Int64
parse_int [] = none
parse_int (c ∷ s) =
    if c == b'-'
    then as_negative (below (2 ^ 63 + 1) (parse_uint s))
    else if c == b'+'
    then as_nonneg (below (2 ^ 63) (parse_uint s))
    else as_nonneg (below (2 ^ 63) (parse_uint (c ∷ s)))
