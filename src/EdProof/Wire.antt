-- ===== src/EdProof/Wire.antt =====
-- challenge.go: the strings of the SSH wire format, a length of four bytes before the data.
pub mod RoundTrip
pub mod Fields
use mailservice.Prelude.{
  ℕ, ◌+◌, ◌*◌, ◌/◌, ◌%◌, ◌^◌, Option, none, some, [], ◌∷◌, ◌++◌, ltb, if◌then◌else◌, Bytes, length,
  take, drop,
}

abbrev pub u32_mod : ℕ
u32_mod = 2 ^ 32

-- binary.BigEndian.PutUint32 of uint32(n)
unfoldable pub put_u32 : ℕ → Bytes
put_u32 n = (n / 2 ^ 24 % 256) ∷ (n / 2 ^ 16 % 256) ∷ (n / 2 ^ 8 % 256) ∷ (n % 256) ∷ []

-- binary.BigEndian.Uint32 of the first four bytes; `none` where there are fewer
unfoldable pub get_u32 : Bytes → Option ℕ
get_u32 (a ∷ b ∷ c ∷ d ∷ rest) = some (a * 2 ^ 24 + b * 2 ^ 16 + c * 2 ^ 8 + d)
get_u32 _ = none

abbrev read_body : Option ℕ → Bytes → Option (Bytes × Bytes)
read_body none body = none
read_body (some n) body =
    if ltb (length body % u32_mod) n then none else some (take n body, drop n body)

-- readSSHString: the value and the rest
unfoldable pub read_ssh_string : Bytes → Option (Bytes × Bytes)
read_ssh_string data' = read_body (get_u32 data') (drop 4 data')

-- writeSSHString
unfoldable pub write_ssh_string : Bytes → Bytes
write_ssh_string value = put_u32 (length value) ++ value
