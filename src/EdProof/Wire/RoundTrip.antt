-- ===== src/EdProof/Wire/RoundTrip.antt =====
-- What `writeSSHString` writes, `readSSHString` reads back, whatever follows.
use mailservice.Prelude.{
  ℕ, ◌%◌, ◌<◌, ◌≡◌, refl, some, ◌++◌, arith, ltb, Bytes, false, length, length-append, take-append,
  drop, drop-append,
}
use mathlib.Core.List.{append_assoc}
use mailservice.EdProof.Wire.{u32_mod, put_u32, get_u32, read_ssh_string, write_ssh_string}

pub get_u32-put_u32 : (n : ℕ) (rest : Bytes) → n < u32_mod → get_u32 (put_u32 n ++ rest) ≡ some n
unfolding get_u32 put_u32
get_u32-put_u32 n rest h = ground arith

fits :
    (v rest : Bytes)
    → length (v ++ rest) < u32_mod
    → ltb (length (v ++ rest) % u32_mod) (length v) ≡ false
fits v rest h = ground (arith, length-append v rest)

drop-put_u32 : (n : ℕ) (rest : Bytes) → drop 4 (put_u32 n ++ rest) ≡ rest
unfolding put_u32
drop-put_u32 n rest = refl

-- A value that was written is read back together with all that follows it, below 4 GB.
pub read-write :
    (v rest : Bytes)
    → length (v ++ rest) < u32_mod
    → read_ssh_string (write_ssh_string v ++ rest) ≡ some (v, rest)
unfolding read_ssh_string write_ssh_string
read-write v rest h = rw (append_assoc (put_u32 (length v)) v rest) (
    rw (get_u32-put_u32 (length v) (v ++ rest) (omega (arith, length-append v rest))) (
      rw (drop-put_u32 (length v) (v ++ rest))
        (rw (fits v rest h, take-append v rest, drop-append v rest))))
