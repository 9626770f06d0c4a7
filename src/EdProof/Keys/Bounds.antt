-- ===== src/EdProof/Keys/Bounds.antt =====
-- Where the wire parser of public keys panics: its sums are `uint32`, so the length of the key type
-- can wrap around past the guard.
use native.Mathlib.Decide.{dec_le}
use mailservice.Prelude.{
  Option-cases, ◌^◌, ℕ, ◌+◌, ◌-◌, ◌%◌, ◌<◌, ◌≤◌, ◌≡◌, ◌≢◌, ◌↔◌, some, arith, Bytes, length, take,
  drop, length-take-le, length-drop-le, inl, inr,
}
use mailservice.Ports.{err, panicked}
use mailservice.EdProof.Wire.{u32_mod, get_u32}
use mailservice.EdProof.Keys.{Crypto, slice, extract_key_data, extract_key_wire}

-- Keys come in requests, far below this size.
abbrev pub max_blob : ℕ
max_blob = 2 ^ 31

-- `blob[lo:]`
abbrev tail_from : ℕ → Bytes → Bytes
tail_from lo blob = take (length blob - lo) (drop lo blob)

length-tail_from : (lo : ℕ) (blob : Bytes) → length (tail_from lo blob) ≤ length blob
length-tail_from lo blob =
    omega (arith, length-take-le (length blob - lo) (drop lo blob), length-drop-le lo blob)

module _ (crypto : Crypto) where
  data_in_bounds :
      (rest : Bytes) → length rest < max_blob → extract_key_data crypto rest ≢ err panicked
  unfolding extract_key_data slice
  data_in_bounds rest h p = elim (Option-cases (get_u32 rest)) [
    | inl e ↦ ground arith
    | inr (n, e) ↦ ground arith
  ]

  wire_wraps :
      (blob : Bytes) (n : ℕ)
      → get_u32 blob ≡ some n
      → length blob < max_blob
      → n < u32_mod
      → u32_mod ≤ n + 8
      → n + 8 - u32_mod ≤ length blob
      → extract_key_wire crypto blob ≡ err panicked
  unfolding extract_key_wire slice
  wire_wraps blob n e h k wraps short = ground arith

  -- With no wrap-around all slices lie in bounds.
  wire_in_bounds :
      (blob : Bytes) (n : ℕ)
      → get_u32 blob ≡ some n
      → length blob < max_blob
      → n + 8 < u32_mod
      → extract_key_wire crypto blob ≢ err panicked
  unfolding extract_key_wire slice
  wire_in_bounds blob n e h k p =
      let lo = (4 + n) % u32_mod in
      ground (arith, length-tail_from lo blob, data_in_bounds (tail_from lo blob))

  wire_too_short :
      (blob : Bytes) (n : ℕ)
      → get_u32 blob ≡ some n
      → n < u32_mod
      → u32_mod ≤ n + 8
      → length blob < n + 8 - u32_mod
      → extract_key_wire crypto blob ≢ err panicked
  unfolding extract_key_wire
  wire_too_short blob n e k wraps short p = ground arith

  -- The length of the key type is such that `4 + typeLen + 4` wraps around to at most the size.
  abbrev pub Wraps : Bytes → ℕ → Type 0
  Wraps blob n = (u32_mod ≤ n + 8) × (n + 8 - u32_mod ≤ length blob)

  panic_only_if_Wraps :
      (blob : Bytes) (n : ℕ)
      → get_u32 blob ≡ some n
      → length blob < max_blob
      → n < u32_mod
      → extract_key_wire crypto blob ≡ err panicked
      → Wraps blob n
  panic_only_if_Wraps blob n e h k p = elim (dec_le u32_mod (n + 8)) [
    | no below ↦ absurd (wire_in_bounds blob n e h (omega arith) p)
    | yes wraps ↦ elim (dec_le (n + 8 - u32_mod) (length blob)) [
      | no short ↦ absurd (wire_too_short blob n e k wraps (omega arith) p)
      | yes long ↦ (wraps, long)
    ]
  ]

  -- The parser of a key blob below 2 GB panics exactly if the length of its key type is so large
  -- that the guard's `uint32` sum wraps around to at most the size of the blob.
  pub extract_key_wire_panics :
      (blob : Bytes) (n : ℕ)
      → get_u32 blob ≡ some n
      → length blob < max_blob
      → n < u32_mod
      → (extract_key_wire crypto blob ≡ err panicked) ↔ Wraps blob n
  extract_key_wire_panics blob n e h k =
      (panic_only_if_Wraps blob n e h k, λ w. wire_wraps blob n e h k w.0 w.1)
