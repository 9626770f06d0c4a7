-- ===== src/Text/Runes.antt =====
-- Go's conversion of a string to runes and back, by the UTF-8 encoding.
use mailservice.Prelude.{
  ℕ, zero, suc, ◌+◌, ◌*◌, ◌≤◌, Bool, false, ◌&&◌, List, [], ◌∷◌, ◌++◌, leb, ltb, ◌==◌,
  if◌then◌else◌, Bytes, length, take, length-take-le_count, length-append, Bool-cases, inl, inr,
  arith,
}

abbrev is_between : ℕ → ℕ → ℕ → Bool
is_between low high c = leb low c && leb c high

-- The bytes that may stand second, behind the first byte `c` of a rune of more than two bytes
abbrev is_second : ℕ → ℕ → Bool
is_second c d =
    if c == 0xE0
    then is_between 0xA0 0xBF d
    else if c == 0xED
    then is_between 0x80 0x9F d
    else if c == 0xF0
    then is_between 0x90 0xBF d
    else if c == 0xF4
    then is_between 0x80 0x8F d
    else is_between 0x80 0xBF d

abbrev is_tail : ℕ → Bool
is_tail c = is_between 0x80 0xBF c

abbrev two_bytes : Bytes → Bool
two_bytes (c ∷ d ∷ s) = is_between 0xC2 0xDF c && is_tail d
two_bytes _ = false

abbrev three_bytes : Bytes → Bool
three_bytes (c ∷ d ∷ e ∷ s) = is_between 0xE0 0xEF c && is_second c d && is_tail e
three_bytes _ = false

abbrev four_bytes : Bytes → Bool
four_bytes (c ∷ d ∷ e ∷ f ∷ s) = is_between 0xF0 0xF4 c && is_second c d && is_tail e && is_tail f
four_bytes _ = false

-- utf8.DecodeRuneInString: how many bytes the first rune takes behind its first byte
unfoldable pub rune_tail : Bytes → ℕ
rune_tail s = if two_bytes s then 1 else if three_bytes s then 2 else if four_bytes s then 3 else 0

-- The first rune as it is encoded again: a byte that starts none is U+FFFD.
unfoldable pub first_rune : Bytes → Bytes
first_rune [] = []
first_rune (c ∷ s) =
    if ltb c 0x80
    then c ∷ []
    else if rune_tail (c ∷ s) == 0
    then 0xEF ∷ 0xBF ∷ 0xBD ∷ []
    else take (rune_tail (c ∷ s) + 1) (c ∷ s)

-- []rune(s), behind the bytes of the rune before; each rune as its encoding
unfoldable pub runes_behind : ℕ → Bytes → List Bytes
runes_behind k [] = []
runes_behind zero (c ∷ s) = first_rune (c ∷ s) ∷ runes_behind (rune_tail (c ∷ s)) s
runes_behind (suc k) (c ∷ s) = runes_behind k s

-- []rune(s)
abbrev pub runes : Bytes → List Bytes
runes s = runes_behind 0 s

-- string(runes)
unfoldable pub joined : List Bytes → Bytes
joined [] = []
joined (r ∷ rs) = r ++ joined rs

rune_tail-le : (s : Bytes) → rune_tail s ≤ 3
unfolding rune_tail
rune_tail-le s = elim (Bool-cases (two_bytes s)) [
  | inl two ↦ rw two (omega arith)
  | inr no2 ↦ elim (Bool-cases (three_bytes s)) [
    | inl three ↦ rw (no2, three) (omega arith)
    | inr no3 ↦ elim (Bool-cases (four_bytes s)) [
      | inl four ↦ rw (no2, no3, four) (omega arith)
      | inr no4 ↦ rw (no2, no3, no4) (omega arith)
    ]
  ]
]

length-first_rune : (s : Bytes) → length (first_rune s) ≤ 4
unfolding first_rune
length-first_rune [] = omega arith
length-first_rune (c ∷ s) = elim (Bool-cases (ltb c 0x80)) [
  | inl ascii ↦ rw ascii (omega arith)
  | inr more ↦ elim (Bool-cases (rune_tail (c ∷ s) == 0)) [
    | inl bad ↦ rw (more, bad) (omega arith)
    | inr good ↦
        rw (more, good)
          (omega
            (arith, length-take-le_count (rune_tail (c ∷ s) + 1) (c ∷ s), rune_tail-le (c ∷ s)))
  ]
]

length-runes_behind : (k : ℕ) (s : Bytes) → length s ≤ k + 4 * length (runes_behind k s)
unfolding runes_behind
length-runes_behind k [] = omega arith
length-runes_behind zero (c ∷ s) =
    omega (arith, length-runes_behind (rune_tail (c ∷ s)) s, rune_tail-le (c ∷ s))
length-runes_behind (suc k) (c ∷ s) = omega (arith, length-runes_behind k s)

-- A text is no longer than four bytes for each of its runes.
pub length-runes : (s : Bytes) → length s ≤ 4 * length (runes s)
length-runes s = omega (arith, length-runes_behind 0 s)

-- Nor are the first `n` runes.
pub length-joined : (n k : ℕ) (s : Bytes) → length (joined (take n (runes_behind k s))) ≤ 4 * n
unfolding joined runes_behind
length-joined zero k s = omega arith
length-joined (suc n) k [] = omega arith
length-joined (suc n) zero (c ∷ s) =
    let r = first_rune (c ∷ s) in
    let rest = joined (take n (runes_behind (rune_tail (c ∷ s)) s)) in
    omega (
      arith,
      length-append r rest,
      length-first_rune (c ∷ s),
      length-joined n (rune_tail (c ∷ s)) s,
    )
length-joined (suc n) (suc k) (c ∷ s) = length-joined (suc n) k s
