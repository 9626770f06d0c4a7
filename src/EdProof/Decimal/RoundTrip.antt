-- ===== src/EdProof/Decimal/RoundTrip.antt =====
-- `ParseInt` reads what `FormatInt` wrote.
use mailservice.Prelude.{
  ℕ, zero, suc, ◌+◌, ◌-◌, ◌*◌, ◌/◌, ◌%◌, ◌^◌, ◌<◌, ◌≤◌, ◌≡◌, ◌≢◌, refl, some, [], ◌∷◌, ◌++◌, arith,
  ltb, ⊤, Bytes, Bool-cases, inl, inr, ap, ◌∙◌, sym,
}
use mailservice.EdProof.Decimal.{
  nonneg, format_digits, format_int, parse_digits, parse_uint, parse_int,
}

-- No element of the text is `sep`.
abbrev pub Lacks : ℕ → Bytes → Type 0
Lacks sep [] = ⊤
Lacks sep (c ∷ s) = (c ≢ sep) × Lacks sep s

pub Lacks-append : (sep : ℕ) (s t : Bytes) → Lacks sep s → Lacks sep t → Lacks sep (s ++ t)
Lacks-append sep [] t hs ht = ht
Lacks-append sep (c ∷ s) t hs ht = (hs.0, Lacks-append sep s t hs.1 ht)

digit-ne : (n sep : ℕ) → n < 10 → sep < 48 → 48 + n ≢ sep
digit-ne n sep h k = omega arith

-- A decimal has no byte below '0'.
pub format_digits-Lacks : (fuel n sep : ℕ) → sep < 48 → Lacks sep (format_digits fuel n)
unfolding format_digits
format_digits-Lacks zero n sep h = tt
format_digits-Lacks (suc fuel) n sep h = elim (Bool-cases (ltb n 10)) [
  | inl small ↦ rw small (digit-ne n sep (ground arith) h, tt)
  | inr large ↦ rw large (
      Lacks-append sep (format_digits fuel (n / 10)) ((48 + n % 10) ∷ [])
        (format_digits-Lacks fuel (n / 10) sep h) (digit-ne (n % 10) sep (omega arith) h, tt))
]

-- One more digit behind digits that read as `m`
parse_digits-append :
    (s : Bytes) (acc m d : ℕ)
    → d < 10
    → parse_digits acc s ≡ some m
    → parse_digits acc (s ++ (48 + d) ∷ []) ≡ some (m * 10 + d)
unfolding parse_digits
parse_digits-append [] acc m d h e = ground arith
parse_digits-append (c ∷ s) acc m d h e =
    ground (arith, parse_digits-append s (acc * 10 + (c - 48)) m d)

-- Enough fuel gives the number back.
parse-format_digits : (fuel n : ℕ) → n < fuel → parse_digits 0 (format_digits fuel n) ≡ some n
unfolding format_digits
parse-format_digits zero n h = elim h [ ]
parse-format_digits (suc fuel) n h = elim (Bool-cases (ltb n 10)) [
  | inl small ↦ rw small (unfold parse_digits in ground arith)
  | inr large ↦ rw large (
      parse_digits-append (format_digits fuel (n / 10)) 0 (n / 10) (n % 10) (omega arith)
        (parse-format_digits fuel (n / 10) (ground arith))
      ∙ ap some (omega arith))
]

-- A decimal begins with a digit.
format_digits-head :
    (fuel n : ℕ) → n < fuel → (c : ℕ) × (s : Bytes) × (format_digits fuel n ≡ c ∷ s) × (48 ≤ c)
unfolding format_digits
format_digits-head zero n h = elim h [ ]
format_digits-head (suc fuel) n h = elim (Bool-cases (ltb n 10)) [
  | inl small ↦ (48 + n, [], rw small refl, omega arith)
  | inr large ↦
      let (c, s, e, at) = format_digits-head fuel (n / 10) (ground arith) in
      (c, s ++ (48 + n % 10) ∷ [], rw large (rw e refl), at)
]

parse_int_of_digits :
    (c : ℕ) (s : Bytes) (n : ℕ)
    → 48 ≤ c
    → parse_digits 0 (c ∷ s) ≡ some n
    → n < 2 ^ 63
    → parse_int (c ∷ s) ≡ some (nonneg n)
unfolding parse_int parse_uint
parse_int_of_digits c s n at e h = ground arith

-- An `int64` that is not negative survives printing and parsing.
pub parse_int-format_int : (n : ℕ) → n < 2 ^ 63 → parse_int (format_int n) ≡ some (nonneg n)
unfolding format_int
parse_int-format_int n h =
    let (c, s, e, at) = format_digits-head (suc n) n (omega arith) in
    rw e (parse_int_of_digits c s n at (rw (sym e) (parse-format_digits (suc n) n (omega arith))) h)
