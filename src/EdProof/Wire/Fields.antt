-- ===== src/EdProof/Wire/Fields.antt =====
-- What `readSSHString` has read stands at the start of its input.
use mailservice.Prelude.{
  ℕ, zero, suc, ◌+◌, ◌*◌, ◌^◌, ◌%◌, ◌≤◌, ◌≡◌, refl, sym, ap, ◌∙◌, some, [], ◌∷◌, ◌++◌, ltb, false,
  Bool-cases, inl, inr, arith, Bytes, length, take, drop,
}
use mailservice.EdProof.Wire.{u32_mod, get_u32, read_ssh_string}

-- One string of the SSH wire format at the start of `s`: four bytes of length, the value, the rest
pub record Field (s value rest : Bytes) : Type 0 where
  pub a : ℕ
  pub b : ℕ
  pub c : ℕ
  pub d : ℕ
  pub laid : s ≡ a ∷ b ∷ c ∷ d ∷ (value ++ rest)
  pub size : length value ≡ a * 2 ^ 24 + b * 2 ^ 16 + c * 2 ^ 8 + d

take-drop : (n : ℕ) (s : Bytes) → take n s ++ drop n s ≡ s
take-drop zero s = refl
take-drop (suc n) [] = refl
take-drop (suc n) (c ∷ s) = ap (λ t. c ∷ t) (take-drop n s)

length-take : (n : ℕ) (s : Bytes) → n ≤ length s → length (take n s) ≡ n
length-take zero s h = refl
length-take (suc n) [] h = absurd (omega (arith, h))
length-take (suc n) (c ∷ s) h = omega (arith, length-take n s (omega (arith, h)))

long_enough : (m n : ℕ) → ltb (m % u32_mod) n ≡ false → n ≤ m
long_enough m n h = ground (arith, h)

pub read_ssh_string-Field :
    (s value rest : Bytes) → read_ssh_string s ≡ some (value, rest) → Field s value rest
unfolding read_ssh_string get_u32
read_ssh_string-Field [] value rest h = absurd (cc h)
read_ssh_string-Field (a ∷ []) value rest h = absurd (cc h)
read_ssh_string-Field (a ∷ b ∷ []) value rest h = absurd (cc h)
read_ssh_string-Field (a ∷ b ∷ c ∷ []) value rest h = absurd (cc h)
read_ssh_string-Field (a ∷ b ∷ c ∷ d ∷ body) value rest h =
    let n = a * 2 ^ 24 + b * 2 ^ 16 + c * 2 ^ 8 + d in
    elim (Bool-cases (ltb (length body % u32_mod) n)) [
      | inl short ↦ absurd (cc (rw short at h))
      | inr long ↦
          let same : (take n body, drop n body) ≡ (value, rest) = cc (rw long at h) in
          let v : take n body ≡ value = ap (λ (x : Bytes × Bytes). x.0) same in
          let r : drop n body ≡ rest = ap (λ (x : Bytes × Bytes). x.1) same in
          record {
            a = a;
            b = b;
            c = c;
            d = d;
            laid = ap (λ t. a ∷ b ∷ c ∷ d ∷ t) (sym (take-drop n body) ∙ ap (λ x. x.0 ++ x.1) same);
            size = sym (ap length v) ∙ length-take n body (long_enough (length body) n long);
          }
    ]
