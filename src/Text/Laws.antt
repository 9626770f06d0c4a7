-- ===== src/Text/Laws.antt =====
-- Laws of the text functions: normalising twice is normalising once.
use mailservice.Prelude.{
  ℕ, ◌≡◌, refl, ap, ◌∙◌, true, false, inl, inr, [], ◌∷◌, ◌++◌, arith, Bytes, Bool-cases, ==_iff,
  length, drop,
}
use mailservice.Text.{
  lower, to_lower, is_space, trim_left, keep_right, trim_right, trim_space, normalize, has_prefix,
}

lower-lower : (c : ℕ) → lower (lower c) ≡ lower c
unfolding lower
lower-lower c = ground arith

pub to_lower_idem : (s : Bytes) → to_lower (to_lower s) ≡ to_lower s
unfolding to_lower
to_lower_idem [] = refl
to_lower_idem (c ∷ s) = cc (lower-lower c, to_lower_idem s)

is_space-lower : (c : ℕ) → is_space (lower c) ≡ is_space c
unfolding is_space lower
is_space-lower c = ground arith

to_lower-trim_left : (s : Bytes) → to_lower (trim_left s) ≡ trim_left (to_lower s)
unfolding to_lower trim_left
to_lower-trim_left [] = refl
to_lower-trim_left (c ∷ s) = elim (Bool-cases (is_space c)) [
  | inl blank ↦ rw (is_space-lower c, blank) (to_lower-trim_left s)
  | inr shown ↦ rw (is_space-lower c, shown) refl
]

to_lower-keep_right :
    (c : ℕ) (t : Bytes) → to_lower (keep_right c t) ≡ keep_right (lower c) (to_lower t)
unfolding to_lower
to_lower-keep_right c [] = elim (Bool-cases (is_space c)) [
  | inl blank ↦ rw (is_space-lower c, blank) refl
  | inr shown ↦ rw (is_space-lower c, shown) refl
]
to_lower-keep_right c (d ∷ t) = refl

to_lower-trim_right : (s : Bytes) → to_lower (trim_right s) ≡ trim_right (to_lower s)
unfolding to_lower trim_right
to_lower-trim_right [] = refl
to_lower-trim_right (c ∷ s) =
    to_lower-keep_right c (trim_right s) ∙ ap (keep_right (lower c)) (to_lower-trim_right s)

trim_right-keep_right :
    (c : ℕ) (t : Bytes) → trim_right t ≡ t → trim_right (keep_right c t) ≡ keep_right c t
unfolding trim_right
trim_right-keep_right c [] h = elim (Bool-cases (is_space c)) [
  | inl blank ↦ rw blank refl
  | inr shown ↦ rw shown (simp shown refl)
]
trim_right-keep_right c (d ∷ t) h = ap (keep_right c) h

trim_right_idem : (s : Bytes) → trim_right (trim_right s) ≡ trim_right s
unfolding trim_right
trim_right_idem [] = refl
trim_right_idem (c ∷ s) = trim_right-keep_right c (trim_right s) (trim_right_idem s)

trim_left_idem : (s : Bytes) → trim_left (trim_left s) ≡ trim_left s
unfolding trim_left
trim_left_idem [] = refl
trim_left_idem (c ∷ s) = elim (Bool-cases (is_space c)) [
  | inl blank ↦ rw blank (trim_left_idem s)
  | inr shown ↦ rw shown (simp shown refl)
]

-- A text that starts with no space still does when its end is trimmed.
trim_left-keep_right :
    (c : ℕ) (t : Bytes) → is_space c ≡ false → trim_left (keep_right c t) ≡ keep_right c t
unfolding trim_left
trim_left-keep_right c [] h = simp h refl
trim_left-keep_right c (d ∷ t) h = simp h refl

trim_left_blank : (c : ℕ) (s : Bytes) → is_space c ≡ true → trim_left (c ∷ s) ≡ trim_left s
unfolding trim_left
trim_left_blank c s h = rw h refl

trim_left_shown : (c : ℕ) (s : Bytes) → is_space c ≡ false → trim_left (c ∷ s) ≡ c ∷ s
unfolding trim_left
trim_left_shown c s h = rw h refl

trim_right_cons : (c : ℕ) (s : Bytes) → trim_right (c ∷ s) ≡ keep_right c (trim_right s)
unfolding trim_right
trim_right_cons c s = refl

trim_left-trim_right : (s : Bytes) → trim_left (trim_right (trim_left s)) ≡ trim_right (trim_left s)
trim_left-trim_right [] = unfold trim_left trim_right in refl
trim_left-trim_right (c ∷ s) = elim (Bool-cases (is_space c)) [
  | inl blank ↦ rw (trim_left_blank c s blank) (trim_left-trim_right s)
  | inr shown ↦
      rw (trim_left_shown c s shown)
        (rw (trim_right_cons c s) (trim_left-keep_right c (trim_right s) shown))
]

to_lower-trim_space :
    (s : Bytes) → to_lower (trim_right (trim_left s)) ≡ trim_right (trim_left (to_lower s))
to_lower-trim_space s = to_lower-trim_right (trim_left s) ∙ ap trim_right (to_lower-trim_left s)

pub trim_space_idem : (s : Bytes) → trim_space (trim_space s) ≡ trim_space s
unfolding trim_space
trim_space_idem s = ap trim_right (trim_left-trim_right s) ∙ trim_right_idem (trim_left s)

pub normalize_idem : (s : Bytes) → normalize (normalize s) ≡ normalize s
unfolding normalize trim_space
normalize_idem s =
    ap (λ t. trim_right (trim_left t))
      (to_lower-trim_space (to_lower s) ∙ ap (λ t. trim_right (trim_left t)) (to_lower_idem s))
    ∙ trim_space_idem (to_lower s)

to_lower_nil : (s : Bytes) → to_lower s ≡ [] → s ≡ []
unfolding to_lower
to_lower_nil [] h = refl
to_lower_nil (c ∷ s) h = absurd (cc h)

-- A text that is nothing in its normal form is blank.
pub normalize_nil : (s : Bytes) → normalize s ≡ [] → trim_space s ≡ []
unfolding normalize trim_space
normalize_nil s h = to_lower_nil (trim_right (trim_left s)) (to_lower-trim_space s ∙ h)

-- A text that starts with `p` is `p` and the rest.
pub has_prefix-drop : (s p : Bytes) → has_prefix s p ≡ true → s ≡ p ++ drop (length p) s
unfolding has_prefix
has_prefix-drop s [] h = refl
has_prefix-drop [] (y ∷ p) h = absurd (ground arith)
has_prefix-drop (x ∷ s) (y ∷ p) h =
    let same : x ≡ y = (==_iff x y).0 (ground arith) in
    let rest : s ≡ p ++ drop (length p) s = has_prefix-drop s p (ground arith) in
    ap (λ t. x ∷ t) rest ∙ ap (λ c. c ∷ p ++ drop (length p) s) same
