-- ===== src/Prelude/Sort.antt =====
-- Sorting a list by a strict order. The lemmas hold of any order that is total on the elements.
use mathlib.Core.Path.{◌≡◌}
use mathlib.Core.Logic.{inl, inr}
use mathlib.Core.Bool.{Bool, true, false}
use mathlib.Core.List.{List, [], ◌∷◌, Perm}
use mathlib.Core.List.Perm
use mailservice.Prelude.Tests.{⊤, if◌then◌else◌, Bool-cases}

module _ {ℓ} {A : Type ℓ} (before : A → A → Bool) where
  unfoldable pub insert_by : A → List A → List A
  insert_by x [] = x ∷ []
  insert_by x (y ∷ ys) = let rest = insert_by x ys in if before y x then y ∷ rest else x ∷ y ∷ ys

  -- sort.Slice
  unfoldable pub sort_by : List A → List A
  sort_by [] = []
  sort_by (x ∷ xs) = insert_by x (sort_by xs)

  -- No element stands before the one in front of it.
  abbrev pub IsSortedBy : List A → Type 0
  IsSortedBy [] = ⊤
  IsSortedBy (x ∷ []) = ⊤
  IsSortedBy (x ∷ y ∷ ys) = (before y x ≡ false) × IsSortedBy (y ∷ ys)

  insert_by-Perm : (x : A) (ys : List A) → Perm (insert_by x ys) (x ∷ ys)
  unfolding insert_by
  insert_by-Perm x [] = Perm.refl (x ∷ [])
  insert_by-Perm x (y ∷ ys) = elim (Bool-cases (before y x)) [
    | inl after ↦ rw after (Perm.trans (Perm.cons y (insert_by-Perm x ys)) (Perm.swap x y ys))
    | inr first ↦ rw first (Perm.refl (x ∷ y ∷ ys))
  ]

  pub sort_by-Perm : (xs : List A) → Perm (sort_by xs) xs
  unfolding sort_by
  sort_by-Perm [] = Perm.refl []
  sort_by-Perm (x ∷ xs) = Perm.trans (insert_by-Perm x (sort_by xs)) (Perm.cons x (sort_by-Perm xs))

  module _ (asym : (x y : A) → before x y ≡ true → before y x ≡ false) where
    below-insert_by :
        (x y : A) (ys : List A)
        → before x y ≡ false
        → IsSortedBy (y ∷ ys)
        → IsSortedBy (y ∷ insert_by x ys)
    unfolding insert_by
    below-insert_by x y [] h s = (h, tt)
    below-insert_by x y (z ∷ zs) h s = elim (Bool-cases (before z x)) [
      | inl after ↦ rw after (s.0, below-insert_by x z zs (asym z x after) s.1)
      | inr first ↦ rw first (h, (first, s.1))
    ]

    insert_by-IsSortedBy : (x : A) (ys : List A) → IsSortedBy ys → IsSortedBy (insert_by x ys)
    unfolding insert_by
    insert_by-IsSortedBy x [] s = tt
    insert_by-IsSortedBy x (y ∷ ys) s = elim (Bool-cases (before y x)) [
      | inl after ↦ rw after (below-insert_by x y ys (asym y x after) s)
      | inr first ↦ rw first (first, s)
    ]

    pub sort_by-IsSortedBy : (xs : List A) → IsSortedBy (sort_by xs)
    unfolding sort_by
    sort_by-IsSortedBy [] = tt
    sort_by-IsSortedBy (x ∷ xs) = insert_by-IsSortedBy x (sort_by xs) (sort_by-IsSortedBy xs)
