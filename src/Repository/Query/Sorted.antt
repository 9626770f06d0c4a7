-- ===== src/Repository/Query/Sorted.antt =====
-- Sorting and counting: a sorted list has the same elements and the same counts.
use mailservice.Prelude.{
  ℕ, suc, ◌≤◌, ◌≡◌, refl, ◌∙◌, inl, inr, Bool, false, List, [], ◌∷◌, arith, Bool-cases, ltb, length,
  sort_by, insert_by, IsSortedBy, sort_by-IsSortedBy,
}
use mailservice.Repository.Query.{All, count_rows}
use mailservice.Repository.Query.Laws.{All-map}

module _ {A : Type 0} where
  module _ (less : A → A → Bool) where
    count_rows-insert_by :
        (p : A → Bool) (x : A) (ys : List A)
        → count_rows p (insert_by less x ys) ≡ count_rows p (x ∷ ys)
    unfolding insert_by count_rows
    count_rows-insert_by p x [] = refl
    count_rows-insert_by p x (y ∷ ys) = elim (Bool-cases (less y x)) [
      | inl after ↦ rw after (omega (arith, count_rows-insert_by p x ys))
      | inr first ↦ rw first refl
    ]

    pub count_rows-sort_by :
        (p : A → Bool) (xs : List A) → count_rows p (sort_by less xs) ≡ count_rows p xs
    unfolding sort_by count_rows
    count_rows-sort_by p [] = refl
    count_rows-sort_by p (x ∷ xs) =
        count_rows-insert_by p x (sort_by less xs) ∙ omega (arith, count_rows-sort_by p xs)

    length-insert_by : (x : A) (ys : List A) → length (insert_by less x ys) ≡ suc (length ys)
    unfolding insert_by
    length-insert_by x [] = refl
    length-insert_by x (y ∷ ys) = elim (Bool-cases (less y x)) [
      | inl after ↦ rw after (omega (arith, length-insert_by x ys))
      | inr first ↦ rw first refl
    ]

    pub length-sort_by : (xs : List A) → length (sort_by less xs) ≡ length xs
    unfolding sort_by
    length-sort_by [] = refl
    length-sort_by (x ∷ xs) = omega (arith, length-insert_by x (sort_by less xs), length-sort_by xs)

    All-insert_by :
        (P : A → Type 0) (x : A) (ys : List A) → P x → All P ys → All P (insert_by less x ys)
    unfolding insert_by
    All-insert_by P x [] px h = (px, tt)
    All-insert_by P x (y ∷ ys) px h = elim (Bool-cases (less y x)) [
      | inl after ↦ rw after (h.0, All-insert_by P x ys px h.1)
      | inr first ↦ rw first (px, h)
    ]

    pub All-sort_by : (P : A → Type 0) (xs : List A) → All P xs → All P (sort_by less xs)
    unfolding sort_by
    All-sort_by P [] h = tt
    All-sort_by P (x ∷ xs) h = All-insert_by P x (sort_by less xs) h.0 (All-sort_by P xs h.1)

  -- A sorted list starts with its least element, by a measure of the elements.
  pub head-least :
      (f : A → ℕ) (x : A) (xs : List A)
      → IsSortedBy (λ a b. ltb (f a) (f b)) (x ∷ xs)
      → All (λ y. f x ≤ f y) xs
  head-least f x [] s = tt
  head-least f x (y ∷ ys) s = (
    ground (arith, s.0),
    All-map (λ z. f y ≤ f z) (λ z. f x ≤ f z) ys (λ z h. ground (arith, s.0, h))
        (head-least f y ys s.1),
  )

  pub sort_by_measure-IsSortedBy :
      (f : A → ℕ) (xs : List A)
      → IsSortedBy (λ a b. ltb (f a) (f b)) (sort_by (λ a b. ltb (f a) (f b)) xs)
  sort_by_measure-IsSortedBy f xs =
      sort_by-IsSortedBy (λ a b. ltb (f a) (f b)) (λ x y h. ground (arith, h)) xs

  pub count_none : (p : A → Bool) (xs : List A) → All (λ x. p x ≡ false) xs → count_rows p xs ≡ 0
  unfolding count_rows
  count_none p [] h = refl
  count_none p (x ∷ xs) h = rw h.0 (omega (arith, count_none p xs h.1))

  pub IsSortedBy-tail :
      (less : A → A → Bool) (x : A) (xs : List A) → IsSortedBy less (x ∷ xs) → IsSortedBy less xs
  IsSortedBy-tail less x [] s = tt
  IsSortedBy-tail less x (y ∷ ys) s = s.1
