-- ===== src/Repository/Query/Laws.antt =====
-- What `First` finds, and what a passed uniqueness test says.
use mathlib.Core.Path.{subst}
use mailservice.Prelude.{
  ◌++◌, ◌≡◌, refl, Bool, true, false, none, some, List, [], ◌∷◌, arith, inl, inr, ◌⊎◌,
  if◌then◌else◌,
}
use mailservice.Repository.Query.{All, Among, here, there, first, exists_row, update_where}

module _ {A : Type 0} where
  pub first_cases :
      (less : A → A → Bool) (p : A → Bool) (q : A) (rows : List A) (r : A)
      → first less p (q ∷ rows) ≡ some r
      → (first less p rows ≡ some r) ⊎ ((q ≡ r) × (p q ≡ true))
  unfolding first
  first_cases less p q rows r e = ground arith

  -- What is found matches, and has what all rows have.
  pub All-first :
      (P : A → Type 0) (less : A → A → Bool) (p : A → Bool) (rows : List A) (r : A)
      → All P rows
      → first less p rows ≡ some r
      → P r × (p r ≡ true)
  All-first P less p [] r h e = absurd (unfold first in ground arith)
  All-first P less p (q ∷ rows) r h e = elim (first_cases less p q rows r e) [
    | inl later ↦ All-first P less p rows r h.1 later
    | inr (same, hit) ↦ subst (λ x. P x × (p x ≡ true)) same (h.0, hit)
  ]

  pub first-none :
      (less : A → A → Bool) (p : A → Bool) (rows : List A)
      → All (λ r. p r ≡ false) rows
      → first less p rows ≡ none
  unfolding first
  first-none less p [] h = refl
  first-none less p (q ∷ rows) h = ground (arith, first-none less p rows h.1)

  pub first_miss :
      (less : A → A → Bool) (p : A → Bool) (rows : List A)
      → first less p rows ≡ none
      → All (λ r. p r ≡ false) rows
  unfolding first
  first_miss less p [] h = tt
  first_miss less p (q ∷ rows) h = (ground arith, first_miss less p rows (ground arith))

  pub All-map : (P Q : A → Type 0) (rows : List A) → ((r : A) → P r → Q r) → All P rows → All Q rows
  All-map P Q [] f h = tt
  All-map P Q (q ∷ rows) f h = (f q h.0, All-map P Q rows f h.1)

  pub exists_row_none :
      (p : A → Bool) (rows : List A) → exists_row p rows ≡ false → All (λ r. p r ≡ false) rows
  unfolding exists_row
  exists_row_none p [] h = tt
  exists_row_none p (q ∷ rows) h = (ground arith, exists_row_none p rows (ground arith))

  pub All-update_where :
      (P : A → Type 0) (p : A → Bool) (f : A → A) (rows : List A)
      → ((r : A) → P r → P (f r))
      → All P rows
      → All P (update_where p f rows)
  unfolding update_where
  All-update_where P p f [] step h = tt
  All-update_where P p f (q ∷ rows) step h = (pick (p q), All-update_where P p f rows step h.1)
    where
      pick : (b : Bool) → P (if b then f q else q)
      pick true = step q h.0
      pick false = h.0

  pub All-map2 :
      (P Q R : A → Type 0) (rows : List A)
      → ((r : A) → P r → Q r → R r)
      → All P rows
      → All Q rows
      → All R rows
  All-map2 P Q R [] f h k = tt
  All-map2 P Q R (q ∷ rows) f h k = (f q h.0 k.0, All-map2 P Q R rows f h.1 k.1)

  pub All-snoc :
      (P : A → Type 0) (rows : List A) (m : A) → All P rows → P m → All P (rows ++ m ∷ [])
  All-snoc P [] m h pm = (pm, tt)
  All-snoc P (q ∷ rows) m h pm = (h.0, All-snoc P rows m h.1 pm)

  pub first_hit :
      (less : A → A → Bool) (p : A → Bool) (q : A) (rows : List A)
      → p q ≡ true
      → first less p rows ≡ none
      → first less p (q ∷ rows) ≡ some q
  unfolding first
  first_hit less p q rows h e = ground arith

  pub first_skip :
      (less : A → A → Bool) (p : A → Bool) (q : A) (rows : List A)
      → p q ≡ false
      → first less p (q ∷ rows) ≡ first less p rows
  unfolding first
  first_skip less p q rows h = rw h

  pub All-Among : (P : A → Type 0) (x : A) (xs : List A) → All P xs → Among x xs → P x
  All-Among P x [] h m = elim m [ ]
  All-Among P x (_ ∷ xs) h here = h.0
  All-Among P x (y ∷ xs) h (there m) = All-Among P x xs h.1 m

  pub Among-cons : (x y : A) (xs : List A) → Among x (y ∷ xs) → (x ≡ y) ⊎ Among x xs
  Among-cons x _ xs here = inl refl
  Among-cons x y xs (there m) = inr m

  pub none_exists_row :
      (p : A → Bool) (rows : List A) → All (λ r. p r ≡ false) rows → exists_row p rows ≡ false
  unfolding exists_row
  none_exists_row p [] h = refl
  none_exists_row p (q ∷ rows) h = ground (arith, none_exists_row p rows h.1)
