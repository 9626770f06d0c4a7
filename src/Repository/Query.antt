-- ===== src/Repository/Query.antt =====
-- Queries on a table, the list of its rows: GORM's `First` takes the least row of an order among
-- those that match, `Find` all of them.
pub mod Laws
pub mod Sorted
use mailservice.Prelude.{
  ℕ, ◌+◌, Bool, true, false, Option, none, some, List, [], ◌∷◌, ⊤, ltb, ◌==◌, if◌then◌else◌, Bytes,
}

-- SQL's order on texts.
unfoldable pub bytes_less : Bytes → Bytes → Bool
bytes_less [] [] = false
bytes_less [] (y ∷ ys) = true
bytes_less (x ∷ xs) [] = false
bytes_less (x ∷ xs) (y ∷ ys) = let rest = bytes_less xs ys in if x == y then rest else ltb x y

module _ {A : Type 0} where
  abbrev pub prefer : (A → A → Bool) → A → Option A → Option A
  prefer less r none = some r
  prefer less r (some q) = if less q r then some q else some r

  -- First, under an order `less`
  unfoldable pub first : (A → A → Bool) → (A → Bool) → List A → Option A
  first less p [] = none
  first less p (r ∷ rows) = let rest = first less p rows in if p r then prefer less r rest else rest

  -- Find
  unfoldable pub find_all : (A → Bool) → List A → List A
  find_all p [] = []
  find_all p (r ∷ rows) = let rest = find_all p rows in if p r then r ∷ rest else rest

  unfoldable pub exists_row : (A → Bool) → List A → Bool
  exists_row p [] = false
  exists_row p (r ∷ rows) = if p r then true else exists_row p rows

  -- Updates of the rows that match
  unfoldable pub update_where : (A → Bool) → (A → A) → List A → List A
  update_where p f [] = []
  update_where p f (r ∷ rows) = (if p r then f r else r) ∷ update_where p f rows

  -- RowsAffected
  unfoldable pub count_rows : (A → Bool) → List A → ℕ
  count_rows p [] = 0
  count_rows p (r ∷ rows) = (if p r then 1 else 0) + count_rows p rows

  abbrev pub All : (A → Type 0) → List A → Type 0
  All P [] = ⊤
  All P (r ∷ rows) = P r × All P rows

-- One of the elements of a list
pub data Among {A : Type 0} (x : A) : List A → Type 0 where
  here : {xs : List A} → Among x (x ∷ xs)
  there : {y : A} {xs : List A} → Among x xs → Among x (y ∷ xs)
