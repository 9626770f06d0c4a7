-- ===== src/Metrics/TopN/Ranking.antt =====
-- A snapshot of the error texts.
use mathlib.Core.List.{Perm}
use mailservice.Prelude.{
  ℕ, ◌≡◌, ◌<◌, ◌==◌, refl, true, false, List, [], ◌∷◌, ◌++◌, Bytes, ⊤, ◌⊎◌, inl, inr, Bool-cases,
  sort_by-Perm, sort_by-IsSortedBy, IsSortedBy, arith,
}
use mailservice.Repository.Query.{bytes_less}
use mailservice.Metrics.TopN.{TopNItem, ranks_before, top_n_snapshot}

bytes_less-asym : (s t : Bytes) → bytes_less s t ≡ true → bytes_less t s ≡ false
unfolding bytes_less
bytes_less-asym [] [] h = cc
bytes_less-asym [] (y ∷ t) h = refl
bytes_less-asym (x ∷ s) [] h = cc
bytes_less-asym (x ∷ s) (y ∷ t) h = ground (arith, bytes_less-asym s t)

ranks_before-asym : (a b : TopNItem) → ranks_before a b ≡ true → ranks_before b a ≡ false
unfolding ranks_before
ranks_before-asym a b h = ground (arith, bytes_less-asym a.msg b.msg)

-- Two texts in alphabetical order: the first is the start of the second, or it has the smaller byte
-- behind what they start with in common.
pub data Alphabetical : Bytes → Bytes → Type 0 where
  starts : (s t : Bytes) → Alphabetical s (s ++ t)
  smaller : (p s t : Bytes) (x y : ℕ) → x < y → Alphabetical (p ++ x ∷ s) (p ++ y ∷ t)

Alphabetical-cons : (x : ℕ) {s t : Bytes} → Alphabetical s t → Alphabetical (x ∷ s) (x ∷ t)
Alphabetical-cons x (starts s t) = starts (x ∷ s) t
Alphabetical-cons x (smaller p s t y z less) = smaller (x ∷ p) s t y z less

bytes_less-Alphabetical : (s t : Bytes) → bytes_less t s ≡ false → Alphabetical s t
unfolding bytes_less
bytes_less-Alphabetical [] t h = starts [] t
bytes_less-Alphabetical (x ∷ s) [] h = absurd (cc h)
bytes_less-Alphabetical (x ∷ s) (y ∷ t) h = elim (Bool-cases (y == x)) [
  | inl same ↦
      let e : y ≡ x = ground arith in
      rw e (Alphabetical-cons x (bytes_less-Alphabetical s t (ground arith)))
  | inr other ↦ smaller [] s t x y (ground arith)
]

-- The item of the higher count stands first; of one count, the texts are in alphabetical order.
abbrev pub Ranks : TopNItem → TopNItem → Type 0
Ranks a b = (b.count < a.count) ⊎ ((a.count ≡ b.count) × Alphabetical a.msg b.msg)

-- Each item and the one behind it
abbrev pub IsRanked : List TopNItem → Type 0
IsRanked [] = ⊤
IsRanked (a ∷ []) = ⊤
IsRanked (a ∷ b ∷ items) = Ranks a b × IsRanked (b ∷ items)

ranks_before-Ranks : (a b : TopNItem) → ranks_before b a ≡ false → Ranks a b
unfolding ranks_before
ranks_before-Ranks a b h = elim (Bool-cases (b.count == a.count)) [
  | inl same ↦ inr (ground arith, bytes_less-Alphabetical a.msg b.msg (ground arith))
  | inr other ↦ inl (ground arith)
]

IsSortedBy-IsRanked : (items : List TopNItem) → IsSortedBy ranks_before items → IsRanked items
IsSortedBy-IsRanked [] s = tt
IsSortedBy-IsRanked (a ∷ []) s = tt
IsSortedBy-IsRanked (a ∷ b ∷ items) s =
    (ranks_before-Ranks a b s.0, IsSortedBy-IsRanked (b ∷ items) s.1)

-- A snapshot lists the items of the table, each once, by falling counts and texts of one count in
-- alphabetical order.
pub top_n_snapshot-IsRanked :
    (items : List TopNItem) → Perm (top_n_snapshot items) items × IsRanked (top_n_snapshot items)
unfolding top_n_snapshot
top_n_snapshot-IsRanked items = (
  sort_by-Perm ranks_before items,
  IsSortedBy-IsRanked _ (sort_by-IsSortedBy ranks_before ranks_before-asym items),
)
