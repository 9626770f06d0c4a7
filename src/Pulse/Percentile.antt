-- ===== src/Pulse/Percentile.antt =====
-- `percentileDuration` is the nearest-rank percentile of its samples.
use mailservice.Prelude.{
  ℕ, zero, suc, ◌+◌, ◌-◌, ◌*◌, ◌/◌, ◌≤◌, ◌<◌, ◌≡◌, refl, ap, Bool, false, List, [], ◌∷◌, arith,
  if◌then◌else◌, ltb, leb, length, sort_by, IsSortedBy,
}
use mailservice.Repository.Query.{All, count_rows}
use mailservice.Repository.Query.Laws.{All-map}
use mailservice.Repository.Query.Sorted.{
  count_rows-sort_by, length-sort_by, head-least, sort_by_measure-IsSortedBy, count_none,
  IsSortedBy-tail,
}
use mailservice.Pulse.{nth_or, rank_index, round_ms, percentile_duration}

abbrev pub IsSorted : List ℕ → Type 0
IsSorted xs = IsSortedBy (λ a b. ltb a b) xs

nth-above : (x k : ℕ) (xs : List ℕ) → k < length xs → All (λ y. x ≤ y) xs → x ≤ nth_or 0 k xs
nth-above x k [] bound h = absurd (omega (arith, bound))
nth-above x zero (y ∷ ys) bound h = h.0
nth-above x (suc k) (y ∷ ys) bound h = nth-above x k ys (omega (arith, bound)) h.1

count_rows-cons : (p : ℕ → Bool) (x : ℕ) (xs : List ℕ) → count_rows p (x ∷ xs) ≤ 1 + count_rows p xs
unfolding count_rows
count_rows-cons p x xs = ground arith

-- At most `k` elements of a sorted list are below the one at `k`.
below_nth :
    (k : ℕ) (xs : List ℕ)
    → k < length xs
    → IsSorted xs
    → count_rows (λ y. ltb y (nth_or 0 k xs)) xs ≤ k
below_nth k [] bound s = absurd (omega (arith, bound))
below_nth zero (x ∷ xs) bound s = omega (
  arith,
  count_none (λ y. ltb y x) (x ∷ xs)
      (
        ground arith,
        All-map (λ y. x ≤ y) (λ y. ltb y x ≡ false) xs (λ y h. ground (arith, h))
            (head-least (λ n. n) x xs s),
      ),
)
below_nth (suc k) (x ∷ xs) bound s = ground (
  arith,
  count_rows-cons (λ y. ltb y (nth_or 0 k xs)) x xs,
  below_nth k xs (omega (arith, bound)) (IsSortedBy-tail (λ a b. ltb a b) x xs s),
)

-- At least `k + 1` elements of a sorted list are not above the one at `k`.
up_to_nth :
    (k : ℕ) (xs : List ℕ)
    → k < length xs
    → IsSorted xs
    → k + 1 ≤ count_rows (λ y. leb y (nth_or 0 k xs)) xs
unfolding count_rows
up_to_nth k [] bound s = absurd (omega (arith, bound))
up_to_nth zero (x ∷ xs) bound s = ground arith
up_to_nth (suc k) (x ∷ xs) bound s = ground (
  arith,
  up_to_nth k xs (omega (arith, bound)) (IsSortedBy-tail (λ a b. ltb a b) x xs s),
  nth-above x k xs (omega (arith, bound)) (head-least (λ n. n) x xs s),
)

-- `v` is the nearest-rank percentile: at least `percentile` percent of the samples are not above
-- it, and less than that are below it.
abbrev pub IsNearestRank : List ℕ → ℕ → ℕ → Type 0
IsNearestRank samples percentile v =
    (percentile * length samples ≤ 100 * count_rows (λ y. leb y v) samples)
    × (100 * count_rows (λ y. ltb y v) samples < percentile * length samples)

rank_index-bounds :
    (percentile n : ℕ)
    → 1 ≤ percentile
    → percentile ≤ 100
    → 1 ≤ n
    → (rank_index percentile n < n)
      × (percentile * n ≤ 100 * (rank_index percentile n + 1))
      × (100 * rank_index percentile n < percentile * n)
rank_index-bounds percentile n low high some_samples =
    cut_off (percentile * n) (omega (arith, product_low)) (omega (arith, product_high))
  where
    product_low : n ≤ percentile * n
    product_low = grind (arith)

    product_high : percentile * n ≤ 100 * n
    product_high = grind (arith)

    cut_off :
        (m : ℕ)
        → 1 ≤ m
        → m ≤ 100 * n
        → ((if leb n ((m + 99) / 100 - 1) then n - 1 else ((m + 99) / 100 - 1)) < n)
          × (m ≤ 100 * ((if leb n ((m + 99) / 100 - 1) then n - 1 else ((m + 99) / 100 - 1)) + 1))
          × (100 * (if leb n ((m + 99) / 100 - 1) then n - 1 else ((m + 99) / 100 - 1)) < m)
    cut_off m least most = (ground arith, ground arith, ground arith)

-- For a percentile from 1 to 100 and at least one sample, `percentileDuration` is a nearest-rank
-- percentile of the samples, rounded to milliseconds.
pub percentile_duration-IsNearestRank :
    (samples : List ℕ) (percentile : ℕ)
    → 1 ≤ percentile
    → percentile ≤ 100
    → 1 ≤ length samples
    → (v : ℕ) × (percentile_duration samples percentile ≡ round_ms v)
      × IsNearestRank samples percentile v
unfolding percentile_duration
percentile_duration-IsNearestRank samples percentile low high some_samples =
    let sorted = sort_by (λ a b. ltb a b) samples in
    let n = length sorted in
    let size : n ≡ length samples = length-sort_by (λ a b. ltb a b) samples in
    let k = rank_index percentile n in
    let v = nth_or 0 k sorted in
    let (inside, reached, early) =
      rank_index-bounds percentile n low high (omega (arith, size, some_samples)) in
    let s : IsSorted sorted = sort_by_measure-IsSortedBy (λ x. x) samples in
    (
      v,
      refl,
      (
        omega (
          arith,
          up_to_nth k sorted inside s,
          reached,
          ap (λ m. percentile * m) size,
          count_rows-sort_by (λ a b. ltb a b) (λ y. leb y v) samples,
        ),
        omega (
          arith,
          below_nth k sorted inside s,
          early,
          ap (λ m. percentile * m) size,
          count_rows-sort_by (λ a b. ltb a b) (λ y. ltb y v) samples,
        ),
      ),
    )
