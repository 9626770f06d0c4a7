-- ===== src/Metrics/Histogram.antt =====
-- metrics.go: `Histogram`, one bucket for each bound and one above them. Its `Percentile`, which
-- interpolates in floating point, is left out.
pub mod Rank
use mailservice.Prelude.{
  ℕ, zero, suc, ◌+◌, ◌%◌, ◌^◌, Bool, true, false, ◌&&◌, List, [], ◌∷◌, leb, ltb, if◌then◌else◌, map,
}
use mailservice.EdProof.Decimal.{Int64, nonneg, negative}
use mailservice.Metrics.Counter.{int64_mod}

abbrev pub histogram_bounds : List ℕ
histogram_bounds = 1 ∷ 5 ∷ 10 ∷ 25 ∷ 50 ∷ 100 ∷ 250 ∷ 500 ∷ 1000 ∷ 2500 ∷ 5000 ∷ 10000 ∷ []

-- The buckets of a histogram: the bounds, and what lies above the last
abbrev pub Buckets : Type 0
Buckets = List ℕ

-- NewHistogram
unfoldable pub new_histogram : Buckets
new_histogram = 0 ∷ map (λ _. 0) histogram_bounds

-- An atomic `Add(1)`
abbrev pub bump_count : ℕ → ℕ
bump_count c = (c + 1) % int64_mod

-- The loop of Observe: the first bound that is not below the value takes it, else the last bucket.
unfoldable pub add_under : List ℕ → ℕ → Buckets → Buckets
add_under bounds ms [] = []
add_under [] ms (c ∷ counts) = bump_count c ∷ counts
add_under (bound ∷ bounds) ms (c ∷ counts) =
    let rest = add_under bounds ms counts in
    if leb ms bound then bump_count c ∷ counts else c ∷ rest

abbrev pub clamp_ms : Int64 → ℕ
clamp_ms (nonneg ms) = ms
clamp_ms (negative ms) = 0

-- Histogram.Observe
unfoldable pub observe : Int64 → Buckets → Buckets
observe ms h = add_under histogram_bounds (clamp_ms ms) h

-- An `int64` above 0, by its pattern
abbrev pub is_positive : ℕ → Bool
is_positive c = ltb 0 c && ltb c (2 ^ 63)

-- The value of a bucket; the bucket above the last bound has the value of that bound.
abbrev pub bound_or : ℕ → List ℕ → ℕ
bound_or last [] = last
bound_or last (bound ∷ bounds) = bound

abbrev pub next_bounds : List ℕ → List ℕ
next_bounds [] = []
next_bounds (bound ∷ bounds) = bounds

-- The loop of valueAt, with the bounds of the counts that are left, the last bound passed and the
-- number seen so far
unfoldable pub value_from : ℕ → List ℕ → Buckets → ℕ → ℕ → ℕ
value_from last bounds [] seen index = 0
value_from last bounds (c ∷ counts) seen index =
    let value = bound_or last bounds in
    let seen' = if is_positive c then (seen + c) % int64_mod else seen in
    let rest = value_from value (next_bounds bounds) counts seen' index in
    if is_positive c && ltb index seen' && ltb seen' (2 ^ 63) then value else rest

-- Histogram.valueAt
unfoldable pub value_at : Buckets → ℕ → ℕ
value_at counts index = value_from 0 histogram_bounds counts 0 index
