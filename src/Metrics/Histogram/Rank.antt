-- ===== src/Metrics/Histogram/Rank.antt =====
-- `valueAt` of the observed values is an order statistic of them, rounded up to a bound.
use mailservice.Prelude.{
  ℕ, ◌+◌, ◌^◌, ◌%◌, ◌≤◌, ◌<◌, ◌≡◌, refl, ◌∙◌, Bool, true, false, List, [], ◌∷◌, map, arith,
  Bool-cases, leb→le, if◌then◌else◌, inl, inr, ltb, leb, ◌&&◌, length, IsSortedBy,
}
use mailservice.EdProof.Decimal.{Int64}
use mailservice.Repository.Query.{All, count_rows}
use mailservice.Repository.Query.Sorted.{head-least, IsSortedBy-tail}
use mailservice.Repository.Query.Laws.{All-map}
use mailservice.Metrics.Counter.{int64_mod}
use mailservice.Metrics.Histogram.{
  Buckets, histogram_bounds, new_histogram, add_under, observe, clamp_ms, value_from, value_at,
  is_positive,
}

abbrev pub up_to : ℕ → List ℕ → ℕ
up_to b xs = count_rows (λ x. leb x b) xs

-- The counts are those of the values `xs`, where `seen` of them lie under the bounds before.
abbrev pub IsTally : List ℕ → Buckets → List ℕ → ℕ → Type 0
IsTally bounds [] xs seen = ⊥
IsTally [] (c ∷ []) xs seen = seen + c ≡ length xs
IsTally [] (c ∷ d ∷ counts) xs seen = ⊥
IsTally (b ∷ bounds) (c ∷ counts) xs seen =
    (seen + c ≡ up_to b xs) × IsTally bounds counts xs (up_to b xs)

up_to-cons : (b x : ℕ) (xs : List ℕ) → up_to b (x ∷ xs) ≡ (if leb x b then 1 else 0) + up_to b xs
unfolding count_rows
up_to-cons b x xs = refl

up_to-le : (b : ℕ) (xs : List ℕ) → up_to b xs ≤ length xs
unfolding count_rows
up_to-le b [] = omega arith
up_to-le b (x ∷ xs) = ground (arith, up_to-le b xs)

-- The buckets behind the one that takes a value
shifted :
    (x : ℕ) (xs bounds : List ℕ) (counts : Buckets) (seen : ℕ)
    → All (λ b. x ≤ b) bounds
    → IsTally bounds counts xs seen
    → IsTally bounds counts (x ∷ xs) (seen + 1)
shifted x xs [] [] seen low t = t
shifted x xs (b ∷ bounds) [] seen low t = t
shifted x xs [] (c ∷ []) seen low t = omega (arith, t)
shifted x xs [] (c ∷ d ∷ counts) seen low t = t
shifted x xs (b ∷ bounds) (c ∷ counts) seen low t =
    let more : up_to b (x ∷ xs) ≡ up_to b xs + 1 = ground (arith, up_to-cons b x xs, low.0) in
    (omega (arith, more, t.0), rw more (shifted x xs bounds counts (up_to b xs) low.1 t.1))

add_under-IsTally :
    (x : ℕ) (xs bounds : List ℕ) (counts : Buckets) (seen : ℕ)
    → length xs < 2 ^ 63
    → IsSortedBy (λ a b. ltb a b) bounds
    → IsTally bounds counts xs seen
    → IsTally bounds (add_under bounds x counts) (x ∷ xs) seen
unfolding add_under
add_under-IsTally x xs [] [] seen small s t = t
add_under-IsTally x xs (b ∷ bounds) [] seen small s t = t
add_under-IsTally x xs [] (c ∷ []) seen small s t = omega (arith, t)
add_under-IsTally x xs [] (c ∷ d ∷ counts) seen small s t = t
add_under-IsTally x xs (b ∷ bounds) (c ∷ counts) seen small s t = elim (Bool-cases (leb x b)) [
  | inl takes ↦
      let more : up_to b (x ∷ xs) ≡ up_to b xs + 1 = ground (arith, up_to-cons b x xs, takes) in
      rw takes (
        omega (arith, more, t.0, up_to-le b xs, small),
        rw more (
            shifted x xs bounds counts (up_to b xs)
              (All-map (λ y. b ≤ y) (λ y. x ≤ y) bounds (λ y h. ground (arith, h, takes))
                (head-least (λ n. n) b bounds s))
              t.1),
      )
  | inr above ↦
      let same : up_to b (x ∷ xs) ≡ up_to b xs = ground (arith, up_to-cons b x xs, above) in
      rw above (
        omega (arith, same, t.0),
        rw same (
            add_under-IsTally x xs bounds counts (up_to b xs) small
              (IsSortedBy-tail (λ a b. ltb a b) b bounds s) t.1),
      )
]

-- The values observed, the last one first
unfoldable pub observe_all : List Int64 → Buckets
observe_all [] = new_histogram
observe_all (ms ∷ rest) = observe ms (observe_all rest)

abbrev pub values : List Int64 → List ℕ
values ms = map clamp_ms ms

observe_all-IsTally :
    (ms : List Int64)
    → length (values ms) < 2 ^ 63
    → IsTally histogram_bounds (observe_all ms) (values ms) 0
unfolding observe_all observe
observe_all-IsTally [] small =
    unfold new_histogram count_rows in
    (
      refl,
      (refl, (refl, (refl, (refl, (refl, (refl, (refl, (refl, (refl, (refl, (refl, refl))))))))))),
    )
observe_all-IsTally (m ∷ ms) small =
    add_under-IsTally (clamp_ms m) (values ms) histogram_bounds (observe_all ms) 0
      (omega (arith, small)) ascending (observe_all-IsTally ms (omega (arith, small)))
  where
    ascending : IsSortedBy (λ a b. ltb a b) histogram_bounds
    ascending =
        (refl, (refl, (refl, (refl, (refl, (refl, (refl, (refl, (refl, (refl, (refl, tt)))))))))))

-- `v` is the value at `index` of the values in ascending order.
abbrev pub IsOrderStatistic : List ℕ → ℕ → ℕ → Type 0
IsOrderStatistic xs index v = (count_rows (λ x. ltb x v) xs ≤ index) × (index < up_to v xs)

-- The first bound that is not below a value, or the last bound
unfoldable pub rounded_up : ℕ → List ℕ → ℕ → ℕ
rounded_up last [] v = last
rounded_up last (b ∷ bounds) v = let rest = rounded_up b bounds v in if leb v b then b else rest

up_to_mono : (v b : ℕ) (xs : List ℕ) → v ≤ b → up_to v xs ≤ up_to b xs
unfolding count_rows
up_to_mono v b [] h = omega arith
up_to_mono v b (x ∷ xs) h = ground (arith, up_to_mono v b xs h)

up_to-below : (v b : ℕ) (xs : List ℕ) → b < v → up_to b xs ≤ count_rows (λ x. ltb x v) xs
unfolding count_rows
up_to-below v b [] h = omega arith
up_to-below v b (x ∷ xs) h = ground (arith, up_to-below v b xs h)

-- What the loop has seen behind a bucket
abbrev next_seen : ℕ → ℕ → ℕ
next_seen seen c = if is_positive c then (seen + c) % int64_mod else seen

next_seen_sum : (seen c n : ℕ) → seen + c ≤ n → n < 2 ^ 63 → next_seen seen c ≡ seen + c
next_seen_sum seen c n fits small = ground arith

-- The bucket is the one where the count passes the index.
abbrev stops : ℕ → ℕ → ℕ → Bool
stops seen c index =
    is_positive c && ltb index (next_seen seen c) && ltb (next_seen seen c) (2 ^ 63)

stops_at :
    (seen c index n : ℕ)
    → seen + c ≤ n
    → n < 2 ^ 63
    → seen ≤ index
    → index < seen + c
    → stops seen c index ≡ true
stops_at seen c index n fits small early inside = ground (arith, next_seen_sum seen c n fits small)

passes_at :
    (seen c index n : ℕ) → seen + c ≤ n → n < 2 ^ 63 → seen + c ≤ index → stops seen c index ≡ false
passes_at seen c index n fits small beyond = ground (arith, next_seen_sum seen c n fits small)

module _ (xs : List ℕ) (small : length xs < 2 ^ 63) (index v : ℕ)
    (ranked : IsOrderStatistic xs index v) where
  value_from-rounded_up :
      (last : ℕ) (bounds : List ℕ) (counts : Buckets) (seen : ℕ)
      → IsTally bounds counts xs seen
      → seen ≤ index
      → value_from last bounds counts seen index ≡ rounded_up last bounds v
  unfolding value_from rounded_up
  value_from-rounded_up last [] [] seen t early = absurd t
  value_from-rounded_up last (b ∷ bounds) [] seen t early = absurd t
  value_from-rounded_up last [] (c ∷ []) seen t early =
      simp
        (stops_at seen c index (length xs) (omega (arith, t)) small early
          (omega (arith, t, ranked.1, up_to-le v xs)))
        refl
  value_from-rounded_up last [] (c ∷ d ∷ counts) seen t early = absurd t
  value_from-rounded_up last (b ∷ bounds) (c ∷ counts) seen t early =
      let fits : seen + c ≤ length xs = omega (arith, t.0, up_to-le b xs) in
      elim (Bool-cases (leb v b)) [
        | inl low ↦
            simp
              (
                stops_at seen c index (length xs) fits small early
                    (omega (arith, t.0, ranked.1, up_to_mono v b xs (leb→le v b low))),
                low,
              )
              refl
        | inr high ↦
            let beyond : up_to b xs ≤ index =
              omega (arith, ranked.0, up_to-below v b xs (ground (arith, high))) in
            simp (passes_at seen c index (length xs) fits small (omega (arith, t.0, beyond)), high)
              (simp (next_seen_sum seen c (length xs) fits small ∙ t.0)
                (value_from-rounded_up b bounds counts (up_to b xs) t.1 beyond))
      ]

-- When fewer than 2^63 values have been observed and `v` is the value at `index` of the observed
-- values in ascending order, a negative one counted as 0, `valueAt` of the histogram gives `v`
-- rounded up to a bound, and the last bound if `v` lies above it.
pub value_at-rounded_up :
    (ms : List Int64) (index v : ℕ)
    → length (values ms) < 2 ^ 63
    → IsOrderStatistic (values ms) index v
    → value_at (observe_all ms) index ≡ rounded_up 0 histogram_bounds v
unfolding value_at
value_at-rounded_up ms index v small ranked =
    value_from-rounded_up (values ms) small index v ranked 0 histogram_bounds (observe_all ms) 0
      (observe_all-IsTally ms small) (omega arith)
