-- ===== src/Metrics/Counter/Window.antt =====
-- A counter implements a sum over the last 24 hours: the specification keeps every addition with
-- its hour, and the ring of buckets refines it.
use mailservice.Prelude.{
  ℕ, zero, suc, ◌+◌, ◌-◌, ◌%◌, ◌≤◌, ◌<◌, ◌≡◌, ◌≢◌, refl, ◌⊎◌, inl, inr, Bool, ◌&&◌, ltb, ◌==◌,
  if◌then◌else◌, List, [], ◌∷◌, ⊤, arith,
}
use native.Mathlib.Decide.{dec_le, ℕ_discrete}
use mailservice.Metrics.Counter.{
  Cells, Counter, int64_mod, store, add, sum_cells, sum_24h, clear_hours,
}

-- An addition to a counter: its hour and its amount
pub record Entry : Type 0 where
  pub at : ℕ
  pub amount : ℕ

-- The amounts of the entries that pass a test, summed
unfoldable pub total : (Entry → Bool) → List Entry → ℕ
total p [] = 0
total p (e ∷ log) = (if p e then e.amount else 0) + total p log

-- The entry lies in the 24 hours that end with hour `h`.
abbrev pub is_recent : ℕ → Entry → Bool
is_recent h e = ltb h (e.at + 24)

abbrev pub in_bucket : ℕ → ℕ → Entry → Bool
in_bucket h j e = (e.at % 24 == j) && is_recent h e

abbrev pub NotAfter : ℕ → List Entry → Type 0
NotAfter h [] = ⊤
NotAfter h (e ∷ log) = (e.at ≤ h) × NotAfter h log

total-split :
    (h n : ℕ) (log : List Entry)
    → total (λ e. ltb (e.at % 24) (suc n) && is_recent h e) log
      ≡ total (λ e. ltb (e.at % 24) n && is_recent h e) log + total (in_bucket h n) log
unfolding total
total-split h n [] = refl
total-split h n (e ∷ log) = ground (arith, total-split h n log)

total-none : (h : ℕ) (log : List Entry) → total (λ e. ltb (e.at % 24) zero && is_recent h e) log ≡ 0
unfolding total
total-none h [] = refl
total-none h (e ∷ log) = ground (arith, total-none h log)

total-all :
    (h : ℕ) (log : List Entry)
    → total (λ e. ltb (e.at % 24) 24 && is_recent h e) log ≡ total (is_recent h) log
unfolding total
total-all h [] = refl
total-all h (e ∷ log) = ground (arith, total-all h log)

-- Each bucket holds the recent entries whose hour it stands for; the sums are those of `int64`.
pub record Refines (c : Counter) (log : List Entry) : Type 0 where
  pub on_hour : c.current ≡ c.last_hour % 24
  pub started : c.last_hour ≢ 0
  pub past : NotAfter c.last_hour log
  pub cells : (j : ℕ) → j < 24 → c.buckets j ≡ total (in_bucket c.last_hour j) log % int64_mod

sum_cells-total :
    (h n : ℕ) (cells : Cells) (log : List Entry)
    → n ≤ 24
    → ((j : ℕ) → j < 24 → cells j ≡ total (in_bucket h j) log % int64_mod)
    → sum_cells n cells ≡ total (λ e. ltb (e.at % 24) n && is_recent h e) log % int64_mod
unfolding sum_cells
sum_cells-total h zero cells log le held = rw (total-none h log) refl
sum_cells-total h (suc n) cells log le held = omega (
  arith,
  total-split h n log,
  held n (omega arith),
  sum_cells-total h n cells log (omega arith) held,
)

-- Sum24h gives the amounts of the last 24 hours.
pub sum_24h-total :
    (c : Counter) (log : List Entry)
    → Refines c log
    → sum_24h c ≡ total (is_recent c.last_hour) log % int64_mod
unfolding sum_24h
sum_24h-total c log r =
    let held : (j : ℕ) → j < 24 → c.buckets j ≡ total (in_bucket c.last_hour j) log % int64_mod =
      r.cells in
    rw (sum_cells-total c.last_hour 24 c.buckets log (omega arith) held, total-all c.last_hour log)
      refl

pub add-Refines :
    (delta : ℕ) (c : Counter) (log : List Entry)
    → Refines c log
    → Refines (add delta c) (record { at = c.last_hour; amount = delta } ∷ log)
unfolding add store total
add-Refines delta c log r = record {
  on_hour = r.on_hour;
  started = r.started;
  past = (omega arith, r.past);
  cells = λ j in_ring. cell j in_ring;
}
  where
    cell :
        (j : ℕ)
        → j < 24
        → (add delta c).buckets j
          ≡ total (in_bucket c.last_hour j) (record { at = c.last_hour; amount = delta } ∷ log)
            % int64_mod
    cell j in_ring = ground (arith, r.cells j in_ring, r.on_hour)

-- The loop that clears has cleared the bucket.
abbrev pub Hit : ℕ → ℕ → ℕ → Type 0
Hit last n j = (i : ℕ) × (1 ≤ i) × (i ≤ n) × ((last + i) % 24 ≡ j)

clear_hours-hit :
    (last n : ℕ) (cells : Cells) (j i : ℕ)
    → 1 ≤ i
    → i ≤ n
    → (last + i) % 24 ≡ j
    → clear_hours last n cells j ≡ 0
unfolding clear_hours store
clear_hours-hit last zero cells j i lo hi e = absurd (omega arith)
clear_hours-hit last (suc n) cells j i lo hi e = ground (arith, clear_hours-hit last n cells j i lo)

clear_hours-miss :
    (last n : ℕ) (cells : Cells) (j : ℕ)
    → ((i : ℕ) → 1 ≤ i → i ≤ n → (last + i) % 24 ≢ j)
    → clear_hours last n cells j ≡ cells j
unfolding clear_hours store
clear_hours-miss last zero cells j miss = refl
clear_hours-miss last (suc n) cells j miss =
    ground
      (arith, miss (suc n), clear_hours-miss last n cells j (λ i lo hi. miss i lo (omega arith)))

in_or_out : (last n j : ℕ) → Hit last n j ⊎ ((i : ℕ) → 1 ≤ i → i ≤ n → (last + i) % 24 ≢ j)
in_or_out last zero j = inr (λ i lo hi e. omega arith)
in_or_out last (suc n) j = elim (in_or_out last n j) [
  | inl (i, lo, hi, e) ↦ inl (i, lo, omega arith, e)
  | inr miss ↦ elim (ℕ_discrete ((last + suc n) % 24) j) [
    | yes e ↦ inl (suc n, omega arith, omega arith, e)
    | no ne ↦ inr (λ i lo hi e. elim (dec_le i n) [
      | yes below ↦ miss i lo below e
      | no above ↦ let last_one : i ≡ suc n = omega arith in ne (rw (← last_one) e)
    ])
  ]
]

-- Entries of a cleared bucket are too old.
total-cleared :
    (h next j i : ℕ) (log : List Entry)
    → 1 ≤ i
    → h + i ≤ next
    → (h + i) % 24 ≡ j
    → NotAfter h log
    → total (in_bucket next j) log ≡ 0
unfolding total
total-cleared h next j i [] lo hi e past = refl
total-cleared h next j i (x ∷ log) lo hi e past =
    ground (arith, total-cleared h next j i log lo hi e past.1)

-- Entries of another bucket are as recent as they were.
total-kept :
    (h next n j : ℕ) (log : List Entry)
    → ((i : ℕ) → 1 ≤ i → i ≤ n → (h + i) % 24 ≢ j)
    → h < next
    → (next ≤ h + n) ⊎ (24 ≤ n)
    → NotAfter h log
    → total (in_bucket next j) log ≡ total (in_bucket h j) log
unfolding total
total-kept h next n j [] miss later span past = refl
total-kept h next n j (x ∷ log) miss later span past =
    ground (arith, total-kept h next n j log miss later span past.1, miss (x.at + 24 - h))

pub NotAfter-later : (h next : ℕ) (log : List Entry) → h ≤ next → NotAfter h log → NotAfter next log
NotAfter-later h next [] le past = tt
NotAfter-later h next (x ∷ log) le past = (omega arith, NotAfter-later h next log le past.1)

-- One bucket after the clock has moved on
pub cleared_cell :
    (h next n : ℕ) (cells : Cells) (log : List Entry) (j : ℕ)
    → cells j ≡ total (in_bucket h j) log % int64_mod
    → h < next
    → h + n ≤ next
    → (next ≤ h + n) ⊎ (24 ≤ n)
    → NotAfter h log
    → clear_hours h n cells j ≡ total (in_bucket next j) log % int64_mod
cleared_cell h next n cells log j held later hi span past = elim (in_or_out h n j) [
  | inl (i, lo, le, e) ↦
      rw
        (
          clear_hours-hit h n cells j i lo le e,
          total-cleared h next j i log lo (omega arith) e past,
        )
        refl
  | inr miss ↦
      rw (clear_hours-miss h n cells j miss, total-kept h next n j log miss later span past) held
]
