-- ===== src/Calendar/Growth.antt =====
-- How far adding months to an instant moves it.
use mailservice.Prelude.{ℕ, zero, suc, ◌+◌, ◌-◌, ◌*◌, ◌/◌, ◌≤◌, ◌≡◌, refl, arith}
use mailservice.Calendar.{Time, day, month_length, month_start, locate, add_months}

month_length_bounds : (k : ℕ) → (28 ≤ month_length k) × (month_length k ≤ 31)
unfolding month_length
month_length_bounds k = ground arith

month_start-zero : month_start 0 ≡ 0
unfolding month_start
month_start-zero = refl

month_start-suc : (k : ℕ) → month_start (suc k) ≡ month_start k + month_length k
unfolding month_start
month_start-suc k = refl

-- The day number of what `locate` finds is the day number that it was given.
locate-start :
    (fuel k d : ℕ) → month_start (locate fuel k d).0 + (locate fuel k d).1 ≡ month_start k + d
unfolding locate
locate-start zero k d = refl
locate-start (suc fuel) k d =
    ground (arith, locate-start fuel (suc k) (d - month_length k), month_start-suc k)

month_start-add :
    (k n : ℕ)
    → (month_start k + 28 * n ≤ month_start (k + n))
      × (month_start (k + n) ≤ month_start k + 31 * n)
month_start-add k zero = let e : k + 0 ≡ k = omega arith in rw e (omega arith)
month_start-add k (suc n) =
    let e : k + suc n ≡ suc (k + n) = omega arith in
    rw e (omega (arith, month_start-add k n, month_start-suc (k + n), month_length_bounds (k + n)))

-- Adding `n` months moves an instant forward by 28 to 31 days a month.
pub add_months_bounds :
    (t : Time) (n : ℕ) → (t + 28 * n * day ≤ add_months t n) × (add_months t n ≤ t + 31 * n * day)
unfolding add_months
add_months_bounds t n =
    let k = (locate (t / day + 1) 0 (t / day)).0 in
    omega (arith, locate-start (t / day + 1) 0 (t / day), month_start-add k n, month_start-zero)
