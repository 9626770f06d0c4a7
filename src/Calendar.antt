-- ===== src/Calendar.antt =====
-- Go's `time`: an instant is a count of nanoseconds since 1970 (UTC), and `AddDate(0, n, 0)` moves
-- the month of the proleptic Gregorian calendar, days that overflow a month running into the next.
pub mod Growth
use mailservice.Prelude.{
  ℕ, zero, suc, ◌+◌, ◌-◌, ◌*◌, ◌/◌, ◌%◌, Bool, true, false, not, ◌&&◌, ◌||◌, ltb, leb, ◌==◌,
  if◌then◌else◌,
}

abbrev pub Time : Type 0
Time = ℕ

abbrev pub second : ℕ
second = 1_000_000_000

abbrev pub minute : ℕ
minute = 60 * second

abbrev pub hour : ℕ
hour = 60 * minute

abbrev pub day : ℕ
day = 24 * hour

-- a.After(b)
abbrev pub after : Time → Time → Bool
after a b = ltb b a

-- a.Before(b)
abbrev pub before : Time → Time → Bool
before a b = ltb a b

leap_year : ℕ → Bool
leap_year y = (y % 4 == 0) && (not (y % 100 == 0) || (y % 400 == 0))

-- The length of month `k`, counted from January 1970.
month_length : ℕ → ℕ
unfolding leap_year
month_length k =
    let m = k % 12 in
    if m == 1
    then (if leap_year (1970 + k / 12) then 29 else 28)
    else if m == 3 || m == 5 || m == 8 || m == 10
    then 30
    else 31

-- The first day of month `k`, counted from 1 January 1970.
month_start : ℕ → ℕ
month_start zero = 0
month_start (suc k) = month_start k + month_length k

-- The month that day `d` of month `k` falls in, and the day within it; the fuel bounds the months.
locate : ℕ → ℕ → ℕ → ℕ × ℕ
locate zero k d = (k, d)
locate (suc fuel) k d =
    let later = locate fuel (suc k) (d - month_length k) in
    if ltb d (month_length k) then (k, d) else later

-- t.AddDate(0, n, 0)
pub add_months : Time → ℕ → Time
add_months t n =
    let days = t / day in
    let (k, d) = locate (days + 1) 0 days in (month_start (k + n) + d) * day + t % day
