-- ===== src/Metrics/Counter/Refinement.antt =====
-- Any sequence of additions and rotations: the counter answers what the specification answers.
use mathlib.Core.Path.{subst}
use mailservice.Prelude.{
  ℕ, ◌%◌, ◌≡◌, ◌≢◌, refl, ◌∙◌, ap, inl, inr, leb, ◌==◌, if◌then◌else◌, List, [], ◌∷◌, Bool-cases,
  arith,
}
use mailservice.Calendar.{Time}
use mailservice.Metrics.Counter.{Counter, int64_mod, hour_of, new_counter, add, sum_24h, rotate}
use mailservice.Metrics.Counter.Window.{
  Entry, total, is_recent, Refines, sum_24h-total, add-Refines, cleared_cell, NotAfter-later,
}

-- What happens to a counter
pub data CounterEvent : Type 0 where
  added : (delta : ℕ) → CounterEvent
  rotated : (now : Time) → CounterEvent

unfoldable pub run_counter : List CounterEvent → Counter → Counter
run_counter [] c = c
run_counter (added delta ∷ events) c = run_counter events (add delta c)
run_counter (rotated now ∷ events) c = run_counter events (rotate now c)

-- The specification: the hour of the last rotation and every addition ever made, with its hour
pub record Day : Type 0 where
  pub hour : ℕ
  pub log : List Entry

-- The hour does not go back.
abbrev pub later_hour : ℕ → ℕ → ℕ
later_hour h next = if leb next h then h else next

unfoldable pub run_day : List CounterEvent → Day → Day
run_day [] d = d
run_day (added delta ∷ events) d =
    run_day events (record d { log = record { at = d.hour; amount = delta } ∷ d.log })
run_day (rotated now ∷ events) d =
    run_day events (record d { hour = later_hour d.hour (hour_of now) })

-- The additions of the 24 hours that end with the current one
unfoldable pub day_total : Day → ℕ
day_total d = total (is_recent d.hour) d.log

rotate-hour :
    (now : Time) (c : Counter)
    → c.last_hour ≢ 0
    → (rotate now c).last_hour ≡ later_hour c.last_hour (hour_of now)
unfolding rotate
rotate-hour now c started = ground arith

rotate-Refines :
    (now : Time) (c : Counter) (log : List Entry) → Refines c log → Refines (rotate now c) log
unfolding rotate
rotate-Refines now c log r = elim (Bool-cases (c.last_hour == 0)) [
  | inl fresh ↦ absurd (r.started (ground arith))
  | inr started ↦ simp started (elim (Bool-cases (leb (hour_of now) c.last_hour)) [
    | inl back ↦ simp back r
    | inr later ↦ simp later (record {
      on_hour = refl;
      started = λ e. ground arith;
      past = NotAfter-later c.last_hour (hour_of now) log (ground arith) r.past;
      cells = λ j in_ring.
          cleared_cell c.last_hour (hour_of now) _ c.buckets log j (r.cells j in_ring)
            (ground arith) (ground arith) (ground arith) r.past;
    })
  ])
]

run-total :
    (events : List CounterEvent) (c : Counter) (d : Day)
    → c.last_hour ≡ d.hour
    → Refines c d.log
    → sum_24h (run_counter events c) ≡ day_total (run_day events d) % int64_mod
unfolding run_counter run_day
run-total [] c d e r =
    unfold day_total in sum_24h-total c d.log r ∙ ap (λ h. total (is_recent h) d.log % int64_mod) e
run-total (added delta ∷ events) c d e r =
    run-total events (add delta c)
      (record d { log = record { at = d.hour; amount = delta } ∷ d.log }) (unfold add in e)
      (subst (λ h. Refines (add delta c) (record { at = h; amount = delta } ∷ d.log)) e
        (add-Refines delta c d.log r))
run-total (rotated now ∷ events) c d e r =
    run-total events (rotate now c) (record d { hour = later_hour d.hour (hour_of now) })
      (rotate-hour now c r.started ∙ ap (λ h. later_hour h (hour_of now)) e)
      (rotate-Refines now c d.log r)

new_counter-Refines : (now : Time) → hour_of now ≢ 0 → Refines (new_counter now) []
unfolding new_counter total
new_counter-Refines now started = record {
  on_hour = refl;
  started = started;
  past = tt;
  cells = λ j in_ring. refl;
}

-- After any additions and rotations, in any order, the sum of a counter that was made after 1970's
-- first hour is the sum of what was added in the 24 hours that end with the hour of the last
-- rotation (a rotation whose clock went back does not count), in the arithmetic of `int64`.
pub sum_24h-run :
    (events : List CounterEvent) (start : Time)
    → hour_of start ≢ 0
    → sum_24h (run_counter events (new_counter start))
      ≡ day_total (run_day events (record { hour = hour_of start; log = [] })) % int64_mod
sum_24h-run events start started =
    run-total events (new_counter start) (record { hour = hour_of start; log = [] })
      (unfold new_counter in refl) (new_counter-Refines start started)
