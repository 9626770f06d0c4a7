-- ===== src/Http/Semaphore.antt =====
-- internal/adapters/httpapi/semaphore.go: at most so many requests run at a time; others are told
-- when to come back. Requests are numbers, and the events of a server come one after another.
use mailservice.Prelude.{
  ℕ, ◌+◌, ◌-◌, ◌<◌, ◌≤◌, ◌≡◌, refl, Option, none, some, List, [], ◌∷◌, if◌then◌else◌, ltb, leb,
  ◌==◌, length, arith, ⊤, Bool-cases, inl, inr,
}
use mailservice.Repository.Query.{All}

abbrev pub retry_min_seconds : ℕ
retry_min_seconds = 3

abbrev pub retry_max_seconds : ℕ
retry_max_seconds = 100

abbrev pub retry_of : ℕ → Option ℕ → ℕ
retry_of min none = min
retry_of min (some raw) = min + raw

-- randomRetrySeconds; `random` is what crypto/rand draws below a bound, or its failure.
unfoldable pub random_retry_seconds : (ℕ → Option ℕ) → ℕ → ℕ → ℕ
random_retry_seconds random min max =
    if leb max min then min else retry_of min (random (max - min + 1))

-- What happens to the semaphore: a request comes, with the draws it would get, or one ends.
pub data GateEvent : Type 0 where
  arrive : (request : ℕ) (random : ℕ → Option ℕ) → GateEvent
  finish : (request : ℕ) → GateEvent

-- The requests that run, and the retry times that were answered, the last one first
pub record Semaphore : Type 0 where
  pub running : List ℕ
  pub retries : List ℕ

-- The deferred receive: the slot of a request is free again.
unfoldable pub release : ℕ → List ℕ → List ℕ
release r [] = []
release r (x ∷ xs) = let rest = release r xs in if x == r then xs else x ∷ rest

-- withGlobalSemaphore for one event, with a channel of `capacity` places
unfoldable pub gate_event : ℕ → GateEvent → Semaphore → Semaphore
gate_event capacity (arrive request random) s =
    if ltb (length s.running) capacity
    then record s { running = request ∷ s.running }
    else record s {
      retries = random_retry_seconds random retry_min_seconds retry_max_seconds ∷ s.retries;
    }
gate_event capacity (finish request) s = record s { running = release request s.running }

unfoldable pub run_gate : ℕ → List GateEvent → Semaphore → Semaphore
run_gate capacity [] s = s
run_gate capacity (e ∷ es) s = run_gate capacity es (gate_event capacity e s)

abbrev pub idle : Semaphore
idle = record { running = []; retries = [] }

-- A draw lies below its bound.
abbrev pub DrawsBelow : GateEvent → Type 0
DrawsBelow (arrive request random) = (span raw : ℕ) → random span ≡ some raw → raw < span
DrawsBelow (finish request) = ⊤

abbrev pub IsRetry : ℕ → Type 0
IsRetry n = (retry_min_seconds ≤ n) × (n ≤ retry_max_seconds)

-- No more requests run than there are places, and the retry times lie in their range.
abbrev pub IsWithin : ℕ → Semaphore → Type 0
IsWithin capacity s = (length s.running ≤ capacity) × All IsRetry s.retries

release-le : (r : ℕ) (xs : List ℕ) → length (release r xs) ≤ length xs
unfolding release
release-le r [] = omega arith
release-le r (x ∷ xs) = ground (arith, release-le r xs)

retry_of-IsRetry :
    (min span : ℕ) (o : Option ℕ)
    → 1 ≤ span
    → ((raw : ℕ) → o ≡ some raw → raw < span)
    → (min ≤ retry_of min o) × (retry_of min o + 1 ≤ min + span)
retry_of-IsRetry min span none h draws = omega arith
retry_of-IsRetry min span (some raw) h draws = omega (arith, draws raw refl)

random-IsRetry :
    (random : ℕ → Option ℕ)
    → ((span raw : ℕ) → random span ≡ some raw → raw < span)
    → IsRetry (random_retry_seconds random retry_min_seconds retry_max_seconds)
unfolding random_retry_seconds
random-IsRetry random draws =
    let (low, high) = retry_of-IsRetry 3 98 (random 98) (omega arith) (draws 98) in
    (low, omega (arith, high))

gate_event-IsWithin :
    (capacity : ℕ) (e : GateEvent) (s : Semaphore)
    → DrawsBelow e
    → IsWithin capacity s
    → IsWithin capacity (gate_event capacity e s)
unfolding gate_event
gate_event-IsWithin capacity (arrive request random) s draws (room, retries) =
    elim (Bool-cases (ltb (length s.running) capacity)) [
      | inl free ↦ rw free (ground arith, retries)
      | inr full ↦ rw full (room, (random-IsRetry random draws, retries))
    ]
gate_event-IsWithin capacity (finish request) s draws (room, retries) =
    (omega (arith, release-le request s.running), retries)

-- From a state within the bounds, through any sequence of arrivals and ends, no more requests run
-- than the semaphore has places, and a request that is turned away is told to wait from 3 to 100
-- seconds, if the random source draws below the bound that it is given.
pub run_gate-IsWithin :
    (capacity : ℕ) (es : List GateEvent) (s : Semaphore)
    → All DrawsBelow es
    → IsWithin capacity s
    → IsWithin capacity (run_gate capacity es s)
unfolding run_gate
run_gate-IsWithin capacity [] s draws within = within
run_gate-IsWithin capacity (e ∷ es) s draws within =
    run_gate-IsWithin capacity es (gate_event capacity e s) draws.1
      (gate_event-IsWithin capacity e s draws.0 within)
