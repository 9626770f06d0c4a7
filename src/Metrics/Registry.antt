-- ===== src/Metrics/Registry.antt =====
-- metrics.go: `Registry`, the counters, histograms and lists of error texts by their names. A
-- metric is made where its name is first asked for; one with an empty name is thrown away.
use mailservice.Prelude.{ℕ, List, [], ◌∷◌, map, if◌then◌else◌, Bytes, codes, ◌==ᵇ◌}
use mailservice.Calendar.{Time}
use mailservice.Text.{is_empty, trim_space}
use mailservice.Metrics.Counter.{Counter, new_counter, sum_24h, rotate}
use mailservice.Metrics.Histogram.{Buckets, new_histogram}
use mailservice.Metrics.TopN.{TopNItem, top_n_snapshot}

pub record Entry (A : Type 0) : Type 0 where
  pub name : Bytes
  pub metric : A

module _ {A : Type 0} where
  -- The metric of a name, or a new one
  unfoldable pub metric_of : A → Bytes → List (Entry A) → A
  metric_of fresh name [] = fresh
  metric_of fresh name (e ∷ es) =
      let rest = metric_of fresh name es in if e.name ==ᵇ name then e.metric else rest

  -- The metric of a name is changed, and made first where there is none.
  unfoldable pub change_metric : A → (A → A) → Bytes → List (Entry A) → List (Entry A)
  change_metric fresh f name [] = record { name = name; metric = f fresh } ∷ []
  change_metric fresh f name (e ∷ es) =
      let rest = change_metric fresh f name es in
      if e.name ==ᵇ name then record e { metric = f e.metric } ∷ es else e ∷ rest

  -- What a call on the metric of a name leaves
  abbrev pub on_metric : A → (A → A) → Bytes → List (Entry A) → List (Entry A)
  on_metric fresh f name es =
      if is_empty (trim_space name) then es else change_metric fresh f (trim_space name) es

pub record Registry : Type 0 where
  pub counters : List (Entry Counter)
  pub histograms : List (Entry Buckets)
  pub top_n : List (Entry (List TopNItem))

-- NewRegistry, without its goroutine
unfoldable pub new_registry : Registry
new_registry = record { counters = []; histograms = []; top_n = [] }

-- r.Counter(name) with a change of the counter
unfoldable pub on_counter : Time → (Counter → Counter) → Bytes → Registry → Registry
on_counter now f name r = record r { counters = on_metric (new_counter now) f name r.counters }

-- r.Histogram(name) with a change of the histogram
unfoldable pub on_histogram : (Buckets → Buckets) → Bytes → Registry → Registry
on_histogram f name r = record r { histograms = on_metric new_histogram f name r.histograms }

-- r.TopN(name) with a change of the list
unfoldable pub on_top_n : (List TopNItem → List TopNItem) → Bytes → Registry → Registry
on_top_n f name r = record r { top_n = on_metric [] f name r.top_n }

-- rotateAll, and what a tick of rotateCounters does
unfoldable pub rotate_all : Time → Registry → Registry
rotate_all now r = record r {
  counters = map (λ (e : Entry Counter). record e { metric = rotate now e.metric }) r.counters;
}

-- Registry.Snapshot, without the latencies
pub record MetricsSnapshot : Type 0 where
  pub window : Bytes
  pub imap_login : ℕ
  pub imap_message_fetched : ℕ
  pub resolve_calls : ℕ
  pub key_proof_total : ℕ
  pub key_proof_failed : ℕ
  pub top_errors : List TopNItem

unfoldable pub window_or_day : Bytes → Bytes
window_or_day window = if is_empty (trim_space window) then codes "24h" else trim_space window

-- The metrics that the source makes on the way, where they are missing, are empty.
unfoldable pub snapshot : Time → Bytes → Registry → MetricsSnapshot
snapshot now window r =
    let sum : Bytes → ℕ = λ name. sum_24h (metric_of (new_counter now) name r.counters) in
    record {
      window = window_or_day window;
      imap_login = sum (codes "imap_login");
      imap_message_fetched = sum (codes "imap_message_fetched");
      resolve_calls = sum (codes "resolve_calls");
      key_proof_total = sum (codes "key_proof_total");
      key_proof_failed = sum (codes "key_proof_failed");
      top_errors = top_n_snapshot (metric_of [] (codes "top_errors") r.top_n);
    }
