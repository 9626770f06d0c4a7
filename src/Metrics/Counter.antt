-- ===== src/Metrics/Counter.antt =====
-- metrics.go: `Counter`, a ring of 24 buckets, one for each hour.
pub mod Window
pub mod Refinement
use mailservice.Prelude.{
  ℕ, zero, suc, ◌+◌, ◌-◌, ◌*◌, ◌/◌, ◌%◌, ◌^◌, leb, ltb, ◌==◌, if◌then◌else◌, List, [], ◌∷◌,
}
use mailservice.Calendar.{Time, hour}

abbrev pub counter_bucket_count : ℕ
counter_bucket_count = 24

-- An `int64` by its pattern of 64 bits.
abbrev pub int64_mod : ℕ
int64_mod = 2 ^ 64

-- The cells of an array, by their index
abbrev pub Cells : Type 0
Cells = ℕ → ℕ

-- cells[k] = v
unfoldable pub store : Cells → ℕ → ℕ → Cells
store cells k v j = if j == k then v else cells j

pub record Counter : Type 0 where
  pub buckets : Cells
  pub current : ℕ
  pub last_hour : ℕ

-- now.UTC().Unix() / 3600
abbrev pub hour_of : Time → ℕ
hour_of now = now / hour

-- NewCounter
unfoldable pub new_counter : Time → Counter
new_counter now = record {
  buckets = λ j. 0;
  current = hour_of now % counter_bucket_count;
  last_hour = hour_of now;
}

-- Counter.Add
unfoldable pub add : ℕ → Counter → Counter
add delta c =
    let index = if leb counter_bucket_count c.current then 0 else c.current in
    record c { buckets = store c.buckets index ((c.buckets index + delta) % int64_mod) }

-- The buckets below `n`, summed
unfoldable pub sum_cells : ℕ → Cells → ℕ
sum_cells zero cells = 0
sum_cells (suc n) cells = (sum_cells n cells + cells n) % int64_mod

-- Counter.Sum24h
unfoldable pub sum_24h : Counter → ℕ
sum_24h c = sum_cells counter_bucket_count c.buckets

-- The loop of `rotate`: the buckets of the `n` hours behind `last` are cleared.
unfoldable pub clear_hours : ℕ → ℕ → Cells → Cells
clear_hours last zero cells = cells
clear_hours last (suc n) cells =
    store (clear_hours last n cells) ((last + suc n) % counter_bucket_count) 0

-- Counter.rotate
unfoldable pub rotate : Time → Counter → Counter
rotate now c =
    let next_hour = hour_of now in
    if c.last_hour == 0
    then record c { last_hour = next_hour; current = next_hour % counter_bucket_count }
    else if leb next_hour c.last_hour
    then c
    else let span = next_hour - c.last_hour in
      let elapsed = if ltb counter_bucket_count span then counter_bucket_count else span in
      record {
        buckets = clear_hours c.last_hour elapsed c.buckets;
        current = next_hour % counter_bucket_count;
        last_hour = next_hour;
      }
