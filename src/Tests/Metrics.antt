-- ===== src/Tests/Metrics.antt =====
-- The metrics on concrete data.
use mathlib.Core.List.{Perm}
use mailservice.Prelude.{
  ◌+◌, ◌*◌, ◌%◌, ◌≡◌, ◌≢◌, inr, refl, false, take, List, [], ◌∷◌, codes, arith,
}
use mailservice.Calendar.{Time, hour}
use mailservice.Text.{is_empty, trim_space}
use mailservice.Text.Runes.{runes, runes_behind, first_rune, rune_tail}
use mailservice.Http.Middleware.{kept_body_len, write_each, written, write_each-take}
use mailservice.EdProof.Decimal.{nonneg}
use mailservice.Repository.Query.{count_rows}
use mailservice.Metrics.Histogram.{histogram_bounds, value_at}
use mailservice.Metrics.Histogram.Rank.{observe_all, rounded_up, value_at-rounded_up}
use mailservice.Metrics.Counter.{int64_mod, hour_of, new_counter, sum_24h}
use mailservice.Metrics.Counter.Refinement.{
  added, rotated, run_counter, run_day, day_total, sum_24h-run,
}
use mailservice.Metrics.TopN.{TopNItem, top_n_snapshot, count_of, inc, error_text, truncate_message}
use mailservice.Metrics.TopN.Bounded.{Bounded, inc-Bounded}
use mailservice.Metrics.TopN.Counts.{inc-count_of}
use mailservice.Metrics.TopN.Ranking.{IsRanked, top_n_snapshot-IsRanked}

-- Hour 50, with additions in this hour and two hours later
abbrev began : Time
began = 50 * hour

sum_24h-run_example :
    sum_24h (run_counter (added 3 ∷ rotated (52 * hour) ∷ added 4 ∷ []) (new_counter began))
    ≡ day_total (
        run_day
          (added 3 ∷ rotated (52 * hour) ∷ added 4 ∷ [])
          (record { hour = hour_of began; log = [] }))
      % int64_mod
sum_24h-run_example = sum_24h-run (added 3 ∷ rotated (52 * hour) ∷ added 4 ∷ []) began (omega arith)

abbrev item : TopNItem
item = record { msg = codes "down"; count = 2 }

item-Bounded : Bounded (item ∷ [])
item-Bounded = record {
  few = omega arith;
  distinct = (tt, tt);
  short = ((omega arith, refl), tt);
  counted = (omega arith, tt);
}

inc-Bounded_example : Bounded (inc (codes "up") (item ∷ []))
inc-Bounded_example = inc-Bounded (codes "up") (item ∷ []) item-Bounded

up_kept : is_empty (error_text (codes "up")) ≡ false
unfolding error_text truncate_message trim_space rune_tail
up_kept = refl

up_other : error_text (codes "up") ≢ codes "down"
unfolding error_text truncate_message trim_space rune_tail
up_other e = cc e

inc-count_of_example :
    (count_of (error_text (codes "up")) (inc (codes "up") (item ∷ []))
      ≡ count_of (error_text (codes "up")) (item ∷ []) + 1)
    × (count_of (codes "down") (inc (codes "up") (item ∷ [])) ≡ count_of (codes "down") (item ∷ []))
inc-count_of_example =
    inc-count_of (codes "up") (codes "down") (item ∷ []) up_kept item-Bounded up_other
      (inr (omega arith))

abbrev seen_items : List TopNItem
seen_items =
    record { msg = codes "late"; count = 1 } ∷ item ∷ record { msg = codes "up"; count = 2 } ∷ []

top_n_snapshot-IsRanked_example :
    Perm (top_n_snapshot seen_items) seen_items × IsRanked (top_n_snapshot seen_items)
top_n_snapshot-IsRanked_example = top_n_snapshot-IsRanked seen_items

-- A text of three runes in five bytes, one of them not UTF-8
runes_text :
    runes (0xE2 ∷ 0x82 ∷ 0xAC ∷ 0x61 ∷ 0xFF ∷ [])
    ≡ (0xE2 ∷ 0x82 ∷ 0xAC ∷ []) ∷ (0x61 ∷ []) ∷ (0xEF ∷ 0xBF ∷ 0xBD ∷ []) ∷ []
unfolding runes_behind first_rune rune_tail
runes_text = refl

write_each-take_example :
    (write_each (codes "no" ∷ codes " mail" ∷ []) (record { status_code = 500; body = [] })).body
    ≡ take kept_body_len (written (codes "no" ∷ codes " mail" ∷ []))
write_each-take_example = write_each-take (codes "no" ∷ codes " mail" ∷ []) 500

-- Two values observed: 30 at rank 1, which lies under the bound 50
value_at-rounded_up_example :
    value_at (observe_all (nonneg 30 ∷ nonneg 7 ∷ [])) 1 ≡ rounded_up 0 histogram_bounds 30
unfolding count_rows
value_at-rounded_up_example =
    value_at-rounded_up (nonneg 30 ∷ nonneg 7 ∷ []) 1 30 (omega arith) (omega arith, omega arith)
