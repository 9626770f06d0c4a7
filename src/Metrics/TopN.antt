-- ===== src/Metrics/TopN.antt =====
-- metrics.go: `TopN`, the error texts seen last with their counts. The map and the list of the
-- source hold the same items; here they are one list, the item touched longest ago first.
-- A count, an int64 in the source, is a natural number: it grows by one with each error.
pub mod Bounded
pub mod Ranking
pub mod Counts
use mailservice.Prelude.{
  ℕ, ◌+◌, Bool, true, false, List, [], ◌∷◌, ◌++◌, leb, ltb, ◌==◌, if◌then◌else◌, Bytes, ◌==ᵇ◌,
  length, take, sort_by,
}
use mailservice.Text.{is_empty, trim_space}
use mailservice.Text.Runes.{runes, runes_behind, joined}
use mailservice.Repository.Query.{bytes_less}

abbrev pub top_n_max_entries : ℕ
top_n_max_entries = 16

abbrev pub max_top_n_message_len : ℕ
max_top_n_message_len = 200

pub record TopNItem : Type 0 where
  pub msg : Bytes
  pub count : ℕ

-- truncateMessage
unfoldable pub truncate_message : Bytes → Bytes
unfolding runes_behind joined
truncate_message msg =
    if leb (length (runes msg)) max_top_n_message_len
    then msg
    else joined (take max_top_n_message_len (runes msg))

-- t.entries[msg], the count of an item that is there
unfoldable pub count_of : Bytes → List TopNItem → ℕ
count_of msg [] = 0
count_of msg (item ∷ items) = if item.msg ==ᵇ msg then item.count else count_of msg items

unfoldable pub has_item : Bytes → List TopNItem → Bool
has_item msg [] = false
has_item msg (item ∷ items) = if item.msg ==ᵇ msg then true else has_item msg items

unfoldable pub remove_item : Bytes → List TopNItem → List TopNItem
remove_item msg [] = []
remove_item msg (item ∷ items) =
    let rest = remove_item msg items in if item.msg ==ᵇ msg then items else item ∷ rest

-- The oldest item is evicted where there are too many.
abbrev pub evict : List TopNItem → List TopNItem
evict [] = []
evict (oldest ∷ items) =
    if leb (length (oldest ∷ items)) top_n_max_entries then oldest ∷ items else items

-- The part of `Inc` behind the lock
unfoldable pub touch : Bytes → List TopNItem → List TopNItem
touch msg items =
    if has_item msg items
    then remove_item msg items ++ record { msg = msg; count = count_of msg items + 1 } ∷ []
    else evict (items ++ record { msg = msg; count = 1 } ∷ [])

-- The text as `Inc` keeps it
unfoldable pub error_text : Bytes → Bytes
error_text msg = truncate_message (trim_space msg)

-- TopN.Inc
unfoldable pub inc : Bytes → List TopNItem → List TopNItem
inc msg items = if is_empty (error_text msg) then items else touch (error_text msg) items

-- The order of a snapshot: the higher count first, then the smaller text.
unfoldable pub ranks_before : TopNItem → TopNItem → Bool
ranks_before a b = if a.count == b.count then bytes_less a.msg b.msg else ltb b.count a.count

-- TopN.Snapshot
unfoldable pub top_n_snapshot : List TopNItem → List TopNItem
top_n_snapshot items = sort_by ranks_before items
