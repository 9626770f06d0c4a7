-- ===== src/Metrics/TopN/Bounded.antt =====
-- The table of error texts is small, has no text twice, and counts.
use mathlib.Core.Path.{subst}
use mailservice.Prelude.{
  ◌+◌, ◌≤◌, ◌≡◌, ◌≢◌, sym, inl, inr, true, false, Bool-cases, leb, List, [], ◌∷◌, ◌++◌, Bytes,
  ◌==ᵇ◌, ==ᵇ_iff, length, length-append, ⊤, arith,
}
use mailservice.Text.{trim_space, is_empty}
use mailservice.Text.Runes.{runes, length-runes, length-joined}
use mailservice.Repository.Query.{All}
use mailservice.Repository.Query.Laws.{All-snoc}
use mailservice.Metrics.TopN.{
  TopNItem, top_n_max_entries, max_top_n_message_len, count_of, has_item, remove_item, evict, touch,
  inc, error_text, truncate_message,
}

abbrev pub Differs : Bytes → TopNItem → Type 0
Differs msg item = item.msg ≢ msg

-- No text stands in two items.
abbrev pub IsDistinct : List TopNItem → Type 0
IsDistinct [] = ⊤
IsDistinct (item ∷ items) = All (Differs item.msg) items × IsDistinct items

pub record Bounded (items : List TopNItem) : Type 0 where
  pub few : length items ≤ top_n_max_entries
  pub distinct : IsDistinct items
  pub short : All (λ item. (length item.msg ≤ 800) × (is_empty item.msg ≡ false)) items
  pub counted : All (λ item. 1 ≤ item.count) items

All-remove_item :
    (P : TopNItem → Type 0) (msg : Bytes) (items : List TopNItem)
    → All P items
    → All P (remove_item msg items)
unfolding remove_item
All-remove_item P msg [] h = tt
All-remove_item P msg (item ∷ items) h = elim (Bool-cases (item.msg ==ᵇ msg)) [
  | inl hit ↦ rw hit h.1
  | inr miss ↦ rw miss (h.0, All-remove_item P msg items h.1)
]

pub remove_item-Differs :
    (msg : Bytes) (items : List TopNItem)
    → IsDistinct items
    → All (Differs msg) (remove_item msg items)
unfolding remove_item
remove_item-Differs msg [] d = tt
remove_item-Differs msg (item ∷ items) d = elim (Bool-cases (item.msg ==ᵇ msg)) [
  | inl hit ↦
      let same : item.msg ≡ msg = (==ᵇ_iff item.msg msg).0 hit in
      rw hit (subst (λ m. All (Differs m) items) same d.0)
  | inr miss ↦ rw miss ((λ e. cc ((==ᵇ_iff item.msg msg).1 e)), remove_item-Differs msg items d.1)
]

pub absent-Differs :
    (msg : Bytes) (items : List TopNItem) → has_item msg items ≡ false → All (Differs msg) items
unfolding has_item
absent-Differs msg [] h = tt
absent-Differs msg (item ∷ items) h = elim (Bool-cases (item.msg ==ᵇ msg)) [
  | inl hit ↦ absurd (ground arith)
  | inr miss ↦ ((λ e. cc ((==ᵇ_iff item.msg msg).1 e)), absent-Differs msg items (ground arith))
]

remove_item-IsDistinct :
    (msg : Bytes) (items : List TopNItem) → IsDistinct items → IsDistinct (remove_item msg items)
unfolding remove_item
remove_item-IsDistinct msg [] d = tt
remove_item-IsDistinct msg (item ∷ items) d = elim (Bool-cases (item.msg ==ᵇ msg)) [
  | inl hit ↦ rw hit d.1
  | inr miss ↦
      rw miss
        (All-remove_item (Differs item.msg) msg items d.0, remove_item-IsDistinct msg items d.1)
]

snoc-IsDistinct :
    (new : TopNItem) (items : List TopNItem)
    → All (Differs new.msg) items
    → IsDistinct items
    → IsDistinct (items ++ new ∷ [])
snoc-IsDistinct new [] other d = (tt, tt)
snoc-IsDistinct new (item ∷ items) other d = (
  All-snoc (Differs item.msg) items new d.0 (λ e. other.0 (sym e)),
  snoc-IsDistinct new items other.1 d.1,
)

length-remove_item :
    (msg : Bytes) (items : List TopNItem)
    → has_item msg items ≡ true
    → length (remove_item msg items) + 1 ≡ length items
unfolding remove_item has_item
length-remove_item msg [] h = absurd (cc h)
length-remove_item msg (item ∷ items) h = ground (arith, length-remove_item msg items)

All-evict : (P : TopNItem → Type 0) (items : List TopNItem) → All P items → All P (evict items)
All-evict P [] h = tt
All-evict P (item ∷ items) h = elim (Bool-cases (leb (length (item ∷ items)) top_n_max_entries)) [
  | inl few ↦ rw few h
  | inr many ↦ rw many h.1
]

evict-IsDistinct : (items : List TopNItem) → IsDistinct items → IsDistinct (evict items)
evict-IsDistinct [] d = tt
evict-IsDistinct (item ∷ items) d =
    elim (Bool-cases (leb (length (item ∷ items)) top_n_max_entries)) [
      | inl few ↦ rw few d
      | inr many ↦ rw many d.1
    ]

length-evict : (items : List TopNItem) → length items ≤ 17 → length (evict items) ≤ 16
length-evict [] h = omega arith
length-evict (item ∷ items) h = ground arith

length-truncate_message : (s : Bytes) → length (truncate_message s) ≤ 800
unfolding truncate_message
length-truncate_message s = elim (Bool-cases (leb (length (runes s)) max_top_n_message_len)) [
  | inl fits ↦
      let few : length (runes s) ≤ 200 = ground (arith, fits) in
      rw fits (omega (arith, few, length-runes s))
  | inr long ↦ rw long (length-joined 200 0 s)
]

length-error_text : (msg : Bytes) → length (error_text msg) ≤ 800
unfolding error_text
length-error_text msg = length-truncate_message (trim_space msg)

touch-Bounded :
    (msg : Bytes) (items : List TopNItem)
    → (length msg ≤ 800) × (is_empty msg ≡ false)
    → Bounded items
    → Bounded (touch msg items)
unfolding touch
touch-Bounded msg items text b = elim (Bool-cases (has_item msg items)) [
  | inl known ↦
      let item : TopNItem = record { msg = msg; count = count_of msg items + 1 } in
      simp known (record {
        few = omega (
          arith,
          length-append (remove_item msg items) (item ∷ []),
          length-remove_item msg items known,
          b.few,
        );
        distinct =
            snoc-IsDistinct item (remove_item msg items) (remove_item-Differs msg items b.distinct)
              (remove_item-IsDistinct msg items b.distinct);
        short = All-snoc _ (remove_item msg items) item (All-remove_item _ msg items b.short) text;
        counted =
            All-snoc _ (remove_item msg items) item (All-remove_item _ msg items b.counted)
              (omega arith);
      })
  | inr fresh ↦
      let item : TopNItem = record { msg = msg; count = 1 } in
      simp fresh (record {
        few =
            length-evict (items ++ item ∷ [])
              (omega (arith, length-append items (item ∷ []), b.few));
        distinct =
            evict-IsDistinct _
              (snoc-IsDistinct item items (absent-Differs msg items fresh) b.distinct);
        short = All-evict _ _ (All-snoc _ items item b.short text);
        counted = All-evict _ _ (All-snoc _ items item b.counted (omega arith));
      })
]

-- Inc keeps the table of error texts bounded: at most 16 items, no text twice, each text not empty
-- and at most 800 bytes long, four for each of the 200 runes that a text may have, and each count
-- at least 1.
pub inc-Bounded : (msg : Bytes) (items : List TopNItem) → Bounded items → Bounded (inc msg items)
unfolding inc
inc-Bounded msg items b = elim (Bool-cases (is_empty (error_text msg))) [
  | inl empty ↦ simp empty b
  | inr text ↦ simp text (touch-Bounded (error_text msg) items (length-error_text msg, text) b)
]
