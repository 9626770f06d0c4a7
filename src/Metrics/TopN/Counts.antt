-- ===== src/Metrics/TopN/Counts.antt =====
-- What `Inc` does to the counts.
use mailservice.Prelude.{
  ◌+◌, ◌<◌, ◌≤◌, ◌≡◌, ◌≢◌, refl, ◌∙◌, ap, ◌⊎◌, inl, inr, true, false, Bool-cases, leb, List, [],
  ◌∷◌, ◌++◌, Bytes, ◌==ᵇ◌, ==ᵇ_iff, ==ᵇ-refl, length, length-append, arith,
}
use mailservice.Text.{is_empty}
use mailservice.Repository.Query.{All}
use mailservice.Metrics.TopN.{
  TopNItem, top_n_max_entries, count_of, has_item, remove_item, evict, touch, inc, error_text,
}
use mailservice.Metrics.TopN.Bounded.{Differs, Bounded, remove_item-Differs, absent-Differs}

count_of-snoc :
    (item : TopNItem) (items : List TopNItem)
    → All (Differs item.msg) items
    → count_of item.msg (items ++ item ∷ []) ≡ item.count
unfolding count_of
count_of-snoc item [] d = rw (==ᵇ-refl item.msg) refl
count_of-snoc item (x ∷ items) d = elim (Bool-cases (x.msg ==ᵇ item.msg)) [
  | inl same ↦ absurd (d.0 ((==ᵇ_iff x.msg item.msg).0 same))
  | inr other ↦ rw other (count_of-snoc item items d.1)
]

count_of-evict :
    (item : TopNItem) (items : List TopNItem)
    → All (Differs item.msg) items
    → count_of item.msg (evict (items ++ item ∷ [])) ≡ item.count
count_of-evict item [] d = count_of-snoc item [] d
count_of-evict item (x ∷ items) d =
    elim (Bool-cases (leb (length (x ∷ (items ++ item ∷ []))) top_n_max_entries)) [
      | inl few ↦ rw few (count_of-snoc item (x ∷ items) d)
      | inr many ↦ rw many (count_of-snoc item items d.1)
    ]

absent_count :
    (msg : Bytes) (items : List TopNItem) → has_item msg items ≡ false → count_of msg items ≡ 0
unfolding has_item count_of
absent_count msg [] h = refl
absent_count msg (x ∷ items) h = ground (arith, absent_count msg items)

count_of-other :
    (q : Bytes) (item : TopNItem) (items : List TopNItem)
    → item.msg ≢ q
    → count_of q (items ++ item ∷ []) ≡ count_of q items
unfolding count_of
count_of-other q item [] ne = ground (arith, ==ᵇ_iff item.msg q)
count_of-other q item (x ∷ items) ne = ground (arith, count_of-other q item items ne)

count_of-remove :
    (q msg : Bytes) (items : List TopNItem)
    → msg ≢ q
    → count_of q (remove_item msg items) ≡ count_of q items
unfolding count_of remove_item
count_of-remove q msg [] ne = refl
count_of-remove q msg (x ∷ items) ne = elim (Bool-cases (x.msg ==ᵇ msg)) [
  | inl hit ↦
      let same : x.msg ≡ msg = (==ᵇ_iff x.msg msg).0 hit in
      let other : (x.msg ==ᵇ q) ≡ false = ground (arith, ==ᵇ_iff x.msg q) in simp (hit, other) refl
  | inr miss ↦ simp miss (ground (arith, count_of-remove q msg items ne))
]

few-evict : (items : List TopNItem) → length items ≤ 16 → evict items ≡ items
few-evict [] h = refl
few-evict (x ∷ items) h = ground arith

-- The counts after `Inc` of a text that is kept as `msg`
abbrev pub Counted : Bytes → List TopNItem → List TopNItem → Type 0
Counted msg items items' =
    (count_of msg items' ≡ count_of msg items + 1)
    × ((q : Bytes)
        → msg ≢ q
        → (has_item msg items ≡ true) ⊎ (length items < top_n_max_entries)
        → count_of q items' ≡ count_of q items)

touch-Counted :
    (msg : Bytes) (items : List TopNItem) → Bounded items → Counted msg items (touch msg items)
unfolding touch
touch-Counted msg items b = elim (Bool-cases (has_item msg items)) [
  | inl known ↦
      let item : TopNItem = record { msg = msg; count = count_of msg items + 1 } in
      simp known (
        count_of-snoc item (remove_item msg items) (remove_item-Differs msg items b.distinct),
        λ q ne room.
            count_of-other q item (remove_item msg items) ne ∙ count_of-remove q msg items ne,
      )
  | inr fresh ↦
      let item : TopNItem = record { msg = msg; count = 1 } in
      simp fresh (
        omega (
          arith,
          count_of-evict item items (absent-Differs msg items fresh),
          absent_count msg items fresh,
        ),
        λ q ne room. elim room [
          | inl known ↦ cc known
          | inr few ↦
              ap (count_of q)
                (few-evict (items ++ item ∷ []) (omega (arith, length-append items (item ∷ []))))
              ∙ count_of-other q item items ne
        ],
      )
]

-- Inc of a text that is not blank counts it once more and leaves the count of any other text
-- alone, if the text is known or the table has room.
pub inc-count_of :
    (text other : Bytes) (items : List TopNItem)
    → is_empty (error_text text) ≡ false
    → Bounded items
    → error_text text ≢ other
    → (has_item (error_text text) items ≡ true) ⊎ (length items < top_n_max_entries)
    → (count_of (error_text text) (inc text items) ≡ count_of (error_text text) items + 1)
      × (count_of other (inc text items) ≡ count_of other items)
unfolding inc
inc-count_of text other items kept b ne room =
    let (once, others) = touch-Counted (error_text text) items b in
    simp kept (once, others other ne room)
