-- ===== src/Repository/Mailboxes/Rows.antt =====
-- The table as a whole: its keys stay distinct under every write, and what `First` finds.
use mailservice.Prelude.{
  ◌≡◌, ◌≢◌, true, false, none, some, List, [], ◌∷◌, ◌++◌, ⊤, arith, sym, ◌∙◌, Bytes, ==ᵇ_iff,
  Bool-cases, inl, inr,
}
use mathlib.Core.Path.{subst}
use mailservice.Prelude.{ap}
use mailservice.Text.{is_empty}
use mailservice.Repository.Models.{MailboxModel}
use mailservice.Repository.Query.{All, first, exists_row}
use mailservice.Repository.Query.Laws.{
  All-first, All-map, All-map2, All-snoc, first-none, first_hit, first_skip, first_miss,
  exists_row_none,
}
use mailservice.Repository.Mailboxes.{
  same_id, same_index, blocks_insert, blocks_update, upsert, by_id, find_row, has_session,
}

-- Two rows differ in their identifiers, and share a payment session only if it is empty.
abbrev pub Apart : MailboxModel → MailboxModel → Type 0
Apart r q =
    (q.id ≢ r.id)
    × (q.payment_session_id ≡ r.payment_session_id → is_empty r.payment_session_id ≡ true)

-- The rows of the table are apart from one another.
abbrev pub IsKeyed : List MailboxModel → Type 0
IsKeyed [] = ⊤
IsKeyed (r ∷ rows) = All (Apart r) rows × IsKeyed rows

share_session :
    (m q : MailboxModel)
    → same_index m q ≡ false
    → q.payment_session_id ≡ m.payment_session_id
    → is_empty m.payment_session_id ≡ true
unfolding same_index
share_session m q h e = ground (arith, ==ᵇ_iff q.payment_session_id m.payment_session_id)

Apart-of : (m q : MailboxModel) → same_index m q ≡ false → q.id ≢ m.id → Apart m q
Apart-of m q h ne = (ne, share_session m q h)

Apart-sym : (m q : MailboxModel) → Apart m q → Apart q m
Apart-sym m q (ne, shared) = (λ e. ne (sym e), λ e. rw (← e) (shared (sym e)))

-- What a passed test says of another row
free_update :
    (m q : MailboxModel) → blocks_update m q ≡ false → q.id ≢ m.id → same_index m q ≡ false
free_update m q h ne = ground (arith, ==ᵇ_iff q.id m.id)

free_insert : (m q : MailboxModel) → blocks_insert m q ≡ false → Apart m q
free_insert m q h = Apart-of m q (ground arith) (λ e. cc ((==ᵇ_iff q.id m.id).1 e, not_same m q h))
  where
    not_same : (m q : MailboxModel) → blocks_insert m q ≡ false → same_id m q ≡ false
    not_same m q h = ground arith

module _ (m : MailboxModel) where
  pub All-upsert :
      (P : MailboxModel → Type 0) (rows : List MailboxModel)
      → P m
      → All P rows
      → All P (upsert m rows)
  unfolding upsert
  All-upsert P [] pm h = (pm, tt)
  All-upsert P (q ∷ rows) pm h = elim (Bool-cases (same_id m q)) [
    | inl same ↦ rw same (pm, h.1)
    | inr other ↦ rw other (h.0, All-upsert P rows pm h.1)
  ]

  upsert-IsKeyed' :
      (rows : List MailboxModel)
      → All (λ q. blocks_update m q ≡ false) rows
      → IsKeyed rows
      → IsKeyed (upsert m rows)
  unfolding upsert
  upsert-IsKeyed' [] free h = (tt, tt)
  upsert-IsKeyed' (q ∷ rows) free h = elim (Bool-cases (same_id m q)) [
    | inl same ↦
        let id : q.id ≡ m.id = (==ᵇ_iff q.id m.id).0 same in
        rw same (
          All-map2 (λ r. blocks_update m r ≡ false) (Apart q) (Apart m) rows
              (λ r ok_r apart.
                let ne : r.id ≢ m.id = rw (← id) apart.0 in
                Apart-of m r (free_update m r ok_r ne) ne)
              free.1 h.0,
          h.1,
        )
    | inr other ↦
        let ne : q.id ≢ m.id = λ e. cc ((==ᵇ_iff q.id m.id).1 e) in
        rw other (
          All-upsert (Apart q) rows (Apart-sym m q (Apart-of m q (free_update m q free.0 ne) ne))
              h.0,
          upsert-IsKeyed' rows free.1 h.1,
        )
  ]

  -- An update that the unique indexes admit leaves a keyed table keyed.
  pub upsert-IsKeyed :
      (rows : List MailboxModel)
      → exists_row (blocks_update m) rows ≡ false
      → IsKeyed rows
      → IsKeyed (upsert m rows)
  upsert-IsKeyed rows free h = upsert-IsKeyed' rows (exists_row_none (blocks_update m) rows free) h

  insert-IsKeyed' :
      (rows : List MailboxModel)
      → All (λ q. blocks_insert m q ≡ false) rows
      → IsKeyed rows
      → IsKeyed (rows ++ m ∷ [])
  insert-IsKeyed' [] free h = (tt, tt)
  insert-IsKeyed' (q ∷ rows) free h = (
    All-snoc (Apart q) rows m h.0 (Apart-sym m q (free_insert m q free.0)),
    insert-IsKeyed' rows free.1 h.1,
  )

  -- So does an insert.
  pub insert-IsKeyed :
      (rows : List MailboxModel)
      → exists_row (blocks_insert m) rows ≡ false
      → IsKeyed rows
      → IsKeyed (rows ++ m ∷ [])
  insert-IsKeyed rows free h = insert-IsKeyed' rows (exists_row_none (blocks_insert m) rows free) h

some_row : (a b : MailboxModel) → some a ≡ some b → a ≡ b
some_row a b e = cc

other_id : (q r m : MailboxModel) → Apart q r → m.id ≡ r.id → same_id m q ≡ false
other_id q r m apart id = elim (Bool-cases (same_id m q)) [
  | inl same ↦ absurd (apart.0 (sym id ∙ sym ((==ᵇ_iff q.id m.id).0 same)))
  | inr other ↦ other
]

-- In a keyed table the row that a session finds is the only one of that session: a new version of
-- it settles whatever is to hold of all rows of the session.
module _ (P : MailboxModel → Type 0) (tag : Bytes) (real : is_empty tag ≡ false) where
  abbrev pub OfSession : MailboxModel → Type 0
  OfSession r = r.payment_session_id ≡ tag → P r

  others_differ :
      (q r : MailboxModel) → q.payment_session_id ≡ tag → Apart q r → has_session tag r ≡ false
  others_differ q r e apart = elim (Bool-cases (has_session tag r)) [
    | inr no_session ↦ no_session
    | inl same ↦
        let e' : r.payment_session_id ≡ tag = (==ᵇ_iff r.payment_session_id tag).0 same in
        let empty : is_empty q.payment_session_id ≡ true = apart.1 (e' ∙ sym e) in
        cc (rw e at empty)
  ]

  not-OfSession : (r : MailboxModel) → has_session tag r ≡ false → OfSession r
  not-OfSession r h e = cc ((==ᵇ_iff r.payment_session_id tag).1 e)

  pub settle_row :
      (rows : List MailboxModel) (r m : MailboxModel)
      → IsKeyed rows
      → find_row (has_session tag) rows ≡ some r
      → m.id ≡ r.id
      → P m
      → All OfSession (upsert m rows)
  unfolding find_row upsert
  settle_row [] r m keyed found id pm = absurd (unfold first in ground arith)
  settle_row (q ∷ rows) r m keyed found id pm = elim (Bool-cases (has_session tag q)) [
    | inl hit ↦
        let others : All (λ x. has_session tag x ≡ false) rows =
          All-map (Apart q) (λ x. has_session tag x ≡ false) rows
            (λ x apart. others_differ q x ((==ᵇ_iff q.payment_session_id tag).0 hit) apart)
            keyed.0 in
        let only =
          first_hit by_id (has_session tag) q rows hit
            (first-none by_id (has_session tag) rows others) in
        let is_q : q ≡ r = some_row q r (sym only ∙ found) in
        let same : same_id m q ≡ true =
          (==ᵇ_iff q.id m.id).1 (ap (λ (x : MailboxModel). x.id) is_q ∙ sym id) in
        rw same
          (λ _. pm, All-map (λ x. has_session tag x ≡ false) OfSession rows not-OfSession others)
    | inr miss ↦
        let later = sym (first_skip by_id (has_session tag) q rows miss) ∙ found in
        let apart = (All-first (Apart q) by_id (has_session tag) rows r keyed.0 later).0 in
        let other : same_id m q ≡ false = other_id q r m apart id in
        rw other (not-OfSession q miss, settle_row rows r m keyed.1 later id pm)
  ]

  -- The same for a row that needs no new version
  pub settle_found :
      (rows : List MailboxModel) (r : MailboxModel)
      → IsKeyed rows
      → find_row (has_session tag) rows ≡ some r
      → P r
      → All OfSession rows
  unfolding find_row
  settle_found [] r keyed found pr = tt
  settle_found (q ∷ rows) r keyed found pr = elim (Bool-cases (has_session tag q)) [
    | inl hit ↦
        let others : All (λ x. has_session tag x ≡ false) rows =
          All-map (Apart q) (λ x. has_session tag x ≡ false) rows
            (λ x apart. others_differ q x ((==ᵇ_iff q.payment_session_id tag).0 hit) apart)
            keyed.0 in
        let only =
          first_hit by_id (has_session tag) q rows hit
            (first-none by_id (has_session tag) rows others) in
        (
          λ _. subst P (sym (some_row q r (sym only ∙ found))) pr,
          All-map (λ x. has_session tag x ≡ false) OfSession rows not-OfSession others,
        )
    | inr miss ↦ (
      not-OfSession q miss,
      settle_found rows r keyed.1 (sym (first_skip by_id (has_session tag) q rows miss) ∙ found) pr,
    )
  ]

  pub settle_missing :
      (rows : List MailboxModel) → find_row (has_session tag) rows ≡ none → All OfSession rows
  unfolding find_row
  settle_missing rows missing =
      All-map (λ x. has_session tag x ≡ false) OfSession rows not-OfSession
        (first_miss by_id (has_session tag) rows missing)
