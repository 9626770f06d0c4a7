-- ===== src/Repository/Mailboxes/Kept.antt =====
-- The rules of the table `mailboxes`: it keeps to its unique indexes, and its fingerprints are
-- normal. A new row and an update that pass the test of the indexes keep the rules.
use mailservice.Prelude.{
  ◌≡◌, ◌≢◌, sym, ◌∙◌, inl, inr, false, List, [], ◌∷◌, ◌++◌, map, arith, ==ᵇ_iff, Bool-cases,
}
use mailservice.Text.{normalize}
use mailservice.Text.Laws.{normalize_idem}
use mailservice.Domain.{Mailbox}
use mailservice.Repository.Models.{MailboxModel, to_model}
use mailservice.Repository.Query.{All}
use mailservice.Repository.Mailboxes.{same_id, same_index, blocks_insert, blocks_update, upsert}
use mailservice.Repository.Mailboxes.Unique.{keys_of, clash, Clear, Clear-sym, IsUnique}

-- A row as `toModel` writes it: its fingerprint is in lower case and trimmed.
abbrev pub HasNormalKey : MailboxModel → Type 0
HasNormalKey r = normalize r.key_fingerprint ≡ r.key_fingerprint

abbrev pub IsKept : List MailboxModel → Type 0
IsKept rows = IsUnique (map keys_of rows) × All HasNormalKey rows

pub to_model-HasNormalKey : (m : Mailbox) → HasNormalKey (to_model m)
unfolding to_model
to_model-HasNormalKey m = normalize_idem m.key_fingerprint

module _ (m : MailboxModel) where
  -- What a passed test says of another row
  insert-Clear : (q : MailboxModel) → blocks_insert m q ≡ false → Clear (keys_of m) (keys_of q)
  unfolding same_index clash
  insert-Clear q h = ((λ e. ground (arith, h, (==ᵇ_iff q.id m.id).1 e)), ground (arith, h))

  update-Clear :
      (q : MailboxModel) → blocks_update m q ≡ false → q.id ≢ m.id → Clear (keys_of m) (keys_of q)
  unfolding same_index clash
  update-Clear q h ne = (ne, ground (arith, h, ==ᵇ_iff q.id m.id))

  Clear-snoc :
      (q : MailboxModel) (rows : List MailboxModel)
      → All (Clear (keys_of q)) (map keys_of rows)
      → Clear (keys_of q) (keys_of m)
      → All (Clear (keys_of q)) (map keys_of (rows ++ m ∷ []))
  Clear-snoc q [] h k = (k, tt)
  Clear-snoc q (r ∷ rows) h k = (h.0, Clear-snoc q rows h.1 k)

  pub insert-IsUnique :
      (rows : List MailboxModel)
      → All (λ q. blocks_insert m q ≡ false) rows
      → IsUnique (map keys_of rows)
      → IsUnique (map keys_of (rows ++ m ∷ []))
  insert-IsUnique [] h u = (tt, tt)
  insert-IsUnique (q ∷ rows) h u = (
    Clear-snoc q rows u.0 (Clear-sym (keys_of m) (keys_of q) (insert-Clear q h.0)),
    insert-IsUnique rows h.1 u.1,
  )

  Clear-upsert :
      (q : MailboxModel) (rows : List MailboxModel)
      → All (Clear (keys_of q)) (map keys_of rows)
      → Clear (keys_of q) (keys_of m)
      → All (Clear (keys_of q)) (map keys_of (upsert m rows))
  unfolding upsert
  Clear-upsert q [] h k = (k, tt)
  Clear-upsert q (r ∷ rows) h k = elim (Bool-cases (same_id m r)) [
    | inl same ↦ rw same (k, h.1)
    | inr other ↦ rw other (h.0, Clear-upsert q rows h.1 k)
  ]

  -- The rows behind the one that is replaced
  rest-Clear :
      (q : MailboxModel) (rows : List MailboxModel)
      → q.id ≡ m.id
      → All (λ r. blocks_update m r ≡ false) rows
      → All (Clear (keys_of q)) (map keys_of rows)
      → All (Clear (keys_of m)) (map keys_of rows)
  rest-Clear q [] e h clear = tt
  rest-Clear q (r ∷ rows) e h clear =
      (update-Clear r h.0 (λ same. clear.0.0 (same ∙ sym e)), rest-Clear q rows e h.1 clear.1)

  pub upsert-IsUnique :
      (rows : List MailboxModel)
      → All (λ q. blocks_update m q ≡ false) rows
      → IsUnique (map keys_of rows)
      → IsUnique (map keys_of (upsert m rows))
  unfolding upsert
  upsert-IsUnique [] h u = (tt, tt)
  upsert-IsUnique (q ∷ rows) h u = elim (Bool-cases (same_id m q)) [
    | inl same ↦ rw same (rest-Clear q rows ((==ᵇ_iff q.id m.id).0 same) h.1 u.0, u.1)
    | inr other ↦ rw other (
      Clear-upsert q rows u.0 (
          Clear-sym (keys_of m) (keys_of q)
            (update-Clear q h.0 (λ e. cc (other, (==ᵇ_iff q.id m.id).1 e)))),
      upsert-IsUnique rows h.1 u.1,
    )
  ]
