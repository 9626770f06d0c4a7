-- ===== src/Repository/Mailboxes/Unique.antt =====
-- The keys of the table: what the unique indexes of the migrations forbid, and the updates that
-- they let pass.
use mailservice.Prelude.{
  ◌≡◌, ◌≢◌, sym, ap, ◌∙◌, inl, inr, Bool, false, not, ◌&&◌, ◌||◌, List, [], ◌∷◌, map, ⊤, arith,
  Bytes, ◌==ᵇ◌, ==ᵇ_iff, Bool-cases,
}
use mathlib.Core.Path.{subst}
use mailservice.Text.{is_empty}
use mailservice.Repository.Models.{MailboxModel}
use mailservice.Repository.Query.{All, Among, exists_row}
use mailservice.Repository.Query.Laws.{All-Among, Among-cons, none_exists_row}
use mailservice.Repository.Mailboxes.{same_id, same_index, blocks_update, upsert}

-- The columns of a row that an index covers
pub record Keys : Type 0 where
  pub id : Bytes
  pub imap_username : Bytes
  pub access_token : Bytes
  pub key_fingerprint : Bytes
  pub payment_session_id : Bytes

abbrev pub keys_of : MailboxModel → Keys
keys_of r = record {
  id = r.id;
  imap_username = r.imap_username;
  access_token = r.access_token;
  key_fingerprint = r.key_fingerprint;
  payment_session_id = r.payment_session_id;
}

-- Two rows share a unique column.
unfoldable pub clash : Keys → Keys → Bool
clash m r =
    (r.imap_username ==ᵇ m.imap_username)
    || (r.access_token ==ᵇ m.access_token)
    || (not (is_empty m.key_fingerprint) && (r.key_fingerprint ==ᵇ m.key_fingerprint))
    || (not (is_empty m.payment_session_id) && (r.payment_session_id ==ᵇ m.payment_session_id))

-- Two rows that the indexes let stand beside each other
abbrev pub Clear : Keys → Keys → Type 0
Clear m r = (r.id ≢ m.id) × (clash m r ≡ false)

abbrev pub IsUnique : List Keys → Type 0
IsUnique [] = ⊤
IsUnique (k ∷ ks) = All (Clear k) ks × IsUnique ks

clash-sym : (m r : Keys) → clash m r ≡ false → clash r m ≡ false
unfolding clash
clash-sym m r h = ground (
  arith,
  ==ᵇ_iff r.imap_username m.imap_username,
  ==ᵇ_iff m.imap_username r.imap_username,
  ==ᵇ_iff r.access_token m.access_token,
  ==ᵇ_iff m.access_token r.access_token,
  ==ᵇ_iff r.key_fingerprint m.key_fingerprint,
  ==ᵇ_iff m.key_fingerprint r.key_fingerprint,
  ==ᵇ_iff r.payment_session_id m.payment_session_id,
  ==ᵇ_iff m.payment_session_id r.payment_session_id,
)

pub Clear-sym : (m r : Keys) → Clear m r → Clear r m
Clear-sym m r (ne, free) = (λ e. ne (sym e), clash-sym m r free)

-- A row that keeps the keys of another does not stand in its own way.
not_blocked : (m q : MailboxModel) → Clear (keys_of m) (keys_of q) → blocks_update m q ≡ false
unfolding same_index clash
not_blocked m q clear = ground (arith, clear.1)

own_row : (m q : MailboxModel) → keys_of m ≡ keys_of q → blocks_update m q ≡ false
own_row m q e = ground (arith, (==ᵇ_iff q.id m.id).1 (sym (ap (λ (k : Keys). k.id) e)))

module _ (m : MailboxModel) where
  not_blocked_by :
      (k : Keys) (rows : List MailboxModel)
      → keys_of m ≡ k
      → All (Clear k) (map keys_of rows)
      → All (λ q. blocks_update m q ≡ false) rows
  not_blocked_by k [] e h = tt
  not_blocked_by k (q ∷ rows) e h =
      (not_blocked m q (subst (λ x. Clear x (keys_of q)) (sym e) h.0), not_blocked_by k rows e h.1)

  unblocked' :
      (rows : List MailboxModel)
      → IsUnique (map keys_of rows)
      → Among (keys_of m) (map keys_of rows)
      → All (λ q. blocks_update m q ≡ false) rows
  unblocked' [] unique m_in = tt
  unblocked' (q ∷ rows) unique m_in =
      elim (Among-cons (keys_of m) (keys_of q) (map keys_of rows) m_in) [
        | inl same ↦ (own_row m q same, not_blocked_by (keys_of q) rows same unique.0)
        | inr later ↦ (
          not_blocked m q (
              Clear-sym (keys_of q) (keys_of m)
                (All-Among (Clear (keys_of q)) (keys_of m) (map keys_of rows) unique.0 later)),
          unblocked' rows unique.1 later,
        )
      ]

  -- An update that keeps the keys of a row is not blocked.
  pub unblocked :
      (rows : List MailboxModel)
      → IsUnique (map keys_of rows)
      → Among (keys_of m) (map keys_of rows)
      → exists_row (blocks_update m) rows ≡ false
  unblocked rows unique m_in = none_exists_row (blocks_update m) rows (unblocked' rows unique m_in)

  -- It leaves the keys of the table as they were.
  pub keys-upsert :
      (rows : List MailboxModel)
      → IsUnique (map keys_of rows)
      → Among (keys_of m) (map keys_of rows)
      → map keys_of (upsert m rows) ≡ map keys_of rows
  unfolding upsert
  keys-upsert [] unique m_in = elim m_in [ ]
  keys-upsert (q ∷ rows) unique m_in = elim (Bool-cases (same_id m q)) [
    | inl same ↦ rw same (elim (Among-cons (keys_of m) (keys_of q) (map keys_of rows) m_in) [
      | inl here ↦ ap (λ k. k ∷ map keys_of rows) here
      | inr later ↦ absurd (
          (All-Among (Clear (keys_of q)) (keys_of m) (map keys_of rows) unique.0 later).0
            (sym ((==ᵇ_iff q.id m.id).0 same)))
    ])
    | inr other ↦ rw other (elim (Among-cons (keys_of m) (keys_of q) (map keys_of rows) m_in) [
      | inl here ↦ absurd (cc (other, (==ᵇ_iff q.id m.id).1 (sym (ap (λ (k : Keys). k.id) here))))
      | inr later ↦ ap (λ ks. keys_of q ∷ ks) (keys-upsert rows unique.1 later)
    ])
  ]

  -- What holds of the new row and of all rows of other identifiers holds of the table behind an
  -- update.
  pub All-upsert_others :
      (P : MailboxModel → Type 0) (rows : List MailboxModel)
      → IsUnique (map keys_of rows)
      → All (λ q. q.id ≢ m.id → P q) rows
      → P m
      → All P (upsert m rows)
  unfolding upsert
  All-upsert_others P [] unique h pm = (pm, tt)
  All-upsert_others P (q ∷ rows) unique h pm = elim (Bool-cases (same_id m q)) [
    | inl same ↦ rw same (pm, rest (q.id) rows ((==ᵇ_iff q.id m.id).0 same) unique.0 h.1)
    | inr other ↦
        rw other
          (h.0 (λ e. cc (other, (==ᵇ_iff q.id m.id).1 e)), All-upsert_others P rows unique.1 h.1 pm)
  ]
    where
      rest :
          (id : Bytes) (rows : List MailboxModel)
          → id ≡ m.id
          → All (λ k. (k.id ≢ id) × (clash (keys_of q) k ≡ false)) (map keys_of rows)
          → All (λ r. r.id ≢ m.id → P r) rows
          → All P rows
      rest id [] e clear h = tt
      rest id (r ∷ rows) e clear h = (h.0 (λ x. clear.0.0 (x ∙ sym e)), rest id rows e clear.1 h.1)
