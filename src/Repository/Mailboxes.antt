-- ===== src/Repository/Mailboxes.antt =====
-- mailbox_gorm.go: the queries and writes of the table `mailboxes`, under the keys and unique
-- indexes of the migrations.
pub mod Rows
pub mod Runs
pub mod RoundTrip
pub mod Unique
pub mod Kept
use mailservice.Prelude.{
  ℕ, Bool, true, false, not, ◌&&◌, ◌||◌, Option, none, some, List, [], ◌∷◌, ◌++◌, map, reverse, ⊤,
  leb, if◌then◌else◌, Bytes, ◌==ᵇ◌,
}
use mailservice.Calendar.{Time}
use mailservice.Text.{is_empty, normalize}
use mailservice.Domain.{Mailbox, MailboxStatus, is_active, is_pending, is_expired}
use mailservice.Ports.{mailbox_not_found, constraint}
use mailservice.World.{Env, World, M, pure, raise, gets, modify, call, ◌>>=◌, ◌>>◌}
use mailservice.Repository.Models.{MailboxModel, to_domain, to_model}
use mailservice.Repository.Query.{bytes_less, first, find_all, exists_row, update_where, count_rows}

-- PRIMARY KEY (id)
abbrev pub same_id : MailboxModel → MailboxModel → Bool
same_id m r = r.id ==ᵇ m.id

-- The unique indexes: `imap_username`, `access_token`, and where they are not empty
-- `key_fingerprint` and `stripe_session_id`.
unfoldable pub same_index : MailboxModel → MailboxModel → Bool
same_index m r =
    (r.imap_username ==ᵇ m.imap_username)
    || (r.access_token ==ᵇ m.access_token)
    || (not (is_empty m.key_fingerprint) && (r.key_fingerprint ==ᵇ m.key_fingerprint))
    || (not (is_empty m.payment_session_id) && (r.payment_session_id ==ᵇ m.payment_session_id))

-- A row that a new row `m` may not stand beside.
abbrev pub blocks_insert : MailboxModel → MailboxModel → Bool
blocks_insert m r = same_id m r || same_index m r

-- Another row that blocks the update of row `m`.
abbrev pub blocks_update : MailboxModel → MailboxModel → Bool
blocks_update m r = not (same_id m r) && same_index m r

-- UPDATE by primary key, or INSERT if no row has it.
unfoldable pub upsert : MailboxModel → List MailboxModel → List MailboxModel
upsert m [] = m ∷ []
upsert m (r ∷ rows) = if same_id m r then m ∷ rows else r ∷ upsert m rows

abbrev pub by_id : MailboxModel → MailboxModel → Bool
by_id q r = bytes_less q.id r.id

-- `First(&model, ...)`, with `gorm.ErrRecordNotFound` as `none`
unfoldable pub find_row : (MailboxModel → Bool) → List MailboxModel → Option MailboxModel
find_row p = first by_id p

abbrev pub or_not_found : Option MailboxModel → M Mailbox
or_not_found none = raise mailbox_not_found
or_not_found (some model) = pure (to_domain model)

abbrev pub has_session : Bytes → MailboxModel → Bool
has_session session_id r = r.payment_session_id ==ᵇ session_id

abbrev pub has_fingerprint : Bytes → MailboxModel → Bool
has_fingerprint fingerprint r = r.key_fingerprint ==ᵇ fingerprint

-- expires_at IS NOT NULL AND expires_at <= now
abbrev pub past_due : Option Time → Time → Bool
past_due none now = false
past_due (some t) now = leb t now

abbrev pub set_mailboxes : List MailboxModel → World → World
set_mailboxes rows w = record w { mailboxes = rows }

module _ ⦃env : Env⦄ where
  -- MailboxRepository.Create
  unfoldable pub create : Mailbox → M ⊤
  create mailbox = do
    call
    rows ← gets (λ w. w.mailboxes)
    let m = to_model mailbox
    if exists_row (blocks_insert m) rows
        then raise constraint
        else modify (set_mailboxes (rows ++ m ∷ []))

  -- MailboxRepository.Update
  unfoldable pub update : Mailbox → M ⊤
  update mailbox = do
    call
    rows ← gets (λ w. w.mailboxes)
    let m = to_model mailbox
    if exists_row (blocks_update m) rows
        then raise constraint
        else modify (set_mailboxes (upsert m rows))

  -- `First` under a condition
  unfoldable pub get_where : (MailboxModel → Bool) → M Mailbox
  get_where p = do call; row ← gets (λ w. find_row p w.mailboxes); or_not_found row

  -- `Find` under a condition
  unfoldable pub list_where : (MailboxModel → Bool) → M (List Mailbox)
  list_where p = do call; gets (λ w. map to_domain (find_all p w.mailboxes))

  -- MailboxRepository.GetByID
  unfoldable pub get_by_id : Bytes → M Mailbox
  get_by_id id = get_where (λ r. r.id ==ᵇ id)

  -- MailboxRepository.ListByAccountID: newest first
  unfoldable pub list_by_account_id : Bytes → M (List Mailbox)
  list_by_account_id account_id = do
    call
    gets (λ w. reverse (map to_domain (find_all (λ r. r.account_id ==ᵇ account_id) w.mailboxes)))

  -- MailboxRepository.GetPendingByAccountID
  unfoldable pub get_pending_by_account_id : Bytes → M Mailbox
  get_pending_by_account_id account_id =
      get_where (λ r. (r.account_id ==ᵇ account_id) && is_pending r.status)

  -- MailboxRepository.ListPendingPayment
  unfoldable pub list_pending_payment : M (List Mailbox)
  list_pending_payment = list_where (λ r. is_pending r.status)

  -- MailboxRepository.GetByPaymentSessionID
  unfoldable pub get_by_payment_session_id : Bytes → M Mailbox
  get_by_payment_session_id session_id = get_where (has_session session_id)

  -- MailboxRepository.GetByActivationTokenHash
  unfoldable pub get_by_activation_token_hash : Bytes → M Mailbox
  get_by_activation_token_hash token_hash = get_where (λ r. r.activation_token_hash ==ᵇ token_hash)

  -- MailboxRepository.GetByAccessToken
  unfoldable pub get_by_access_token : Bytes → M Mailbox
  get_by_access_token access_token = get_where (λ r. r.access_token ==ᵇ access_token)

  -- MailboxRepository.GetByKeyFingerprint
  unfoldable pub get_by_key_fingerprint : Bytes → M Mailbox
  get_by_key_fingerprint fingerprint = get_where (has_fingerprint (normalize fingerprint))

  -- MailboxRepository.ListActiveExpired
  unfoldable pub list_active_expired : Time → M (List Mailbox)
  list_active_expired now = list_where (λ r. is_active r.status && past_due r.expires_at now)

  -- MailboxRepository.ListExpired
  unfoldable pub list_expired : M (List Mailbox)
  list_expired = list_where (λ r. is_expired r.status)

  -- MailboxRepository.ClearActiveExpiries
  unfoldable pub clear_active_expiries : M ℕ
  clear_active_expiries = do
    call
    rows ← gets (λ w. w.mailboxes)
    modify (
        set_mailboxes
          (update_where (λ r. is_active r.status) (λ r. record r { expires_at = none }) rows))
    pure (count_rows (λ r. is_active r.status) rows)
