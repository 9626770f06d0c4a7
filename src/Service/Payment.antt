-- ===== src/Service/Payment.antt =====
-- mailbox_service.go: `MarkMailboxPaid`, `RenewMailbox`, `ReconcileOpenCollectivePayments` and
-- `ReconcilePendingPayments`, which turn payments into paid time.
pub mod Credit
pub mod Once
pub mod Growth
use mailservice.Prelude.{
  ℕ, ◌+◌, Bool, true, false, not, ◌&&◌, Option, none, some, List, [], ◌∷◌, ⊤, ◌==◌, if◌then◌else◌,
  Bytes, codes,
}
use mailservice.Calendar.{Time, after, add_months}
use mailservice.Text.{is_empty, trim_space, has_prefix}
use mailservice.Domain.{Mailbox, MailboxStatus, is_active, is_pending}
use mailservice.Ports.{
  Result, ok, err, Error, is_mailbox_not_found, PaymentCharge, PaymentSession, PaymentSessionStatus,
  session_confirmed, session_succeeded,
}
use mailservice.World.{
  Env, M, pure, raise, attempt, wrapping, time_now, when, get_payment_session, list_paid_charges,
  ◌>>=◌, ◌>>◌,
}
use mailservice.Repository.Mailboxes
use mailservice.Repository.Accounts
use mailservice.Service.{Config, provision}

-- The start of a new period: the later of `now` and the end of the running one.
unfoldable pub renewal_base : Option Time → Time → Time
renewal_base none now = now
renewal_base (some t) now = if after t now then t else now

-- The months that a payment grants to a key-bound mailbox.
unfoldable pub months_granted : Mailbox → ℕ
months_granted m = if m.granted_months == 0 then 1 else m.granted_months

-- The charge is written down on the mailbox.
unfoldable pub record_charge : Option PaymentCharge → Mailbox → Mailbox
record_charge none m = m
record_charge (some c) m = record m {
  last_payment_charge_id = c.charge_id;
  last_payment_charged_at = some c.charged_at;
}

-- Active from `now` until `expiry`
unfoldable pub activated : Mailbox → Time → Time → Mailbox
activated m now expiry = record m {
  status = MailboxStatus.active;
  paid_at = some now;
  expires_at = some expiry;
}

-- A charge of that time or a later one is written down already.
abbrev pub charged_since : Option Time → Time → Bool
charged_since none at = false
charged_since (some last) at = not (after at last)

-- Whether a charge, found by its tag on mailbox `m`, is still to be credited.
unfoldable pub credits : PaymentCharge → Mailbox → Bool
credits c m =
    has_prefix m.payment_session_id (codes "tva-")
    && not (is_empty c.charge_id)
    && not (charged_since m.last_payment_charged_at c.charged_at)

-- Backfilled payments start when the card was charged.
abbrev pub charged_or : Time → Option PaymentCharge → Time
charged_or now none = now
charged_or now (some c) = c.charged_at

abbrev pub confirms : PaymentSessionStatus → Bool
confirms session_confirmed = true
confirms session_succeeded = true
confirms _ = false

-- The action that ReconcilePendingPayments reports
pub data ReconcileAction : Type 0 where
  skipped activated_now activate_failed no_action : ReconcileAction

-- service.ReconcileResult; the status text is the gateway's, `none` for "no_session" and "error".
pub record ReconcileResult : Type 0 where
  pub mailbox_id : Bytes
  pub session_id : Bytes
  pub status : Option PaymentSessionStatus
  pub action : ReconcileAction
  pub failure : Option Error

module _ ⦃env : Env⦄ (s : Config) where
  -- The time at which a payment starts to count
  unfoldable pub payment_time : Option PaymentCharge → M Time
  payment_time charge = do now ← time_now; pure (charged_or now charge)

  -- markMailboxPaid for a key-bound mailbox
  unfoldable pub mark_key_bound : Mailbox → Time → M (Option Mailbox)
  mark_key_bound mailbox now = do
    let m : Mailbox =
        activated mailbox now
          (add_months (renewal_base mailbox.expires_at now) (months_granted mailbox))
    Mailboxes.update m
    provision s m
    pure (some m)

  -- markMailboxPaid for a mailbox that belongs to an account
  unfoldable pub mark_account_bound : Mailbox → Time → M (Option Mailbox)
  mark_account_bound mailbox now = do
    account ← Accounts.get_by_id mailbox.account_id
    let next_expiry = add_months (renewal_base account.subscription_expires_at now) 1
    Accounts.update_subscription_expires_at account.id next_expiry
    let m : Mailbox = activated mailbox now next_expiry
    Mailboxes.update m
    provision s m
    pure (some m)

  -- markMailboxPaid, once the mailbox is found
  unfoldable pub mark_found : Mailbox → Option PaymentCharge → M (Option Mailbox)
  mark_found mailbox charge =
      if is_active mailbox.status then (do provision s mailbox; pure (some mailbox)) else do
        let m = record_charge charge mailbox
        now ← payment_time charge
        if is_empty (trim_space m.account_id)
            then mark_key_bound m now
            else mark_account_bound m now

  -- markMailboxPaid; in free mode it returns no mailbox and no error.
  unfoldable pub mark_mailbox_paid : Bytes → Option PaymentCharge → M (Option Mailbox)
  mark_mailbox_paid payment_session_id charge = if s.free_mode then pure none else do
    mailbox ← Mailboxes.get_by_payment_session_id payment_session_id
    mark_found mailbox charge

  -- RenewMailbox
  unfoldable pub renew_mailbox : Bytes → Time → Time → M ⊤
  renew_mailbox mailbox_id paid_at expires_at = if s.free_mode then pure tt else do
    mailbox ← Mailboxes.get_by_id mailbox_id
    Mailboxes.update (activated mailbox paid_at expires_at)

  -- The renewal branch of ReconcileOpenCollectivePayments
  unfoldable pub renew_by_charge : PaymentCharge → Mailbox → M ⊤
  renew_by_charge charge mailbox = do
    let next_expiry = add_months (renewal_base mailbox.expires_at charge.charged_at) 1
    when (not (is_empty mailbox.account_id)) (
        wrapping (codes "renew account for mailbox")
          (Accounts.update_subscription_expires_at mailbox.account_id next_expiry))
    let m : Mailbox = activated (record_charge (some charge) mailbox) charge.charged_at next_expiry
    wrapping (codes "renew mailbox") (Mailboxes.update m)
    wrapping (codes "provision renewed mailbox") (provision s m)

  -- The body of the loop for a charge that is to be credited
  unfoldable pub apply_charge : PaymentCharge → Mailbox → M ⊤
  apply_charge charge mailbox =
      if is_pending mailbox.status
      then (do
        wrapping (codes "activate mailbox") (mark_mailbox_paid charge.tag (some charge))
        pure tt)
      else renew_by_charge charge mailbox

  abbrev pub charge_found : PaymentCharge → Result Mailbox → M ℕ
  charge_found charge (err e) =
      if is_mailbox_not_found e
      then pure 0
      else raise (Error.wrap (codes "find mailbox for charge") e)
  charge_found charge (ok mailbox) =
      if credits charge mailbox then (do apply_charge charge mailbox; pure 1) else pure 0

  -- The body of the loop of ReconcileOpenCollectivePayments: how many charges it applied, 0 or 1
  unfoldable pub reconcile_charge : PaymentCharge → M ℕ
  reconcile_charge charge = do
    found ← attempt (Mailboxes.get_by_payment_session_id charge.tag)
    charge_found charge found

  -- The loop; an error drops the count so far.
  unfoldable pub reconcile_charges : List PaymentCharge → ℕ → M ℕ
  reconcile_charges [] applied = pure applied
  reconcile_charges (charge ∷ rest) applied = do
    n ← reconcile_charge charge
    reconcile_charges rest (applied + n)

  -- ReconcileOpenCollectivePayments
  unfoldable pub reconcile_open_collective_payments : M ℕ
  reconcile_open_collective_payments = if s.free_mode then pure 0 else do
    charges ← wrapping (codes "list Open Collective charges") list_paid_charges
    reconcile_charges charges 0

  abbrev pending_outcome : Result (Option Mailbox) → ReconcileResult → ReconcileResult
  pending_outcome (ok m) r = record r { action = activated_now }
  pending_outcome (err e) r = record r { action = activate_failed; failure = some e }

  abbrev pub session_found : ReconcileResult → Result PaymentSession → M ReconcileResult
  session_found r (err e) = pure (record r { failure = some e })
  session_found r (ok session) =
      if confirms session.status
      then (do
        outcome ← attempt (mark_mailbox_paid r.session_id none)
        pure (pending_outcome outcome (record r { status = some session.status })))
      else pure (record r { status = some session.status; action = no_action })

  -- The body of the loop of ReconcilePendingPayments
  unfoldable pub reconcile_pending : Mailbox → M ReconcileResult
  reconcile_pending mb =
      let r : ReconcileResult = record {
        mailbox_id = mb.id;
        session_id = mb.payment_session_id;
        status = none;
        action = skipped;
        failure = none;
      } in
      if is_empty mb.payment_session_id
      then pure r
      else do session ← attempt (get_payment_session mb.payment_session_id); session_found r session

  unfoldable pub reconcile_each : List Mailbox → M (List ReconcileResult)
  reconcile_each [] = pure []
  reconcile_each (mb ∷ rest) = do
    r ← reconcile_pending mb
    results ← reconcile_each rest
    pure (r ∷ results)

  -- ReconcilePendingPayments
  unfoldable pub reconcile_pending_payments : M (List ReconcileResult)
  reconcile_pending_payments = if s.free_mode then pure [] else do
    pending ← wrapping (codes "list pending payments") Mailboxes.list_pending_payment
    reconcile_each pending
