-- ===== src/Service/Tables/Payments.antt =====
-- Payments, sweeps and activations keep a rule of the table.
use mailservice.Prelude.{ℕ, Option, List, [], ◌∷◌, Bytes}
use mailservice.Calendar.{Time}
use mailservice.Domain.{Mailbox}
use mailservice.Ports.{Result, ok, err, PaymentCharge, PaymentSession}
use mailservice.World.{Env, World}
use mailservice.World.Keeps.{
  Keeps, Keeps-bind, Keeps-pure, Keeps-raise, Keeps-if, Keeps-wrapping, Keeps-attempt, Keeps-when,
}
use mailservice.Repository.Mailboxes
use mailservice.Repository.Accounts
use mailservice.Service.{Config}
use mailservice.Service.Tables.{
  TableRule, Ruled, k_time, k_session, k_charges, k_update, k_get, k_list, k_get_account,
  k_update_subscription, k_disable, k_provision,
}
use mailservice.Service.Payment.{
  ReconcileResult, payment_time, mark_key_bound, mark_account_bound, mark_found, mark_mailbox_paid,
  renew_mailbox, renew_by_charge, apply_charge, charge_found, reconcile_charge, reconcile_charges,
  reconcile_open_collective_payments, session_found, reconcile_pending, reconcile_each,
  reconcile_pending_payments,
}
use mailservice.Service.Expiry.{
  expire_mailbox, expire_mailbox_by_id, expire_all, expire_mailboxes, disable_all,
  disable_expired_mailboxes,
}

module _ ⦃env : Env⦄ (rule : TableRule) (s : Config) where
  abbrev T : World → Type 0
  T = Ruled rule

  k_payment_time : (c : Option PaymentCharge) → Keeps T (payment_time s c)
  unfolding payment_time
  k_payment_time c = Keeps-bind T _ _ (k_time rule) (λ now. Keeps-pure T _)

  k_mark_key : (m : Mailbox) (now : Time) → Keeps T (mark_key_bound s m now)
  unfolding mark_key_bound
  k_mark_key m now =
      Keeps-bind T _ _ (k_update rule _)
        (λ _. Keeps-bind T _ _ (k_provision rule s _) (λ _. Keeps-pure T _))

  k_mark_account : (m : Mailbox) (now : Time) → Keeps T (mark_account_bound s m now)
  unfolding mark_account_bound Accounts.get_by_id
  k_mark_account m now = Keeps-bind T _ _ (k_get_account rule _) (λ a.
      Keeps-bind T _ _ (k_update_subscription rule _ _) (λ _.
        Keeps-bind T _ _ (k_update rule _)
          (λ _. Keeps-bind T _ _ (k_provision rule s _) (λ _. Keeps-pure T _))))

  k_mark_found : (m : Mailbox) (c : Option PaymentCharge) → Keeps T (mark_found s m c)
  unfolding mark_found
  k_mark_found m c =
      Keeps-if T _ _ _ (Keeps-bind T _ _ (k_provision rule s _) (λ _. Keeps-pure T _)) (
        Keeps-bind T _ _ (k_payment_time c)
          (λ now. Keeps-if T _ _ _ (k_mark_key _ now) (k_mark_account _ now)))

  -- MarkMailboxPaid
  pub k_mark_paid : (id : Bytes) (c : Option PaymentCharge) → Keeps T (mark_mailbox_paid s id c)
  unfolding mark_mailbox_paid Mailboxes.get_by_payment_session_id
  k_mark_paid id c =
      Keeps-if T _ _ _ (Keeps-pure T _) (Keeps-bind T _ _ (k_get rule _) (λ m. k_mark_found m c))

  -- RenewMailbox
  pub k_renew : (id : Bytes) (paid until : Time) → Keeps T (renew_mailbox s id paid until)
  unfolding renew_mailbox Mailboxes.get_by_id
  k_renew id paid until =
      Keeps-if T _ _ _ (Keeps-pure T _) (Keeps-bind T _ _ (k_get rule _) (λ m. k_update rule _))

  k_renew_by_charge : (c : PaymentCharge) (m : Mailbox) → Keeps T (renew_by_charge s c m)
  unfolding renew_by_charge
  k_renew_by_charge c m =
      Keeps-bind T _ _ (Keeps-when T _ _ (Keeps-wrapping T _ _ (k_update_subscription rule _ _)))
        (λ _.
          Keeps-bind T _ _ (Keeps-wrapping T _ _ (k_update rule _))
            (λ _. Keeps-wrapping T _ _ (k_provision rule s _)))

  k_apply : (c : PaymentCharge) (m : Mailbox) → Keeps T (apply_charge s c m)
  unfolding apply_charge
  k_apply c m =
      Keeps-if T _ _ _
        (Keeps-bind T _ _ (Keeps-wrapping T _ _ (k_mark_paid _ _)) (λ _. Keeps-pure T _))
        (k_renew_by_charge c m)

  k_charge_found : (c : PaymentCharge) (r : Result Mailbox) → Keeps T (charge_found s c r)
  k_charge_found c (err e) = Keeps-if T _ _ _ (Keeps-pure T _) (Keeps-raise T _ _)
  k_charge_found c (ok m) =
      Keeps-if T _ _ _ (Keeps-bind T _ _ (k_apply c m) (λ _. Keeps-pure T _)) (Keeps-pure T _)

  k_charge : (c : PaymentCharge) → Keeps T (reconcile_charge s c)
  unfolding reconcile_charge Mailboxes.get_by_payment_session_id
  k_charge c = Keeps-bind T _ _ (Keeps-attempt T _ (k_get rule _)) (λ found. k_charge_found c found)

  k_charges_all : (cs : List PaymentCharge) (n : ℕ) → Keeps T (reconcile_charges s cs n)
  unfolding reconcile_charges
  k_charges_all [] n = Keeps-pure T _
  k_charges_all (c ∷ cs) n = Keeps-bind T _ _ (k_charge c) (λ k. k_charges_all cs _)

  -- ReconcileOpenCollectivePayments
  pub k_reconcile : Keeps T (reconcile_open_collective_payments s)
  unfolding reconcile_open_collective_payments
  k_reconcile =
      Keeps-if T _ _ _ (Keeps-pure T _)
        (Keeps-bind T _ _ (Keeps-wrapping T _ _ (k_charges rule)) (λ cs. k_charges_all cs _))

  k_session_found :
      (r : ReconcileResult) (x : Result PaymentSession) → Keeps T (session_found s r x)
  k_session_found r (err e) = Keeps-pure T _
  k_session_found r (ok x) =
      Keeps-if T _ _ _
        (Keeps-bind T _ _ (Keeps-attempt T _ (k_mark_paid _ _)) (λ _. Keeps-pure T _))
        (Keeps-pure T _)

  k_pending : (m : Mailbox) → Keeps T (reconcile_pending s m)
  unfolding reconcile_pending
  k_pending m =
      Keeps-if T _ _ _ (Keeps-pure T _)
        (Keeps-bind T _ _ (Keeps-attempt T _ (k_session rule _)) (λ x. k_session_found _ x))

  k_each : (ms : List Mailbox) → Keeps T (reconcile_each s ms)
  unfolding reconcile_each
  k_each [] = Keeps-pure T _
  k_each (m ∷ ms) =
      Keeps-bind T _ _ (k_pending m) (λ r. Keeps-bind T _ _ (k_each ms) (λ rs. Keeps-pure T _))

  -- ReconcilePendingPayments
  pub k_reconcile_pending : Keeps T (reconcile_pending_payments s)
  unfolding reconcile_pending_payments Mailboxes.list_pending_payment
  k_reconcile_pending =
      Keeps-if T _ _ _ (Keeps-pure T _)
        (Keeps-bind T _ _ (Keeps-wrapping T _ _ (k_list rule _)) (λ ms. k_each ms))

  pub k_expire : (m : Mailbox) → Keeps T (expire_mailbox s m)
  unfolding expire_mailbox
  k_expire m =
      Keeps-bind T _ _ (Keeps-when T _ _ (Keeps-wrapping T _ _ (k_disable rule m)))
        (λ _. k_update rule _)

  -- ExpireMailboxByID
  pub k_expire_by_id : (id : Bytes) → Keeps T (expire_mailbox_by_id s id)
  unfolding expire_mailbox_by_id Mailboxes.get_by_id
  k_expire_by_id id =
      Keeps-if T _ _ _ (Keeps-pure T _) (Keeps-bind T _ _ (k_get rule _) (λ m. k_expire m))

  k_expire_all : (ms : List Mailbox) (n : ℕ) → Keeps T (expire_all s ms n)
  unfolding expire_all
  k_expire_all [] n = Keeps-pure T _
  k_expire_all (m ∷ ms) n =
      Keeps-bind T _ _ (Keeps-wrapping T _ _ (k_expire m)) (λ _. k_expire_all ms _)

  -- ExpireMailboxes
  pub k_sweep : Keeps T (expire_mailboxes s)
  unfolding expire_mailboxes Mailboxes.list_active_expired
  k_sweep = Keeps-if T _ _ _ (Keeps-pure T _) (
      Keeps-bind T _ _ (k_time rule)
        (λ now. Keeps-bind T _ _ (Keeps-wrapping T _ _ (k_list rule _)) (λ ms. k_expire_all ms _)))

  k_disable_all : (ms : List Mailbox) (n : ℕ) → Keeps T (disable_all s ms n)
  unfolding disable_all
  k_disable_all [] n = Keeps-pure T _
  k_disable_all (m ∷ ms) n =
      Keeps-bind T _ _ (Keeps-wrapping T _ _ (k_disable rule m)) (λ _. k_disable_all ms _)

  -- DisableExpiredMailboxes
  pub k_disable_expired : Keeps T (disable_expired_mailboxes s)
  unfolding disable_expired_mailboxes Mailboxes.list_expired
  k_disable_expired =
      Keeps-if T _ _ _ (Keeps-pure T _)
        (Keeps-bind T _ _ (Keeps-wrapping T _ _ (k_list rule _)) (λ ms. k_disable_all ms _))
