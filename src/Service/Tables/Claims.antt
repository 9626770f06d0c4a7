-- ===== src/Service/Tables/Claims.antt =====
-- Claims, the mailboxes of accounts, restored mailboxes and support messages keep a rule of the
-- table.
use mailservice.Prelude.{Bool, false, Option, none, some, Bytes, codes, not, ◌&&◌}
use mailservice.Calendar.{Time}
use mailservice.Domain.{Mailbox, Account, is_pending, subscription_active}
use mailservice.Text.{is_empty, normalize}
use mailservice.Ports.{coupon_already_used, Result, ok, err, PaymentSession, VerifiedKey}
use mailservice.World.{Env, World, attempt, wrapping, time_now}
use mailservice.World.Keeps.{
  Keeps, Keeps-bind, Keeps-gets, Keeps-pure, Keeps-raise, Keeps-if, Keeps-wrapping, Keeps-attempt,
  Keeps-modify, Keeps-lift,
}
use mailservice.Repository.Mailboxes
use mailservice.Service.{Config}
use mailservice.Service.Tables.{
  TableRule, Ruled, k_time, k_uuid, k_token_or, k_send, k_link, k_session, k_create, k_update,
  k_get, k_ensure, k_store_message, k_count_messages, k_provision, k_usable,
}
use mailservice.Service.Claim.{
  ClaimRequest, reconcile_now, reconcile_on_claim, session_reusable, payment_session_reusable,
  relink, reclaim_paid, reclaim, refreshed, paid_meanwhile, claim_after, claim_existing, claim_new,
  claim_from, claim, claim_mailbox,
}
use mailservice.Service.Accounts.{
  ReprovisionRequest, create_subscribed, create_unpaid, create_new, pending_or_new, create_mailbox,
  get_mailbox_for_account, reprovision_existing, reprovision_new, reprovision_from,
  reprovision_mailbox,
}
use mailservice.Service.Support.{persist_and_send, send_support_message}
use mailservice.Service.Tables.Payments.{k_reconcile}
use mailservice.Service.Tables.Activations.{k_issue_link, k_create_with_link, k_create_free}

module _ ⦃env : Env⦄ (rule : TableRule) (s : Config) where
  abbrev T : World → Type 0
  T = Ruled rule

  k_reconcile_now : Keeps T (reconcile_now s)
  unfolding reconcile_now
  k_reconcile_now = Keeps-bind T _ _ (k_time rule) (λ now.
      Keeps-bind T _ _ (Keeps-modify T _ (λ w h. h))
        (λ _. Keeps-bind T _ _ (Keeps-attempt T _ (k_reconcile rule s)) (λ n. Keeps-pure T _)))

  k_on_claim : Keeps T (reconcile_on_claim s)
  unfolding reconcile_on_claim
  k_on_claim = Keeps-if T _ _ _ (Keeps-pure T _) (
      Keeps-bind T _ _ (k_time rule)
        (λ now. Keeps-gets T _ _ (λ w h. Keeps-if T _ _ _ (Keeps-pure T _) k_reconcile_now w h)))

  k_reusable_from : (r : Result PaymentSession) → Keeps T (session_reusable s r)
  k_reusable_from (err e) = Keeps-if T _ _ _ (Keeps-pure T _) (Keeps-raise T _ _)
  k_reusable_from (ok x) = Keeps-pure T _

  k_reusable : (id : Bytes) → Keeps T (payment_session_reusable s id)
  unfolding payment_session_reusable
  k_reusable id = Keeps-bind T _ _ (Keeps-attempt T _ (k_session rule id)) (λ r. k_reusable_from r)

  k_relink : (req : ClaimRequest) (m : Mailbox) → Keeps T (relink s req m)
  unfolding relink
  k_relink req m = Keeps-bind T _ _ (Keeps-wrapping T _ _ (k_link rule _)) (λ l.
      Keeps-bind T _ _ (Keeps-wrapping T _ _ (k_update rule _))
        (λ _. Keeps-bind T _ _ (Keeps-wrapping T _ _ (k_send rule _)) (λ _. Keeps-pure T _)))

  k_reclaim_paid : (req : ClaimRequest) (m : Mailbox) → Keeps T (reclaim_paid s req m)
  unfolding reclaim_paid
  k_reclaim_paid req m =
      Keeps-if T (not (is_empty req.coupon_code) && m.coupon_used) _ _
        (Keeps-raise T (Mailbox × Bool) coupon_already_used)
        (Keeps-if T
          (is_pending m.status
            && not (is_empty m.payment_session_id)
            && not (is_empty m.payment_url))
          _ _
          (Keeps-bind T
            (wrapping (codes "validate payment session")
              (payment_session_reusable s m.payment_session_id))
            _ (Keeps-wrapping T _ _ (k_reusable m.payment_session_id))
            (λ b. Keeps-if T b _ _ (Keeps-pure T (m, false)) (k_relink req m)))
          (k_relink req m))

  k_reclaim : (req : ClaimRequest) (m : Mailbox) → Keeps T (reclaim s req m)
  unfolding reclaim
  k_reclaim req m =
      Keeps-if T _ _ _ (Keeps-bind T _ _ (k_issue_link rule s _ _) (λ i. Keeps-pure T _))
        (k_reclaim_paid req m)

  k_refreshed : (r : Result Mailbox) → Keeps T (refreshed s r)
  k_refreshed (err e) = Keeps-pure T _
  k_refreshed (ok m) = Keeps-bind T _ _ (k_usable rule s m) (λ b. Keeps-pure T _)

  k_meanwhile : (m : Mailbox) → Keeps T (paid_meanwhile s m)
  unfolding paid_meanwhile Mailboxes.get_by_id
  k_meanwhile m =
      Keeps-if T _ _ _
        (Keeps-bind T _ _ k_on_claim (λ b.
          Keeps-if T _ _ _
            (Keeps-bind T _ _ (Keeps-attempt T _ (k_get rule _)) (λ r. k_refreshed r))
            (Keeps-pure T _)))
        (Keeps-pure T _)

  k_claim_after :
      (req : ClaimRequest) (m : Mailbox) (o : Option Mailbox) → Keeps T (claim_after s req m o)
  k_claim_after req m (some fresh) = Keeps-pure T _
  k_claim_after req m none = k_reclaim req m

  k_claim_existing : (req : ClaimRequest) (m : Mailbox) → Keeps T (claim_existing s req m)
  unfolding claim_existing
  k_claim_existing req m = Keeps-bind T _ _ (k_usable rule s m) (λ b.
      Keeps-if T _ _ _ (Keeps-pure T _)
        (Keeps-bind T _ _ (k_meanwhile m) (λ o. k_claim_after req m o)))

  k_claim_new : (req : ClaimRequest) → Keeps T (claim_new s req)
  unfolding claim_new
  k_claim_new req = Keeps-bind T _ _ (k_uuid rule) (λ id.
      Keeps-bind T _ _ (k_token_or rule _ _) (λ p. Keeps-bind T _ _ (k_token_or rule _ _) (λ t.
        Keeps-if T _ _ _ (Keeps-bind T _ _ (k_create_with_link rule s _ _) (λ m. Keeps-pure T _)) (
          Keeps-bind T _ _ (Keeps-wrapping T _ _ (k_link rule _)) (λ l.
            Keeps-bind T _ _ (Keeps-wrapping T _ _ (k_create rule _)) (λ _.
              Keeps-bind T _ _ (Keeps-wrapping T _ _ (k_send rule _)) (λ _. Keeps-pure T _)))))))

  k_claim_from : (req : ClaimRequest) (r : Result Mailbox) → Keeps T (claim_from s req r)
  k_claim_from req (ok m) = k_claim_existing req m
  k_claim_from req (err e) = Keeps-if T _ _ _ (k_claim_new req) (Keeps-raise T _ _)

  k_claim_request : (req : ClaimRequest) → Keeps T (claim s req)
  unfolding claim Mailboxes.get_by_key_fingerprint
  k_claim_request req =
      Keeps-bind T _ _ (Keeps-attempt T _ (k_get rule _)) (λ r. k_claim_from req r)

  -- ClaimMailbox
  pub k_claim :
      (email : Bytes) (key : VerifiedKey) (coupon : Bytes)
      → Keeps T (claim_mailbox s email key coupon)
  unfolding claim_mailbox
  k_claim email key coupon = Keeps-bind T _ _ (Keeps-lift T _) (λ req. k_claim_request req)

  k_subscribed : (a : Account) (now : Time) (m : Mailbox) → Keeps T (create_subscribed s a now m)
  unfolding create_subscribed
  k_subscribed a now m =
      Keeps-bind T _ _ (Keeps-wrapping T _ _ (k_create rule _))
        (λ _. Keeps-bind T _ _ (k_provision rule s _) (λ _. Keeps-pure T _))

  k_unpaid : (m : Mailbox) → Keeps T (create_unpaid s m)
  unfolding create_unpaid
  k_unpaid m = Keeps-bind T _ _ (Keeps-wrapping T _ _ (k_link rule _)) (λ l.
      Keeps-bind T _ _ (Keeps-wrapping T _ _ (k_create rule _))
        (λ _. Keeps-bind T _ _ (Keeps-wrapping T _ _ (k_send rule _)) (λ _. Keeps-pure T _)))

  k_new : (a : Account) (owner : Bytes) (now : Time) → Keeps T (create_new s a owner now)
  unfolding create_new
  k_new a owner now = Keeps-bind T _ _ (k_uuid rule) (λ id.
      Keeps-bind T _ _ (k_token_or rule _ _) (λ p.
        Keeps-bind T _ _ (k_token_or rule _ _)
          (λ t. Keeps-if T _ _ _ (k_subscribed a now _) (k_unpaid _))))

  k_pending_or_new :
      (a : Account) (owner : Bytes) (now : Time) (r : Result Mailbox)
      → Keeps T (pending_or_new s a owner now r)
  k_pending_or_new a owner now (ok m) = Keeps-pure T _
  k_pending_or_new a owner now (err e) = Keeps-if T _ _ _ (k_new a owner now) (Keeps-raise T _ _)

  -- CreateMailbox
  pub k_create_mailbox : (o : Option Account) → Keeps T (create_mailbox s o)
  unfolding create_mailbox Mailboxes.get_pending_by_account_id
  k_create_mailbox none = Keeps-raise T _ _
  k_create_mailbox (some a) = Keeps-bind T time_now _ (k_time rule) (λ now.
      Keeps-if T s.free_mode _ _ (k_create_free rule s a (normalize a.owner_email)) (
        Keeps-if T (subscription_active a now) _ _ (k_new a (normalize a.owner_email) now) (
          Keeps-bind T (attempt (Mailboxes.get_pending_by_account_id a.id)) _
            (Keeps-attempt T _ (k_get rule _))
            (λ r. k_pending_or_new a (normalize a.owner_email) now r))))

  -- GetMailboxForAccount
  pub k_get_for_account :
      (id account_id : Bytes) → Keeps T (get_mailbox_for_account s id account_id)
  unfolding get_mailbox_for_account Mailboxes.get_by_id
  k_get_for_account id account_id =
      Keeps-bind T _ _ (k_get rule _) (λ m. Keeps-if T _ _ _ (Keeps-raise T _ _) (Keeps-pure T _))

  k_existing :
      (req : ReprovisionRequest) (now : Time) (m : Mailbox)
      → Keeps T (reprovision_existing s req now m)
  unfolding reprovision_existing
  k_existing req now m =
      Keeps-bind T _ _ (Keeps-wrapping T _ _ (k_update rule _))
        (λ _. Keeps-bind T _ _ (Keeps-wrapping T _ _ (k_ensure rule _ _)) (λ _. Keeps-pure T _))

  k_restored : (req : ReprovisionRequest) (now : Time) → Keeps T (reprovision_new s req now)
  unfolding reprovision_new
  k_restored req now = Keeps-bind T _ _ (k_token_or rule _ _) (λ p.
      Keeps-bind T _ _ (k_token_or rule _ _) (λ t. Keeps-if T _ _ _ (Keeps-raise T _ _) (
        Keeps-bind T _ _ (Keeps-wrapping T _ _ (k_create rule _)) (λ _.
          Keeps-bind T _ _ (Keeps-wrapping T _ _ (k_ensure rule _ _)) (λ _. Keeps-pure T _)))))

  k_reprovision_from :
      (req : ReprovisionRequest) (now : Time) (r : Result Mailbox)
      → Keeps T (reprovision_from s req now r)
  k_reprovision_from req now (ok m) = k_existing req now m
  k_reprovision_from req now (err e) = k_restored req now

  -- ReprovisionMailbox
  pub k_reprovision : (req : ReprovisionRequest) → Keeps T (reprovision_mailbox s req)
  unfolding reprovision_mailbox Mailboxes.get_by_id
  k_reprovision req = Keeps-bind T _ _ (k_time rule) (λ now.
      Keeps-bind T _ _ (Keeps-attempt T _ (k_get rule _)) (λ r. k_reprovision_from req now r))

  k_persist :
      (key : VerifiedKey) (subject body : Bytes) (m : Mailbox)
      → Keeps T (persist_and_send s key subject body m)
  unfolding persist_and_send
  k_persist key subject body m = Keeps-bind T _ _ (k_uuid rule) (λ id.
      Keeps-bind T _ _ (k_time rule) (λ at.
        Keeps-bind T _ _ (Keeps-wrapping T _ _ (k_store_message rule _))
          (λ _. Keeps-wrapping T _ _ (k_send rule _))))

  -- SendSupportMessage
  pub k_support :
      (key : VerifiedKey) (subject body : Bytes) → Keeps T (send_support_message s key subject body)
  unfolding send_support_message Mailboxes.get_by_key_fingerprint
  k_support key subject body = Keeps-if T _ _ _ (Keeps-raise T _ _) (
      Keeps-bind T _ _ (k_get rule _) (λ m. Keeps-bind T _ _ (k_time rule) (λ now.
        Keeps-bind T _ _ (Keeps-wrapping T _ _ (k_count_messages rule _ _))
          (λ n. Keeps-if T _ _ _ (Keeps-raise T _ _) (k_persist key subject body m)))))
