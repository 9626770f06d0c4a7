-- ===== src/Service/Tables.antt =====
-- A rule of the table `mailboxes` that its writes keep: every method of the mailbox service keeps
-- it too, whether it succeeds or fails.
pub mod Payments
pub mod Activations
pub mod Claims
pub mod Accesses
pub mod Kept
use mailservice.Prelude.{
  ℕ, ◌≡◌, Bool, true, false, Option, none, some, List, [], ◌∷◌, ◌++◌, Bytes, Bool-cases, inl, inr,
  ⊤, if◌then◌else◌,
}
use mailservice.Calendar.{Time}
use mailservice.Domain.{Mailbox, Account, SupportMessage, is_active}
use mailservice.Ports.{
  Error, Result, ok, err, constraint, mailbox_not_found, account_not_found, Mail,
  PaymentLinkRequest,
}
use mailservice.World.{
  Env, World, M, pure, raise, gets, modify, attempt, wrapping, call, time_now, new_uuid, new_token,
  send, create_payment_link, get_payment_session, list_paid_charges, ◌>>=◌,
}
use mailservice.World.Keeps.{
  Keeps, Keeps-bind, Keeps-gets, Keeps-pure, Keeps-raise, Keeps-if, Keeps-wrapping, Keeps-attempt,
  Keeps-modify, Keeps-when, Keeps-lift, Keeps-call, Keeps-time_now, Keeps-new_uuid, Keeps-new_token,
}
use mailservice.Repository.Models.{MailboxModel, to_model}
use mailservice.Repository.Query.{exists_row, update_where}
use mailservice.Repository.Mailboxes
use mailservice.Repository.Mailboxes.{
  blocks_insert, blocks_update, upsert, get_where, list_where, or_not_found, set_mailboxes,
}
use mailservice.Repository.Accounts
use mailservice.Repository.Accounts.{or_raise, get_account}
use mailservice.Repository.Runtime
use mailservice.Repository.Support as SupportMessages
use mailservice.Service.{Config, provision, check_usable}

pub record TableRule : Type 1 where
  pub holds : List MailboxModel → Type 0
  pub on_create :
      (m : Mailbox) (rows : List MailboxModel)
      → exists_row (blocks_insert (to_model m)) rows ≡ false
      → holds rows
      → holds (rows ++ to_model m ∷ [])
  pub on_update :
      (m : Mailbox) (rows : List MailboxModel)
      → exists_row (blocks_update (to_model m)) rows ≡ false
      → holds rows
      → holds (upsert (to_model m) rows)
  pub on_clear :
      (rows : List MailboxModel)
      → holds rows
      → holds (
          update_where
            (λ (r : MailboxModel). is_active r.status)
            (λ r. record r { expires_at = none })
            rows)

abbrev pub Ruled : TableRule → World → Type 0
Ruled rule w = rule.holds w.mailboxes

module _ ⦃env : Env⦄ (rule : TableRule) where
  abbrev T : World → Type 0
  T = Ruled rule

  pub k_call : Keeps T call
  k_call = Keeps-call T (λ n w h. h)

  pub k_time : Keeps T time_now
  k_time = Keeps-time_now T (λ n w h. h)

  pub k_uuid : Keeps T new_uuid
  k_uuid = Keeps-new_uuid T (λ n w h. h)

  pub k_token : (size : ℕ) → Keeps T (new_token size)
  k_token size = Keeps-new_token T (λ n w h. h) size

  pub k_token_or : (text : Bytes) (size : ℕ) → Keeps T (wrapping text (new_token size))
  k_token_or text size = Keeps-wrapping T text (new_token size) (k_token size)

  pub k_send : (mail : Mail) → Keeps T (send mail)
  unfolding send
  k_send mail = Keeps-bind T _ _ k_call (λ _. Keeps-modify T _ (λ w h. h))

  pub k_link : (req : PaymentLinkRequest) → Keeps T (create_payment_link req)
  unfolding create_payment_link
  k_link req = Keeps-bind T _ _ k_call (λ n. Keeps-lift T _)

  pub k_session : (id : Bytes) → Keeps T (get_payment_session id)
  unfolding get_payment_session
  k_session id = Keeps-bind T _ _ k_call (λ n. Keeps-lift T _)

  pub k_charges : Keeps T list_paid_charges
  unfolding list_paid_charges
  k_charges = Keeps-bind T _ _ k_call (λ n. Keeps-lift T _)

  pub k_create : (m : Mailbox) → Keeps T (Mailboxes.create m)
  unfolding Mailboxes.create gets ◌>>=◌ modify raise
  k_create m w h = elim (Bool-cases (env.fails w.ticks)) [
    | inl down ↦ unfold call in simp down h
    | inr up ↦
        unfold call in
        simp up (elim (Bool-cases (exists_row (blocks_insert (to_model m)) w.mailboxes)) [
          | inl blocked ↦ simp blocked h
          | inr free ↦ simp free (rule.on_create m w.mailboxes free h)
        ])
  ]

  pub k_update : (m : Mailbox) → Keeps T (Mailboxes.update m)
  unfolding Mailboxes.update gets ◌>>=◌ modify raise
  k_update m w h = elim (Bool-cases (env.fails w.ticks)) [
    | inl down ↦ unfold call in simp down h
    | inr up ↦
        unfold call in
        simp up (elim (Bool-cases (exists_row (blocks_update (to_model m)) w.mailboxes)) [
          | inl blocked ↦ simp blocked h
          | inr free ↦ simp free (rule.on_update m w.mailboxes free h)
        ])
  ]

  set_holds :
      (rows : List MailboxModel) (n : ℕ) (w : World)
      → rule.holds rows
      → T ((modify (set_mailboxes rows) >>= λ _. pure n) w).1
  unfolding modify pure ◌>>=◌
  set_holds rows n w h = h

  pub k_clear : Keeps T Mailboxes.clear_active_expiries
  unfolding Mailboxes.clear_active_expiries
  k_clear =
      Keeps-bind T _ _ k_call
        (λ _. Keeps-gets T _ _ (λ w h. set_holds _ _ w (rule.on_clear w.mailboxes h)))

  k_or_not_found : (o : Option MailboxModel) → Keeps T (or_not_found o)
  k_or_not_found none = Keeps-raise T _ mailbox_not_found
  k_or_not_found (some r) = Keeps-pure T _

  pub k_get : (p : MailboxModel → Bool) → Keeps T (get_where p)
  unfolding get_where
  k_get p = Keeps-bind T _ _ k_call (λ _. Keeps-gets T _ _ (λ w h. k_or_not_found _ w h))

  pub k_list : (p : MailboxModel → Bool) → Keeps T (list_where p)
  unfolding list_where gets
  k_list p = Keeps-bind T _ _ k_call (λ _ w h. h)

  pub k_list_by_account : (id : Bytes) → Keeps T (Mailboxes.list_by_account_id id)
  unfolding Mailboxes.list_by_account_id gets
  k_list_by_account id = Keeps-bind T _ _ k_call (λ _ w h. h)

  k_or_raise : {A : Type 0} (e : Error) (o : Option A) → Keeps T (or_raise e o)
  k_or_raise e none = Keeps-raise T _ e
  k_or_raise e (some a) = Keeps-pure T a

  pub k_get_account : (p : Account → Bool) → Keeps T (get_account p)
  unfolding get_account
  k_get_account p =
      Keeps-bind T _ _ k_call (λ _. Keeps-gets T _ _ (λ w h. k_or_raise account_not_found _ w h))

  pub k_update_subscription :
      (id : Bytes) (at : Time) → Keeps T (Accounts.update_subscription_expires_at id at)
  unfolding Accounts.update_subscription_expires_at
  k_update_subscription id at =
      Keeps-bind T _ _ k_call (λ _. Keeps-gets T _ _ (λ w h. Keeps-modify T _ (λ w h. h) w h))

  pub k_clear_subscriptions : Keeps T Accounts.clear_subscription_expires_at
  unfolding Accounts.clear_subscription_expires_at
  k_clear_subscriptions = Keeps-bind T _ _ k_call (λ _.
      Keeps-gets T _ _
        (λ w h. Keeps-bind T _ _ (Keeps-modify T _ (λ w h. h)) (λ _. Keeps-pure T _) w h))

  pub k_disable : (m : Mailbox) → Keeps T (Runtime.disable_mailbox m)
  unfolding Runtime.disable_mailbox
  k_disable m = Keeps-bind T _ _ k_call (λ _. Keeps-modify T _ (λ w h. h))

  pub k_ensure : (d : Bytes) (m : Mailbox) → Keeps T (Runtime.ensure_mailbox d m)
  unfolding Runtime.ensure_mailbox
  k_ensure d m = Keeps-bind T _ _ k_call (λ _.
      Keeps-gets T _ _
        (λ w h. Keeps-if T _ _ _ (Keeps-raise T ⊤ constraint) (Keeps-modify T _ (λ w h. h)) w h))

  pub k_store_message : (msg : SupportMessage) → Keeps T (SupportMessages.create msg)
  unfolding SupportMessages.create
  k_store_message msg = Keeps-bind T _ _ k_call (λ _.
      Keeps-gets T _ _
        (λ w h. Keeps-if T _ _ _ (Keeps-raise T ⊤ constraint) (Keeps-modify T _ (λ w h. h)) w h))

  pub k_count_messages :
      (f : Bytes) (since : Time) → Keeps T (SupportMessages.count_recent_by_fingerprint f since)
  unfolding SupportMessages.count_recent_by_fingerprint gets
  k_count_messages f since = Keeps-bind T _ _ k_call (λ _ w h. h)

  pub k_provision : (s : Config) (m : Mailbox) → Keeps T (provision s m)
  unfolding provision
  k_provision s m = Keeps-when T _ _ (k_ensure s.mail_domain m)

  pub k_usable : (s : Config) (m : Mailbox) → Keeps T (check_usable s m)
  unfolding check_usable
  k_usable s m = Keeps-bind T _ _ k_time (λ now. Keeps-pure T _)
