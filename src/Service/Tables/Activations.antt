-- ===== src/Service/Tables/Activations.antt =====
-- The activation links of free mode and the switchover keep a rule of the table.
use mailservice.Prelude.{ℕ, none, some, List, [], ◌∷◌, Bytes, not}
use mailservice.Calendar.{Time}
use mailservice.Domain.{Mailbox, Account, MailboxStatus, is_active, is_pending, is_after}
use mailservice.Ports.{activation_token_invalid, Result, ok, err}
use mailservice.World.{Env, World, time_now}
use mailservice.World.Keeps.{
  Keeps, Keeps-bind, Keeps-pure, Keeps-raise, Keeps-if, Keeps-wrapping, Keeps-attempt,
}
use mailservice.Repository.Mailboxes
use mailservice.Service.{Config}
use mailservice.Service.Tables.{
  TableRule, Ruled, k_time, k_uuid, k_token, k_token_or, k_send, k_create, k_update, k_clear, k_get,
  k_list, k_clear_subscriptions, k_provision,
}
use mailservice.Service.Free.{
  ActivationResult, new_activation_token, send_activation_link, issue_activation_link,
  create_mailbox_with_activation, create_free_new, create_free_from, create_free_mailbox,
  activate_found, activate_from, activate_mailbox_by_activation_token, convert_pending,
  switchover_to_free_mode,
}

module _ ⦃env : Env⦄ (rule : TableRule) (s : Config) where
  abbrev T : World → Type 0
  T = Ruled rule

  k_activation_token : (m : Mailbox) → Keeps T (new_activation_token s m)
  unfolding new_activation_token
  k_activation_token m =
      Keeps-bind T _ _ (k_token rule _)
        (λ raw. Keeps-bind T _ _ (k_time rule) (λ now. Keeps-pure T _))

  k_send_link : (m : Mailbox) (owner raw : Bytes) → Keeps T (send_activation_link s m owner raw)
  unfolding send_activation_link
  k_send_link m owner raw =
      Keeps-if T _ _ _ (Keeps-raise T _ _) (Keeps-bind T _ _ (k_send rule _) (λ _. Keeps-pure T _))

  pub k_issue_link : (m : Mailbox) (owner : Bytes) → Keeps T (issue_activation_link s m owner)
  unfolding issue_activation_link
  k_issue_link m owner =
      Keeps-bind T _ _ (Keeps-wrapping T _ _ (k_activation_token m)) (λ t.
        Keeps-bind T _ _ (Keeps-wrapping T _ _ (k_update rule _)) (λ _. k_send_link _ owner _))

  pub k_create_with_link :
      (m : Mailbox) (owner : Bytes) → Keeps T (create_mailbox_with_activation s m owner)
  unfolding create_mailbox_with_activation
  k_create_with_link m owner =
      Keeps-bind T _ _ (Keeps-wrapping T _ _ (k_activation_token m)) (λ t.
        Keeps-bind T _ _ (Keeps-wrapping T _ _ (k_create rule _)) (λ _. k_send_link _ owner _))

  k_free_new : (a : Account) (owner : Bytes) → Keeps T (create_free_new s a owner)
  unfolding create_free_new
  k_free_new a owner = Keeps-bind T _ _ (k_uuid rule) (λ id.
      Keeps-bind T _ _ (k_token_or rule _ _) (λ p.
        Keeps-bind T _ _ (k_token_or rule _ _)
          (λ t. Keeps-bind T _ _ (k_create_with_link _ owner) (λ m. Keeps-pure T _))))

  k_free_from :
      (a : Account) (owner : Bytes) (r : Result Mailbox) → Keeps T (create_free_from s a owner r)
  k_free_from a owner (ok m) = Keeps-bind T _ _ (k_issue_link m _) (λ _. Keeps-pure T _)
  k_free_from a owner (err e) = Keeps-if T _ _ _ (k_free_new a owner) (Keeps-raise T _ _)

  pub k_create_free : (a : Account) (owner : Bytes) → Keeps T (create_free_mailbox s a owner)
  unfolding create_free_mailbox Mailboxes.get_pending_by_account_id
  k_create_free a owner =
      Keeps-bind T _ _ (Keeps-attempt T _ (k_get rule _)) (λ r. k_free_from a owner r)

  k_activate_found : (m : Mailbox) → Keeps T (activate_found s m)
  unfolding activate_found
  k_activate_found m =
      Keeps-if T (is_active m.status) _ _
        (Keeps-bind T _ _ (k_provision rule s m) (λ _. Keeps-pure T _))
        (Keeps-if T (not (is_pending m.status)) _ _
          (Keeps-raise T ActivationResult activation_token_invalid)
          (Keeps-bind T time_now _ (k_time rule) (λ now.
            Keeps-if T (not (is_after m.activation_expires_at now)) _ _
              (Keeps-raise T ActivationResult activation_token_invalid)
              (Keeps-bind T _ _ (k_update rule (activated_at now)) (λ _.
                Keeps-bind T _ _ (k_provision rule s (activated_at now)) (λ _. Keeps-pure T _))))))
    where
      activated_at : Time → Mailbox
      activated_at now = record m {
        status = MailboxStatus.active;
        paid_at = some now;
        expires_at = none;
      }

  k_activate_from : (r : Result Mailbox) → Keeps T (activate_from s r)
  k_activate_from (ok m) = k_activate_found m
  k_activate_from (err e) = Keeps-if T _ _ _ (Keeps-raise T _ _) (Keeps-raise T _ _)

  -- ActivateMailboxByActivationToken
  pub k_activate : (raw : Bytes) → Keeps T (activate_mailbox_by_activation_token s raw)
  unfolding activate_mailbox_by_activation_token Mailboxes.get_by_activation_token_hash
  k_activate raw =
      Keeps-if T _ _ _ (Keeps-raise T _ _)
        (Keeps-bind T _ _ (Keeps-attempt T _ (k_get rule _)) (λ r. k_activate_from r))

  k_convert : (ms : List Mailbox) (now n : ℕ) → Keeps T (convert_pending s ms now n)
  unfolding convert_pending
  k_convert [] now n = Keeps-pure T _
  k_convert (m ∷ ms) now n = Keeps-if T _ _ _ (k_convert ms now n) (
      Keeps-bind T _ _ (Keeps-wrapping T _ _ (k_activation_token m)) (λ t.
        Keeps-bind T _ _ (Keeps-wrapping T _ _ (k_send_link _ _ _)) (λ sent.
          Keeps-bind T _ _ (Keeps-wrapping T _ _ (k_update rule _)) (λ _. k_convert ms now _))))

  -- SwitchoverToFreeMode
  pub k_switchover : Keeps T (switchover_to_free_mode s)
  unfolding switchover_to_free_mode Mailboxes.list_pending_payment
  k_switchover = Keeps-if T _ _ _ (Keeps-raise T _ _) (
      Keeps-bind T _ _ (Keeps-wrapping T _ _ (k_clear rule)) (λ n.
        Keeps-bind T _ _ (Keeps-wrapping T _ _ (k_clear_subscriptions rule)) (λ a.
          Keeps-bind T _ _ (Keeps-wrapping T _ _ (k_list rule _)) (λ ms.
            Keeps-bind T _ _ (k_time rule)
              (λ now. Keeps-bind T _ _ (k_convert ms now _) (λ c. Keeps-pure T _))))))
