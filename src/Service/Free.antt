-- ===== src/Service/Free.antt =====
-- mailbox_service_free.go and the activation and switchover methods of mailbox_service.go:
-- mailboxes that are activated by an emailed link instead of a payment.
pub mod Activation
use mailservice.Prelude.{
  ℕ, ◌+◌, ◌*◌, Bool, true, false, not, ◌&&◌, none, some, List, [], ◌∷◌, ◌++◌, if◌then◌else◌, Bytes,
  codes,
}
use mailservice.Calendar.{hour}
use mailservice.Text.{is_empty, trim_space}
use mailservice.Domain.{Mailbox, MailboxStatus, Account, is_active, is_pending, is_after}
use mailservice.Ports.{
  Result, ok, err, is_mailbox_not_found, activation_token_invalid, switchover_requires_free_mode,
  message, Mail,
}
use mailservice.World.{
  Env, M, pure, raise, attempt, wrapping, time_now, new_uuid, new_token, send, ◌>>=◌, ◌>>◌,
}
use mailservice.Repository.Mailboxes
use mailservice.Repository.Accounts
use mailservice.Service.{Config, imap_username, blank_mailbox, provision}

abbrev pub activation_token_size : ℕ
activation_token_size = 16

abbrev pub activation_token_ttl : ℕ
activation_token_ttl = 24 * hour

pub record ActivationResult : Type 0 where
  pub mailbox : Mailbox
  pub already_active : Bool

pub record SwitchoverResult : Type 0 where
  pub active_cleared : ℕ
  pub accounts_cleared : ℕ
  pub pending_converted : ℕ

module _ ⦃env : Env⦄ (s : Config) where
  -- newActivationToken: the mailbox with the hash of the token, and the token itself
  unfoldable pub new_activation_token : Mailbox → M (Mailbox × Bytes)
  new_activation_token mailbox = do
    raw ← new_token activation_token_size
    now ← time_now
    pure (
      record mailbox {
        activation_token_hash = env.hash_token raw;
        activation_expires_at = some (now + activation_token_ttl);
        status = MailboxStatus.pending_payment;
        payment_session_id = [];
        payment_url = [];
      },
      raw,
    )

  unfoldable pub activation_url : Bytes → Bytes
  activation_url raw = s.public_base_url ++ codes "/v1/mailboxes/activate?token=" ++ raw

  -- sendActivationLink
  unfoldable pub send_activation_link : Mailbox → Bytes → Bytes → M Mailbox
  send_activation_link mailbox owner_email raw =
      if is_empty (trim_space s.public_base_url)
      then raise (message (codes "public base URL not configured; cannot build activation link"))
      else do
        let url = activation_url raw
        send (Mail.activation_link owner_email url mailbox.id)
        pure (record mailbox { activation_url = url })

  -- issueActivationLink
  unfoldable pub issue_activation_link : Mailbox → Bytes → M Mailbox
  issue_activation_link mailbox owner_email = do
    (m, raw) ← wrapping (codes "generate activation token") (new_activation_token mailbox)
    wrapping (codes "update mailbox activation link") (Mailboxes.update m)
    send_activation_link m owner_email raw

  -- createMailboxWithActivation
  unfoldable pub create_mailbox_with_activation : Mailbox → Bytes → M Mailbox
  create_mailbox_with_activation mailbox owner_email = do
    (m, raw) ← wrapping (codes "generate activation token") (new_activation_token mailbox)
    wrapping (codes "create mailbox") (Mailboxes.create m)
    send_activation_link m owner_email raw

  -- The part of createFreeMailbox that makes a new mailbox
  unfoldable pub create_free_new : Account → Bytes → M (Mailbox × Bool)
  create_free_new account owner_email = do
    id ← new_uuid
    imap_password ← wrapping (codes "generate imap password") (new_token 24)
    access_token ← wrapping (codes "generate access token") (new_token 32)
    let mailbox : Mailbox = record blank_mailbox {
      id = id;
      account_id = account.id;
      owner_email = owner_email;
      imap_host = s.imap_host;
      imap_port = s.imap_port;
      imap_username = imap_username id;
      imap_password = imap_password;
      access_token = access_token;
    }
    created ← create_mailbox_with_activation mailbox owner_email
    pure (created, true)

  abbrev pub create_free_from : Account → Bytes → Result Mailbox → M (Mailbox × Bool)
  create_free_from account owner_email (ok pending) = do
    issued ← issue_activation_link pending pending.owner_email
    pure (issued, false)
  create_free_from account owner_email (err e) =
      if is_mailbox_not_found e then create_free_new account owner_email else raise e

  -- createFreeMailbox
  unfoldable pub create_free_mailbox : Account → Bytes → M (Mailbox × Bool)
  create_free_mailbox account owner_email = do
    pending ← attempt (Mailboxes.get_pending_by_account_id account.id)
    create_free_from account owner_email pending

  -- ActivateMailboxByActivationToken, once the mailbox is found
  unfoldable pub activate_found : Mailbox → M ActivationResult
  activate_found mailbox =
      if is_active mailbox.status
      then (do provision s mailbox; pure (record { mailbox = mailbox; already_active = true }))
      else if not (is_pending mailbox.status)
      then raise activation_token_invalid
      else do
        now ← time_now
        if not (is_after mailbox.activation_expires_at now)
            then raise activation_token_invalid
            else do
              let m : Mailbox = record mailbox {
                status = MailboxStatus.active;
                paid_at = some now;
                expires_at = none;
              }
              Mailboxes.update m
              provision s m
              pure (record { mailbox = m; already_active = false })

  abbrev pub activate_from : Result Mailbox → M ActivationResult
  activate_from (ok mailbox) = activate_found mailbox
  activate_from (err e) = if is_mailbox_not_found e then raise activation_token_invalid else raise e

  -- ActivateMailboxByActivationToken
  unfoldable pub activate_mailbox_by_activation_token : Bytes → M ActivationResult
  activate_mailbox_by_activation_token raw =
      if is_empty (trim_space raw) then raise activation_token_invalid else do
        found ← attempt (Mailboxes.get_by_activation_token_hash (env.hash_token raw))
        activate_from found

  -- The loop of SwitchoverToFreeMode over the pending mailboxes
  unfoldable pub convert_pending : List Mailbox → ℕ → ℕ → M ℕ
  convert_pending [] now converted = pure converted
  convert_pending (mb ∷ rest) now converted =
      if not (is_empty mb.activation_token_hash) && is_after mb.activation_expires_at now
      then convert_pending rest now converted
      else do
        (m, raw) ← wrapping (codes "generate activation token") (new_activation_token mb)
        let owner_email = if is_empty m.billing_email then m.owner_email else m.billing_email
        sent ← wrapping (codes "send activation link") (send_activation_link m owner_email raw)
        wrapping (codes "update mailbox") (Mailboxes.update sent)
        convert_pending rest now (converted + 1)

  -- SwitchoverToFreeMode; an error drops the partial counts.
  unfoldable pub switchover_to_free_mode : M SwitchoverResult
  switchover_to_free_mode = if not s.free_mode then raise switchover_requires_free_mode else do
    cleared ← wrapping (codes "clear active mailbox expiries") Mailboxes.clear_active_expiries
    accounts_cleared ←
        wrapping (codes "clear account subscription expiries")
          Accounts.clear_subscription_expires_at
    pending ← wrapping (codes "list pending mailboxes") Mailboxes.list_pending_payment
    now ← time_now
    converted ← convert_pending pending now 0
    pure (record {
      active_cleared = cleared;
      accounts_cleared = accounts_cleared;
      pending_converted = converted;
    })
