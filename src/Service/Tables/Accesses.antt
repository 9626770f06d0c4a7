-- ===== src/Service/Tables/Accesses.antt =====
-- The methods that hand out access and read mail keep a rule of the table.
use mailservice.Prelude.{ℕ, Bool, Option, none, some, Bytes, codes, not, ◌&&◌, ◌||◌}
use mailservice.Calendar.{Time}
use mailservice.Domain.{Mailbox, Account, MailboxStatus, is_active, is_set, subscription_active}
use mailservice.Text.{is_empty, normalize}
use mailservice.Service.Expiry.{expire_mailbox}
use mailservice.Ports.{mailbox_not_usable, invalid_key_proof, message, VerifiedKey}
use mailservice.World.{Env, World, when, ignore}
use mailservice.World.Keeps.{
  Keeps, Keeps-bind, Keeps-pure, Keeps-raise, Keeps-if, Keeps-when, Keeps-ignore,
}
use mailservice.Repository.Mailboxes
use mailservice.Repository.Accounts
use mailservice.Service.{Config, supports_protocol}
use mailservice.Service.Tables.{
  TableRule, Ruled, k_call, k_time, k_update, k_get, k_get_account, k_provision, k_usable,
}
use mailservice.Service.Access.{
  ResolveImapResult, MailReader, ImapMessage, expire_stale, validate_key_bound,
  validate_account_bound, validate_mailbox_subscription, refresh_host, open_mailbox, open_by_token,
  resolve_access_by_token, resolve_found, resolve_access_by_key, read_list, list_messages_by_token,
  or_no_message, read_one, get_message_by_uid_token, clamp_limit,
}
use mailservice.Service.Tables.Payments.{k_expire}

module _ ⦃env : Env⦄ (rule : TableRule) (s : Config) where
  abbrev T : World → Type 0
  T = Ruled rule

  k_stale : (m : Mailbox) (now : Time) → Keeps T (expire_stale s m now)
  unfolding expire_stale
  k_stale m now = Keeps-when T _ _ (Keeps-ignore T _ (k_expire rule s m))

  k_key_bound : (m : Mailbox) (now : Time) → Keeps T (validate_key_bound s m now)
  unfolding validate_key_bound
  k_key_bound m now = Keeps-bind T _ _ (k_usable rule s m) (λ b.
      Keeps-if T _ _ _ (Keeps-pure T _) (Keeps-bind T _ _ (k_stale m now) (λ _. Keeps-raise T _ _)))

  k_account_bound :
      (m : Mailbox) (a : Account) (now : Time) → Keeps T (validate_account_bound s m a now)
  unfolding validate_account_bound
  k_account_bound m a now =
      Keeps-if T (is_active m.status && is_set m.paid_at && not (is_set m.expires_at)) _ _
        (Keeps-pure T m)
        (Keeps-if T (not (subscription_active a now)) _ _
          (Keeps-bind T (when (is_active m.status) (ignore (expire_mailbox s m))) _
            (Keeps-when T _ _ (Keeps-ignore T _ (k_expire rule s m)))
            (λ _. Keeps-raise T Mailbox mailbox_not_usable))
          (Keeps-if T (not (is_active m.status)) _ _
            (Keeps-bind T (ignore (Mailboxes.update revived)) _
              (Keeps-ignore T _ (k_update rule revived)) (λ _. Keeps-pure T revived))
            (Keeps-pure T m)))
    where
      revived : Mailbox
      revived = record m { status = MailboxStatus.active; expires_at = a.subscription_expires_at }

  k_validate : (m : Mailbox) (now : Time) → Keeps T (validate_mailbox_subscription s m now)
  unfolding validate_mailbox_subscription Accounts.get_by_id
  k_validate m now = Keeps-if T _ _ _ (k_key_bound m now) (
      Keeps-bind T _ _ (k_get_account rule _) (λ a.
        Keeps-if T _ _ _
          (Keeps-bind T _ _ (k_usable rule s m)
            (λ b. Keeps-if T _ _ _ (Keeps-pure T _) (Keeps-raise T _ _)))
          (k_account_bound m a now)))

  k_refresh_host : (m : Mailbox) → Keeps T (refresh_host s m)
  unfolding refresh_host
  k_refresh_host m =
      Keeps-if T _ _ _ (Keeps-bind T _ _ (Keeps-ignore T _ (k_update rule _)) (λ _. Keeps-pure T _))
        (Keeps-pure T _)

  k_open : (m : Mailbox) → Keeps T (open_mailbox s m)
  unfolding open_mailbox
  k_open m =
      Keeps-bind T _ _ (k_refresh_host m)
        (λ m'. Keeps-bind T _ _ (k_provision rule s m') (λ _. Keeps-pure T _))

  k_open_by_token : (t : Bytes) → Keeps T (open_by_token s t)
  unfolding open_by_token Mailboxes.get_by_access_token
  k_open_by_token t = Keeps-bind T _ _ (k_get rule _) (λ m.
      Keeps-bind T _ _ (k_time rule) (λ now. Keeps-bind T _ _ (k_validate m now) (λ c. k_open c)))

  -- ResolveAccessByToken
  pub k_by_token : (t protocol : Bytes) → Keeps T (resolve_access_by_token s t protocol)
  unfolding resolve_access_by_token
  k_by_token t protocol =
      Keeps-if T _ _ _ (Keeps-raise T _ _)
        (Keeps-bind T _ _ (k_open_by_token t) (λ m. Keeps-pure T _))

  k_found : (m : Mailbox) → Keeps T (resolve_found s m)
  unfolding resolve_found
  k_found m = Keeps-bind T _ _ (k_time rule) (λ now. Keeps-bind T _ _ (k_usable rule s m) (λ b.
      Keeps-if T _ _ _ (Keeps-bind T _ _ (k_open m) (λ o. Keeps-pure T _))
        (Keeps-bind T _ _ (k_stale m now) (λ _. Keeps-raise T _ _))))

  -- ResolveAccessByKey
  pub k_by_key :
      (key : VerifiedKey) (protocol : Bytes) → Keeps T (resolve_access_by_key s key protocol)
  unfolding resolve_access_by_key Mailboxes.get_by_key_fingerprint
  k_by_key key protocol =
      Keeps-if T (not (supports_protocol protocol)) _ _
        (Keeps-raise T ResolveImapResult (message (codes "unsupported protocol")))
        (Keeps-if T (is_empty (normalize key.fingerprint) || is_empty (normalize key.algorithm)) _ _
          (Keeps-raise T ResolveImapResult invalid_key_proof)
          (Keeps-bind T (Mailboxes.get_by_key_fingerprint (normalize key.fingerprint)) _
            (k_get rule _) (λ m. k_found m)))

  k_read_list :
      (r : Option MailReader) (m : Mailbox) (limit : ℕ) (unread body : Bool)
      → Keeps T (read_list s r m limit unread body)
  k_read_list none m limit unread body = Keeps-pure T _
  k_read_list (some r) m limit unread body = Keeps-bind T _ _ (k_call rule) (λ n. Keeps-pure T _)

  -- ListMessagesByToken
  pub k_list_messages :
      (r : Option MailReader) (t : Bytes) (limit : ℕ) (unread body : Bool)
      → Keeps T (list_messages_by_token s r t limit unread body)
  unfolding list_messages_by_token
  k_list_messages r t limit unread body =
      Keeps-bind T _ _ (k_open_by_token t) (λ m. k_read_list r m (clamp_limit limit) unread body)

  k_or_no_message : (o : Option ImapMessage) → Keeps T (or_no_message s o)
  k_or_no_message none = Keeps-raise T _ _
  k_or_no_message (some x) = Keeps-pure T _

  k_read_one :
      (r : Option MailReader) (m : Mailbox) (uid : ℕ) (body : Bool)
      → Keeps T (read_one s r m uid body)
  k_read_one none m uid body = Keeps-raise T _ _
  k_read_one (some r) m uid body = Keeps-bind T _ _ (k_call rule) (λ n. k_or_no_message _)

  -- GetMessageByUIDToken
  pub k_get_message :
      (r : Option MailReader) (t : Bytes) (uid : ℕ) (body : Bool)
      → Keeps T (get_message_by_uid_token s r t uid body)
  unfolding get_message_by_uid_token
  k_get_message r t uid body = Keeps-bind T _ _ (k_open_by_token t) (λ m. k_read_one r m uid body)
