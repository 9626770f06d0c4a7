-- ===== src/Service/Access.antt =====
-- mailbox_service.go: the methods that hand out IMAP access and read mail, and the check of the
-- subscription that stands before them.
pub mod Gate
use mailservice.Prelude.{
  ℕ, Bool, not, ◌&&◌, ◌||◌, Option, none, some, List, [], ⊤, ltb, ◌==◌, if◌then◌else◌, ◌++◌, Bytes,
  codes,
}
use mailservice.Calendar.{Time}
use mailservice.Text.{is_empty, trim_space, normalize}
use mailservice.Domain.{Mailbox, MailboxStatus, Account, is_active, is_set, subscription_active}
use mailservice.Ports.{
  VerifiedKey, message, mailbox_not_usable, mailbox_not_found, message_not_found, invalid_key_proof,
}
use mailservice.World.{Env, M, pure, raise, ignore, time_now, call, when, ◌>>=◌, ◌>>◌}
use mailservice.Repository.Mailboxes
use mailservice.Repository.Mailboxes.{past_due}
use mailservice.Repository.Accounts
use mailservice.Service.{
  Config, should_rewrite_legacy_imap_host, supports_protocol, provision, check_usable,
}
use mailservice.Service.Expiry.{expire_mailbox}

-- service.ResolveIMAPResult
pub record ResolveImapResult : Type 0 where
  pub mailbox_id : Bytes
  pub host : Bytes
  pub port : ℕ
  pub username : Bytes
  pub password : Bytes
  pub email : Bytes
  pub access_token : Bytes

-- ports.IMAPMessage, without its date
pub record ImapMessage : Type 0 where
  pub uid : ℕ
  pub subject : Bytes
  pub from : Bytes
  pub body : Bytes

-- ports.MailReader: what the IMAP server answers to the call of a number.
pub record MailReader : Type 0 where
  pub list_messages : ℕ → Mailbox → ℕ → Bool → Bool → List ImapMessage
  pub get_message : ℕ → Mailbox → ℕ → Bool → Option ImapMessage

-- The limit of ListMessagesByToken
unfoldable pub clamp_limit : ℕ → ℕ
clamp_limit limit = let l = if limit == 0 then 20 else limit in if ltb 100 l then 100 else l

module _ ⦃env : Env⦄ (s : Config) where
  -- The stale mailbox that is marked expired on the way: active, and past its expiry. Its error
  -- is dropped.
  unfoldable pub expire_stale : Mailbox → Time → M ⊤
  expire_stale mailbox now =
      when (not s.free_mode && is_active mailbox.status && past_due mailbox.expires_at now)
        (ignore (expire_mailbox s mailbox))

  -- The check of a key-bound mailbox
  unfoldable pub validate_key_bound : Mailbox → Time → M Mailbox
  validate_key_bound mailbox now = do
    is_usable ← check_usable s mailbox
    if is_usable then pure mailbox else do expire_stale mailbox now; raise mailbox_not_usable

  -- The check of a mailbox against the subscription of its account
  unfoldable pub validate_account_bound : Mailbox → Account → Time → M Mailbox
  validate_account_bound mailbox account now =
      if is_active mailbox.status && is_set mailbox.paid_at && not (is_set mailbox.expires_at)
      then pure mailbox
      else if not (subscription_active account now)
      then (do
        when (is_active mailbox.status) (ignore (expire_mailbox s mailbox))
        raise mailbox_not_usable)
      else if not (is_active mailbox.status)
      then (do
        let m : Mailbox = record mailbox {
          status = MailboxStatus.active;
          expires_at = account.subscription_expires_at;
        }
        ignore (Mailboxes.update m)
        pure m)
      else pure mailbox

  -- validateMailboxSubscription; the mailbox comes back as the check left it.
  unfoldable pub validate_mailbox_subscription : Mailbox → Time → M Mailbox
  validate_mailbox_subscription mailbox now =
      if is_empty (trim_space mailbox.account_id) then validate_key_bound mailbox now else do
        account ← Accounts.get_by_id mailbox.account_id
        if s.free_mode
            then (do
              is_usable ← check_usable s mailbox
              if is_usable then pure mailbox else raise mailbox_not_usable)
            else validate_account_bound mailbox account now

  -- The IMAP host and port of old rows are brought up to date; the error of the write is dropped.
  unfoldable pub refresh_host : Mailbox → M Mailbox
  refresh_host mailbox =
      if should_rewrite_legacy_imap_host mailbox.imap_host || (mailbox.imap_port == 0)
      then (do
        let m : Mailbox = record mailbox { imap_host = s.imap_host; imap_port = s.imap_port }
        ignore (Mailboxes.update m)
        pure m)
      else pure mailbox

  -- resolveAccessResult
  unfoldable pub resolve_access_result : Mailbox → ResolveImapResult
  resolve_access_result mailbox = record {
    mailbox_id = mailbox.id;
    host = mailbox.imap_host;
    port = mailbox.imap_port;
    username = mailbox.imap_username;
    password = mailbox.imap_password;
    email = mailbox.imap_username ++ codes "@" ++ s.mail_domain;
    access_token = mailbox.access_token;
  }

  -- The rest of a method behind the check: the row is refreshed and mail access is ensured.
  unfoldable pub open_mailbox : Mailbox → M Mailbox
  open_mailbox mailbox = do m ← refresh_host mailbox; provision s m; pure m

  -- The mailbox of an access token, checked and opened
  unfoldable pub open_by_token : Bytes → M Mailbox
  open_by_token access_token = do
    mailbox ← Mailboxes.get_by_access_token access_token
    now ← time_now
    checked ← validate_mailbox_subscription mailbox now
    open_mailbox checked

  -- ResolveAccessByToken
  unfoldable pub resolve_access_by_token : Bytes → Bytes → M ResolveImapResult
  resolve_access_by_token access_token protocol =
      if not (supports_protocol protocol)
      then raise (message (codes "unsupported protocol"))
      else do mailbox ← open_by_token access_token; pure (resolve_access_result mailbox)

  -- ResolveIMAPByToken
  unfoldable pub resolve_imap_by_token : Bytes → M ResolveImapResult
  resolve_imap_by_token access_token = resolve_access_by_token access_token (codes "imap")

  -- ResolveAccessByKey, once the mailbox is found
  unfoldable pub resolve_found : Mailbox → M ResolveImapResult
  resolve_found mailbox = do
    now ← time_now
    is_usable ← check_usable s mailbox
    if is_usable
        then (do m ← open_mailbox mailbox; pure (resolve_access_result m))
        else do expire_stale mailbox now; raise mailbox_not_usable

  -- ResolveAccessByKey
  unfoldable pub resolve_access_by_key : VerifiedKey → Bytes → M ResolveImapResult
  resolve_access_by_key key protocol =
      if not (supports_protocol protocol)
      then raise (message (codes "unsupported protocol"))
      else if is_empty (normalize key.fingerprint) || is_empty (normalize key.algorithm)
      then raise invalid_key_proof
      else do
        mailbox ← Mailboxes.get_by_key_fingerprint (normalize key.fingerprint)
        resolve_found mailbox

  -- ResolveIMAPByKey
  unfoldable pub resolve_imap_by_key : VerifiedKey → M ResolveImapResult
  resolve_imap_by_key key = resolve_access_by_key key (codes "imap")

  abbrev pub read_list : Option MailReader → Mailbox → ℕ → Bool → Bool → M (List ImapMessage)
  read_list none mailbox limit unread_only include_body = pure []
  read_list (some reader) mailbox limit unread_only include_body = do
    n ← call
    pure (reader.list_messages n mailbox limit unread_only include_body)

  -- ListMessagesByToken
  unfoldable pub list_messages_by_token :
      Option MailReader → Bytes → ℕ → Bool → Bool → M (List ImapMessage)
  list_messages_by_token reader access_token limit unread_only include_body = do
    mailbox ← open_by_token access_token
    read_list reader mailbox (clamp_limit limit) unread_only include_body

  abbrev pub or_no_message : Option ImapMessage → M ImapMessage
  or_no_message none = raise message_not_found
  or_no_message (some m) = pure m

  abbrev pub read_one : Option MailReader → Mailbox → ℕ → Bool → M ImapMessage
  read_one none mailbox uid include_body = raise mailbox_not_found
  read_one (some reader) mailbox uid include_body = do
    n ← call
    or_no_message (reader.get_message n mailbox uid include_body)

  -- GetMessageByUIDToken
  unfoldable pub get_message_by_uid_token : Option MailReader → Bytes → ℕ → Bool → M ImapMessage
  get_message_by_uid_token reader access_token uid include_body = do
    mailbox ← open_by_token access_token
    read_one reader mailbox uid include_body
