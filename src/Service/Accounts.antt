-- ===== src/Service/Accounts.antt =====
-- mailbox_service.go: `CreateMailbox`, the mailbox of an account, and `ReprovisionMailbox`, by
-- which an administrator restores a mailbox.
use mailservice.Prelude.{
  Bool, true, false, not, Option, none, some, List, [], ltb, length, if◌then◌else◌, Bytes, codes,
  ◌==ᵇ◌,
}
use mailservice.Calendar.{Time}
use mailservice.Text.{normalize}
use mailservice.Domain.{Mailbox, MailboxStatus, Account, subscription_active}
use mailservice.Ports.{Result, ok, err, is_mailbox_not_found, message, forbidden, panicked, Mail}
use mailservice.World.{
  Env, M, pure, raise, attempt, wrapping, time_now, new_uuid, new_token, send, create_payment_link,
  ◌>>=◌, ◌>>◌,
}
use mailservice.Repository.Mailboxes
use mailservice.Repository.Runtime
use mailservice.Service.{Config, imap_username, blank_mailbox, provision}
use mailservice.Service.Free.{create_free_mailbox}

pub record ReprovisionRequest : Type 0 where
  pub mailbox_id : Bytes
  pub owner_email : Bytes
  pub key_fingerprint : Bytes
  pub expires_at : Time

module _ ⦃env : Env⦄ (s : Config) where
  -- The mailbox that CreateMailbox makes before it looks at the subscription
  unfoldable pub account_mailbox : Account → Bytes → Bytes → Bytes → Bytes → Mailbox
  account_mailbox account owner_email id imap_password access_token = record blank_mailbox {
    id = id;
    account_id = account.id;
    owner_email = owner_email;
    imap_host = s.imap_host;
    imap_port = s.imap_port;
    imap_username = imap_username id;
    imap_password = imap_password;
    access_token = access_token;
  }

  -- CreateMailbox for a running subscription: the mailbox is active at once.
  unfoldable pub create_subscribed : Account → Time → Mailbox → M (Mailbox × Bool)
  create_subscribed account now mailbox = do
    let m : Mailbox = record mailbox {
      status = MailboxStatus.active;
      paid_at = some now;
      expires_at = account.subscription_expires_at;
    }
    wrapping (codes "create mailbox") (Mailboxes.create m)
    provision s m
    pure (m, true)

  -- CreateMailbox with no subscription: payment is asked for.
  unfoldable pub create_unpaid : Mailbox → M (Mailbox × Bool)
  create_unpaid mailbox = do
    link ← wrapping (codes "create payment link") (
        create_payment_link
          (record { mailbox_id = mailbox.id; owner_email = mailbox.owner_email; discount_id = [] }))
    let m : Mailbox = record mailbox {
      payment_session_id = link.session_id;
      payment_url = link.url;
    }
    wrapping (codes "create mailbox") (Mailboxes.create m)
    wrapping (codes "send payment link") (send (Mail.payment_link m.owner_email m.payment_url m.id))
    pure (m, true)

  unfoldable pub create_new : Account → Bytes → Time → M (Mailbox × Bool)
  create_new account owner_email now = do
    id ← new_uuid
    imap_password ← wrapping (codes "generate imap password") (new_token 24)
    access_token ← wrapping (codes "generate access token") (new_token 32)
    let mailbox = account_mailbox account owner_email id imap_password access_token
    if subscription_active account now
        then create_subscribed account now mailbox
        else create_unpaid mailbox

  abbrev pub pending_or_new : Account → Bytes → Time → Result Mailbox → M (Mailbox × Bool)
  pending_or_new account owner_email now (ok pending) = pure (pending, false)
  pending_or_new account owner_email now (err e) =
      if is_mailbox_not_found e then create_new account owner_email now else raise e

  -- CreateMailbox
  unfoldable pub create_mailbox : Option Account → M (Mailbox × Bool)
  create_mailbox none = raise (message (codes "account is required"))
  create_mailbox (some account) = do
    now ← time_now
    let owner_email = normalize account.owner_email
    if s.free_mode
        then create_free_mailbox s account owner_email
        else if subscription_active account now
        then create_new account owner_email now
        else do
          pending ← attempt (Mailboxes.get_pending_by_account_id account.id)
          pending_or_new account owner_email now pending

  -- GetMailboxForAccount
  unfoldable pub get_mailbox_for_account : Bytes → Bytes → M Mailbox
  get_mailbox_for_account id account_id = do
    mailbox ← Mailboxes.get_by_id id
    if not (mailbox.account_id ==ᵇ account_id) then raise forbidden else pure mailbox

  -- ListMailboxesForAccount
  unfoldable pub list_mailboxes_for_account : Bytes → M (List Mailbox)
  list_mailboxes_for_account account_id = Mailboxes.list_by_account_id account_id

  -- ReprovisionMailbox for a row that is there
  unfoldable pub reprovision_existing : ReprovisionRequest → Time → Mailbox → M Mailbox
  reprovision_existing req now existing = do
    let m : Mailbox = record existing {
      owner_email = req.owner_email;
      billing_email = req.owner_email;
      key_fingerprint = req.key_fingerprint;
      status = MailboxStatus.active;
      paid_at = some now;
      expires_at = some req.expires_at;
    }
    wrapping (codes "update mailbox") (Mailboxes.update m)
    wrapping (codes "provision mailbox") (Runtime.ensure_mailbox s.mail_domain m)
    pure m

  -- ReprovisionMailbox for a new row; `req.MailboxID[:12]` panics on a shorter identifier.
  unfoldable pub reprovision_new : ReprovisionRequest → Time → M Mailbox
  reprovision_new req now = do
    imap_password ← wrapping (codes "generate imap password") (new_token 16)
    access_token ← wrapping (codes "generate access token") (new_token 32)
    if ltb (length req.mailbox_id) 12 then raise panicked else do
      let m : Mailbox = record blank_mailbox {
        id = req.mailbox_id;
        owner_email = req.owner_email;
        billing_email = req.owner_email;
        key_fingerprint = req.key_fingerprint;
        imap_host = s.imap_host;
        imap_port = s.imap_port;
        imap_username = imap_username req.mailbox_id;
        imap_password = imap_password;
        access_token = access_token;
        status = MailboxStatus.active;
        paid_at = some now;
        expires_at = some req.expires_at;
      }
      wrapping (codes "create mailbox") (Mailboxes.create m)
      wrapping (codes "provision mailbox") (Runtime.ensure_mailbox s.mail_domain m)
      pure m

  abbrev pub reprovision_from : ReprovisionRequest → Time → Result Mailbox → M Mailbox
  reprovision_from req now (ok existing) = reprovision_existing req now existing
  reprovision_from req now (err e) = reprovision_new req now

  -- ReprovisionMailbox, which wants a provisioner
  unfoldable pub reprovision_mailbox : ReprovisionRequest → M Mailbox
  reprovision_mailbox req = do
    now ← time_now
    found ← attempt (Mailboxes.get_by_id req.mailbox_id)
    reprovision_from req now found
