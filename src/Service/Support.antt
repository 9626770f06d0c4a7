-- ===== src/Service/Support.antt =====
-- mailbox_service.go: `SendSupportMessage`, by which an agent writes to support, three times an
-- hour.
pub mod Limit
use mailservice.Prelude.{◌-◌, ℕ, not, ◌||◌, ⊤, leb, if◌then◌else◌, ◌++◌, Bytes, codes}
use mailservice.Calendar.{Time, hour}
use mailservice.Text.{is_empty}
use mailservice.Domain.{Mailbox, MailboxStatus, SupportMessage}
use mailservice.Ports.{VerifiedKey, message, rate_limit_reached, Mail, SupportMessageParams}
use mailservice.World.{Env, M, raise, wrapping, time_now, new_uuid, send, ◌>>=◌, ◌>>◌}
use mailservice.Repository.Mailboxes
use mailservice.Repository.Support as SupportMessages
use mailservice.Service.{Config}

abbrev pub support_rate_limit : ℕ
support_rate_limit = 3

abbrev pub support_rate_window : Time
support_rate_window = hour

-- string(mailbox.Status)
abbrev pub status_text : MailboxStatus → Bytes
status_text MailboxStatus.pending_payment = codes "pending_payment"
status_text MailboxStatus.active = codes "active"
status_text MailboxStatus.expired = codes "expired"

module _ ⦃env : Env⦄ (s : Config) where
  -- SendSupportMessage behind the limit: the message is stored and sent.
  unfoldable pub persist_and_send : VerifiedKey → Bytes → Bytes → Mailbox → M ⊤
  persist_and_send key subject body mailbox = do
    id ← new_uuid
    created_at ← time_now
    let msg : SupportMessage = record {
      id = id;
      mailbox_id = mailbox.id;
      key_fingerprint = key.fingerprint;
      subject = subject;
      body = body;
      created_at = created_at;
    }
    wrapping (codes "persist support message") (SupportMessages.create msg)
    let params : SupportMessageParams = record {
      to_email = s.support_email;
      reply_to = mailbox.imap_username ++ codes "@" ++ s.mail_domain;
      mailbox_id = mailbox.id;
      fingerprint = key.fingerprint;
      status = status_text mailbox.status;
      owner_email = mailbox.owner_email;
      subject = subject;
      body = body;
    }
    wrapping (codes "send support message") (send (Mail.support_message params))

  -- SendSupportMessage
  unfoldable pub send_support_message : VerifiedKey → Bytes → Bytes → M ⊤
  send_support_message key subject body =
      if is_empty s.support_email || not s.support_repo
      then raise (message (codes "support not configured"))
      else do
        mailbox ← Mailboxes.get_by_key_fingerprint key.fingerprint
        now ← time_now
        count ← wrapping (codes "check rate limit") (
            SupportMessages.count_recent_by_fingerprint key.fingerprint (now - support_rate_window))
        if leb support_rate_limit count
            then raise rate_limit_reached
            else persist_and_send key subject body mailbox
