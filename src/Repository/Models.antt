-- ===== src/Repository/Models.antt =====
-- The rows of the tables: `mailboxModel` of mailbox_gorm.go with its two conversions, and the rows
-- of `mail_users` that mail_runtime_gorm.go writes.
use mailservice.Prelude.{ℕ, Bool, Option, [], Bytes, if◌then◌else◌}
use mailservice.Calendar.{Time}
use mailservice.Text.{is_empty, trim_space, normalize}
use mailservice.Domain.{Mailbox, MailboxStatus}

pub record MailboxModel : Type 0 where
  pub id : Bytes
  pub account_id : Bytes
  pub owner_email : Bytes
  pub billing_email : Bytes
  pub key_fingerprint : Bytes
  pub imap_host : Bytes
  pub imap_port : ℕ
  pub imap_username : Bytes
  pub imap_password : Bytes
  pub access_token : Bytes
  pub payment_session_id : Bytes
  pub last_payment_charge_id : Bytes
  pub last_payment_charged_at : Option Time
  pub payment_url : Bytes
  pub activation_token_hash : Bytes
  pub activation_expires_at : Option Time
  pub status : MailboxStatus
  pub granted_months : ℕ
  pub coupon_used : Bool
  pub paid_at : Option Time
  pub expires_at : Option Time

-- firstNonEmpty(a, b)
unfoldable pub first_non_empty : Bytes → Bytes → Bytes
first_non_empty a b =
    if is_empty (trim_space a) then (if is_empty (trim_space b) then [] else b) else a

-- toDomain: `ActivationURL` is never stored.
unfoldable pub to_domain : MailboxModel → Mailbox
unfolding first_non_empty
to_domain model = record {
  id = model.id;
  account_id = model.account_id;
  owner_email = model.owner_email;
  billing_email = first_non_empty model.billing_email model.owner_email;
  key_fingerprint = normalize model.key_fingerprint;
  imap_host = model.imap_host;
  imap_port = model.imap_port;
  imap_username = model.imap_username;
  imap_password = model.imap_password;
  access_token = model.access_token;
  payment_session_id = model.payment_session_id;
  last_payment_charge_id = model.last_payment_charge_id;
  last_payment_charged_at = model.last_payment_charged_at;
  payment_url = model.payment_url;
  activation_token_hash = model.activation_token_hash;
  activation_expires_at = model.activation_expires_at;
  activation_url = [];
  status = model.status;
  granted_months = model.granted_months;
  coupon_used = model.coupon_used;
  paid_at = model.paid_at;
  expires_at = model.expires_at;
}

-- toModel
unfoldable pub to_model : Mailbox → MailboxModel
unfolding first_non_empty
to_model mailbox = record {
  id = mailbox.id;
  account_id = mailbox.account_id;
  owner_email = mailbox.owner_email;
  billing_email = first_non_empty (normalize mailbox.billing_email) (normalize mailbox.owner_email);
  key_fingerprint = normalize mailbox.key_fingerprint;
  imap_host = mailbox.imap_host;
  imap_port = mailbox.imap_port;
  imap_username = mailbox.imap_username;
  imap_password = mailbox.imap_password;
  access_token = mailbox.access_token;
  payment_session_id = mailbox.payment_session_id;
  last_payment_charge_id = mailbox.last_payment_charge_id;
  last_payment_charged_at = mailbox.last_payment_charged_at;
  payment_url = mailbox.payment_url;
  activation_token_hash = mailbox.activation_token_hash;
  activation_expires_at = mailbox.activation_expires_at;
  status = mailbox.status;
  granted_months = mailbox.granted_months;
  coupon_used = mailbox.coupon_used;
  paid_at = mailbox.paid_at;
  expires_at = mailbox.expires_at;
}

-- A row of `mail_users`
pub record MailUser : Type 0 where
  pub login : Bytes
  pub email : Bytes
  pub password : Bytes
  pub maildir : Bytes
  pub enabled : Bool
