-- ===== src/Domain.antt =====
-- internal/domain: the records of the program. Time stamps that only the database writes
-- (`CreatedAt`, `UpdatedAt` of mailboxes, accounts and tokens) are left out; a table keeps its rows
-- in the order in which they were created.
use mailservice.Prelude.{ℕ, Bool, true, false, Option, none, some, Bytes, if◌then◌else◌}
use mailservice.Calendar.{Time, after}

-- domain.MailboxStatus
pub data MailboxStatus : Type 0 where
  pending_payment active expired : MailboxStatus

-- status == domain.MailboxStatusActive
abbrev pub is_active : MailboxStatus → Bool
is_active active = true
is_active pending_payment = false
is_active expired = false

-- status == domain.MailboxStatusPendingPayment
abbrev pub is_pending : MailboxStatus → Bool
is_pending pending_payment = true
is_pending active = false
is_pending expired = false

-- status == domain.MailboxStatusExpired
abbrev pub is_expired : MailboxStatus → Bool
is_expired expired = true
is_expired active = false
is_expired pending_payment = false

-- domain.Mailbox
pub record Mailbox : Type 0 where
  pub id : Bytes
  pub account_id : Bytes
  pub owner_email : Bytes
  pub billing_email : Bytes
  pub key_fingerprint : Bytes
  pub imap_host : Bytes
  pub imap_port : ℕ
  pub imap_username : Bytes
  pub imap_password : Bytes
  pub access_token : Bytes
  pub payment_session_id : Bytes
  pub last_payment_charge_id : Bytes
  pub last_payment_charged_at : Option Time
  pub payment_url : Bytes
  pub activation_token_hash : Bytes
  pub activation_expires_at : Option Time
  pub activation_url : Bytes
  pub status : MailboxStatus
  pub granted_months : ℕ
  pub coupon_used : Bool
  pub paid_at : Option Time
  pub expires_at : Option Time

-- t != nil && t.After(now)
abbrev pub is_after : Option Time → Time → Bool
is_after none now = false
is_after (some t) now = after t now

abbrev pub is_set {ℓ} : {A : Type ℓ} → Option A → Bool
is_set none = false
is_set (some a) = true

-- The expiry test of `Usable`: no expiry, or one after `now`.
abbrev pub not_lapsed : Option Time → Time → Bool
not_lapsed none now = true
not_lapsed (some t) now = after t now

-- Mailbox.Usable; the clock that it reads is the argument.
unfoldable pub usable : Mailbox → Time → Bool
usable m now =
    if is_active m.status
    then (if is_set m.paid_at then not_lapsed m.expires_at now else false)
    else false

-- domain.Account
pub record Account : Type 0 where
  pub id : Bytes
  pub owner_email : Bytes
  pub api_token : Bytes
  pub subscription_expires_at : Option Time

-- Account.SubscriptionActive
unfoldable pub subscription_active : Account → Time → Bool
subscription_active a now = is_after a.subscription_expires_at now

-- domain.AccountRecovery; the rate limit reads `created_at`.
pub record AccountRecovery : Type 0 where
  pub id : Bytes
  pub account_id : Bytes
  pub code_hash : Bytes
  pub expires_at : Time
  pub used_at : Option Time
  pub created_at : Time

-- domain.RefreshToken
pub record RefreshToken : Type 0 where
  pub id : Bytes
  pub account_id : Bytes
  pub token_hash : Bytes
  pub expires_at : Time
  pub used_at : Option Time

-- domain.SupportMessage
pub record SupportMessage : Type 0 where
  pub id : Bytes
  pub mailbox_id : Bytes
  pub key_fingerprint : Bytes
  pub subject : Bytes
  pub body : Bytes
  pub created_at : Time
