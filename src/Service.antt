-- ===== src/Service.antt =====
-- internal/core/service/mailbox_service.go: the settings of `MailboxService` and the small
-- functions that its methods share. The methods stand in the modules below.
pub mod Tables
pub mod Free
pub mod Expiry
pub mod Payment
pub mod Claim
pub mod Access
pub mod Accounts
pub mod Support
use mailservice.Prelude.{
  ℕ, ◌*◌, Bool, false, not, ◌||◌, none, [], ◌++◌, ⊤, ◌==◌, if◌then◌else◌, Bytes, codes, ◌==ᵇ◌, take,
}
use mailservice.Calendar.{Time, second}
use mailservice.Text.{is_empty, trim_space, to_lower, to_upper, normalize, remove_byte}
use mailservice.Domain.{Mailbox, MailboxStatus, usable}
use mailservice.Ports.{Result, ok, err, coupon_invalid}
use mailservice.World.{Env, M, time_now, when, ◌>>=◌, pure}
use mailservice.Repository.Runtime
use mailservice.Repository.Mailboxes

-- The fields of `MailboxService` that are not adapters. A nil adapter is a false flag: there is a
-- runtime provisioner, the payment gateway can list charges, there is a support repository.
pub record Config : Type 0 where
  pub mail_domain : Bytes
  pub imap_host : Bytes
  pub imap_port : ℕ
  pub discount_id : Bytes
  pub coupon_code : Bytes
  pub support_email : Bytes
  pub support_repo : Bool
  pub provisioner : Bool
  pub charge_source : Bool
  pub free_mode : Bool
  pub public_base_url : Bytes

-- NewMailboxService, on the settings that it normalises
unfoldable pub new_mailbox_service : Config → Config
unfolding normalize trim_space to_upper
new_mailbox_service c =
    let mail_domain =
      if is_empty (normalize c.mail_domain) then codes "mail.local" else normalize c.mail_domain in
    record c {
      mail_domain = mail_domain;
      imap_host = if is_empty (normalize c.imap_host) then mail_domain else normalize c.imap_host;
      imap_port = if c.imap_port == 0 then 143 else c.imap_port;
      coupon_code = trim_space (to_upper c.coupon_code);
    }

-- SetFreeMode
unfoldable pub set_free_mode : Config → Bool → Config
set_free_mode c enabled = record c { free_mode = enabled }

-- SetPublicBaseURL
unfoldable pub set_public_base_url : Config → Bytes → Config
set_public_base_url c base_url = record c { public_base_url = base_url }

-- SetSupportConfig
unfoldable pub set_support_config : Config → Bytes → Bool → Config
set_support_config c support_email support_repo = record c {
  support_email = support_email;
  support_repo = support_repo;
}

abbrev pub gift_granted_months : ℕ
gift_granted_months = 3

abbrev pub claim_reconcile_cooldown : Time
claim_reconcile_cooldown = 30 * second

-- "mbx_" + strings.ReplaceAll(id[:12], "-", "")
unfoldable pub imap_username : Bytes → Bytes
unfolding remove_byte
imap_username id = codes "mbx_" ++ remove_byte (take 12 id) b'-'

-- shouldRewriteLegacyIMAPHost
unfoldable pub should_rewrite_legacy_imap_host : Bytes → Bool
unfolding normalize
should_rewrite_legacy_imap_host value =
    let host = normalize value in is_empty host || (host ==ᵇ codes "imap.mailservice.local")

-- validateCoupon: the discount and the months that it grants
unfoldable pub validate_coupon : Config → Bytes → Result (Bytes × ℕ)
validate_coupon s code =
    if is_empty code
    then ok ([], 0)
    else if is_empty s.coupon_code || is_empty s.discount_id
    then err coupon_invalid
    else if not (code ==ᵇ s.coupon_code)
    then err coupon_invalid
    else ok (s.discount_id, gift_granted_months)

-- supportsProtocol
unfoldable pub supports_protocol : Bytes → Bool
unfolding normalize
supports_protocol protocol = normalize protocol ==ᵇ codes "imap"

-- The fields that a new mailbox starts from: Go's zero values.
abbrev pub blank_mailbox : Mailbox
blank_mailbox = record {
  id = [];
  account_id = [];
  owner_email = [];
  billing_email = [];
  key_fingerprint = [];
  imap_host = [];
  imap_port = 0;
  imap_username = [];
  imap_password = [];
  access_token = [];
  payment_session_id = [];
  last_payment_charge_id = [];
  last_payment_charged_at = none;
  payment_url = [];
  activation_token_hash = [];
  activation_expires_at = none;
  activation_url = [];
  status = MailboxStatus.pending_payment;
  granted_months = 0;
  coupon_used = false;
  paid_at = none;
  expires_at = none;
}

module _ ⦃env : Env⦄ (s : Config) where
  -- `if s.provisioner != nil { s.provisioner.EnsureMailbox(...) }`; the provisioner is built with
  -- the domain of the configuration, which `NewMailboxService` normalises alike.
  unfoldable pub provision : Mailbox → M ⊤
  provision mailbox = when s.provisioner (Runtime.ensure_mailbox s.mail_domain mailbox)

  -- mailbox.Usable(), at the time that it reads
  unfoldable pub check_usable : Mailbox → M Bool
  check_usable mailbox = do now ← time_now; pure (usable mailbox now)

  -- GetMailbox
  unfoldable pub get_mailbox : Bytes → M Mailbox
  get_mailbox id = Mailboxes.get_by_id id
