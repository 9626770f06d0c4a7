-- ===== src/Tests/Fixtures.antt =====
-- Data for the tests: an outside that always answers, a configuration, a mailbox, a state.
use mailservice.Prelude.{◌+◌, ◌*◌, false, true, none, some, [], ◌∷◌, codes}
use mailservice.Calendar.{day}
use mailservice.Domain.{Mailbox, MailboxStatus}
use mailservice.Ports.{ok, PaymentCharge, session_open}
use mailservice.World.{Env, World}
use mailservice.Repository.Models.{MailboxModel}
use mailservice.Service.{Config, blank_mailbox}

abbrev pub charge : PaymentCharge
charge = record { tag = codes "tva-1"; charge_id = codes "c1"; charged_at = 5 * day }

abbrev pub test_env : Env
test_env = record {
  clock = λ k. 10 * day + k;
  fails = λ k. false;
  new_token = λ k size. codes "token";
  new_uuid = λ k. codes "uuid";
  hash_token = λ t. t;
  create_payment_link = λ k req. ok (record { session_id = codes "tva-1"; url = codes "pay" });
  get_payment_session =
      λ k id. ok (record { session_id = id; status = session_open; url = codes "pay" });
  list_paid_charges = λ k. ok (charge ∷ []);
}

abbrev pub config : Config
config = record {
  mail_domain = codes "m.lt";
  imap_host = codes "imap.m.lt";
  imap_port = 993;
  discount_id = [];
  coupon_code = [];
  support_email = [];
  support_repo = false;
  provisioner = true;
  charge_source = true;
  free_mode = false;
  public_base_url = codes "u";
}

-- Active, paid, and running until day 20
abbrev pub mailbox : Mailbox
mailbox = record blank_mailbox {
  id = codes "1";
  imap_username = codes "mbx";
  access_token = codes "a";
  payment_session_id = codes "tva-1";
  status = MailboxStatus.active;
  paid_at = some day;
  expires_at = some (20 * day);
  activation_expires_at = some (20 * day);
}

abbrev pub row : MailboxModel
row = record {
  id = codes "1";
  account_id = [];
  owner_email = [];
  billing_email = [];
  key_fingerprint = [];
  imap_host = [];
  imap_port = 0;
  imap_username = codes "mbx";
  imap_password = [];
  access_token = codes "a";
  payment_session_id = codes "tva-1";
  last_payment_charge_id = [];
  last_payment_charged_at = none;
  payment_url = [];
  activation_token_hash = [];
  activation_expires_at = none;
  status = MailboxStatus.active;
  granted_months = 0;
  coupon_used = false;
  paid_at = some day;
  expires_at = some (20 * day);
}

abbrev pub start : World
start = record {
  ticks = 0;
  mailboxes = row ∷ [];
  accounts = [];
  recoveries = [];
  refresh_tokens = [];
  mail_domains = [];
  mail_users = [];
  support_messages = [];
  outbox = [];
  last_claim_reconcile = none;
}
