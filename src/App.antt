-- ===== src/App.antt =====
-- cmd/app/main.go: which notifier the program takes, and when it polls for payments.
pub mod Selection
pub mod Schedule
use mailservice.Prelude.{
  Bool, true, false, not, ◌&&◌, ◌||◌, Option, none, some, List, [], ◌∷◌, ◌++◌, if◌then◌else◌, Bytes,
  codes, ◌==ᵇ◌,
}
use mailservice.Text.{is_empty}
use mailservice.AppConfig.{AppConfig}

-- The adapters of ports.Notifier with what they are made of
pub data Notifier : Type 0 where
  unsend : (base_url key from_email from_name : Bytes) → Notifier
  resend : (api_key from_email from_name : Bytes) → Notifier
  sendgrid : (api_key from_email from_name : Bytes) → Notifier
  mailgun : (api_key domain base_url from_email from_name : Bytes) → Notifier
  log_only : Notifier

abbrev pub unsend_of : AppConfig → Notifier
unsend_of c = unsend c.unsend_base_url c.unsend_key c.unsend_from_email c.unsend_from_name

abbrev pub resend_of : AppConfig → Notifier
resend_of c = resend c.resend_api_key c.resend_from_email c.resend_from_name

abbrev pub sendgrid_of : AppConfig → Notifier
sendgrid_of c = sendgrid c.sendgrid_api_key c.sendgrid_from_email c.sendgrid_from_name

abbrev pub mailgun_of : AppConfig → Notifier
mailgun_of c =
    mailgun c.mailgun_api_key c.mailgun_domain c.mailgun_base_url c.mailgun_from_email
      c.mailgun_from_name

-- selectNotifierExplicit; `none` ends the program. `mailgun_ok` is whether NewMailgunNotifier takes
-- its domain.
unfoldable pub select_notifier_explicit : Bool → AppConfig → Option Notifier
select_notifier_explicit mailgun_ok c =
    if c.notifier_provider ==ᵇ codes "unsend"
    then some (unsend_of c)
    else if c.notifier_provider ==ᵇ codes "resend"
    then some (resend_of c)
    else if c.notifier_provider ==ᵇ codes "sendgrid"
    then some (sendgrid_of c)
    else if c.notifier_provider ==ᵇ codes "mailgun"
    then if mailgun_ok then some (mailgun_of c) else none
    else if c.notifier_provider ==ᵇ codes "log"
    then some log_only
    else none

-- selectNotifierCascade
unfoldable pub select_notifier_cascade : AppConfig → Notifier
select_notifier_cascade c =
    if not (is_empty c.unsend_key) && not (is_empty c.unsend_from_email)
    then unsend_of c
    else if not (is_empty c.resend_api_key) && not (is_empty c.resend_from_email)
    then resend_of c
    else if not (is_empty c.sendgrid_api_key) && not (is_empty c.sendgrid_from_email)
    then sendgrid_of c
    else log_only

-- selectNotifier
unfoldable pub select_notifier : Bool → AppConfig → Option Notifier
select_notifier mailgun_ok c =
    if not (is_empty c.notifier_provider)
    then select_notifier_explicit mailgun_ok c
    else some (select_notifier_cascade c)
