-- ===== src/Notify.antt =====
-- internal/adapters/notify/: the texts of the mails, the requests that carry them to the
-- providers, and what an answer of a provider means. The HTTP client and the encoding of a request
-- are the outside: `answer` gives the status of the response to a request.
pub mod Html
pub mod Unsend
pub mod Resend
pub mod Sendgrid
pub mod Mailgun
pub mod Escape
use mailservice.Prelude.{
  ℕ, Bool, not, Option, none, some, List, [], ◌∷◌, ◌++◌, ⊤, leb, if◌then◌else◌, Bytes, codes,
}
use mailservice.Text.{is_empty, trim_space}
use mailservice.Ports.{Result, ok, err, message, SupportMessageParams, Mail}
use mailservice.EdProof.Decimal.{format_int}
use mailservice.Sessions.{trim_slashes}
use mailservice.Notify.Html.{escape_string}

-- What a request says: the body of a JSON request, or the form of Mailgun, which has no text
pub record Email : Type 0 where
  pub from : Bytes
  pub to : Bytes
  pub subject : Bytes
  pub text : Bytes
  pub html : Bytes
  pub reply_to : Option Bytes

-- A request of a provider: its address, and what proves who sends it
pub record Request : Type 0 where
  pub url : Bytes
  pub authorization : Bytes
  pub email : Email

-- The response of a provider
pub record Answer : Type 0 where
  pub status_code : ℕ
  pub body : Bytes

-- supportSubject
unfoldable pub support_subject : SupportMessageParams → Bytes
support_subject params = codes "[" ++ params.mailbox_id ++ codes "] " ++ params.subject

-- supportPlainText
unfoldable pub support_plain_text : SupportMessageParams → Bytes
support_plain_text params =
    codes "--- Agent Support Message ---\nMailbox:     "
    ++ params.mailbox_id
    ++ codes "\nFingerprint: "
    ++ params.fingerprint
    ++ codes "\nStatus:      "
    ++ params.status
    ++ codes "\nOwner:       "
    ++ params.owner_email
    ++ codes "\n---\n\n"
    ++ params.body
    ++ codes "\n"

-- supportHTML
unfoldable pub support_html : SupportMessageParams → Bytes
support_html params =
    codes "<p><strong>Agent Support Message</strong></p><table><tr><td>Mailbox</td><td>"
    ++ escape_string params.mailbox_id
    ++ codes "</td></tr><tr><td>Fingerprint</td><td>"
    ++ escape_string params.fingerprint
    ++ codes "</td></tr><tr><td>Status</td><td>"
    ++ escape_string params.status
    ++ codes "</td></tr><tr><td>Owner</td><td>"
    ++ escape_string params.owner_email
    ++ codes "</td></tr></table><hr><p>"
    ++ escape_string params.body
    ++ codes "</p>"

abbrev pub payment_subject : Bytes
payment_subject = codes "Action needed: complete mailbox payment"

abbrev pub activation_subject : Bytes
activation_subject = codes "Action needed: activate your mailbox"

abbrev pub recovery_subject : Bytes
recovery_subject = codes "Account recovery link"

abbrev pub payment_text : Bytes → Bytes → Bytes
payment_text mailbox_id payment_url =
    codes "Mailbox "
    ++ mailbox_id
    ++ codes " is waiting for payment.\n\nOpen this link to complete activation:\n"
    ++ payment_url
    ++ codes "\n"

abbrev pub payment_html : Bytes → Bytes → Bytes
payment_html mailbox_id payment_url =
    codes "<p>Mailbox <strong>"
    ++ mailbox_id
    ++ codes "</strong> is waiting for payment.</p><p><a href=\""
    ++ payment_url
    ++ codes "\">Complete payment</a></p>"

abbrev pub activation_text : Bytes → Bytes → Bytes
activation_text mailbox_id activation_url =
    codes "Mailbox "
    ++ mailbox_id
    ++ codes
        " is waiting for activation.\n\nOpen this one-time link to activate it (expires in 24 hours):\n"
    ++ activation_url
    ++ codes "\n"

-- The mailbox and the link are escaped by every notifier.
abbrev pub activation_html : Bytes → Bytes → Bytes
activation_html mailbox_id activation_url =
    codes "<p>Mailbox <strong>"
    ++ escape_string mailbox_id
    ++ codes "</strong> is waiting for activation.</p><p><a href=\""
    ++ escape_string activation_url
    ++ codes "\">Activate mailbox</a></p><p>This link is one-time and expires in 24 hours.</p>"

abbrev pub recovery_text : Bytes → Bytes
recovery_text recovery_url =
    codes "Open this one-time recovery link to restore access:\n"
    ++ recovery_url
    ++ codes "\n\nThis link expires in 10 minutes.\n"

abbrev pub recovery_html : Bytes → Bytes
recovery_html recovery_url =
    codes "<p>Open this one-time recovery link to restore access:</p><p><a href=\""
    ++ recovery_url
    ++ codes "\">Recover account access</a></p><p>This link expires in 10 minutes.</p>"

-- `from`, with the name of the sender where there is one
abbrev pub sender : Bytes → Bytes → Bytes
sender from_name from_email =
    if not (is_empty from_name)
    then from_name ++ codes " <" ++ from_email ++ codes ">"
    else from_email

-- A field that is set where it is not empty
abbrev pub non_empty : Bytes → Option Bytes
non_empty s = if not (is_empty s) then some s else none

-- baseURL without its trailing slashes, or the default of the provider
abbrev pub base_or : Bytes → Bytes → Bytes
base_or fallback base_url =
    let trimmed = trim_space (trim_slashes base_url) in
    if is_empty trimmed then fallback else trimmed

-- What a provider's name and the shown body make of a status: 300 and above is an error.
abbrev pub accepted : Bytes → (Answer → Bytes) → Result Answer → Result (Unit {0})
accepted provider shown (err e) = err e
accepted provider shown (ok a) =
    if leb 300 a.status_code
    then err (message (provider ++ codes " status " ++ format_int a.status_code ++ shown a))
    else ok tt

abbrev pub no_body : Answer → Bytes
no_body a = []
