-- ===== src/Notify/Mailgun.antt =====
-- internal/adapters/notify/mailgun_notifier.go: the notifier of Mailgun.
use mailservice.Notify.Html.{escape_string}
use mailservice.Prelude.{
  not, ℕ, Bool, false, ◌&&◌, ◌||◌, ◌==◌, leb, take, if◌then◌else◌, [], ◌∷◌, ◌++◌, none, Bytes,
  codes,
}
use mailservice.Ports.{Result, ok, err, message, SupportMessageParams, Mail}
use mailservice.Notify.{
  Request, Answer, support_subject, support_html, payment_subject, activation_subject,
  recovery_subject, payment_html, activation_html, recovery_html, sender, non_empty, base_or,
  accepted,
}

-- The domain in the address of a request
abbrev is_alnum : ℕ → Bool
is_alnum c = (leb b'a' c && leb c b'z') || (leb b'A' c && leb c b'Z') || (leb b'0' c && leb c b'9')

-- ([a-zA-Z0-9.-]*[a-zA-Z0-9])?$, behind a first letter or digit: the last byte is one too.
unfoldable valid_rest : ℕ → Bytes → Bool
valid_rest last [] = is_alnum last
valid_rest last (c ∷ s) =
    let rest = valid_rest c s in if is_alnum c || (c == b'.') || (c == b'-') then rest else false

-- validDomainRe
unfoldable pub valid_domain : Bytes → Bool
unfolding valid_rest
valid_domain [] = false
valid_domain (c ∷ s) = is_alnum c && valid_rest c s

pub record MailgunNotifier : Type 0 where
  pub api_key : Bytes
  pub domain : Bytes
  pub base_url : Bytes
  pub from_email : Bytes
  pub from_name : Bytes

-- NewMailgunNotifier; the error is `invalid mailgun domain`.
unfoldable pub new_mailgun_notifier : Bytes → Bytes → Bytes → Bytes → Bytes → Result MailgunNotifier
unfolding valid_domain
new_mailgun_notifier api_key domain base_url from_email from_name =
    if not (valid_domain domain)
    then err (message (codes "invalid mailgun domain"))
    else ok (record {
      api_key = api_key;
      domain = domain;
      base_url = base_or (codes "https://api.mailgun.net") base_url;
      from_email = from_email;
      from_name = from_name;
    })

-- At most 512 bytes of the response are part of the error.
abbrev pub shown : Answer → Bytes
shown a = codes ": " ++ take 512 a.body

module _ (answer : Request → Result Answer) (n : MailgunNotifier) where
  -- The address of the domain's messages
  abbrev endpoint : Bytes
  endpoint = n.base_url ++ codes "/v3/" ++ n.domain ++ codes "/messages"

  -- send; the user of the basic authorization is `api`.
  unfoldable pub send : Bytes → Bytes → Bytes → Result (Unit {0})
  send to subject html = accepted (codes "mailgun") shown (
      answer (record {
        url = endpoint;
        authorization = codes "api:" ++ n.api_key;
        email = record {
          from = sender n.from_name n.from_email;
          to = to;
          subject = subject;
          text = [];
          html = html;
          reply_to = none;
        };
      }))

  -- SendPaymentLink
  unfoldable pub send_payment_link : Bytes → Bytes → Bytes → Result (Unit {0})
  send_payment_link owner_email payment_url mailbox_id =
      send owner_email payment_subject
        (payment_html (escape_string mailbox_id) (escape_string payment_url))

  -- SendActivationLink
  unfoldable pub send_activation_link : Bytes → Bytes → Bytes → Result (Unit {0})
  send_activation_link owner_email activation_url mailbox_id =
      send owner_email activation_subject (activation_html mailbox_id activation_url)

  -- SendRecoveryLink
  unfoldable pub send_recovery_link : Bytes → Bytes → Result (Unit {0})
  send_recovery_link owner_email recovery_url =
      send owner_email recovery_subject (recovery_html (escape_string recovery_url))

  -- SendSupportMessage
  unfoldable pub send_support_message : SupportMessageParams → Result (Unit {0})
  send_support_message params = accepted (codes "mailgun") shown (
      answer (record {
        url = endpoint;
        authorization = codes "api:" ++ n.api_key;
        email = record {
          from = sender n.from_name n.from_email;
          to = params.to_email;
          subject = support_subject params;
          text = [];
          html = support_html params;
          reply_to = non_empty params.reply_to;
        };
      }))

  -- The notifier as ports.Notifier
  unfoldable pub notify : Mail → Result (Unit {0})
  notify (Mail.payment_link owner url id) = send_payment_link owner url id
  notify (Mail.activation_link owner url id) = send_activation_link owner url id
  notify (Mail.recovery_link owner url) = send_recovery_link owner url
  notify (Mail.support_message params) = send_support_message params
