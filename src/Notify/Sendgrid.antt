-- ===== src/Notify/Sendgrid.antt =====
-- internal/adapters/notify/sendgrid_notifier.go: the notifier of Sendgrid.
use mailservice.Text.{is_empty}
use mailservice.Prelude.{some, not, if◌then◌else◌, [], ◌++◌, none, Option, Bytes, codes}
use mailservice.Ports.{Result, SupportMessageParams, Mail}
use mailservice.Notify.{
  Answer, support_subject, support_plain_text, support_html, payment_subject, activation_subject,
  recovery_subject, payment_text, payment_html, activation_text, activation_html, recovery_text,
  recovery_html, accepted,
}

-- mail.Email of the library: a name and an address
pub record Address : Type 0 where
  pub name : Bytes
  pub address : Bytes

-- mail.SGMailV3, as NewSingleEmail and SetReplyTo make it
pub record Message : Type 0 where
  pub from : Address
  pub subject : Bytes
  pub to : Address
  pub plain_text : Bytes
  pub html : Bytes
  pub reply_to : Option Address

pub record SendGridNotifier : Type 0 where
  pub client : Message → Result Answer
  pub from_email : Bytes
  pub from_name : Bytes

-- NewSendGridNotifier; `new_client` is sendgrid.NewSendClient.
unfoldable pub new_sendgrid_notifier :
    (Bytes → Message → Result Answer) → Bytes → Bytes → Bytes → SendGridNotifier
new_sendgrid_notifier new_client api_key from_email from_name = record {
  client = new_client api_key;
  from_email = from_email;
  from_name = from_name;
}

-- The body of the response is part of the error.
abbrev shown : Answer → Bytes
shown a = codes ": " ++ a.body

module _ (n : SendGridNotifier) where
  -- send
  unfoldable pub send : Bytes → Bytes → Bytes → Bytes → Result (Unit {0})
  send to_email subject plain_text html = accepted (codes "sendgrid") shown (
      n.client (record {
        from = record { name = n.from_name; address = n.from_email };
        subject = subject;
        to = record { name = []; address = to_email };
        plain_text = plain_text;
        html = html;
        reply_to = none;
      }))

  -- SendPaymentLink: neither the mailbox nor the link is escaped.
  unfoldable pub send_payment_link : Bytes → Bytes → Bytes → Result (Unit {0})
  send_payment_link owner_email payment_url mailbox_id =
      send owner_email payment_subject (payment_text mailbox_id payment_url)
        (payment_html mailbox_id payment_url)

  -- SendActivationLink
  unfoldable pub send_activation_link : Bytes → Bytes → Bytes → Result (Unit {0})
  send_activation_link owner_email activation_url mailbox_id =
      send owner_email activation_subject (activation_text mailbox_id activation_url)
        (activation_html mailbox_id activation_url)

  -- SendRecoveryLink: the link is not escaped.
  unfoldable pub send_recovery_link : Bytes → Bytes → Result (Unit {0})
  send_recovery_link owner_email recovery_url =
      send owner_email recovery_subject (recovery_text recovery_url) (recovery_html recovery_url)

  abbrev reply_address : Bytes → Option Address
  reply_address reply_to =
      if not (is_empty reply_to) then some (record { name = []; address = reply_to }) else none

  -- SendSupportMessage
  unfoldable pub send_support_message : SupportMessageParams → Result (Unit {0})
  send_support_message params = accepted (codes "sendgrid") shown (
      n.client (record {
        from = record { name = n.from_name; address = n.from_email };
        subject = support_subject params;
        to = record { name = []; address = params.to_email };
        plain_text = support_plain_text params;
        html = support_html params;
        reply_to = reply_address params.reply_to;
      }))

  -- The notifier as ports.Notifier
  unfoldable pub notify : Mail → Result (Unit {0})
  notify (Mail.payment_link owner url id) = send_payment_link owner url id
  notify (Mail.activation_link owner url id) = send_activation_link owner url id
  notify (Mail.recovery_link owner url) = send_recovery_link owner url
  notify (Mail.support_message params) = send_support_message params
