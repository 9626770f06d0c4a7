-- ===== src/Notify/Resend.antt =====
-- internal/adapters/notify/resend_notifier.go: the notifier of Resend.
use mailservice.Prelude.{◌++◌, none, Bytes, codes}
use mailservice.Ports.{Result, SupportMessageParams, Mail}
use mailservice.Notify.{
  Request, Answer, support_subject, support_plain_text, support_html, payment_subject,
  activation_subject, recovery_subject, payment_text, payment_html, activation_text,
  activation_html, recovery_text, recovery_html, sender, non_empty, accepted, no_body,
}

pub record ResendNotifier : Type 0 where
  pub api_key : Bytes
  pub from_email : Bytes
  pub from_name : Bytes

-- NewResendNotifier
unfoldable pub new_resend_notifier : Bytes → Bytes → Bytes → ResendNotifier
new_resend_notifier api_key from_email from_name = record {
  api_key = api_key;
  from_email = from_email;
  from_name = from_name;
}

module _ (answer : Request → Result Answer) (n : ResendNotifier) where
  -- send
  unfoldable pub send : Bytes → Bytes → Bytes → Bytes → Result (Unit {0})
  send to_email subject plain_text html = accepted (codes "resend") no_body (
      answer (record {
        url = codes "https://api.resend.com/emails";
        authorization = codes "Bearer " ++ n.api_key;
        email = record {
          from = sender n.from_name n.from_email;
          to = to_email;
          subject = subject;
          text = plain_text;
          html = html;
          reply_to = none;
        };
      }))

  -- SendPaymentLink: neither the mailbox nor the link is escaped.
  unfoldable pub send_payment_link : Bytes → Bytes → Bytes → Result (Unit {0})
  send_payment_link owner_email payment_url mailbox_id =
      send owner_email payment_subject (payment_text mailbox_id payment_url)
        (payment_html mailbox_id payment_url)

  -- SendActivationLink
  unfoldable pub send_activation_link : Bytes → Bytes → Bytes → Result (Unit {0})
  send_activation_link owner_email activation_url mailbox_id =
      send owner_email activation_subject (activation_text mailbox_id activation_url)
        (activation_html mailbox_id activation_url)

  -- SendRecoveryLink: the link is not escaped.
  unfoldable pub send_recovery_link : Bytes → Bytes → Result (Unit {0})
  send_recovery_link owner_email recovery_url =
      send owner_email recovery_subject (recovery_text recovery_url) (recovery_html recovery_url)

  -- SendSupportMessage
  unfoldable pub send_support_message : SupportMessageParams → Result (Unit {0})
  send_support_message params = accepted (codes "resend") no_body (
      answer (record {
        url = codes "https://api.resend.com/emails";
        authorization = codes "Bearer " ++ n.api_key;
        email = record {
          from = sender n.from_name n.from_email;
          to = params.to_email;
          subject = support_subject params;
          text = support_plain_text params;
          html = support_html params;
          reply_to = non_empty params.reply_to;
        };
      }))

  -- The notifier as ports.Notifier
  unfoldable pub notify : Mail → Result (Unit {0})
  notify (Mail.payment_link owner url id) = send_payment_link owner url id
  notify (Mail.activation_link owner url id) = send_activation_link owner url id
  notify (Mail.recovery_link owner url) = send_recovery_link owner url
  notify (Mail.support_message params) = send_support_message params
