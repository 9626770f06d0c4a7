-- ===== src/Notify/Unsend.antt =====
-- internal/adapters/notify/unsend_notifier.go: the notifier of Unsend.
use mailservice.Prelude.{◌++◌, none, Bytes, codes}
use mailservice.Ports.{Result, SupportMessageParams, Mail}
use mailservice.Notify.{
  Request, Answer, support_subject, support_plain_text, support_html, payment_subject,
  activation_subject, recovery_subject, payment_text, payment_html, activation_text,
  activation_html, recovery_text, recovery_html, sender, non_empty, base_or, accepted, no_body,
}

pub record UnsendNotifier : Type 0 where
  pub base_url : Bytes
  pub api_key : Bytes
  pub from_email : Bytes
  pub from_name : Bytes

-- NewUnsendNotifier
unfoldable pub new_unsend_notifier : Bytes → Bytes → Bytes → Bytes → UnsendNotifier
new_unsend_notifier base_url api_key from_email from_name = record {
  base_url = base_or (codes "https://unsend.admin.lt/api") base_url;
  api_key = api_key;
  from_email = from_email;
  from_name = from_name;
}

module _ (answer : Request → Result Answer) (n : UnsendNotifier) where
  -- sendWithReplyTo
  unfoldable pub send_with_reply_to : Bytes → Bytes → Bytes → Bytes → Bytes → Result (Unit {0})
  send_with_reply_to to_email subject plain_text html_content reply_to =
      accepted (codes "unsend") no_body (
        answer (record {
          url = n.base_url ++ codes "/v1/emails";
          authorization = codes "Bearer " ++ n.api_key;
          email = record {
            from = sender n.from_name n.from_email;
            to = to_email;
            subject = subject;
            text = plain_text;
            html = html_content;
            reply_to = non_empty reply_to;
          };
        }))

  -- send
  unfoldable pub send : Bytes → Bytes → Bytes → Bytes → Result (Unit {0})
  send to_email subject plain_text html = accepted (codes "unsend") no_body (
      answer (record {
        url = n.base_url ++ codes "/v1/emails";
        authorization = codes "Bearer " ++ n.api_key;
        email = record {
          from = sender n.from_name n.from_email;
          to = to_email;
          subject = subject;
          text = plain_text;
          html = html;
          reply_to = none;
        };
      }))

  -- SendPaymentLink: neither the mailbox nor the link is escaped.
  unfoldable pub send_payment_link : Bytes → Bytes → Bytes → Result (Unit {0})
  send_payment_link owner_email payment_url mailbox_id =
      send owner_email payment_subject (payment_text mailbox_id payment_url)
        (payment_html mailbox_id payment_url)

  -- SendActivationLink
  unfoldable pub send_activation_link : Bytes → Bytes → Bytes → Result (Unit {0})
  send_activation_link owner_email activation_url mailbox_id =
      send owner_email activation_subject (activation_text mailbox_id activation_url)
        (activation_html mailbox_id activation_url)

  -- SendRecoveryLink: the link is not escaped.
  unfoldable pub send_recovery_link : Bytes → Bytes → Result (Unit {0})
  send_recovery_link owner_email recovery_url =
      send owner_email recovery_subject (recovery_text recovery_url) (recovery_html recovery_url)

  -- SendSupportMessage
  unfoldable pub send_support_message : SupportMessageParams → Result (Unit {0})
  send_support_message params =
      send_with_reply_to params.to_email (support_subject params) (support_plain_text params)
        (support_html params) params.reply_to

  -- The notifier as ports.Notifier
  unfoldable pub notify : Mail → Result (Unit {0})
  notify (Mail.payment_link owner url id) = send_payment_link owner url id
  notify (Mail.activation_link owner url id) = send_activation_link owner url id
  notify (Mail.recovery_link owner url) = send_recovery_link owner url
  notify (Mail.support_message params) = send_support_message params
