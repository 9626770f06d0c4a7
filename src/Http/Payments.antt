-- ===== src/Http/Payments.antt =====
-- handler.go: the webhook of Stripe and the payment page of the mock gateway.
use mailservice.Prelude.{ℕ, Bool, not, ◌||◌, Option, none, some, if◌then◌else◌, Bytes, codes, ◌==ᵇ◌}
use mailservice.Text.{is_empty, has_prefix}
use mailservice.Ports.{Error, Result, ok, err, message, mailbox_not_found}
use mailservice.World.{Env, M, pure, lift}
use mailservice.Service.Payment.{mark_mailbox_paid}
use mailservice.Http.{Handler, Response, status_body, write_json, write_error, cause, serve}

-- An event as `webhook.ConstructEvent` returns it, with the identifier that `json.Unmarshal` reads
-- from its session
pub record StripeEvent : Type 0 where
  pub type : Bytes
  pub session_id : Option Bytes

-- The types of events that a payment sends
unfoldable pub is_session_event : Bytes → Bool
is_session_event type =
    (type ==ᵇ codes "checkout.session.completed")
    || (type ==ᵇ codes "checkout.session.async_payment_succeeded")

abbrev pub paid_status : Error → ℕ
paid_status mailbox_not_found = 404
paid_status _ = 500

abbrev pub session_of : Option Bytes → Result Bytes
session_of none = err (message (codes "invalid JSON"))
session_of (some id) =
    if is_empty id then err (message (codes "missing checkout session id")) else ok id

module _ ⦃env : Env⦄ (h : Handler) where
  -- MarkMailboxPaid with the responses of its caller
  unfoldable pub pay_session : Bytes → Bytes → M Response
  pay_session session_id done =
      serve (mark_mailbox_paid h.service session_id none)
        (λ e. write_error (paid_status (cause e)) e) (λ _. pure (write_json 200 (status_body done)))

  -- handleStripeWebhook: `body` is whether the body could be read, `event` what the library makes
  -- of it, of the header of the signature and of the secret.
  unfoldable pub handle_stripe_webhook : Result Bytes → (Bytes → Result StripeEvent) → M Response
  handle_stripe_webhook body construct_event = serve (lift body) (write_error 400) (λ text.
      if is_empty h.stripe_webhook_secret
      then pure (write_error 503 (message (codes "stripe webhook secret not configured")))
      else serve (lift (construct_event text)) (write_error 400) (λ event.
        if not (is_session_event event.type)
        then pure (write_json 200 (status_body (codes "ignored")))
        else serve (lift (session_of event.session_id)) (write_error 400)
            (λ id. pay_session id (codes "ok"))))

  -- handleMockPay
  unfoldable pub handle_mock_pay : Bytes → M Response
  handle_mock_pay session_id =
      if not (has_prefix session_id (codes "mock_"))
      then pure (write_error 400 (message (codes "not a mock session")))
      else pay_session session_id (codes "paid")
