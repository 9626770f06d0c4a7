-- ===== src/Stripe.antt =====
-- internal/adapters/payment/stripe_gateway.go: the gateway of Stripe, whose sessions are answers of
-- its API, and the mock gateway of the tests.
pub mod Status
use mailservice.Prelude.{Bool, true, false, not, ◌++◌, if◌then◌else◌, Bytes, codes}
use mailservice.Text.{is_empty}
use mailservice.Ports.{
  Result, ok, err, message, PaymentLink, PaymentLinkRequest, PaymentSession, PaymentSessionStatus,
  session_open, session_confirmed, session_succeeded,
}

-- stripe.CheckoutSessionPaymentStatus, with a status that the program does not know
pub data StripePaymentStatus : Type 0 where
  paid no_payment_required unpaid other_status : StripePaymentStatus

-- stripe.CheckoutSession, the fields that are read
pub record CheckoutSession : Type 0 where
  pub id : Bytes
  pub url : Bytes
  pub payment_status : StripePaymentStatus

-- The switch of GetPaymentSession
abbrev pub session_status : StripePaymentStatus → PaymentSessionStatus
session_status paid = session_succeeded
session_status no_payment_required = session_confirmed
session_status unpaid = session_open
session_status other_status = session_open

abbrev stripe_session : Result CheckoutSession → Result PaymentSession
stripe_session (err e) = err e
stripe_session (ok sess) =
    ok
      (record { session_id = sess.id; status = session_status sess.payment_status; url = sess.url })

-- StripeGateway.GetPaymentSession; `get` is session.Get.
unfoldable pub stripe_payment_session :
    (Bytes → Result CheckoutSession) → Bytes → Result PaymentSession
stripe_payment_session get session_id = stripe_session (get session_id)

abbrev stripe_link : Result CheckoutSession → Result PaymentLink
stripe_link (err e) = err e
stripe_link (ok sess) = ok (record { session_id = sess.id; url = sess.url })

-- StripeGateway.CreatePaymentLink; `new` is session.New on the parameters of the request.
unfoldable pub stripe_payment_link :
    (PaymentLinkRequest → Result CheckoutSession) → PaymentLinkRequest → Result PaymentLink
stripe_payment_link new req =
    if not (is_empty req.discount_id)
    then err (message (codes "discount codes not supported with Stripe gateway"))
    else stripe_link (new req)

abbrev mock_url : Bytes → Bytes → Bytes
mock_url base_url session_id = base_url ++ codes "/mock/pay/" ++ session_id

-- MockGateway.CreatePaymentLink; `uuid` is the identifier that it draws.
unfoldable pub mock_payment_link : Bytes → Bytes → PaymentLinkRequest → PaymentLink
mock_payment_link base_url uuid req =
    let session_id = codes "mock_" ++ uuid in
    record { session_id = session_id; url = mock_url base_url session_id }

-- MockGateway.GetPaymentSession
unfoldable pub mock_payment_session : Bytes → Bytes → PaymentSession
mock_payment_session base_url session_id = record {
  session_id = session_id;
  status = session_succeeded;
  url = mock_url base_url session_id;
}
