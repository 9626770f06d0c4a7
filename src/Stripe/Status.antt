-- ===== src/Stripe/Status.antt =====
-- When a session of Stripe or of the mock gateway counts as paid.
use mailservice.Prelude.{◌≡◌, refl, ◌⊎◌, inl, inr, ◌↔◌, true, arith, Bytes}
use mailservice.Ports.{Result, ok, err, PaymentSession}
use mailservice.Service.Payment.{confirms}
use mailservice.Stripe.{
  StripePaymentStatus, paid, no_payment_required, unpaid, other_status, CheckoutSession,
  session_status, stripe_payment_session,
}

confirms_iff :
    (s : StripePaymentStatus)
    → (confirms (session_status s) ≡ true) ↔ ((s ≡ paid) ⊎ (s ≡ no_payment_required))
confirms_iff paid = ((λ e. inl refl), (λ e. refl))
confirms_iff no_payment_required = ((λ e. inr refl), (λ e. refl))
confirms_iff unpaid = (
  (λ e. absurd (ground arith)),
  (λ e. elim e [ inl x ↦ absurd (ground arith) | inr x ↦ absurd (ground arith) ]),
)
confirms_iff other_status = (
  (λ e. absurd (ground arith)),
  (λ e. elim e [ inl x ↦ absurd (ground arith) | inr x ↦ absurd (ground arith) ]),
)

-- A result that is a session satisfies a test
abbrev pub Succeeds : (PaymentSession → Type 0) → Result PaymentSession → Type 0
Succeeds P (err e) = ⊥
Succeeds P (ok s) = P s

-- A session that Stripe answers with keeps its identifier, and confirms a payment exactly if it is
-- paid or needs no payment.
pub stripe_payment_session-confirms :
    (get : Bytes → Result CheckoutSession) (id : Bytes) (sess : CheckoutSession)
    → get id ≡ ok sess
    → Succeeds
        (λ s.
          (s.session_id ≡ sess.id)
          × ((confirms s.status ≡ true)
              ↔ ((sess.payment_status ≡ paid) ⊎ (sess.payment_status ≡ no_payment_required))))
        (stripe_payment_session get id)
unfolding stripe_payment_session
stripe_payment_session-confirms get id sess e = rw e (refl, confirms_iff sess.payment_status)
