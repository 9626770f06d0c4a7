-- ===== src/Http/Webhook.antt =====
-- What an event of Stripe changes.
use mailservice.Prelude.{
  ◌≡◌, refl, ap, ◌⊎◌, [], ◌∷◌, inl, inr, Bool, true, false, not, Option, none, some, arith, Bytes,
  Bool-cases, if◌then◌else◌,
}
use mathlib.Core.Path.{subst}
use mailservice.Text.{is_empty}
use mailservice.Ports.{Error, Result, ok, err}
use mailservice.World.{Env, World, M, pure, raise, attempt, lift, ◌>>=◌}
use mailservice.Http.{Handler, Response, cause, is_panic, failing, serve}
use mailservice.Http.Payments.{StripeEvent, is_session_event, session_of, handle_stripe_webhook}

failing-still : (fail : Error → Response) (e : Error) (w : World) → (failing fail e w).1 ≡ w
unfolding raise pure
failing-still fail e w = elim (Bool-cases (is_panic (cause e))) [
  | inl panic ↦ rw panic refl
  | inr other ↦ rw other refl
]

lift-still :
    {A Goal : Type 0} (r : Result A) (fail : Error → Response) (done : A → M Response) (w : World)
    → ((a : A) → r ≡ ok a → Goal ⊎ ((done a w).1 ≡ w))
    → Goal ⊎ ((serve (lift r) fail done w).1 ≡ w)
unfolding serve attempt lift ◌>>=◌
lift-still (ok a) fail done w good = good a refl
lift-still (err e) fail done w good = inr (failing-still fail e w)

guard-still :
    {Goal : Type 0} (b : Bool) (r : Response) (m : M Response) (w : World)
    → (b ≡ false → Goal ⊎ ((m w).1 ≡ w))
    → Goal ⊎ (((if b then pure r else m) w).1 ≡ w)
unfolding pure
guard-still true r m w good = inr refl
guard-still false r m w good = good refl

session_of-some :
    (o : Option Bytes) (id : Bytes) → session_of o ≡ ok id → (o ≡ some id) × (is_empty id ≡ false)
session_of-some none id e = absurd (ground arith)
session_of-some (some []) id e = absurd (ground arith)
session_of-some (some (c ∷ x)) id e =
    let same : (c ∷ x) ≡ id = ground arith in
    (ap some same, subst (λ t. is_empty t ≡ false) same refl)

module _ ⦃env : Env⦄ (h : Handler) where
  -- The event of the body is genuine, tells of a payment, and names a session.
  abbrev pub Paying : Result Bytes → (Bytes → Result StripeEvent) → Type 0
  Paying body construct_event =
      (text : Bytes) × (body ≡ ok text)
      × (is_empty h.stripe_webhook_secret ≡ false)
      × ((event : StripeEvent) × (construct_event text ≡ ok event)
          × (is_session_event event.type ≡ true)
          × ((id : Bytes) × (event.session_id ≡ some id) × (is_empty id ≡ false)))

  -- The webhook leaves the state as it is, unless a secret is set and the library accepts the body
  -- as an event of a finished payment that names its session.
  pub handle_stripe_webhook-still :
      (body : Result Bytes) (construct_event : Bytes → Result StripeEvent) (w : World)
      → Paying body construct_event ⊎ ((handle_stripe_webhook h body construct_event w).1 ≡ w)
  unfolding handle_stripe_webhook
  handle_stripe_webhook-still body construct_event w = lift-still body _ _ w (λ text read.
      guard-still (is_empty h.stripe_webhook_secret) _ _ w (λ set.
        lift-still (construct_event text) _ _ w (λ event genuine.
          guard-still (not (is_session_event event.type)) _ _ w (λ paid.
            lift-still (session_of event.session_id) _ _ w (λ id named. inl (
              text,
              read,
              set,
              (
                event,
                genuine,
                ground arith,
                let (there, nonempty) = session_of-some event.session_id id named in
                    (id, there, nonempty),
              ),
            ))))))
