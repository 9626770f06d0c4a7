-- ===== src/World.antt =====
-- What a service call acts on: the tables, the mail that was sent, and what the outside answers. A
-- call of a service is an action: Go returns an error and keeps what was written before it, so the
-- state comes back beside the error too.
pub mod Yields
pub mod Keeps
use mailservice.Prelude.{
  ℕ, ◌+◌, Bool, true, false, Option, List, ◌∷◌, [], ◌++◌, Bytes, ⊤, if◌then◌else◌,
}
use mailservice.Calendar.{Time}
use mailservice.Domain.{Account, AccountRecovery, RefreshToken, SupportMessage}
use mailservice.Ports.{
  Error, Result, ok, err, wrap, external, PaymentLinkRequest, PaymentLink, PaymentSession,
  PaymentCharge, Mail,
}
use mailservice.Repository.Models.{MailboxModel, MailUser}

-- The outside of the program. Every reading of the clock and every call that leaves the program
-- takes the next number, and the outside answers by that number: the time, whether the call fails,
-- the random token or identifier, and what the payment gateway says.
pub record Env : Type 0 where
  pub clock : ℕ → Time
  pub fails : ℕ → Bool
  pub new_token : ℕ → ℕ → Bytes
  pub new_uuid : ℕ → Bytes
  pub hash_token : Bytes → Bytes
  pub create_payment_link : ℕ → PaymentLinkRequest → Result PaymentLink
  pub get_payment_session : ℕ → Bytes → Result PaymentSession
  pub list_paid_charges : ℕ → Result (List PaymentCharge)

pub record World : Type 0 where
  pub ticks : ℕ
  pub mailboxes : List MailboxModel
  pub accounts : List Account
  pub recoveries : List AccountRecovery
  pub refresh_tokens : List RefreshToken
  pub mail_domains : List Bytes
  pub mail_users : List MailUser
  pub support_messages : List SupportMessage
  pub outbox : List Mail
  pub last_claim_reconcile : Option Time

abbrev pub M : Type 0 → Type 0
M A = World → Result A × World

module _ {A : Type 0} where
  unfoldable pub pure : A → M A
  pure a w = (ok a, w)

  unfoldable pub raise : Error → M A
  raise e w = (err e, w)

  unfoldable pub lift : Result A → M A
  lift r w = (r, w)

  unfoldable pub gets : (World → A) → M A
  gets f w = (ok (f w), w)

  -- The error as a value, for a caller that inspects it.
  unfoldable pub attempt : M A → M (Result A)
  attempt m w = let (r, w') = m w in (ok r, w')

  abbrev pub rewrap : Bytes → Result A → Result A
  rewrap text (ok a) = ok a
  rewrap text (err e) = err (wrap text e)

  -- fmt.Errorf("text: %w", err)
  unfoldable pub wrapping : Bytes → M A → M A
  wrapping text m w = let (r, w') = m w in (rewrap text r, w')

unfoldable pub modify : (World → World) → M ⊤
modify f w = (ok tt, f w)

-- `_ = m`
unfoldable pub ignore : {A : Type 0} → M A → M ⊤
ignore m w = let (r, w') = m w in (ok tt, w')

module _ {A B : Type 0} where
  abbrev pub continue : Result A → (A → M B) → M B
  continue (ok a) f w = f a w
  continue (err e) f w = (err e, w)

  infixl 5 ◌>>=◌ ◌>>◌
  unfoldable pub ◌>>=◌ : M A → (A → M B) → M B
  ◌>>=◌ m f w = let (r, w') = m w in continue r f w'

  abbrev pub ◌>>◌ : M A → M B → M B
  m >> n = m >>= λ _. n

-- if c { m }
unfoldable pub when : Bool → M ⊤ → M ⊤
unfolding pure
when c m = if c then m else pure tt

module _ ⦃env : Env⦄ where
  -- One step outside the program.
  unfoldable pub tick : M ℕ
  tick w = (ok w.ticks, record w { ticks = w.ticks + 1 })

  -- A call of the outside that may fail; it returns its number.
  unfoldable pub call : M ℕ
  call w =
      (if env.fails w.ticks then err external else ok w.ticks, record w { ticks = w.ticks + 1 })

  -- time.Now().UTC()
  unfoldable pub time_now : M Time
  time_now w = (ok (env.clock w.ticks), record w { ticks = w.ticks + 1 })

  -- uuid.NewString()
  unfoldable pub new_uuid : M Bytes
  new_uuid w = (ok (env.new_uuid w.ticks), record w { ticks = w.ticks + 1 })

  -- TokenGenerator.NewToken(size)
  unfoldable pub new_token : ℕ → M Bytes
  new_token size = do n ← call; pure (env.new_token n size)

  -- A method of ports.Notifier
  unfoldable pub send : Mail → M ⊤
  send mail = do call; modify (λ w. record w { outbox = w.outbox ++ mail ∷ [] })

  -- PaymentGateway.CreatePaymentLink
  unfoldable pub create_payment_link : PaymentLinkRequest → M PaymentLink
  create_payment_link req = do n ← call; lift (env.create_payment_link n req)

  -- PaymentGateway.GetPaymentSession
  unfoldable pub get_payment_session : Bytes → M PaymentSession
  get_payment_session id = do n ← call; lift (env.get_payment_session n id)

  -- PaymentChargeSource.ListPaidCharges
  unfoldable pub list_paid_charges : M (List PaymentCharge)
  list_paid_charges = do n ← call; lift (env.list_paid_charges n)
