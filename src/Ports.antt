-- ===== src/Ports.antt =====
-- internal/core/ports/ports.go: the errors and the messages that the services exchange with their
-- adapters.
use mailservice.Prelude.{Bool, true, false, Bytes}
use mailservice.Calendar.{Time}

-- The sentinel errors of ports.go; `message` is an `errors.New` at the place, `external` a failure
-- of a database, a network or a random source, `constraint` a violated key of a table, `panicked` a
-- run-time panic, which ends the request, `challenge_required` the `errChallengeRequired` of the
-- HTTP handlers, and `wrap`
-- a `fmt.Errorf("...: %w", err)` with its fixed words.
pub data Error : Type 0 where
  mailbox_not_found payment_session_not_found mailbox_not_usable account_not_found forbidden : Error
  account_exists recovery_not_found recovery_invalid recovery_expired rate_limit_reached : Error
  refresh_not_found refresh_expired message_not_found invalid_key_proof challenge_expired : Error
  challenge_tampered challenge_future signature_invalid coupon_invalid coupon_exhausted : Error
  coupon_already_used activation_token_invalid switchover_requires_free_mode : Error
  external constraint panicked challenge_required : Error
  message : Bytes → Error
  wrap : Bytes → Error → Error

pub data Result {ℓ} (A : Type ℓ) : Type ℓ where
  ok : A → Result A
  err : Error → Result A

-- errors.Is(err, ports.ErrMailboxNotFound)
abbrev pub is_mailbox_not_found : Error → Bool
is_mailbox_not_found mailbox_not_found = true
is_mailbox_not_found (wrap text e) = is_mailbox_not_found e
is_mailbox_not_found _ = false

-- errors.Is(err, ports.ErrPaymentSessionNotFound)
abbrev pub is_payment_session_not_found : Error → Bool
is_payment_session_not_found payment_session_not_found = true
is_payment_session_not_found (wrap text e) = is_payment_session_not_found e
is_payment_session_not_found _ = false

-- errors.Is(err, ports.ErrAccountNotFound)
abbrev pub is_account_not_found : Error → Bool
is_account_not_found account_not_found = true
is_account_not_found (wrap text e) = is_account_not_found e
is_account_not_found _ = false

-- errors.Is(err, ports.ErrRecoveryNotFound)
abbrev pub is_recovery_not_found : Error → Bool
is_recovery_not_found recovery_not_found = true
is_recovery_not_found (wrap text e) = is_recovery_not_found e
is_recovery_not_found _ = false

-- errors.Is(err, ports.ErrRefreshNotFound)
abbrev pub is_refresh_not_found : Error → Bool
is_refresh_not_found refresh_not_found = true
is_refresh_not_found (wrap text e) = is_refresh_not_found e
is_refresh_not_found _ = false

pub record PaymentLinkRequest : Type 0 where
  pub mailbox_id : Bytes
  pub owner_email : Bytes
  pub discount_id : Bytes

pub record PaymentLink : Type 0 where
  pub session_id : Bytes
  pub url : Bytes

-- ports.PaymentSessionStatus, with the statuses that the gateways may add.
pub data PaymentSessionStatus : Type 0 where
  session_open session_confirmed session_succeeded session_expired session_failed :
      PaymentSessionStatus
  session_other : Bytes → PaymentSessionStatus

pub record PaymentSession : Type 0 where
  pub session_id : Bytes
  pub status : PaymentSessionStatus
  pub url : Bytes

pub record PaymentCharge : Type 0 where
  pub tag : Bytes
  pub charge_id : Bytes
  pub charged_at : Time

pub record VerifiedKey : Type 0 where
  pub fingerprint : Bytes
  pub algorithm : Bytes

pub record SupportMessageParams : Type 0 where
  pub to_email : Bytes
  pub reply_to : Bytes
  pub mailbox_id : Bytes
  pub fingerprint : Bytes
  pub status : Bytes
  pub owner_email : Bytes
  pub subject : Bytes
  pub body : Bytes

-- What ports.Notifier sends.
pub data Mail : Type 0 where
  payment_link : (owner_email payment_url mailbox_id : Bytes) → Mail
  activation_link : (owner_email activation_url mailbox_id : Bytes) → Mail
  recovery_link : (owner_email recovery_url : Bytes) → Mail
  support_message : SupportMessageParams → Mail
