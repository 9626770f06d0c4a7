-- ===== src/Http.antt =====
-- internal/adapters/httpapi/handler.go: what the HTTP handlers share: responses, the decoding of a
-- body, the error that a response is chosen by, and the proof of a key. A handler that panics
-- gives no response; net/http closes the connection.
pub mod Accounts
pub mod Mailboxes
pub mod Access
pub mod Support
pub mod Payments
pub mod Admin
pub mod Gate
pub mod Keyed
pub mod Webhook
pub mod AdminKey
pub mod Challenge
pub mod Semaphore
pub mod Usable
pub mod Recovery
pub mod Middleware
pub mod Routes
use mailservice.Prelude.{
  ℕ, ◌*◌, Bool, true, false, not, ◌||◌, Option, none, some, List, [], ◌++◌, if◌then◌else◌, Bytes,
  codes, length, drop,
}
use mailservice.Calendar.{Time, second}
use mailservice.Text.{is_empty, trim_space, has_prefix}
use mailservice.Domain.{Mailbox, MailboxStatus, Account}
use mailservice.Ports.{
  Error, Result, ok, err, wrap, message, panicked, challenge_required, VerifiedKey,
}
use mailservice.World.{Env, M, pure, raise, attempt, lift, time_now, ◌>>=◌, ◌>>◌}
use mailservice.Sessions.{AuthTokens}
use mailservice.Service.{Config}
use mailservice.Service.Free.{SwitchoverResult}
use mailservice.Service.Access.{ResolveImapResult, ImapMessage, MailReader}
use mailservice.Service.Payment.{ReconcileResult}
use mailservice.EdProof.Keys.{Crypto}
use mailservice.EdProof.Verifier.{BackendResult, verify}
use mailservice.EdProof.Challenge.{verify_challenge}
use mailservice.EdProof.SshSig.{verify_signature}

-- The fields of `Handler` that the handlers below read. A nil verifier is `none`; `crypto` and
-- `challenge_secret` are its ChallengeAuthenticator, `service` and `reader` its MailboxService, and
-- `account_base_url` the setting of its AccountService.
pub record Handler : Type 0 where
  pub admin_api_key : Bytes
  pub stripe_webhook_secret : Bytes
  pub key_proof_verifier : Option (Bytes → Result BackendResult)
  pub charge_source : Bool
  pub crypto : Crypto
  pub challenge_secret : Bytes
  pub service : Config
  pub account_base_url : Bytes
  pub reader : Option MailReader
  pub mock_payment_mode : Bool

-- accountView; the expiry is a time, not its text.
pub record AccountView : Type 0 where
  pub id : Bytes
  pub owner_email : Bytes
  pub api_token : Bytes
  pub refresh_token : Bytes
  pub subscription_expires_at : Option Time

-- mailboxView; an access token that is left out is empty.
pub record MailboxView : Type 0 where
  pub id : Bytes
  pub status : MailboxStatus
  pub usable : Bool
  pub payment_url : Bytes
  pub expires_at : Option Time
  pub access_token : Bytes

-- What a response carries, before it is encoded
pub data Body : Type 0 where
  error_body : Error → Body
  status_body : Bytes → Body
  account_body : AccountView → Body
  credentials_body : Account → AuthTokens → Body
  mailbox_body : MailboxView → Body
  mailboxes_body : List MailboxView → Body
  challenge_body : (challenge : Bytes) (expires_in : ℕ) → Body
  access_body : ResolveImapResult → Body
  messages_body : List ImapMessage → Body
  message_body : ImapMessage → Body
  page_body : (title : Bytes) → Body
  reprovisioned_body : (id email : Bytes) (status : MailboxStatus) (expires_at : Option Time) → Body
  reconciled_body : (reconciled activated : ℕ) (results : List ReconcileResult) → Body
  switchover_body : SwitchoverResult → Body

pub record Response : Type 0 where
  pub status : ℕ
  pub body : Body

-- writeJSON
abbrev pub write_json : ℕ → Body → Response
write_json code body = record { status = code; body = body }

-- writeError
abbrev pub write_error : ℕ → Error → Response
write_error code e = write_json code (error_body e)

-- The outcomes of the two calls of `Decode` and of `More` on a body
pub record Decoded (A : Type 0) : Type 0 where
  pub value : Option A
  pub more : Bool
  pub at_end : Bool

abbrev pub decoded_alone : {A : Type 0} → Option A → Bool → Bool → Result A
decoded_alone none more at_end = err (message (codes "invalid JSON"))
decoded_alone (some a) true at_end =
    err (message (codes "request body must contain only one JSON object"))
decoded_alone (some a) false true = ok a
decoded_alone (some a) false false = err (message (codes "request body has trailing content"))

-- decodeJSON
unfoldable pub decode_json : {A : Type 0} → Decoded A → Result A
decode_json d = decoded_alone d.value d.more d.at_end

-- The error inside the wrapping: `errors.Is(err, target)` for a sentinel is a test of it.
abbrev pub cause : Error → Error
cause (wrap text e) = cause e
cause e = e

abbrev pub is_panic : Error → Bool
is_panic panicked = true
is_panic _ = false

-- An error decides the response; a panic gives none.
abbrev pub failing : (Error → Response) → Error → M Response
failing fail e = if is_panic (cause e) then raise panicked else pure (fail e)

abbrev pub answer : {A : Type 0} → (Error → Response) → (A → M Response) → Result A → M Response
answer fail done (err e) = failing fail e
answer fail done (ok a) = done a

-- `a, err := m; if err != nil { fail(err); return }; done(a)`
unfoldable pub serve : {A : Type 0} → M A → (Error → Response) → (A → M Response) → M Response
serve m fail done = do r ← attempt m; answer fail done r

-- A handler whose body is decoded first
unfoldable pub with_body : {A : Type 0} → Decoded A → (A → M Response) → M Response
with_body d handle = serve (lift (decode_json d)) (write_error 400) handle

-- strings.TrimPrefix(s, p)
unfoldable pub trim_prefix : Bytes → Bytes → Bytes
unfolding has_prefix
trim_prefix s p = if has_prefix s p then drop (length p) s else s

-- fallbackString
unfoldable pub fallback_string : Bytes → Bytes → Bytes
unfolding trim_space
fallback_string value fallback = if is_empty (trim_space value) then fallback else trim_space value

-- The JSON object with the one field "status"
abbrev pub waiting_payment : Response
waiting_payment = write_json 409 (status_body (codes "waiting_payment"))

abbrev pub challenge_max_age : Time
challenge_max_age = 30 * second

abbrev pub verified :
    Result (Unit {0}) → Result (Unit {0}) → Result VerifiedKey → Result VerifiedKey
verified (err e) signature key = err e
verified (ok _) (err e) key = err e
verified (ok _) (ok _) key = key

-- The part of verifyEdproof behind its first check, at the time that it reads
unfoldable pub verify_key_proof :
    Handler → (Bytes → Result BackendResult) → Bytes → Bytes → Bytes → Time → Result VerifiedKey
verify_key_proof h backend pubkey challenge signature now =
    verified (verify_challenge h.crypto h.challenge_secret challenge pubkey challenge_max_age now)
      (verify_signature h.crypto challenge pubkey signature) (verify backend pubkey)

-- writeEdproofError, its status
abbrev pub edproof_status : Error → ℕ
edproof_status challenge_required = 400
edproof_status Error.challenge_expired = 401
edproof_status Error.challenge_tampered = 401
edproof_status Error.challenge_future = 401
edproof_status Error.signature_invalid = 401
edproof_status Error.invalid_key_proof = 401
edproof_status _ = 500

-- writeEdproofError
unfoldable pub write_edproof_error : Error → Response
write_edproof_error e = write_error (edproof_status (cause e)) e

module _ ⦃env : Env⦄ (h : Handler) where
  -- verifyEdproof
  unfoldable pub verify_edproof :
      (Bytes → Result BackendResult) → Bytes → Bytes → Bytes → M VerifiedKey
  verify_edproof backend pubkey challenge signature =
      if is_empty challenge || is_empty signature
      then raise challenge_required
      else do now ← time_now; lift (verify_key_proof h backend pubkey challenge signature now)

  abbrev with_backend :
      Option (Bytes → Result BackendResult)
      → ((Bytes → Result BackendResult) → M Response)
      → M Response
  with_backend none handle =
      pure (write_error 503 (message (codes "key proof verifier not configured")))
  with_backend (some backend) handle = handle backend

  -- `if h.keyProofVerifier == nil { … }`
  unfoldable pub with_verifier : ((Bytes → Result BackendResult) → M Response) → M Response
  with_verifier handle = with_backend h.key_proof_verifier handle

  -- The part of a handler behind the proof of a key
  unfoldable pub with_key :
      (Bytes → Result BackendResult)
      → Bytes
      → Bytes
      → Bytes
      → (VerifiedKey → M Response)
      → M Response
  with_key backend pubkey challenge signature handle =
      serve (verify_edproof backend pubkey challenge signature) write_edproof_error handle
