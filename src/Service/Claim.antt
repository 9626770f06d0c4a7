-- ===== src/Service/Claim.antt =====
-- mailbox_service.go: `ClaimMailbox`, which binds a mailbox to a key and asks for payment.
use mailservice.Prelude.{
  ℕ, ◌-◌, Bool, true, false, not, ◌&&◌, ◌||◌, Option, none, some, [], ltb, if◌then◌else◌, Bytes,
  codes,
}
use mailservice.Calendar.{Time}
use mailservice.Text.{is_empty, trim_space, to_upper, normalize, contains_byte}
use mailservice.Domain.{Mailbox, MailboxStatus, is_pending}
use mailservice.Ports.{
  Result, ok, err, is_mailbox_not_found, is_payment_session_not_found, invalid_key_proof,
  coupon_already_used, message, Mail, PaymentSession, PaymentSessionStatus, session_expired,
  session_failed, VerifiedKey,
}
use mailservice.World.{
  Env, M, pure, raise, lift, gets, modify, attempt, wrapping, time_now, new_uuid, new_token, send,
  create_payment_link, get_payment_session, ◌>>=◌, ◌>>◌,
}
use mailservice.Repository.Mailboxes
use mailservice.Service.{
  Config, claim_reconcile_cooldown, validate_coupon, imap_username, blank_mailbox, check_usable,
}
use mailservice.Service.Free.{issue_activation_link, create_mailbox_with_activation}
use mailservice.Service.Payment.{reconcile_open_collective_payments}

-- A claim as `ClaimMailbox` reads it: texts normalised, the coupon of free mode dropped.
pub record ClaimRequest : Type 0 where
  pub billing_email : Bytes
  pub fingerprint : Bytes
  pub coupon_code : Bytes
  pub discount_id : Bytes
  pub granted_months : ℕ

-- billingEmail == "" || !strings.Contains(billingEmail, "@")
unfoldable pub invalid_email : Bytes → Bool
invalid_email email = is_empty email || not (contains_byte email b'@')

-- The cooldown between reconciliations that claims start has not passed.
abbrev pub is_cooling : Option Time → Time → Bool
is_cooling none now = false
is_cooling (some last) now = ltb (now - last) claim_reconcile_cooldown

abbrev pub is_dead : PaymentSessionStatus → Bool
is_dead session_expired = true
is_dead session_failed = true
is_dead _ = false

-- err == nil && applied > 0
abbrev pub applied_some : Result ℕ → Bool
applied_some (err e) = false
applied_some (ok n) = ltb 0 n

abbrev pub with_coupon : Bytes → Bytes → Bytes → Result (Bytes × ℕ) → Result ClaimRequest
with_coupon email fingerprint code (err e) = err e
with_coupon email fingerprint code (ok (discount_id, months)) = ok (record {
  billing_email = email;
  fingerprint = fingerprint;
  coupon_code = code;
  discount_id = discount_id;
  granted_months = months;
})

module _ ⦃env : Env⦄ (s : Config) where
  -- The part of reconcileOnClaim behind the cooldown
  unfoldable pub reconcile_now : M Bool
  reconcile_now = do
    started ← time_now
    modify (λ w. record w { last_claim_reconcile = some started })
    applied ← attempt (reconcile_open_collective_payments s)
    pure (applied_some applied)

  -- reconcileOnClaim
  unfoldable pub reconcile_on_claim : M Bool
  reconcile_on_claim = if not s.charge_source then pure false else do
    now ← time_now
    last ← gets (λ w. w.last_claim_reconcile)
    if is_cooling last now then pure false else reconcile_now

  abbrev pub session_reusable : Result PaymentSession → M Bool
  session_reusable (err e) = if is_payment_session_not_found e then pure false else raise e
  session_reusable (ok session) = pure (not (is_dead session.status))

  -- paymentSessionReusable
  unfoldable pub payment_session_reusable : Bytes → M Bool
  payment_session_reusable session_id = do
    session ← attempt (get_payment_session session_id)
    session_reusable session

  -- A new payment link for an existing mailbox
  unfoldable pub relink : ClaimRequest → Mailbox → M (Mailbox × Bool)
  relink req existing = do
    link ← wrapping (codes "create payment link") (
        create_payment_link (record {
          mailbox_id = existing.id;
          owner_email = req.billing_email;
          discount_id = req.discount_id;
        }))
    let m : Mailbox = record existing {
      owner_email = req.billing_email;
      billing_email = req.billing_email;
      payment_session_id = link.session_id;
      payment_url = link.url;
      status = MailboxStatus.pending_payment;
      granted_months = req.granted_months;
      coupon_used = not (is_empty req.coupon_code) || existing.coupon_used;
    }
    wrapping (codes "update mailbox payment link") (Mailboxes.update m)
    wrapping (codes "send payment link")
        (send (Mail.payment_link m.billing_email m.payment_url m.id))
    pure (m, false)

  -- The claim of an existing mailbox that is not usable, where payment is asked for
  unfoldable pub reclaim_paid : ClaimRequest → Mailbox → M (Mailbox × Bool)
  reclaim_paid req existing =
      if not (is_empty req.coupon_code) && existing.coupon_used
      then raise coupon_already_used
      else if is_pending existing.status
          && not (is_empty existing.payment_session_id)
          && not (is_empty existing.payment_url)
      then (do
        reusable ←
            wrapping (codes "validate payment session")
              (payment_session_reusable existing.payment_session_id)
        if reusable then pure (existing, false) else relink req existing)
      else relink req existing

  -- The claim of an existing mailbox that is not usable, after the reconciliation
  unfoldable pub reclaim : ClaimRequest → Mailbox → M (Mailbox × Bool)
  reclaim req existing =
      if s.free_mode
      then (do
        let m : Mailbox = record existing {
          owner_email = req.billing_email;
          billing_email = req.billing_email;
        }
        issued ← issue_activation_link s m m.billing_email
        pure (issued, false))
      else reclaim_paid req existing

  abbrev pub refreshed : Result Mailbox → M (Option Mailbox)
  refreshed (err e) = pure none
  refreshed (ok fresh) = do
    now_usable ← check_usable s fresh
    pure (if now_usable then some fresh else none)

  -- The mailbox again, if a reconciliation that the claim started has made it usable
  unfoldable pub paid_meanwhile : Mailbox → M (Option Mailbox)
  paid_meanwhile existing =
      if not s.free_mode && is_pending existing.status
      then (do
        applied ← reconcile_on_claim
        if applied
            then (do fresh ← attempt (Mailboxes.get_by_id existing.id); refreshed fresh)
            else pure none)
      else pure none

  abbrev pub claim_after : ClaimRequest → Mailbox → Option Mailbox → M (Mailbox × Bool)
  claim_after req existing (some fresh) = pure (fresh, false)
  claim_after req existing none = reclaim req existing

  -- ClaimMailbox where the key has a mailbox
  unfoldable pub claim_existing : ClaimRequest → Mailbox → M (Mailbox × Bool)
  claim_existing req existing = do
    is_usable ← check_usable s existing
    if is_usable
        then pure (existing, false)
        else do paid ← paid_meanwhile existing; claim_after req existing paid

  -- The mailbox that a first claim makes, before payment or activation is asked for
  unfoldable pub claimed_mailbox : ClaimRequest → Bytes → Bytes → Bytes → Mailbox
  claimed_mailbox req id imap_password access_token = record blank_mailbox {
    id = id;
    owner_email = req.billing_email;
    billing_email = req.billing_email;
    key_fingerprint = req.fingerprint;
    imap_host = s.imap_host;
    imap_port = s.imap_port;
    imap_username = imap_username id;
    imap_password = imap_password;
    access_token = access_token;
    granted_months = req.granted_months;
    coupon_used = not (is_empty req.coupon_code);
  }

  -- ClaimMailbox where the key has no mailbox
  unfoldable pub claim_new : ClaimRequest → M (Mailbox × Bool)
  claim_new req = do
    id ← new_uuid
    imap_password ← wrapping (codes "generate imap password") (new_token 24)
    access_token ← wrapping (codes "generate access token") (new_token 32)
    let mailbox = claimed_mailbox req id imap_password access_token
    if s.free_mode
        then (do
          created ← create_mailbox_with_activation s mailbox mailbox.billing_email
          pure (created, true))
        else do
          link ← wrapping (codes "create payment link") (
              create_payment_link (record {
                mailbox_id = id;
                owner_email = req.billing_email;
                discount_id = req.discount_id;
              }))
          let m : Mailbox = record mailbox {
            payment_session_id = link.session_id;
            payment_url = link.url;
          }
          wrapping (codes "create mailbox") (Mailboxes.create m)
          wrapping (codes "send payment link")
              (send (Mail.payment_link m.billing_email m.payment_url m.id))
          pure (m, true)

  abbrev pub claim_from : ClaimRequest → Result Mailbox → M (Mailbox × Bool)
  claim_from req (ok existing) = claim_existing req existing
  claim_from req (err e) = if is_mailbox_not_found e then claim_new req else raise e

  -- ClaimMailbox after its arguments are checked
  unfoldable pub claim : ClaimRequest → M (Mailbox × Bool)
  claim req = do
    found ← attempt (Mailboxes.get_by_key_fingerprint req.fingerprint)
    claim_from req found

  -- The arguments of ClaimMailbox, normalised and checked
  unfoldable pub claim_request : Bytes → VerifiedKey → Bytes → Result ClaimRequest
  claim_request billing_email key coupon_code =
      let email = normalize billing_email in
      let fingerprint = normalize key.fingerprint in
      let code = trim_space (to_upper (if s.free_mode then [] else coupon_code)) in
      if invalid_email email
      then err (message (codes "billing_email must be a valid email"))
      else if is_empty fingerprint || is_empty (normalize key.algorithm)
      then err invalid_key_proof
      else with_coupon email fingerprint code (validate_coupon s code)

  -- ClaimMailbox
  unfoldable pub claim_mailbox : Bytes → VerifiedKey → Bytes → M (Mailbox × Bool)
  claim_mailbox billing_email key coupon_code = do
    req ← lift (claim_request billing_email key coupon_code)
    claim req
