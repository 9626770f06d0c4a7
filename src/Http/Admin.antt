-- ===== src/Http/Admin.antt =====
-- handler.go: the key of the administrator, and the handlers behind it.
use mailservice.Prelude.{
  ℕ, ◌+◌, Bool, true, false, not, ◌||◌, Option, none, some, List, [], ◌∷◌, ◌++◌, length,
  if◌then◌else◌, Bytes, codes, ◌==ᵇ◌,
}
use mailservice.Calendar.{Time}
use mailservice.Text.{is_empty, trim_space}
use mailservice.Domain.{Mailbox}
use mailservice.Ports.{Error, Result, ok, err, message, wrap, switchover_requires_free_mode}
use mailservice.World.{Env, M, pure, lift}
use mailservice.Service.Free.{switchover_to_free_mode}
use mailservice.Service.Accounts.{reprovision_mailbox}
use mailservice.Service.Payment.{
  ReconcileAction, activated_now, ReconcileResult, reconcile_open_collective_payments,
  reconcile_pending_payments,
}
use mailservice.EdProof.Verifier.{fingerprint_from_pubkey}
use mailservice.Http.{
  Handler, Decoded, Response, reprovisioned_body, reconciled_body, switchover_body, write_json,
  write_error, cause, serve, with_body, trim_prefix,
}

-- The body of handleReprovisionMailbox; `parsed_expiry` is what `time.Parse` makes of `expires_at`.
pub record ReprovisionBody : Type 0 where
  pub mailbox_id : Bytes
  pub owner_email : Bytes
  pub public_key : Bytes
  pub expires_at : Bytes
  pub parsed_expiry : Option Time

-- A field of the body is missing.
unfoldable pub is_incomplete : ReprovisionBody → Bool
is_incomplete req =
    is_empty req.mailbox_id
    || is_empty req.owner_email
    || is_empty req.public_key
    || is_empty req.expires_at

abbrev pub parsed_time : Option Time → Result Time
parsed_time none = err (message (codes "invalid expires_at (use RFC3339)"))
parsed_time (some at) = ok at

abbrev was_activated : ReconcileAction → Bool
was_activated activated_now = true
was_activated _ = false

-- The results with the action "activated"
unfoldable pub count_activated : List ReconcileResult → ℕ
count_activated [] = 0
count_activated (r ∷ rs) = let n = count_activated rs in if was_activated r.action then n + 1 else n

abbrev pub switchover_status : Error → ℕ
switchover_status switchover_requires_free_mode = 409
switchover_status _ = 500

-- The token that the header `Authorization` carries
unfoldable pub is_admin_token : Bytes → Bytes → Bool
unfolding trim_prefix trim_space
is_admin_token key authorization =
    let token = trim_prefix authorization (codes "Bearer ") in
    not (is_empty (trim_space token) || not (token ==ᵇ key))

module _ ⦃env : Env⦄ (h : Handler) where
  -- withAdminKey
  unfoldable pub with_admin_key : Bytes → M Response → M Response
  with_admin_key authorization next =
      if is_empty h.admin_api_key
      then pure (write_error 503 (message (codes "admin API not configured")))
      else if not (is_admin_token h.admin_api_key authorization)
      then pure (write_error 401 (message (codes "invalid admin key")))
      else next

  abbrev reprovisioned : Mailbox → Response
  reprovisioned mailbox = write_json 201 (
      reprovisioned_body mailbox.id (mailbox.imap_username ++ codes "@" ++ h.service.mail_domain)
        mailbox.status mailbox.expires_at)

  -- handleReprovisionMailbox
  unfoldable pub handle_reprovision_mailbox : Decoded ReprovisionBody → M Response
  handle_reprovision_mailbox d = with_body d (λ req.
      if is_incomplete req
      then pure (
          write_error 400
            (message (codes "mailbox_id, owner_email, public_key, and expires_at are required")))
      else serve (lift (fingerprint_from_pubkey h.crypto req.public_key))
          (λ e. write_error 400 (wrap (codes "invalid public_key") e))
          (λ fingerprint.
            serve (lift (parsed_time req.parsed_expiry)) (write_error 400) (λ expires_at.
              serve
                (reprovision_mailbox h.service (record {
                  mailbox_id = req.mailbox_id;
                  owner_email = req.owner_email;
                  key_fingerprint = fingerprint;
                  expires_at = expires_at;
                }))
                (write_error 409) (λ mailbox. pure (reprovisioned mailbox)))))

  -- handleReconcilePayments
  unfoldable pub handle_reconcile_payments : M Response
  handle_reconcile_payments =
      if h.charge_source
      then serve (reconcile_open_collective_payments h.service) (write_error 500)
          (λ applied. pure (write_json 200 (reconciled_body applied applied [])))
      else serve (reconcile_pending_payments h.service) (write_error 500) (λ results.
        pure (write_json 200 (reconciled_body (length results) (count_activated results) results)))

  -- handleFreeModeSwitchover
  unfoldable pub handle_free_mode_switchover : M Response
  handle_free_mode_switchover =
      serve (switchover_to_free_mode h.service) (λ e. write_error (switchover_status (cause e)) e)
        (λ result. pure (write_json 200 (switchover_body result)))
