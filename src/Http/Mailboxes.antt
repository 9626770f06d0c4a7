-- ===== src/Http/Mailboxes.antt =====
-- handler.go: the handlers of mailboxes: activation, creation, claim, listing.
use mailservice.Prelude.{
  ℕ, Bool, true, false, not, Option, none, some, List, [], ◌∷◌, if◌then◌else◌, Bytes, codes,
}
use mailservice.Text.{is_empty, trim_space, has_prefix}
use mailservice.Domain.{Mailbox, Account}
use mailservice.Ports.{
  Error, Result, ok, err, message, activation_token_invalid, invalid_key_proof, coupon_invalid,
  coupon_already_used, coupon_exhausted, mailbox_not_found, forbidden,
}
use mailservice.World.{Env, M, pure, time_now, lift, ◌>>=◌}
use mailservice.Sessions.{get_by_token}
use mailservice.Service.{check_usable}
use mailservice.Service.Free.{activate_mailbox_by_activation_token}
use mailservice.Service.Claim.{claim_mailbox}
use mailservice.Service.Accounts.{
  create_mailbox, get_mailbox_for_account, list_mailboxes_for_account,
}
use mailservice.EdProof.Challenge.{generate_challenge}
use mailservice.Http.{
  Handler, Decoded, Response, MailboxView, mailbox_body, mailboxes_body, challenge_body, page_body,
  write_json, write_error, cause, serve, with_body, with_verifier, with_key, trim_prefix,
}

-- claimMailboxRequest
pub record ClaimMailboxRequest : Type 0 where
  pub billing_email : Bytes
  pub edproof : Bytes
  pub challenge : Bytes
  pub signature : Bytes
  pub coupon_code : Bytes

-- The URL that a response shows for payment: the activation URL where there is one.
abbrev pub shown_url : Mailbox → Bytes
shown_url mailbox =
    if not (is_empty mailbox.activation_url) then mailbox.activation_url else mailbox.payment_url

abbrev activation_failure : Error → Error → Response
activation_failure activation_token_invalid e =
    write_json 404 (page_body (codes "Activation link invalid"))
activation_failure _ e = write_error 500 e

abbrev activation_page : Bool → Response
activation_page true = write_json 200 (page_body (codes "Mailbox already active"))
activation_page false = write_json 200 (page_body (codes "Mailbox activated"))

abbrev pub claim_status : Error → ℕ
claim_status invalid_key_proof = 401
claim_status coupon_invalid = 422
claim_status coupon_already_used = 409
claim_status coupon_exhausted = 410
claim_status _ = 400

abbrev pub get_status : Error → ℕ
get_status mailbox_not_found = 404
get_status forbidden = 403
get_status _ = 500

abbrev pub created_status : Bool → ℕ
created_status created = if created then 201 else 200

-- accountFromContext; the type of the value needs no check here.
abbrev account_from_context : Option Account → Result Account
account_from_context none = err (message (codes "account not found in context"))
account_from_context (some account) = ok account

-- The token of a request, from its two headers
unfoldable pub request_token : Bytes → Bytes → Bytes
unfolding trim_prefix trim_space has_prefix
request_token x_api_token authorization =
    if is_empty x_api_token
    then if has_prefix authorization (codes "Bearer ")
      then trim_space (trim_prefix authorization (codes "Bearer "))
      else x_api_token
    else x_api_token

module _ ⦃env : Env⦄ (h : Handler) where
  -- mailboxResponse, which asks twice whether the mailbox is usable
  unfoldable pub mailbox_response : Mailbox → M MailboxView
  mailbox_response mailbox = do
    shown_usable ← check_usable h.service mailbox
    token_shown ← check_usable h.service mailbox
    pure (record {
      id = mailbox.id;
      status = mailbox.status;
      usable = shown_usable;
      payment_url = shown_url mailbox;
      expires_at = mailbox.expires_at;
      access_token = if token_shown then mailbox.access_token else [];
    })

  -- writeJSON of a mailbox and whether it is new
  unfoldable pub write_mailbox : Mailbox × Bool → M Response
  write_mailbox (mailbox, created) = do
    view ← mailbox_response mailbox
    pure (write_json (created_status created) (mailbox_body view))

  unfoldable pub mailbox_responses : List Mailbox → M (List MailboxView)
  mailbox_responses [] = pure []
  mailbox_responses (mailbox ∷ rest) = do
    view ← mailbox_response mailbox
    views ← mailbox_responses rest
    pure (view ∷ views)

  -- withAccountToken
  unfoldable pub with_account_token : Bytes → Bytes → (Option Account → M Response) → M Response
  with_account_token x_api_token authorization next =
      serve (get_by_token h.account_base_url (request_token x_api_token authorization))
        (λ e. write_error 401 (message (codes "invalid api token")))
        (λ account. next (some account))

  -- handleActivateMailbox, on the token of the query
  unfoldable pub handle_activate_mailbox : Bytes → M Response
  handle_activate_mailbox query_token =
      if is_empty (trim_space query_token)
      then pure (write_error 400 (message (codes "missing token")))
      else serve (activate_mailbox_by_activation_token h.service (trim_space query_token))
          (λ e. activation_failure (cause e) e)
          (λ result. pure (activation_page result.already_active))

  -- handleCreateMailbox
  unfoldable pub handle_create_mailbox : Option Account → M Response
  handle_create_mailbox context =
      serve (lift (account_from_context context)) (write_error 401)
        (λ account. serve (create_mailbox h.service (some account)) (write_error 400) write_mailbox)

  -- handleAuthChallenge; `nonce` is what crypto/rand gives.
  unfoldable pub handle_auth_challenge : Bytes → Decoded Bytes → M Response
  handle_auth_challenge nonce d = with_body d (λ public_key. do
    now ← time_now
    serve (lift (generate_challenge h.crypto h.challenge_secret public_key nonce now))
        (write_error 400) (λ challenge. pure (write_json 200 (challenge_body challenge 30))))

  -- handleClaimMailbox
  unfoldable pub handle_claim_mailbox : Decoded ClaimMailboxRequest → M Response
  handle_claim_mailbox d = with_body d (λ req. with_verifier h (λ backend.
      with_key h backend req.edproof req.challenge req.signature (λ key.
        serve (claim_mailbox h.service req.billing_email key req.coupon_code)
          (λ e. write_error (claim_status (cause e)) e) write_mailbox)))

  -- handleListMailboxes
  unfoldable pub handle_list_mailboxes : Option Account → M Response
  handle_list_mailboxes context =
      serve (lift (account_from_context context)) (write_error 401) (λ account.
        serve (list_mailboxes_for_account h.service account.id) (write_error 500) (λ mailboxes. do
          items ← mailbox_responses mailboxes
          pure (write_json 200 (mailboxes_body items))))

  -- handleGetMailbox
  unfoldable pub handle_get_mailbox : Bytes → Option Account → M Response
  handle_get_mailbox id context =
      serve (lift (account_from_context context)) (write_error 401) (λ account.
        serve (get_mailbox_for_account h.service id account.id)
          (λ e. write_error (get_status (cause e)) e)
          (λ mailbox. do
            view ← mailbox_response mailbox
            pure (write_json 200 (mailbox_body view))))
