-- ===== src/Tests/Http.antt =====
-- The HTTP handlers on concrete data.
use mailservice.Prelude.{
  ◌*◌, ◌≡◌, refl, ◌⊎◌, false, true, none, some, [], ◌∷◌, ◌++◌, Bytes, codes, ◌==ᵇ◌, arith,
  if◌then◌else◌,
}
use mailservice.Calendar.{day}
use mailservice.Text.{is_empty, trim_space, has_prefix, is_space, normalize, to_lower}
use mailservice.Ports.{ok, VerifiedKey}
use mailservice.World.{pure}
use mailservice.Http.{
  Handler, Decoded, Response, status_body, challenge_body, decode_json, write_json, verify_edproof,
}
use mailservice.Http.Gate.{Gated, Keyed, Refused, IsRefusal}
use mailservice.Http.Keyed.{
  claim_proof, resolve_proof, WithinLimits, handle_claim_mailbox-gate, handle_resolve_access-gate,
  handle_send_support_message-gate,
}
use mailservice.Http.Usable.{Entitled, handle_resolve_access-Entitled}
use mailservice.Http.Webhook.{Paying, handle_stripe_webhook-still}
use mailservice.Http.AdminKey.{IsKey, with_admin_key-gate}
use mailservice.World.Yields.{bump}
use mailservice.EdProof.Verifier.{verify, verified_key}
use mailservice.EdProof.Wire.{get_u32}
use mailservice.EdProof.Keys.{
  extract_pubkey_blob, parse_ssh_pubkey, parse_fields, fields, fields_from, extract_ed25519_key,
  extract_key_wire, extract_key_data, slice,
}
use mailservice.EdProof.SshSig.{verify_signature, verify_with_key, verify_raw}
use mailservice.Http.Challenge.{alone, challenge_at, handle_auth_challenge-opens}
use mailservice.Http.Semaphore.{arrive, finish, idle, IsWithin, run_gate, run_gate-IsWithin}
use mailservice.Http.Mailboxes.{ClaimMailboxRequest, handle_claim_mailbox, handle_auth_challenge}
use mailservice.Http.Access.{ResolveAccessRequest, handle_resolve_access}
use mailservice.Http.Support.{SupportMessageRequest, handle_send_support_message}
use mailservice.Http.Payments.{StripeEvent, handle_stripe_webhook}
use mailservice.Http.Admin.{with_admin_key}
use mailservice.Tests.Fixtures.{test_env, config, start}
use mailservice.Tests.Proofs.{crypto, secret, pubkey, nonce}

abbrev key : VerifiedKey
key = record { fingerprint = codes "f"; algorithm = codes "ed25519" }

abbrev pub handler : Handler
handler = record {
  admin_api_key = codes "k";
  stripe_webhook_secret = codes "s";
  key_proof_verifier =
      some (λ raw. ok (record { fingerprint = codes "f"; algorithm = codes "ed25519" }));
  charge_source = true;
  crypto = crypto;
  challenge_secret = secret;
  service = config;
  account_base_url = codes "u";
  reader = none;
  mock_payment_mode = false;
}

abbrev claim_body : Decoded ClaimMailboxRequest
claim_body = alone (record {
  billing_email = codes "a@b";
  edproof = pubkey;
  challenge = codes "v1";
  signature = codes "s";
  coupon_code = [];
})

abbrev resolve_body : Decoded ResolveAccessRequest
resolve_body = alone (record {
  protocol = codes "imap";
  edproof = pubkey;
  challenge = codes "v1";
  signature = codes "s";
})

abbrev support_body : Decoded SupportMessageRequest
support_body = alone (record {
  edproof = pubkey;
  challenge = codes "v1";
  signature = codes "s";
  subject = codes "help";
  body = codes "please";
})

handle_claim_mailbox-gate_example :
    Gated ⦃env = test_env⦄ handler claim_proof claim_body start
      (handle_claim_mailbox ⦃env = test_env⦄ handler claim_body start)
handle_claim_mailbox-gate_example =
    handle_claim_mailbox-gate ⦃env = test_env⦄ handler claim_body start

handle_resolve_access-gate_example :
    Gated ⦃env = test_env⦄ handler resolve_proof resolve_body start
      (handle_resolve_access ⦃env = test_env⦄ handler resolve_body start)
handle_resolve_access-gate_example =
    handle_resolve_access-gate ⦃env = test_env⦄ handler resolve_body start

handle_send_support_message-gate_example :
    ((req : SupportMessageRequest) × (decode_json support_body ≡ ok req)
      × WithinLimits ⦃env = test_env⦄ handler req
      × ((k : VerifiedKey) × Keyed ⦃env = test_env⦄ handler req.edproof req.challenge req.signature
            (10 * day)
            k))
    ⊎ Refused start (handle_send_support_message ⦃env = test_env⦄ handler support_body start)
handle_send_support_message-gate_example =
    handle_send_support_message-gate ⦃env = test_env⦄ handler support_body start

handle_resolve_access-Entitled_example :
    Entitled ⦃env = test_env⦄ handler resolve_body start
    ⊎ IsRefusal (handle_resolve_access ⦃env = test_env⦄ handler resolve_body start).0
handle_resolve_access-Entitled_example =
    handle_resolve_access-Entitled ⦃env = test_env⦄ handler resolve_body start

abbrev event : StripeEvent
event = record { type = codes "checkout.session.completed"; session_id = some (codes "cs") }

handle_stripe_webhook-still_example :
    Paying ⦃env = test_env⦄ handler (ok (codes "{}")) (λ text. ok event)
    ⊎ ((handle_stripe_webhook ⦃env = test_env⦄ handler (ok (codes "{}")) (λ text. ok event) start).1
        ≡ start)
handle_stripe_webhook-still_example =
    handle_stripe_webhook-still ⦃env = test_env⦄ handler (ok (codes "{}")) (λ text. ok event) start

abbrev done : Response
done = write_json 200 (status_body (codes "done"))

with_admin_key-gate_example :
    IsKey (codes "k") (codes "Bearer x")
    ⊎ Refused start (with_admin_key ⦃env = test_env⦄ handler (codes "Bearer x") (pure done) start)
with_admin_key-gate_example =
    with_admin_key-gate ⦃env = test_env⦄ handler (codes "Bearer x") (pure done) start

not_blank : is_empty (trim_space (codes "k")) ≡ false
unfolding trim_space
not_blank = refl

-- The key blob "ssh-ed25519" and 32 bytes, as text the word "k"
abbrev wire : Bytes
wire =
    0 ∷ 0 ∷ 0 ∷ 11 ∷ codes "ssh-ed25519"
    ++ (0 ∷ 0 ∷ 0 ∷ 32 ∷ codes "abcdefghijklmnopqrstuvwxyz012345")

abbrev wired : Handler
wired = record handler {
  crypto = record crypto { base64_decode = λ s. if s ==ᵇ codes "k" then some wire else some s };
}

abbrev signature : Bytes
signature = codes "abcdefghijklmnopqrstuvwxyz012345abcdefghijklmnopqrstuvwxyz012345"

wire_blob : extract_pubkey_blob wired.crypto pubkey ≡ ok (codes "k")
unfolding extract_pubkey_blob parse_fields fields fields_from is_space ◌==ᵇ◌
wire_blob = refl

abbrev made_challenge : Bytes
made_challenge =
    challenge_at ⦃env = test_env⦄ wired pubkey (codes "k") nonce wire_blob
      (λ text. (omega arith, (omega arith, tt))) start

signed : verify_signature wired.crypto made_challenge pubkey signature ≡ ok tt
unfolding verify_signature verify_with_key verify_raw extract_ed25519_key parse_ssh_pubkey
    extract_key_wire extract_key_data slice get_u32 has_prefix parse_fields fields fields_from
    is_space ◌==ᵇ◌
signed = refl

named :
    verify (λ raw. ok (record { fingerprint = codes "f"; algorithm = codes "ed25519" })) pubkey
    ≡ ok key
unfolding verify verified_key trim_space normalize to_lower
named = refl

handle_auth_challenge-opens_example :
    (handle_auth_challenge ⦃env = test_env⦄ wired nonce (alone pubkey) start
      ≡ (ok (write_json 200 (challenge_body made_challenge 30)), bump start))
    × (verify_edproof ⦃env = test_env⦄ wired
          (λ raw. ok (record { fingerprint = codes "f"; algorithm = codes "ed25519" }))
          pubkey
          made_challenge
          signature
          (bump start)
        ≡ (ok key, bump (bump start)))
handle_auth_challenge-opens_example =
    handle_auth_challenge-opens ⦃env = test_env⦄ wired pubkey (codes "k") nonce wire_blob
      (λ text. (omega arith, (omega arith, tt)))
      (λ raw. ok (record { fingerprint = codes "f"; algorithm = codes "ed25519" })) signature key
      start (bump start) (omega arith) (omega arith) (omega arith) refl signed named

-- Two requests for one place
run_gate-IsWithin_example :
    IsWithin 1 (run_gate 1 (arrive 7 (λ span. none) ∷ arrive 8 (λ span. none) ∷ finish 7 ∷ []) idle)
run_gate-IsWithin_example =
    run_gate-IsWithin 1 (arrive 7 (λ span. none) ∷ arrive 8 (λ span. none) ∷ finish 7 ∷ []) idle
      ((λ span raw e. absurd (ground arith)), ((λ span raw e. absurd (ground arith)), (tt, tt)))
      (omega arith, tt)
