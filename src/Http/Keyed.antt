-- ===== src/Http/Keyed.antt =====
-- The handlers that a key opens: a claim, the access to a mailbox, and a message to support.
use mailservice.Prelude.{
  ◌≤◌, ◌≡◌, ◌⊎◌, inl, inr, false, not, some, ◌||◌, arith, Bytes, codes, ◌==ᵇ◌, ltb, length,
}
use mailservice.Text.{is_empty, trim_space, to_lower}
use mailservice.Ports.{Result, ok, VerifiedKey}
use mailservice.World.{Env, World, M}
use mailservice.EdProof.Verifier.{BackendResult}
use mailservice.Http.{Handler, Decoded, Response, decode_json, with_key}
use mailservice.Http.Gate.{
  Keyed, Gated, Refused, with_body-gate, with_verifier-gate, with_key-gate, guard-gate,
}
use mailservice.Http.Mailboxes.{ClaimMailboxRequest, handle_claim_mailbox}
use mailservice.Http.Access.{ResolveAccessRequest, handle_resolve_access}
use mailservice.Http.Support.{
  SupportMessageRequest, support_subject_max_len, support_body_max_len, handle_send_support_message,
}

-- The public key, the challenge and the signature of a request
abbrev pub claim_proof : ClaimMailboxRequest → Bytes × Bytes × Bytes
claim_proof req = (req.edproof, req.challenge, req.signature)

abbrev pub resolve_proof : ResolveAccessRequest → Bytes × Bytes × Bytes
resolve_proof req = (req.edproof, req.challenge, req.signature)

abbrev pub support_proof : SupportMessageRequest → Bytes × Bytes × Bytes
support_proof req = (req.edproof, req.challenge, req.signature)

module _ ⦃env : Env⦄ (h : Handler) where
  from_key :
      {A : Type 0} (proof : A → Bytes × Bytes × Bytes) (d : Decoded A) (w : World) (req : A)
      (backend : Bytes → Result BackendResult) (handle : VerifiedKey → M Response)
      → decode_json d ≡ ok req
      → h.key_proof_verifier ≡ some backend
      → Gated h proof d w (with_key h backend (proof req).0 (proof req).1 (proof req).2 handle w)
  from_key proof d w req backend handle e set =
      elim (with_key-gate h backend (proof req).0 (proof req).1 (proof req).2 handle w set) [
        | inl keyed ↦ inl (req, e, keyed)
        | inr refused ↦ inr refused
      ]

  -- A claim either proves its key at the reading of the clock, or gets no success and changes
  -- nothing but that reading.
  pub handle_claim_mailbox-gate :
      (d : Decoded ClaimMailboxRequest) (w : World)
      → Gated h claim_proof d w (handle_claim_mailbox h d w)
  unfolding handle_claim_mailbox
  handle_claim_mailbox-gate d w = with_body-gate d _ w (λ req e.
      with_verifier-gate h _ w (λ backend set. from_key claim_proof d w req backend _ e set))

  -- A request for the access of a mailbox either proves its key at the reading of the clock, or
  -- gets no success and changes nothing but that reading.
  pub handle_resolve_access-gate :
      (d : Decoded ResolveAccessRequest) (w : World)
      → Gated h resolve_proof d w (handle_resolve_access h d w)
  unfolding handle_resolve_access
  handle_resolve_access-gate d w = with_body-gate d _ w (λ req e.
      guard-gate (not (trim_space (to_lower req.protocol) ==ᵇ codes "imap")) _ _ w (omega arith)
        (λ imap.
          with_verifier-gate h _ w (λ backend set. from_key resolve_proof d w req backend _ e set)))

  -- A request by whose key a message to support is sent, both its texts within their limits
  abbrev pub WithinLimits : SupportMessageRequest → Type 0
  WithinLimits req =
      (is_empty (trim_space req.subject) ≡ false)
      × (is_empty (trim_space req.body) ≡ false)
      × (length (trim_space req.subject) ≤ support_subject_max_len)
      × (length (trim_space req.body) ≤ support_body_max_len)

  -- A message to support either has both its texts within their limits and proves its key at the
  -- reading of the clock, or gets no success and changes nothing but that reading.
  pub handle_send_support_message-gate :
      (d : Decoded SupportMessageRequest) (w : World)
      → ((req : SupportMessageRequest) × (decode_json d ≡ ok req)
          × WithinLimits req
          × ((key : VerifiedKey) × Keyed h req.edproof req.challenge req.signature
                (env.clock w.ticks)
                key))
        ⊎ Refused w (handle_send_support_message h d w)
  unfolding handle_send_support_message
  handle_send_support_message-gate d w = with_body-gate d _ w (λ req e.
      with_verifier-gate h _ w (λ backend set.
        guard-gate (is_empty (trim_space req.subject) || is_empty (trim_space req.body)) _ _ w
          (omega arith)
          (λ given.
            guard-gate (ltb support_subject_max_len (length (trim_space req.subject))) _ _ w
              (omega arith)
              (λ short.
                guard-gate (ltb support_body_max_len (length (trim_space req.body))) _ _ w
                  (omega arith)
                  (λ brief.
                    elim (with_key-gate h backend req.edproof req.challenge req.signature _ w set) [
                      | inl keyed ↦
                          inl (
                            req,
                            e,
                            (ground arith, ground arith, ground arith, ground arith),
                            keyed,
                          )
                      | inr refused ↦ inr refused
                    ])))))
