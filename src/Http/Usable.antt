-- ===== src/Http/Usable.antt =====
-- Who is shown the credentials of a mailbox over HTTP.
use mailservice.Prelude.{
  ◌+◌, ◌≤◌, ◌≡◌, refl, ap, sym, ◌⊎◌, inl, inr, true, not, ◌||◌, Option, none, some, arith, Bytes,
  codes, ◌==ᵇ◌, Bool-cases,
}
use mathlib.Core.Path.{subst}
use mailservice.Text.{is_empty, normalize, trim_space, to_lower}
use mailservice.Domain.{Mailbox, usable}
use mailservice.Ports.{
  Error, Result, ok, err, VerifiedKey, mailbox_not_found, mailbox_not_usable, invalid_key_proof,
}
use mailservice.World.{Env, World, M, pure, raise, lift, time_now, attempt, ◌>>=◌}
use mailservice.World.Yields.{Yields, Yields_of, Yields-then, Yields-weaken, bump}
use mailservice.Repository.Mailboxes
use mailservice.Service.{Config, supports_protocol}
use mailservice.Service.Access.{resolve_found, resolve_access_by_key}
use mailservice.Service.Access.Gate.{resolve_found-gate}
use mailservice.EdProof.Verifier.{BackendResult}
use mailservice.Http.{
  Handler, Decoded, Response, cause, answer, serve, decode_json, with_body, with_backend,
  with_verifier, access_body, write_json, write_error, verify_edproof, write_edproof_error,
  with_key,
}
use mailservice.Http.Gate.{
  IsRefusal, Keyed, failing-IsRefusal, edproof_status-le, key_of, verify_edproof-key,
}
use mailservice.Http.Access.{
  ResolveAccessRequest, key_failure, token_failure, handle_resolve_access,
}

token_failure-le : (inner e : Error) → 400 ≤ (token_failure inner e).status
token_failure-le mailbox_not_found e = omega arith
token_failure-le mailbox_not_usable e = omega arith
token_failure-le _ e = omega arith

key_failure-le : (inner e : Error) → 400 ≤ (key_failure inner e).status
key_failure-le invalid_key_proof e = omega arith
key_failure-le mailbox_not_found e = omega arith
key_failure-le mailbox_not_usable e = omega arith
key_failure-le _ e = omega arith

-- A success is described by its own equation.
Yields-self : {A : Type 0} (x : Result A × World) → Yields x (λ a w. x ≡ (ok a, w))
Yields-self (ok a, w) = refl
Yields-self (err e, w) = tt

-- A call that succeeds gives the postcondition; an error is a refusal.
serve-refuses :
    {A Goal : Type 0} (m : M A) (fail : Error → Response) (done : A → M Response) (w : World)
    → ((e : Error) → 400 ≤ (fail e).status)
    → ((a : A) (w' : World) → m w ≡ (ok a, w') → Goal ⊎ IsRefusal (done a w').0)
    → Goal ⊎ IsRefusal (serve m fail done w).0
unfolding serve attempt ◌>>=◌
serve-refuses {A} {Goal} m fail done w low good = go (m w).0 (m w).1 refl
  where
    go : (r : Result A) (w' : World) → m w ≡ (r, w') → Goal ⊎ IsRefusal (answer fail done r w').0
    go (ok a) w' e = good a w' e
    go (err e) w' eq = inr (failing-IsRefusal fail e w' (low e)).0

module _ ⦃env : Env⦄ (s : Config) where
  -- The mailbox that has the fingerprint of the key is usable at a reading of the clock.
  abbrev pub HasUsable : VerifiedKey → World → Type 0
  HasUsable key w =
      (m : Mailbox) × (found : World) × (Mailboxes.get_by_key_fingerprint
          (normalize key.fingerprint) w
        ≡ (ok m, found))
      × (usable m (env.clock (found.ticks + 1)) ≡ true)

  resolve_from_found :
      (key : VerifiedKey) (w : World)
      → Yields
          ((Mailboxes.get_by_key_fingerprint (normalize key.fingerprint) >>= λ m. resolve_found s m)
            w)
          (λ r w'. HasUsable key w)
  resolve_from_found key w =
      Yields-then
        (λ m found. Mailboxes.get_by_key_fingerprint (normalize key.fingerprint) w ≡ (ok m, found))
        (Mailboxes.get_by_key_fingerprint (normalize key.fingerprint)) (λ m. resolve_found s m) w
        (λ r w'. HasUsable key w)
        (Yields-self (Mailboxes.get_by_key_fingerprint (normalize key.fingerprint) w))
        (λ m found e.
          Yields-weaken (resolve_found s m found)
            (λ r w'. usable m (env.clock (found.ticks + 1)) ≡ true) (λ r w'. HasUsable key w)
            (resolve_found-gate s m found).0 (λ r w' u. (m, found, e, u)))

  resolve_by_key :
      (key : VerifiedKey) (protocol : Bytes) (w : World)
      → Yields (resolve_access_by_key s key protocol w) (λ r w'. HasUsable key w)
  unfolding resolve_access_by_key raise
  resolve_by_key key protocol w = elim (Bool-cases (not (supports_protocol protocol))) [
    | inl other ↦ rw other tt
    | inr imap ↦
        rw imap
          (elim (Bool-cases
            (is_empty (normalize key.fingerprint) || is_empty (normalize key.algorithm))) [
              | inl unnamed ↦ rw unnamed tt
              | inr named ↦ rw named (resolve_from_found key w)
            ])
  ]

module _ ⦃env : Env⦄ (h : Handler) where
  -- The key of a request, proved at the reading of the clock in state `w`, has a usable mailbox.
  abbrev pub Entitled : Decoded ResolveAccessRequest → World → Type 0
  Entitled d w =
      (req : ResolveAccessRequest) × (decode_json d ≡ ok req)
      × ((key : VerifiedKey) × Keyed h req.edproof req.challenge req.signature (env.clock w.ticks)
            key
          × HasUsable h.service key (bump w))

  proof-bump :
      (backend : Bytes → Result BackendResult) (pubkey challenge signature : Bytes) (w w' : World)
      (key : VerifiedKey)
      → verify_edproof h backend pubkey challenge signature w ≡ (ok key, w')
      → w' ≡ bump w
  unfolding verify_edproof raise lift time_now ◌>>=◌
  proof-bump backend pubkey challenge signature w w' key =
      elim (Bool-cases (is_empty challenge || is_empty signature)) [
        | inl missing ↦ rw missing (λ e. absurd (ground (arith, ap (λ x. x.0) e)))
        | inr given ↦ rw given (λ e. sym (ap (λ x. x.1) e))
      ]

  with_key-Entitled :
      (d : Decoded ResolveAccessRequest) (req : ResolveAccessRequest) (w : World)
      (backend : Bytes → Result BackendResult)
      → decode_json d ≡ ok req
      → h.key_proof_verifier ≡ some backend
      → Entitled d w
        ⊎ IsRefusal
            (with_key h backend req.edproof req.challenge req.signature
              (λ key.
                serve
                  (resolve_access_by_key h.service key req.protocol)
                  (λ e. key_failure (cause e) e)
                  (λ result. pure (write_json 200 (access_body result))))
              w).0
  unfolding with_key write_edproof_error
  with_key-Entitled d req w backend e set =
      serve-refuses (verify_edproof h backend req.edproof req.challenge req.signature)
        write_edproof_error _ w (λ f. edproof_status-le (cause f))
        (λ key w' proved.
          serve-refuses (resolve_access_by_key h.service key req.protocol)
            (λ f. key_failure (cause f) f) _ w' (λ f. key_failure-le (cause f) f)
            (λ r w'' run. inl (
              req,
              e,
              (
                key,
                key_of h backend req.edproof req.challenge req.signature (env.clock w.ticks) key set
                    (verify_edproof-key h backend req.edproof req.challenge req.signature w key
                      (ap (λ x. x.0) proved)),
                subst (HasUsable h.service key)
                    (proof-bump backend req.edproof req.challenge req.signature w w' key proved)
                    (Yields_of (λ _ _. HasUsable h.service key w') _
                      (resolve_by_key h.service key req.protocol w') run),
              ),
            )))

  verifier-refuses :
      {Goal : Type 0} (handle : (Bytes → Result BackendResult) → M Response) (w : World)
      → ((backend : Bytes → Result BackendResult)
          → h.key_proof_verifier ≡ some backend
          → Goal ⊎ IsRefusal (handle backend w).0)
      → Goal ⊎ IsRefusal (with_verifier h handle w).0
  unfolding with_verifier pure
  verifier-refuses {Goal} handle w good = go h.key_proof_verifier good
    where
      go :
          (o : Option (Bytes → Result BackendResult))
          → ((backend : Bytes → Result BackendResult)
              → o ≡ some backend
              → Goal ⊎ IsRefusal (handle backend w).0)
          → Goal ⊎ IsRefusal (with_backend h o handle w).0
      go none good = inr (omega arith)
      go (some backend) good = good backend refl

  -- The answer to a request for access is a refusal, or the key of the request is proved at the
  -- reading of the clock and has a mailbox that is usable when it is looked at.
  pub handle_resolve_access-Entitled :
      (d : Decoded ResolveAccessRequest) (w : World)
      → Entitled d w ⊎ IsRefusal (handle_resolve_access h d w).0
  unfolding handle_resolve_access with_body lift pure
  handle_resolve_access-Entitled d w =
      serve-refuses (lift (decode_json d)) (write_error 400) _ w (λ f. omega arith)
        (λ req w' run.
          let read : decode_json d ≡ ok req = ap (λ x. x.0) run in
          let same : w ≡ w' = ap (λ x. x.1) run in
          elim (Bool-cases (not (trim_space (to_lower req.protocol) ==ᵇ codes "imap"))) [
            | inl other ↦ rw other (inr (omega arith))
            | inr imap ↦
                rw (imap, ← same)
                  (verifier-refuses _ w (λ backend set. with_key-Entitled d req w backend read set))
          ])
