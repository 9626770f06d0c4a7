-- ===== src/Http/Gate.antt =====
-- What stands before the handlers that a key opens: without the proof of the key they refuse the
-- request and change nothing.
use mailservice.Prelude.{
  ◌≤◌, ◌≡◌, refl, ◌∙◌, ◌⊎◌, inl, inr, Bool, true, false, ◌||◌, Option, none, some, if◌then◌else◌,
  arith, Bytes, ⊤, Bool-cases,
}
use mailservice.Calendar.{Time}
use mailservice.Text.{is_empty}
use mailservice.Ports.{Error, Result, ok, err, challenge_required, VerifiedKey}
use mailservice.World.{Env, World, M, pure, raise, attempt, lift, time_now, ◌>>=◌}
use mailservice.World.Yields.{bump}
use mailservice.EdProof.Challenge.{verify_challenge}
use mailservice.EdProof.SshSig.{verify_signature}
use mailservice.EdProof.Verifier.{BackendResult, verify}
use mailservice.Http.{
  Handler, Decoded, Response, decode_json, cause, is_panic, failing, answer, write_error, verified,
  verify_key_proof, verify_edproof, challenge_max_age, edproof_status, write_edproof_error, serve,
  with_body, with_backend, with_verifier, with_key,
}

-- A response that is no success, or no response
abbrev pub IsRefusal : Result Response → Type 0
IsRefusal (err e) = ⊤
IsRefusal (ok r) = 400 ≤ r.status

-- The request is refused, and the state is as it was but for a reading of the clock.
abbrev pub Refused : World → Result Response × World → Type 0
Refused w x = IsRefusal x.0 × ((x.1 ≡ w) ⊎ (x.1 ≡ bump w))

pub failing-IsRefusal :
    (fail : Error → Response) (e : Error) (w : World)
    → 400 ≤ (fail e).status
    → IsRefusal (failing fail e w).0 × (failing fail e w).1 ≡ w
unfolding raise pure
failing-IsRefusal fail e w h = elim (Bool-cases (is_panic (cause e))) [
  | inl panic ↦ rw panic (tt, refl)
  | inr other ↦ rw other (h, refl)
]

pub edproof_status-le : (e : Error) → 400 ≤ edproof_status e
edproof_status-le challenge_required = omega arith
edproof_status-le Error.challenge_expired = omega arith
edproof_status-le Error.challenge_tampered = omega arith
edproof_status-le Error.challenge_future = omega arith
edproof_status-le Error.signature_invalid = omega arith
edproof_status-le Error.invalid_key_proof = omega arith
edproof_status-le _ = omega arith

-- The two states that a refusal leaves
abbrev pub Unchanged : World → World → Type 0
Unchanged w w' = (w' ≡ w) ⊎ (w' ≡ bump w)

-- An error of the call refuses the request, if the call has changed nothing.
pub serve-gate :
    {A Goal : Type 0} (m : M A) (fail : Error → Response) (done : A → M Response) (w : World)
    → ((e : Error) → 400 ≤ (fail e).status)
    → Unchanged w (m w).1
    → ((a : A) → (m w).0 ≡ ok a → Goal ⊎ Refused w (done a (m w).1))
    → Goal ⊎ Refused w (serve m fail done w)
unfolding serve attempt ◌>>=◌
serve-gate {A} {Goal} m fail done w low same good = go (m w).0 (m w).1 same good
  where
    go :
        (r : Result A) (w' : World)
        → Unchanged w w'
        → ((a : A) → r ≡ ok a → Goal ⊎ Refused w (done a w'))
        → Goal ⊎ Refused w (answer fail done r w')
    go (ok a) w' same good = good a refl
    go (err e) w' same good =
        let (refusal, still) = failing-IsRefusal fail e w' (low e) in
        inr (refusal, elim same [ inl x ↦ inl (still ∙ x) | inr x ↦ inr (still ∙ x) ])

-- A call that reads nothing of the state
pub lift-gate :
    {A Goal : Type 0} (r : Result A) (fail : Error → Response) (done : A → M Response) (w : World)
    → ((e : Error) → 400 ≤ (fail e).status)
    → ((a : A) → r ≡ ok a → Goal ⊎ Refused w (done a w))
    → Goal ⊎ Refused w (serve (lift r) fail done w)
unfolding lift
lift-gate r fail done w low good = serve-gate (lift r) fail done w low (inl refl) good

pub with_body-gate :
    {A Goal : Type 0} (d : Decoded A) (handle : A → M Response) (w : World)
    → ((req : A) → decode_json d ≡ ok req → Goal ⊎ Refused w (handle req w))
    → Goal ⊎ Refused w (with_body d handle w)
unfolding with_body
with_body-gate d handle w good =
    lift-gate (decode_json d) (write_error 400) handle w (λ e. omega arith) good

-- A refusal at once
pub pure-Refused : (r : Response) (w : World) → 400 ≤ r.status → Refused w (pure r w)
unfolding pure
pure-Refused r w h = (h, inl refl)

-- A guard that answers with a refusal
pub guard-gate :
    {Goal : Type 0} (b : Bool) (refusal : Response) (m : M Response) (w : World)
    → 400 ≤ refusal.status
    → (b ≡ false → Goal ⊎ Refused w (m w))
    → Goal ⊎ Refused w ((if b then pure refusal else m) w)
guard-gate true refusal m w low good = inr (pure-Refused refusal w low)
guard-gate false refusal m w low good = good refl

module _ ⦃env : Env⦄ (h : Handler) where
  -- The key is proved at a time: the challenge and its signature are good, and the verifier names
  -- the key.
  abbrev pub Keyed : Bytes → Bytes → Bytes → Time → VerifiedKey → Type 0
  Keyed pubkey challenge signature now key =
      (verify_challenge h.crypto h.challenge_secret challenge pubkey challenge_max_age now ≡ ok tt)
      × (verify_signature h.crypto challenge pubkey signature ≡ ok tt)
      × ((backend : Bytes → Result BackendResult) × (h.key_proof_verifier ≡ some backend)
          × (verify backend pubkey ≡ ok key))

  -- A request either decodes to one whose key is proved, or is refused.
  abbrev pub Gated :
      {A : Type 0}
      → (A → Bytes × Bytes × Bytes)
      → Decoded A
      → World
      → Result Response × World
      → Type 0
  Gated {A} proof d w x =
      ((req : A) × (decode_json d ≡ ok req)
        × ((key : VerifiedKey) × Keyed (proof req).0 (proof req).1 (proof req).2 (env.clock w.ticks)
              key))
      ⊎ Refused w x

  pub key_of :
      (backend : Bytes → Result BackendResult) (pubkey challenge signature : Bytes) (now : Time)
      (key : VerifiedKey)
      → h.key_proof_verifier ≡ some backend
      → verify_key_proof h backend pubkey challenge signature now ≡ ok key
      → Keyed pubkey challenge signature now key
  unfolding verify_key_proof
  key_of backend pubkey challenge signature now key set e =
      go (verify_challenge h.crypto h.challenge_secret challenge pubkey challenge_max_age now)
        (verify_signature h.crypto challenge pubkey signature) refl refl e
    where
      go :
          (a b : Result (Unit {0}))
          → verify_challenge h.crypto h.challenge_secret challenge pubkey challenge_max_age now ≡ a
          → verify_signature h.crypto challenge pubkey signature ≡ b
          → verified a b (verify backend pubkey) ≡ ok key
          → Keyed pubkey challenge signature now key
      go (err a) b ea eb e = absurd (ground arith)
      go (ok a) (err b) ea eb e = absurd (ground arith)
      go (ok a) (ok b) ea eb e = (ea, eb, (backend, set, e))

  verify_edproof-Unchanged :
      (backend : Bytes → Result BackendResult) (pubkey challenge signature : Bytes) (w : World)
      → Unchanged w (verify_edproof h backend pubkey challenge signature w).1
  unfolding verify_edproof raise lift time_now ◌>>=◌
  verify_edproof-Unchanged backend pubkey challenge signature w =
      elim (Bool-cases (is_empty challenge || is_empty signature)) [
        | inl missing ↦ rw missing (inl refl)
        | inr given ↦ rw given (inr refl)
      ]

  pub verify_edproof-key :
      (backend : Bytes → Result BackendResult) (pubkey challenge signature : Bytes) (w : World)
      (key : VerifiedKey)
      → (verify_edproof h backend pubkey challenge signature w).0 ≡ ok key
      → verify_key_proof h backend pubkey challenge signature (env.clock w.ticks) ≡ ok key
  unfolding verify_edproof raise lift time_now ◌>>=◌
  verify_edproof-key backend pubkey challenge signature w key =
      elim (Bool-cases (is_empty challenge || is_empty signature)) [
        | inl missing ↦ rw missing (λ e. absurd (ground arith))
        | inr given ↦ rw given (λ e. e)
      ]

  -- The key is proved at the reading of the clock, or the request is refused.
  pub with_key-gate :
      (backend : Bytes → Result BackendResult) (pubkey challenge signature : Bytes)
      (handle : VerifiedKey → M Response) (w : World)
      → h.key_proof_verifier ≡ some backend
      → ((key : VerifiedKey) × Keyed pubkey challenge signature (env.clock w.ticks) key)
        ⊎ Refused w (with_key h backend pubkey challenge signature handle w)
  unfolding with_key write_edproof_error
  with_key-gate backend pubkey challenge signature handle w set =
      serve-gate (verify_edproof h backend pubkey challenge signature) write_edproof_error handle w
        (λ e. edproof_status-le (cause e))
        (verify_edproof-Unchanged backend pubkey challenge signature w)
        (λ key e. inl (
          key,
          key_of backend pubkey challenge signature (env.clock w.ticks) key set
              (verify_edproof-key backend pubkey challenge signature w key e),
        ))

  pub with_verifier-gate :
      {Goal : Type 0} (handle : (Bytes → Result BackendResult) → M Response) (w : World)
      → ((backend : Bytes → Result BackendResult)
          → h.key_proof_verifier ≡ some backend
          → Goal ⊎ Refused w (handle backend w))
      → Goal ⊎ Refused w (with_verifier h handle w)
  unfolding with_verifier pure
  with_verifier-gate {Goal} handle w good = go h.key_proof_verifier good
    where
      go :
          (o : Option (Bytes → Result BackendResult))
          → ((backend : Bytes → Result BackendResult)
              → o ≡ some backend
              → Goal ⊎ Refused w (handle backend w))
          → Goal ⊎ Refused w (with_backend h o handle w)
      go none good = inr (omega arith, inl refl)
      go (some backend) good = good backend refl
