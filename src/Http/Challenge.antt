-- ===== src/Http/Challenge.antt =====
-- A challenge from the handler of challenges opens the handlers behind it.
use mailservice.Prelude.{◌+◌, ◌*◌, ◌/◌, ◌^◌, ◌<◌, ◌≤◌, ◌≡◌, refl, true, false, some, Bytes}
use mailservice.Calendar.{Time, second}
use mailservice.Text.{is_empty}
use mailservice.Ports.{Result, ok, VerifiedKey}
use mailservice.World.{Env, World, pure, raise, attempt, lift, time_now, ◌>>=◌}
use mailservice.World.Yields.{bump}
use mailservice.EdProof.Hex.{AreBytes}
use mailservice.EdProof.Keys.{extract_pubkey_blob}
use mailservice.EdProof.Verifier.{BackendResult, verify}
use mailservice.EdProof.Challenge.{
  challenge_text, generate_challenge, max_clock_skew, unix_to_internal, verify_challenge,
  hmac_input,
}
use mailservice.EdProof.Challenge.RoundTrip.{verify-generate}
use mailservice.EdProof.SshSig.{verify_signature}
use mailservice.Http.{
  Handler, Decoded, challenge_body, write_json, decode_json, serve, with_body, verify_key_proof,
  verify_edproof, challenge_max_age,
}
use mailservice.Http.Mailboxes.{handle_auth_challenge}

-- A body that holds one value and nothing else
abbrev pub alone : {A : Type 0} → A → Decoded A
alone a = record { value = some a; more = false; at_end = true }

module _ ⦃env : Env⦄ (h : Handler) (pubkey blob nonce : Bytes)
    (has_blob : extract_pubkey_blob h.crypto pubkey ≡ ok blob)
    (digest_bytes : (text : Bytes) → AreBytes (h.crypto.hmac_sha256 text h.challenge_secret)) where
  made :
      (now : Time)
      → generate_challenge h.crypto h.challenge_secret pubkey nonce now
        ≡ ok (challenge_text h.crypto h.challenge_secret blob nonce now)
  unfolding generate_challenge
  made now = rw (has_blob, generate_challenge) refl

  -- The challenge that is made in a state
  abbrev pub challenge_at : World → Bytes
  challenge_at w = challenge_text h.crypto h.challenge_secret blob nonce (env.clock w.ticks)

  answered :
      (w : World)
      → handle_auth_challenge h nonce (alone pubkey) w ≡ (
        ok (
            write_json 200 (
              challenge_body
                (challenge_text h.crypto h.challenge_secret blob nonce (env.clock w.ticks))
                30)),
        bump w,
      )
  unfolding handle_auth_challenge with_body decode_json serve attempt lift time_now pure ◌>>=◌
  answered w = rw (made (env.clock w.ticks)) refl

  accepted :
      (backend : Bytes → Result BackendResult) (challenge signature : Bytes) (key : VerifiedKey)
      (later : World)
      → is_empty challenge ≡ false
      → is_empty signature ≡ false
      → verify_challenge h.crypto h.challenge_secret challenge pubkey challenge_max_age
          (env.clock later.ticks)
        ≡ ok tt
      → verify_signature h.crypto challenge pubkey signature ≡ ok tt
      → verify backend pubkey ≡ ok key
      → verify_edproof h backend pubkey challenge signature later ≡ (ok key, bump later)
  unfolding verify_edproof verify_key_proof raise lift time_now ◌>>=◌
  accepted backend challenge signature key later c s v g k = rw (c, s, v, g, k) refl

  -- The handler of challenges answers a request for a public key with a challenge, and until 30
  -- seconds after the second in which it was made, a good signature of it proves the key that the
  -- verifier names.
  pub handle_auth_challenge-opens :
      (backend : Bytes → Result BackendResult) (signature : Bytes) (key : VerifiedKey)
      (w later : World)
      → env.clock w.ticks / second + unix_to_internal < 2 ^ 63
      → env.clock w.ticks / second * second ≤ env.clock later.ticks + max_clock_skew
      → env.clock later.ticks ≤ env.clock w.ticks / second * second + challenge_max_age
      → is_empty signature ≡ false
      → verify_signature h.crypto (challenge_at w) pubkey signature ≡ ok tt
      → verify backend pubkey ≡ ok key
      → (handle_auth_challenge h nonce (alone pubkey) w
          ≡ (ok (write_json 200 (challenge_body (challenge_at w) 30)), bump w))
        × (verify_edproof h backend pubkey (challenge_at w) signature later ≡ (ok key, bump later))
  unfolding challenge_text hmac_input
  handle_auth_challenge-opens backend signature key w later in_range not_early not_late given signed
        named =
      (
        answered w,
        accepted backend (challenge_at w) signature key later refl given
            (verify-generate h.crypto h.challenge_secret pubkey blob nonce has_blob digest_bytes
              (env.clock w.ticks) (env.clock later.ticks) challenge_max_age
              (made (env.clock w.ticks)) in_range not_early not_late)
            signed named,
      )
