-- ===== src/EdProof/Challenge/RoundTrip.antt =====
-- A challenge that the service made passes its check for the same key in good time.
use mailservice.Prelude.{
  ℕ, suc, ◌+◌, ◌*◌, ◌/◌, ◌%◌, ◌^◌, ◌<◌, ◌≤◌, ◌≡◌, ◌≢◌, false, some, [], ◌∷◌, ◌++◌, arith, Bytes,
  ==ᵇ-refl,
}
use mailservice.Calendar.{Time, second}
use mailservice.Ports.{ok}
use mailservice.EdProof.Hex.{hex_digit, hex_encode, AreBytes, hex_decode-hex_encode}
use mailservice.EdProof.Decimal.{nonneg, format_int}
use mailservice.EdProof.Decimal.RoundTrip.{Lacks, format_digits-Lacks, parse_int-format_int}
use mailservice.EdProof.Keys.{Crypto, extract_pubkey_blob}
use mailservice.EdProof.Challenge.{
  challenge_version, max_clock_skew, cut, split_n, unix_to_internal, is_older, is_ahead, hmac_input,
  compute_hmac, challenge_text, generate_challenge, verify_mac, verify_parts, verify_split,
  verify_challenge,
}

pub cut-append : (sep : ℕ) (a b : Bytes) → Lacks sep a → cut sep (a ++ sep ∷ b) ≡ some (a, b)
unfolding cut
cut-append sep [] b h = ground arith
cut-append sep (c ∷ a) b h = ground (arith, cut-append sep a b h.1)

split-four :
    (sep : ℕ) (a b c d : Bytes)
    → Lacks sep a
    → Lacks sep b
    → Lacks sep c
    → split_n 3 sep (a ++ sep ∷ (b ++ sep ∷ (c ++ sep ∷ d))) ≡ a ∷ b ∷ c ∷ d ∷ []
unfolding split_n
split-four sep a b c d ha hb hc =
    rw (cut-append sep a (b ++ sep ∷ (c ++ sep ∷ d)) ha, split_n)
      (rw (cut-append sep b (c ++ sep ∷ d) hb, split_n) (rw (cut-append sep c d hc, split_n)))

hex_digit-ne : (n : ℕ) → hex_digit n ≢ b'.'
unfolding hex_digit
hex_digit-ne n = ground arith

hex_encode-Lacks : (s : Bytes) → Lacks b'.' (hex_encode s)
unfolding hex_encode
hex_encode-Lacks [] = tt
hex_encode-Lacks (b ∷ s) = (hex_digit-ne (b / 16), (hex_digit-ne (b % 16), hex_encode-Lacks s))

format_int-Lacks : (n : ℕ) → Lacks b'.' (format_int n)
unfolding format_int
format_int-Lacks n = format_digits-Lacks (suc n) n b'.' (omega arith)

not_older :
    (now n limit : ℕ)
    → n + unix_to_internal < 2 ^ 63
    → now ≤ n * second + limit
    → is_older now (nonneg n) limit ≡ false
unfolding is_older
not_older now n limit h k = ground arith

not_ahead : (now n limit : ℕ) → n * second ≤ now + limit → is_ahead now (nonneg n) limit ≡ false
unfolding is_ahead
not_ahead now n limit k = ground arith

module _ (crypto : Crypto) (secret pubkey blob nonce : Bytes)
    (has_blob : extract_pubkey_blob crypto pubkey ≡ ok blob)
    (digest_bytes : (text : Bytes) → AreBytes (crypto.hmac_sha256 text secret)) where
  verify_own_mac :
      (ts nonce_hex : Bytes)
      → verify_mac crypto secret ts nonce_hex
          (hex_encode (compute_hmac crypto secret (hmac_input crypto secret ts nonce_hex blob)))
          pubkey
        ≡ ok tt
  unfolding verify_mac compute_hmac
  verify_own_mac ts nonce_hex =
      let mac = compute_hmac crypto secret (hmac_input crypto secret ts nonce_hex blob) in
      rw has_blob (
        rw (hex_decode-hex_encode mac (digest_bytes (hmac_input crypto secret ts nonce_hex blob)))
          (rw (==ᵇ-refl mac)))

  verify-challenge_text :
      (made now max_age : Time)
      → made / second + unix_to_internal < 2 ^ 63
      → made / second * second ≤ now + max_clock_skew
      → now ≤ made / second * second + max_age
      → verify_challenge crypto secret
          (challenge_text crypto secret blob nonce made)
          pubkey
          max_age
          now
        ≡ ok tt
  unfolding verify_challenge challenge_text hmac_input verify_split verify_parts
  verify-challenge_text made now max_age in_range not_early not_late =
      let n = made / second in
      rw
        (split-four b'.' challenge_version (format_int n) (hex_encode nonce)
          (hex_encode (
            compute_hmac crypto secret
              (hmac_input crypto secret (format_int n) (hex_encode nonce) blob)))
          (omega arith) (format_int-Lacks n) (hex_encode-Lacks nonce))
        (rw (==ᵇ-refl challenge_version) (
          rw (parse_int-format_int n (omega arith)) (
            rw (not_older now n max_age in_range not_late) (
              rw (not_ahead now n max_clock_skew not_early)
                (verify_own_mac (format_int n) (hex_encode nonce))))))

  -- A challenge that was made for a key is accepted with that key until `max_age` after the second
  -- in which it was made, and from five seconds before it.
  pub verify-generate :
      (made now max_age : Time) {challenge : Bytes}
      → generate_challenge crypto secret pubkey nonce made ≡ ok challenge
      → made / second + unix_to_internal < 2 ^ 63
      → made / second * second ≤ now + max_clock_skew
      → now ≤ made / second * second + max_age
      → verify_challenge crypto secret challenge pubkey max_age now ≡ ok tt
  unfolding generate_challenge
  verify-generate made now max_age {challenge} e in_range not_early not_late =
      let known = rw (has_blob, generate_challenge) at e in
      let same : challenge_text crypto secret blob nonce made ≡ challenge = cc known in
      rw (← same) (verify-challenge_text made now max_age in_range not_early not_late)
