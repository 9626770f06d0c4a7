-- ===== src/EdProof/Challenge/Sound.antt =====
-- What the check of a challenge has established when it succeeds.
use mailservice.Prelude.{◌≡◌, refl, false, Option, none, some, List, [], ◌∷◌, arith, Bytes, ==ᵇ_iff}
use mailservice.Calendar.{Time}
use mailservice.Ports.{Result, ok, err}
use mailservice.EdProof.Hex.{hex_decode}
use mailservice.EdProof.Decimal.{Int64, parse_int}
use mailservice.EdProof.Keys.{Crypto, extract_pubkey_blob}
use mailservice.EdProof.Challenge.{
  challenge_version, max_clock_skew, split_n, is_older, is_ahead, hmac_input, compute_hmac,
  verify_mac, verify_parts, verify_split, verify_challenge,
}

module _ (crypto : Crypto) (secret pubkey : Bytes) where
  -- The HMAC of a time stamp and a nonce with the blob of the public key
  abbrev pub IsOwnMac : Bytes → Bytes → Bytes → Type 0
  IsOwnMac ts nonce_hex mac_hex =
      (blob : Bytes) × (extract_pubkey_blob crypto pubkey ≡ ok blob)
      × (hex_decode mac_hex
          ≡ some (compute_hmac crypto secret (hmac_input crypto secret ts nonce_hex blob)))

  -- The time stamp lies in the window.
  abbrev pub IsFresh : Bytes → Time → Time → Type 0
  IsFresh ts max_age now =
      (at : Int64) × (parse_int ts ≡ some at)
      × (is_older now at max_age ≡ false)
      × (is_ahead now at max_clock_skew ≡ false)

  mac_from :
      (ts nonce_hex mac_hex : Bytes) (r : Result Bytes) (o : Option Bytes)
      → extract_pubkey_blob crypto pubkey ≡ r
      → hex_decode mac_hex ≡ o
      → verify_mac crypto secret ts nonce_hex mac_hex pubkey ≡ ok tt
      → IsOwnMac ts nonce_hex mac_hex
  unfolding verify_mac
  mac_from ts nonce_hex mac_hex (err e) o er eo h = absurd (ground arith)
  mac_from ts nonce_hex mac_hex (ok blob) none er eo h = absurd (ground arith)
  mac_from ts nonce_hex mac_hex (ok blob) (some got) er eo h =
      let mac = compute_hmac crypto secret (hmac_input crypto secret ts nonce_hex blob) in
      (blob, er, ground (arith, ==ᵇ_iff got mac))

  parts_from :
      (version ts nonce_hex mac_hex : Bytes) (max_age now : Time) (o : Option Int64)
      → parse_int ts ≡ o
      → verify_parts crypto secret version ts nonce_hex mac_hex pubkey max_age now ≡ ok tt
      → (version ≡ challenge_version)
        × IsFresh ts max_age now
        × (verify_mac crypto secret ts nonce_hex mac_hex pubkey ≡ ok tt)
  unfolding verify_parts
  parts_from version ts nonce_hex mac_hex max_age now none eo h = absurd (ground arith)
  parts_from version ts nonce_hex mac_hex max_age now (some at) eo h = (
    ground (arith, ==ᵇ_iff version challenge_version),
    (at, eo, ground arith, ground arith),
    ground arith,
  )

  -- What acceptance says of a challenge split at its dots
  abbrev pub IsGenuine : List Bytes → Time → Time → Type 0
  IsGenuine parts max_age now =
      (ts : Bytes) × (nonce_hex : Bytes) × (mac_hex : Bytes) × (parts
        ≡ challenge_version ∷ ts ∷ nonce_hex ∷ mac_hex ∷ [])
      × IsFresh ts max_age now
      × IsOwnMac ts nonce_hex mac_hex

  split_from :
      (parts : List Bytes) (max_age now : Time)
      → verify_split crypto secret parts pubkey max_age now ≡ ok tt
      → IsGenuine parts max_age now
  unfolding verify_split
  split_from [] max_age now h = absurd (ground arith)
  split_from (a ∷ []) max_age now h = absurd (ground arith)
  split_from (a ∷ b ∷ []) max_age now h = absurd (ground arith)
  split_from (a ∷ b ∷ c ∷ []) max_age now h = absurd (ground arith)
  split_from (version ∷ ts ∷ nonce_hex ∷ mac_hex ∷ []) max_age now h =
      let (is_v1, fresh, mac) =
        parts_from version ts nonce_hex mac_hex max_age now (parse_int ts) refl h in
      (
        ts,
        nonce_hex,
        mac_hex,
        cc is_v1,
        fresh,
        mac_from ts nonce_hex mac_hex (extract_pubkey_blob crypto pubkey) (hex_decode mac_hex) refl
            refl mac,
      )
  split_from (a ∷ b ∷ c ∷ d ∷ e ∷ rest) max_age now h = absurd (ground arith)

  -- An accepted challenge has four parts: the version, a time stamp inside the window, a nonce, and
  -- the HMAC of these with the blob of the very key that is presented.
  pub verify_challenge_sound :
      (challenge : Bytes) (max_age now : Time)
      → verify_challenge crypto secret challenge pubkey max_age now ≡ ok tt
      → IsGenuine (split_n 3 b'.' challenge) max_age now
  unfolding verify_challenge
  verify_challenge_sound challenge max_age now h =
      split_from (split_n 3 b'.' challenge) max_age now h
