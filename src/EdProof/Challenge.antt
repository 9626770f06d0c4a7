-- ===== src/EdProof/Challenge.antt =====
-- challenge.go: stateless challenges "v1.<unix time>.<nonce>.<hmac>", their making and their check.
pub mod RoundTrip
pub mod Sound
use mailservice.Prelude.{
  ℕ, zero, suc, ◌+◌, ◌-◌, ◌*◌, ◌/◌, ◌^◌, Bool, not, Option, none, some, List, [], ◌∷◌, ◌++◌, leb,
  ltb, ◌==◌, if◌then◌else◌, Bytes, codes, ◌==ᵇ◌,
}
use mailservice.Calendar.{Time, second}
use mailservice.Ports.{
  Result, ok, err, wrap, challenge_tampered, challenge_expired, challenge_future,
}
use mailservice.EdProof.Hex.{hex_encode, hex_decode}
use mailservice.EdProof.Decimal.{Int64, nonneg, negative, format_int, parse_int}
use mailservice.EdProof.Keys.{Crypto, extract_pubkey_blob, ◌>>=◌}

abbrev pub challenge_version : Bytes
challenge_version = codes "v1"

abbrev pub max_clock_skew : Time
max_clock_skew = 5 * second

abbrev pub push_front : ℕ → Option (Bytes × Bytes) → Option (Bytes × Bytes)
push_front c none = none
push_front c (some (front, back)) = some (c ∷ front, back)

-- The text before the first `sep` and the text behind it
unfoldable pub cut : ℕ → Bytes → Option (Bytes × Bytes)
cut sep [] = none
cut sep (c ∷ s) = let rest = push_front c (cut sep s) in if c == sep then some ([], s) else rest

-- strings.SplitN(s, sep, n + 1)
unfoldable pub split_n : ℕ → ℕ → Bytes → List Bytes
split_n zero sep s = s ∷ []
split_n (suc n) sep s = elim (cut sep s) [
  | none ↦ s ∷ []
  | some (before, after) ↦ before ∷ split_n n sep after
]

-- How far a moment lies behind `now`, or ahead of it, as a `time.Duration`, which stops at its
-- largest value; `time.Unix` wraps around where the seconds since year 1 exceed an `int64`.
abbrev pub max_duration : ℕ
max_duration = 2 ^ 63 - 1

abbrev pub saturate : ℕ → ℕ
saturate d = if ltb max_duration d then max_duration else d

abbrev pub unix_to_internal : ℕ
unix_to_internal = 62_135_596_800

-- now.Sub(time.Unix(ts, 0)) > limit
unfoldable pub is_older : Time → Int64 → Time → Bool
is_older now (negative n) limit = ltb limit (saturate (now + n * second))
is_older now (nonneg n) limit =
    if leb (2 ^ 63) (n + unix_to_internal)
    then ltb limit max_duration
    else ltb limit (saturate (now - n * second))

-- time.Unix(ts, 0).Sub(now) > limit
unfoldable pub is_ahead : Time → Int64 → Time → Bool
is_ahead now (negative n) limit = Bool.false
is_ahead now (nonneg n) limit =
    if leb (2 ^ 63) (n + unix_to_internal)
    then Bool.false
    else ltb limit (saturate (n * second - now))

abbrev pub or_tampered : {A : Type 0} → Option A → Result A
or_tampered none = err challenge_tampered
or_tampered (some a) = ok a

abbrev pub tampered_if_error : {A : Type 0} → Result A → Result A
tampered_if_error (ok a) = ok a
tampered_if_error (err e) = err challenge_tampered

module _ (crypto : Crypto) (secret : Bytes) where
  -- version + "." + ts + "." + nonce + "." + blob
  unfoldable pub hmac_input : Bytes → Bytes → Bytes → Bytes
  hmac_input ts nonce blob = challenge_version ++ (b'.' ∷ ts ++ (b'.' ∷ nonce ++ (b'.' ∷ blob)))

  -- computeHMAC
  unfoldable pub compute_hmac : Bytes → Bytes
  compute_hmac text = crypto.hmac_sha256 text secret

  -- The challenge of a key blob; the argument `nonce` is what `crypto/rand` gave.
  unfoldable pub challenge_text : Bytes → Bytes → Time → Bytes
  challenge_text blob nonce now =
      let ts = format_int (now / second) in
      let nonce_hex = hex_encode nonce in
      hmac_input ts nonce_hex (hex_encode (compute_hmac (hmac_input ts nonce_hex blob)))

  -- GenerateChallenge
  unfoldable pub generate_challenge : Bytes → Bytes → Time → Result Bytes
  generate_challenge pubkey nonce now = elim (extract_pubkey_blob crypto pubkey) [
    | err e ↦ err (wrap (codes "invalid public key") e)
    | ok blob ↦ ok (challenge_text blob nonce now)
  ]

  -- The check of the HMAC
  unfoldable pub verify_mac : Bytes → Bytes → Bytes → Bytes → Result (Unit {0})
  verify_mac ts nonce_hex mac_hex pubkey = do
    blob ← tampered_if_error (extract_pubkey_blob crypto pubkey)
    got ← or_tampered (hex_decode mac_hex)
    if got ==ᵇ compute_hmac (hmac_input ts nonce_hex blob) then ok tt else err challenge_tampered

  -- The check of the four parts of a challenge
  unfoldable pub verify_parts :
      Bytes → Bytes → Bytes → Bytes → Bytes → Time → Time → Result (Unit {0})
  verify_parts version ts nonce_hex mac_hex pubkey max_age now =
      if not (version ==ᵇ challenge_version) then err challenge_tampered else do
        at ← or_tampered (parse_int ts)
        if is_older now at max_age
            then err challenge_expired
            else if is_ahead now at max_clock_skew
            then err challenge_future
            else verify_mac ts nonce_hex mac_hex pubkey

  -- verifyChallengeWithSecret on the parts of the text
  unfoldable pub verify_split : List Bytes → Bytes → Time → Time → Result (Unit {0})
  verify_split (version ∷ ts ∷ nonce_hex ∷ mac_hex ∷ []) pubkey max_age now =
      verify_parts version ts nonce_hex mac_hex pubkey max_age now
  verify_split _ pubkey max_age now = err challenge_tampered

  -- verifyChallengeWithSecret
  unfoldable pub verify_challenge : Bytes → Bytes → Time → Time → Result (Unit {0})
  verify_challenge challenge pubkey max_age now =
      verify_split (split_n 3 b'.' challenge) pubkey max_age now
