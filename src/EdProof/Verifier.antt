-- ===== src/EdProof/Verifier.antt =====
-- verifier.go: the proof of a key is its public key line, which gives the fingerprint.
use mailservice.Prelude.{Bool, ◌||◌, ◌++◌, if◌then◌else◌, Bytes, codes}
use mailservice.Text.{is_empty, trim_space, normalize}
use mailservice.Ports.{Error, Result, ok, err, wrap, invalid_key_proof, VerifiedKey}
use mailservice.EdProof.Hex.{hex_encode}
use mailservice.EdProof.Keys.{Crypto, parse_ssh_pubkey, ◌>>=◌}

-- errors.Is(err, ports.ErrInvalidKeyProof)
abbrev pub is_invalid_key_proof : Error → Bool
is_invalid_key_proof Error.invalid_key_proof = Bool.true
is_invalid_key_proof (Error.wrap text e) = is_invalid_key_proof e
is_invalid_key_proof _ = Bool.false

-- edproof.BackendResult
pub record BackendResult : Type 0 where
  pub fingerprint : Bytes
  pub algorithm : Bytes

-- The key of a backend's answer
unfoldable pub verified_key : Result BackendResult → Result VerifiedKey
unfolding normalize
verified_key (err e) =
    if is_invalid_key_proof e then err invalid_key_proof else err (wrap (codes "verify edproof") e)
verified_key (ok result) =
    let fingerprint = normalize result.fingerprint in
    let algorithm = normalize result.algorithm in
    if is_empty fingerprint || is_empty algorithm
    then err invalid_key_proof
    else ok (record { fingerprint = fingerprint; algorithm = algorithm })

-- Verifier.Verify over a backend
unfoldable pub verify : (Bytes → Result BackendResult) → Bytes → Result VerifiedKey
unfolding verified_key trim_space
verify backend raw_proof =
    if is_empty (trim_space raw_proof)
    then err invalid_key_proof
    else verified_key (backend (trim_space raw_proof))

module _ (crypto : Crypto) where
  -- FingerprintFromPubkey
  unfoldable pub fingerprint_from_pubkey : Bytes → Result Bytes
  unfolding parse_ssh_pubkey hex_encode
  fingerprint_from_pubkey pubkey = do
    blob ← parse_ssh_pubkey crypto pubkey
    ok (codes "sha256:" ++ hex_encode (crypto.sha256 blob))

  abbrev proved : Result Bytes → Result BackendResult
  proved (err e) = err invalid_key_proof
  proved (ok fingerprint) = ok (record { fingerprint = fingerprint; algorithm = codes "ed25519" })

  -- localBackend.Verify
  unfoldable pub local_backend : Bytes → Result BackendResult
  unfolding fingerprint_from_pubkey
  local_backend raw_proof = proved (fingerprint_from_pubkey raw_proof)
