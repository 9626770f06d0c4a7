-- ===== src/EdProof/SshSig.antt =====
-- challenge.go: the signature of a challenge, raw Ed25519 or in the SSHSIG format.
pub mod Blob
pub mod Sound
use mailservice.Prelude.{
  ℕ, Bool, not, Option, none, some, [], ◌++◌, ltb, ◌==◌, if◌then◌else◌, Bytes, codes, ◌==ᵇ◌, length,
  drop,
}
use mailservice.Text.{has_prefix}
use mailservice.Ports.{Result, ok, err, wrap, signature_invalid}
use mailservice.EdProof.Wire.{get_u32, read_ssh_string, write_ssh_string}
use mailservice.EdProof.Keys.{Crypto, key_type, extract_ed25519_key, ◌>>=◌, ◌>>◌}

abbrev pub sshsig_magic : Bytes
sshsig_magic = codes "SSHSIG"

abbrev pub sshsig_namespace : Bytes
sshsig_namespace = codes "edproof"

abbrev pub ed25519_signature_size : ℕ
ed25519_signature_size = 64

abbrev pub or_invalid : {A : Type 0} → Option A → Result A
or_invalid none = err signature_invalid
or_invalid (some a) = ok a

abbrev pub invalid_unless : Bool → Result (Unit {0})
invalid_unless Bool.true = ok tt
invalid_unless Bool.false = err signature_invalid

-- buildSSHSigSignedData
unfoldable pub build_signed_data : Bytes → Bytes → Bytes → Bytes
unfolding write_ssh_string
build_signed_data namespace hash_algo message_hash =
    sshsig_magic
    ++ (write_ssh_string namespace
        ++ (write_ssh_string [] ++ (write_ssh_string hash_algo ++ write_ssh_string message_hash)))

-- What verifySSHSig reads from a blob before it computes: the namespace, the hash algorithm and
-- the raw signature.
pub record SshSignature : Type 0 where
  pub namespace : Bytes
  pub hash_algo : Bytes
  pub raw_sig : Bytes

-- The signature blob: the type of the key and the raw signature
unfoldable pub read_raw_sig : Bytes → Result Bytes
unfolding read_ssh_string
read_raw_sig sig_blob = do
  (type, rest) ← or_invalid (read_ssh_string sig_blob)
  invalid_unless (type ==ᵇ key_type)
  (raw_sig, _) ← or_invalid (read_ssh_string rest)
  invalid_unless (length raw_sig == ed25519_signature_size)
  ok raw_sig

-- The layout behind magic and version
unfoldable pub read_layout : Bytes → Result SshSignature
unfolding read_raw_sig
read_layout r0 = do
  (_, r1) ← or_invalid (read_ssh_string r0)
  (namespace, r2) ← or_invalid (read_ssh_string r1)
  invalid_unless (namespace ==ᵇ sshsig_namespace)
  (_, r3) ← or_invalid (read_ssh_string r2)
  (hash_algo, r4) ← or_invalid (read_ssh_string r3)
  (sig_blob, _) ← or_invalid (read_ssh_string r4)
  raw_sig ← read_raw_sig sig_blob
  ok (record { namespace = namespace; hash_algo = hash_algo; raw_sig = raw_sig })

-- Magic and version
unfoldable pub read_sshsig : Bytes → Result SshSignature
unfolding read_layout has_prefix get_u32
read_sshsig blob = do
  invalid_unless (has_prefix blob sshsig_magic)
  version ← or_invalid (get_u32 (drop 6 blob))
  invalid_unless (version == 1)
  read_layout (drop 10 blob)

module _ (crypto : Crypto) where
  -- The hash of the message by the algorithm that the blob names
  unfoldable pub hash_message : Bytes → Bytes → Result Bytes
  hash_message hash_algo message =
      if hash_algo ==ᵇ codes "sha512"
      then ok (crypto.sha512 message)
      else if hash_algo ==ᵇ codes "sha256"
      then ok (crypto.sha256 message)
      else err signature_invalid

  -- verifySSHSig
  unfoldable pub verify_sshsig : Bytes → Bytes → Bytes → Result (Unit {0})
  unfolding read_sshsig hash_message
  verify_sshsig pubkey message blob = do
    sig ← read_sshsig blob
    message_hash ← hash_message sig.hash_algo message
    invalid_unless (
        crypto.ed25519_verify pubkey (build_signed_data sig.namespace sig.hash_algo message_hash)
          sig.raw_sig)

  -- A raw signature
  unfoldable pub verify_raw : Bytes → Bytes → Bytes → Result (Unit {0})
  verify_raw pubkey message sig =
      if not (length sig == ed25519_signature_size)
      then err signature_invalid
      else invalid_unless (crypto.ed25519_verify pubkey message sig)

  -- VerifySignature with the key extracted
  unfoldable pub verify_with_key : Bytes → Bytes → Bytes → Result (Unit {0})
  unfolding verify_sshsig verify_raw has_prefix
  verify_with_key pubkey challenge signature =
      if ltb 1024 (length signature) then err signature_invalid else do
        sig ← or_invalid (crypto.base64_decode signature)
        if has_prefix sig sshsig_magic
            then verify_sshsig pubkey challenge sig
            else verify_raw pubkey challenge sig

  -- VerifySignature
  unfoldable pub verify_signature : Bytes → Bytes → Bytes → Result (Unit {0})
  unfolding verify_with_key
  verify_signature challenge pubkey signature = elim (extract_ed25519_key crypto pubkey) [
    | err e ↦ err (wrap (codes "parse public key") e)
    | ok key ↦ verify_with_key key challenge signature
  ]
