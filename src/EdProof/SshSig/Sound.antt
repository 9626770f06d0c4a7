-- ===== src/EdProof/SshSig/Sound.antt =====
-- What the check of an SSH signature has established when it succeeds.
use mathlib.Core.Path.{subst}
use mailservice.Prelude.{
  ◌∷◌, ◌++◌, ◌/◌, ◌^◌, ◌%◌, ◌≡◌, ◌⊎◌, true, Bytes, codes, [], ==ᵇ_iff, length, arith,
}
use mailservice.Ports.{ok}
use mailservice.EdProof.Keys.{Crypto}
use mailservice.EdProof.Wire.{write_ssh_string, put_u32}
use mailservice.EdProof.SshSig.{build_signed_data, read_sshsig, hash_message, verify_sshsig}
use mailservice.EdProof.SshSig.Blob.{IsBlob, bind_ok, unless_true, read_sshsig-IsBlob}

-- A string with its length in front, in four bytes
abbrev pub framed : Bytes → Bytes
framed v =
    (length v / 2 ^ 24 % 256)
    ∷ (length v / 2 ^ 16 % 256)
    ∷ (length v / 2 ^ 8 % 256)
    ∷ (length v % 256)
    ∷ v

-- The data that SSHSIG has signed: magic, the namespace, an empty reserved string, the hash
-- algorithm, and the hash of the message
abbrev pub prescribed : Bytes → Bytes → Bytes
prescribed algo hash =
    codes "SSHSIG" ++ (framed (codes "edproof") ++ (framed [] ++ (framed algo ++ framed hash)))

module _ (crypto : Crypto) where
  -- The message is signed: by the raw signature that lies in the blob, over its hash by the
  -- algorithm that the blob names.
  abbrev pub IsSigned : Bytes → Bytes → Bytes → Type 0
  IsSigned pubkey message blob =
      (algo : Bytes) × (hash : Bytes) × (raw_sig : Bytes) × IsBlob blob algo raw_sig
      × (((algo ≡ codes "sha512") × (hash ≡ crypto.sha512 message))
          ⊎ ((algo ≡ codes "sha256") × (hash ≡ crypto.sha256 message)))
      × (crypto.ed25519_verify pubkey (prescribed algo hash) raw_sig ≡ true)

  hashed_by :
      (algo message message_hash : Bytes)
      → hash_message crypto algo message ≡ ok message_hash
      → ((algo ≡ codes "sha512") × (message_hash ≡ crypto.sha512 message))
        ⊎ ((algo ≡ codes "sha256") × (message_hash ≡ crypto.sha256 message))
  unfolding hash_message
  hashed_by algo message message_hash h =
      ground (arith, ==ᵇ_iff algo (codes "sha512"), ==ᵇ_iff algo (codes "sha256"))

  -- An accepted SSH signature blob consists of the magic "SSHSIG", the version 1 and the strings of
  -- the format, with the namespace "edproof", the hash algorithm SHA-512 or SHA-256 and an Ed25519
  -- signature of 64 bytes; and this signature is one by the presented key of the data that SSHSIG
  -- prescribes: the magic, the namespace, an empty string, the algorithm and the hash of the message
  -- by it, each with its length.
  pub verify_sshsig_sound :
      (pubkey message blob : Bytes)
      → verify_sshsig crypto pubkey message blob ≡ ok tt
      → IsSigned pubkey message blob
  unfolding verify_sshsig build_signed_data write_ssh_string put_u32
  verify_sshsig_sound pubkey message blob h =
      let (sig, e1, h1) = bind_ok (read_sshsig blob) _ tt h in
      let (hash, e2, h2) = bind_ok (hash_message crypto sig.hash_algo message) _ tt h1 in
      let (own, is_blob) = read_sshsig-IsBlob blob sig e1 in
      (
        sig.hash_algo,
        hash,
        sig.raw_sig,
        is_blob,
        hashed_by sig.hash_algo message hash e2,
        subst
            (λ n.
              crypto.ed25519_verify pubkey (build_signed_data n sig.hash_algo hash) sig.raw_sig
              ≡ true)
            own (unless_true _ h2),
      )
