-- ===== src/EdProof.antt =====
-- internal/adapters/identity/edproof: proofs that a client holds an Ed25519 key.
pub mod Hex
pub mod Decimal
pub mod Wire
pub mod Keys
pub mod Challenge
pub mod SshSig
pub mod Verifier
