-- ===== src/EdProof/Keys.antt =====
-- challenge.go: OpenSSH public key lines, "ssh-ed25519 <base64> [comment]".
pub mod Bounds
use mailservice.Prelude.{
  ℕ, ◌+◌, ◌-◌, ◌%◌, Bool, not, ◌&&◌, Option, none, some, List, [], ◌∷◌, ◌++◌, leb, ltb, ◌==◌,
  if◌then◌else◌, Bytes, codes, ◌==ᵇ◌, length, take, drop,
}
use mailservice.Text.{is_space}
use mailservice.Ports.{Result, ok, err, message, panicked}
use mailservice.EdProof.Wire.{u32_mod, get_u32}

-- The packages of Go's standard library that the adapter calls: base64, SHA-2, HMAC and Ed25519.
pub record Crypto : Type 0 where
  pub base64_decode : Bytes → Option Bytes
  pub sha256 : Bytes → Bytes
  pub sha512 : Bytes → Bytes
  pub hmac_sha256 : Bytes → Bytes → Bytes
  pub ed25519_verify : Bytes → Bytes → Bytes → Bool

infixl 5 ◌>>=◌ ◌>>◌
abbrev pub ◌>>=◌ : {A B : Type 0} → Result A → (A → Result B) → Result B
ok a >>= f = f a
err e >>= f = err e

abbrev pub ◌>>◌ : {B : Type 0} → Result (Unit {0}) → Result B → Result B
m >> n = m >>= λ _. n

abbrev pub flush : Bytes → List Bytes → List Bytes
flush [] words = words
flush (c ∷ w) words = (c ∷ w) ∷ words

-- strings.Fields, with the word that has begun
unfoldable pub fields_from : Bytes → Bytes → List Bytes
unfolding is_space
fields_from word [] = flush word []
fields_from word (c ∷ s) =
    let ended = fields_from [] s in
    let longer = fields_from (word ++ c ∷ []) s in if is_space c then flush word ended else longer

-- strings.Fields
unfoldable pub fields : Bytes → List Bytes
unfolding fields_from
fields s = fields_from [] s

abbrev pub key_type : Bytes
key_type = codes "ssh-ed25519"

abbrev pub ed25519_public_key_size : ℕ
ed25519_public_key_size = 32

-- s[lo:hi], which panics out of bounds
unfoldable pub slice : ℕ → ℕ → Bytes → Result Bytes
slice lo hi s =
    if leb lo hi && leb hi (length s) then ok (take (hi - lo) (drop lo s)) else err panicked

abbrev pub or_error : {A : Type 0} → Bytes → Option A → Result A
or_error text none = err (message text)
or_error text (some a) = ok a

module _ (crypto : Crypto) where
  -- parseSSHPubkey on the fields of the line: the base64 field and its bytes
  unfoldable pub parse_fields : List Bytes → Result (Bytes × Bytes)
  parse_fields (type ∷ data64 ∷ comment) =
      if not (type ==ᵇ key_type)
      then err (message (codes "unsupported key type"))
      else (or_error (codes "invalid base64 in public key") (crypto.base64_decode data64)
          >>= λ blob. ok (data64, blob))
  parse_fields _ = err (message (codes "invalid public key format"))

  -- parseSSHPubkey
  unfoldable pub parse_ssh_pubkey : Bytes → Result Bytes
  unfolding parse_fields fields
  parse_ssh_pubkey pubkey = do (data64, blob) ← parse_fields (fields pubkey); ok blob

  -- extractPubkeyBlob
  unfoldable pub extract_pubkey_blob : Bytes → Result Bytes
  unfolding parse_fields fields
  extract_pubkey_blob pubkey = do (data64, blob) ← parse_fields (fields pubkey); ok data64

  -- The key behind its type and its length. `uint32` sums wrap around.
  unfoldable pub extract_key_data : Bytes → Result Bytes
  extract_key_data rest = do
    key_len ← or_error (codes "key blob missing key data length") (get_u32 rest)
    if not (key_len == ed25519_public_key_size)
        then err (message (codes "unexpected ed25519 key size"))
        else if ltb (length rest % u32_mod) ((4 + key_len) % u32_mod)
        then err (message (codes "key blob truncated"))
        else slice 4 ((4 + key_len) % u32_mod) rest

  unfoldable pub extract_key_wire : Bytes → Result Bytes
  extract_key_wire blob = do
    type_len ← or_error (codes "key blob too short") (get_u32 blob)
    if ltb (length blob % u32_mod) ((4 + type_len + 4) % u32_mod)
        then err (message (codes "key blob too short for type"))
        else do
          type ← slice 4 ((4 + type_len) % u32_mod) blob
          if not (type ==ᵇ key_type)
              then err (message (codes "wire format key type mismatch"))
              else do
                rest ← slice ((4 + type_len) % u32_mod) (length blob) blob
                extract_key_data rest

  -- extractEd25519Key
  unfoldable pub extract_ed25519_key : Bytes → Result Bytes
  extract_ed25519_key pubkey = do blob ← parse_ssh_pubkey pubkey; extract_key_wire blob
