-- ===== src/Tests/Proofs.antt =====
-- Key proofs on concrete data.
use mailservice.Prelude.{
  ℕ, zero, suc, ◌-◌, ◌*◌, ◌^◌, ◌≡◌, ◌↔◌, refl, true, some, [], ◌∷◌, ◌++◌, Bytes, codes, ◌==ᵇ◌,
  arith,
}
use mailservice.Calendar.{second}
use mailservice.Text.{has_prefix, is_space}
use mailservice.Ports.{ok, err, panicked}
use mailservice.EdProof.SshSig.{verify_sshsig, read_sshsig, read_layout, read_raw_sig, hash_message}
use mailservice.EdProof.SshSig.Sound.{IsSigned, verify_sshsig_sound}
use mailservice.EdProof.Wire.{put_u32, get_u32, read_ssh_string, write_ssh_string}
use mailservice.EdProof.Wire.RoundTrip.{read-write}
use mailservice.EdProof.Keys.{
  Crypto, fields, fields_from, parse_fields, extract_pubkey_blob, extract_key_wire,
}
use mailservice.EdProof.Keys.Bounds.{Wraps, extract_key_wire_panics}
use mailservice.EdProof.Challenge.{split_n, challenge_text, generate_challenge, verify_challenge}
use mailservice.EdProof.Challenge.RoundTrip.{verify-generate}
use mailservice.EdProof.Challenge.Sound.{IsGenuine, verify_challenge_sound}

abbrev pub crypto : Crypto
crypto = record {
  base64_decode = λ s. some s;
  sha256 = λ s. s;
  sha512 = λ s. s;
  hmac_sha256 = λ text key. 1 ∷ 2 ∷ [];
  ed25519_verify = λ key text sig. true;
}

abbrev pub secret : Bytes
secret = codes "s"

abbrev pub pubkey : Bytes
pubkey = codes "ssh-ed25519 k"

abbrev pub nonce : Bytes
nonce = 7 ∷ []

-- Made 100 seconds after 1970
abbrev challenge : Bytes
challenge = challenge_text crypto secret (codes "k") nonce (100 * second)

pub pubkey_blob : extract_pubkey_blob crypto pubkey ≡ ok (codes "k")
unfolding extract_pubkey_blob parse_fields fields fields_from is_space ◌==ᵇ◌
pubkey_blob = refl

generated : generate_challenge crypto secret pubkey nonce (100 * second) ≡ ok challenge
unfolding generate_challenge
generated = rw (pubkey_blob, generate_challenge) refl

verify-accepted :
    verify_challenge crypto secret challenge pubkey (30 * second) (110 * second) ≡ ok tt
verify-accepted =
    verify-generate crypto secret pubkey (codes "k") nonce pubkey_blob
      (λ text. (omega arith, (omega arith, tt))) (100 * second) (110 * second) (30 * second)
      generated (omega arith) (omega arith) (omega arith)

verify-generate_example :
    verify_challenge crypto secret challenge pubkey (30 * second) (110 * second) ≡ ok tt
verify-generate_example =
    verify-generate crypto secret pubkey (codes "k") nonce pubkey_blob
      (λ text. (omega arith, (omega arith, tt))) (100 * second) (110 * second) (30 * second)
      generated (omega arith) (omega arith) (omega arith)

verify_challenge_sound_example :
    IsGenuine crypto secret pubkey (split_n 3 b'.' challenge) (30 * second) (110 * second)
verify_challenge_sound_example =
    verify_challenge_sound crypto secret pubkey challenge (30 * second) (110 * second)
      verify-accepted

-- A key blob whose length of the key type is 2 ^ 32 - 1
abbrev blob : Bytes
blob = 255 ∷ 255 ∷ 255 ∷ 255 ∷ 0 ∷ 0 ∷ 0 ∷ []

extract_key_wire_panics_example :
    (extract_key_wire crypto blob ≡ err panicked) ↔ Wraps crypto blob (2 ^ 32 - 1)
unfolding get_u32
extract_key_wire_panics_example =
    extract_key_wire_panics crypto blob (2 ^ 32 - 1) refl (omega arith) (omega arith)

read-write_example :
    read_ssh_string (write_ssh_string (codes "ab") ++ codes "c") ≡ some (codes "ab", codes "c")
read-write_example = read-write (codes "ab") (codes "c") (omega arith)

abbrev zeros : ℕ → Bytes
zeros zero = []
zeros (suc n) = 0 ∷ zeros n

-- A blob of 64 zero bytes under the namespace of the service
abbrev signed_blob : Bytes
signed_blob =
    codes "SSHSIG"
    ++ (put_u32 1
        ++ (write_ssh_string []
            ++ (write_ssh_string (codes "edproof")
                ++ (write_ssh_string []
                    ++ (write_ssh_string (codes "sha256")
                        ++ write_ssh_string (
                            write_ssh_string (codes "ssh-ed25519")
                            ++ write_ssh_string (zeros 64)))))))

signed_blob-accepted : verify_sshsig crypto (codes "key") (codes "text") signed_blob ≡ ok tt
unfolding verify_sshsig read_sshsig read_layout read_raw_sig hash_message has_prefix get_u32 put_u32
    read_ssh_string write_ssh_string ◌==ᵇ◌
signed_blob-accepted = refl

verify_sshsig_sound_example : IsSigned crypto (codes "key") (codes "text") signed_blob
verify_sshsig_sound_example =
    verify_sshsig_sound crypto (codes "key") (codes "text") signed_blob signed_blob-accepted
