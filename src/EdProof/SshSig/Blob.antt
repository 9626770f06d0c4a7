-- ===== src/EdProof/SshSig/Blob.antt =====
-- What the parser of SSH signature blobs has found when it succeeds.
use mathlib.Core.Path.{subst}
use mailservice.Prelude.{
  ℕ, Option, none, some, [], ◌∷◌, ◌++◌, ◌+◌, ◌*◌, ◌^◌, sym, ap, ◌∙◌, drop, ◌≡◌, refl, true, false,
  Bool, Bytes, codes, ◌==ᵇ◌, ==ᵇ_iff, ◌==◌, length, arith, ==_iff,
}
use mailservice.Ports.{Result, ok, err}
use mailservice.EdProof.Keys.{key_type, ◌>>=◌, ◌>>◌}
use mailservice.EdProof.Wire.{read_ssh_string, get_u32}
use mailservice.EdProof.Wire.Fields.{Field, read_ssh_string-Field}
use mailservice.Text.{has_prefix}
use mailservice.Text.Laws.{has_prefix-drop}
use mailservice.EdProof.SshSig.{
  sshsig_magic, or_invalid, invalid_unless, read_raw_sig, read_layout, sshsig_namespace,
  ed25519_signature_size, SshSignature, read_sshsig,
}

pub ok_same : {A : Type 0} (a b : A) → Result.ok a ≡ ok b → a ≡ b
ok_same a b h = cc h

module _ {A B : Type 0} where
  -- A chain of results that succeeds, link by link
  pub bind_ok :
      (x : Result A) (f : A → Result B) (b : B)
      → (x >>= f) ≡ ok b
      → (a : A) × (x ≡ ok a) × (f a ≡ ok b)
  bind_ok (ok a) f b h = (a, refl, h)
  bind_ok (err e) f b h = absurd (cc h)

unless_ok :
    {B : Type 0} (c : Bool) (x : Result B) (b : B)
    → (invalid_unless c >> x) ≡ ok b
    → (c ≡ true) × (x ≡ ok b)
unless_ok true x b h = (refl, h)
unless_ok false x b h = absurd (cc h)

pub unless_true : (c : Bool) → invalid_unless c ≡ ok tt → c ≡ true
unless_true true h = refl
unless_true false h = absurd (cc h)

-- The strings of a signature blob: the key, the namespace of the service, a reserved string, the
-- hash algorithm, and the signature with the type of its key
pub record IsLayout (fields algo raw_sig : Bytes) : Type 0 where
  pub key : Bytes
  pub behind_key : Bytes
  pub key_field : Field fields key behind_key
  pub behind_namespace : Bytes
  pub namespace_field : Field behind_key (codes "edproof") behind_namespace
  pub reserved : Bytes
  pub behind_reserved : Bytes
  pub reserved_field : Field behind_namespace reserved behind_reserved
  pub behind_algo : Bytes
  pub algo_field : Field behind_reserved algo behind_algo
  pub sig_blob : Bytes
  pub behind_sig : Bytes
  pub sig_field : Field behind_algo sig_blob behind_sig
  pub behind_type : Bytes
  pub type_field : Field sig_blob (codes "ssh-ed25519") behind_type
  pub behind_raw : Bytes
  pub raw_field : Field behind_type raw_sig behind_raw
  pub raw_size : length raw_sig ≡ 64

-- A signature blob: magic and version, and the strings
abbrev pub IsBlob : Bytes → Bytes → Bytes → Type 0
IsBlob blob algo raw_sig =
    (fields : Bytes) × (blob ≡ codes "SSHSIG" ++ (0 ∷ 0 ∷ 0 ∷ 1 ∷ fields))
    × IsLayout fields algo raw_sig

some_same : {A : Type 0} (x : Option A) (a : A) → or_invalid x ≡ ok a → x ≡ some a
some_same none a h = absurd (cc h)
some_same (some b) a h = ap some (ok_same b a h)

-- One step of a layout that could be read
read-Field :
    {A : Type 0} (s : Bytes) (f : Bytes × Bytes → Result A) (out : A)
    → (or_invalid (read_ssh_string s) >>= f) ≡ ok out
    → (value : Bytes) × (rest : Bytes) × Field s value rest × (f (value, rest) ≡ ok out)
read-Field s f out h =
    let (got, e, h1) = bind_ok (or_invalid (read_ssh_string s)) f out h in
    (got.0, got.1, read_ssh_string-Field s got.0 got.1 (some_same (read_ssh_string s) got e), h1)

-- What stands in the signature of a blob
abbrev IsRawSig : Bytes → Bytes → Type 0
IsRawSig sig_blob raw_sig =
    (behind_type : Bytes) × (behind_raw : Bytes) × Field sig_blob key_type behind_type
    × Field behind_type raw_sig behind_raw
    × (length raw_sig ≡ 64)

read_raw_sig-IsRawSig :
    (sig_blob raw_sig : Bytes) → read_raw_sig sig_blob ≡ ok raw_sig → IsRawSig sig_blob raw_sig
unfolding read_raw_sig
read_raw_sig-IsRawSig sig_blob raw_sig h =
    let (kind, q1, f1, h1) = read-Field sig_blob _ raw_sig h in
    let (e2, h2) = unless_ok (kind ==ᵇ key_type) _ raw_sig h1 in
    let (raw, q2, f3, h3) = read-Field q1 _ raw_sig h2 in
    let (e4, h4) = unless_ok (length raw == ed25519_signature_size) _ raw_sig h3 in
    let same = ok_same raw raw_sig h4 in
    (
      q1,
      q2,
      subst (λ k. Field sig_blob k q1) ((==ᵇ_iff kind key_type).0 e2) f1,
      subst (λ v. Field q1 v q2) same f3,
      sym (ap length same) ∙ (==_iff (length raw) ed25519_signature_size).0 e4,
    )

read_layout-IsLayout :
    (r0 : Bytes) (sig : SshSignature)
    → read_layout r0 ≡ ok sig
    → (sig.namespace ≡ sshsig_namespace) × IsLayout r0 sig.hash_algo sig.raw_sig
unfolding read_layout
read_layout-IsLayout r0 sig h =
    let (key, r1, f1, h1) = read-Field r0 _ sig h in
    let (ns, r2, f2, h2) = read-Field r1 _ sig h1 in
    let (own, h3) = unless_ok (ns ==ᵇ sshsig_namespace) _ sig h2 in
    let (reserved, r3, f3, h4) = read-Field r2 _ sig h3 in
    let (algo, r4, f4, h5) = read-Field r3 _ sig h4 in
    let (sig_blob, r5, f5, h6) = read-Field r4 _ sig h5 in
    let (raw, e7, h7) = bind_ok (read_raw_sig sig_blob) _ sig h6 in
    let same = ok_same _ sig h7 in
    let is_own = (==ᵇ_iff ns sshsig_namespace).0 own in
    let (q1, q2, kind, raw_field, size) = read_raw_sig-IsRawSig sig_blob raw e7 in
    let laid : IsLayout r0 algo raw = record {
      key = key;
      behind_key = r1;
      key_field = f1;
      behind_namespace = r2;
      namespace_field = subst (λ n. Field r1 n r2) is_own f2;
      reserved = reserved;
      behind_reserved = r3;
      reserved_field = f3;
      behind_algo = r4;
      algo_field = f4;
      sig_blob = sig_blob;
      behind_sig = r5;
      sig_field = f5;
      behind_type = q1;
      type_field = kind;
      behind_raw = q2;
      raw_field = raw_field;
      raw_size = size;
    } in
    (
      sym (ap (λ (x : SshSignature). x.namespace) same) ∙ is_own,
      subst (λ (x : SshSignature). IsLayout r0 x.hash_algo x.raw_sig) same laid,
    )

version_one : (r : Bytes) (n : ℕ) → get_u32 r ≡ some n → n ≡ 1 → r ≡ 0 ∷ 0 ∷ 0 ∷ 1 ∷ drop 4 r
unfolding get_u32
version_one [] n h e = absurd (cc h)
version_one (a ∷ []) n h e = absurd (cc h)
version_one (a ∷ b ∷ []) n h e = absurd (cc h)
version_one (a ∷ b ∷ c ∷ []) n h e = absurd (cc h)
version_one (a ∷ b ∷ c ∷ d ∷ r) n h e =
    let value : a * 2 ^ 24 + b * 2 ^ 16 + c * 2 ^ 8 + d ≡ n = cc h in
    let a0 : a ≡ 0 = omega (arith, value, e) in
    let b0 : b ≡ 0 = omega (arith, value, e) in
    let c0 : c ≡ 0 = omega (arith, value, e) in
    let d1 : d ≡ 1 = omega (arith, value, e) in rw (a0, b0, c0, d1) refl

drop_again : (s : Bytes) → drop 4 (drop 6 s) ≡ drop 10 s
drop_again [] = refl
drop_again (a ∷ []) = refl
drop_again (a ∷ b ∷ []) = refl
drop_again (a ∷ b ∷ c ∷ []) = refl
drop_again (a ∷ b ∷ c ∷ d ∷ []) = refl
drop_again (a ∷ b ∷ c ∷ d ∷ e ∷ []) = refl
drop_again (a ∷ b ∷ c ∷ d ∷ e ∷ f ∷ s) = refl

pub read_sshsig-IsBlob :
    (blob : Bytes) (sig : SshSignature)
    → read_sshsig blob ≡ ok sig
    → (sig.namespace ≡ sshsig_namespace) × IsBlob blob sig.hash_algo sig.raw_sig
unfolding read_sshsig
read_sshsig-IsBlob blob sig h =
    let (magic, h1) = unless_ok (has_prefix blob sshsig_magic) _ sig h in
    let (version, e2, h2) = bind_ok (or_invalid (get_u32 (drop 6 blob))) _ sig h1 in
    let (one, h3) = unless_ok (version == 1) _ sig h2 in
    let (own, laid) = read_layout-IsLayout (drop 10 blob) sig h3 in
    (
      own,
      (
        drop 10 blob,
        has_prefix-drop blob sshsig_magic magic
            ∙ ap (λ t. sshsig_magic ++ t)
                (version_one (drop 6 blob) version (some_same _ version e2)
                    ((==_iff version 1).0 one)
                  ∙ ap (λ t. 0 ∷ 0 ∷ 0 ∷ 1 ∷ t) (drop_again blob)),
        laid,
      ),
    )
