-- ===== src/Http/AdminKey.antt =====
-- Who gets past the key of the administrator.
use mathlib.Core.Path.{subst}
use mailservice.Prelude.{
  ◌≡◌, refl, ap, ◌∙◌, ◌⊎◌, inl, inr, true, false, not, [], ◌∷◌, ◌++◌, arith, Bytes, codes,
  Bool-cases, ==ᵇ-eq, ==ᵇ-refl, length, drop, drop-append,
}
use mailservice.Text.{is_empty, trim_space, trim_left, trim_right, has_prefix}
use mailservice.Text.Laws.{has_prefix-drop}
use mailservice.World.{Env, World, M}
use mailservice.Http.{Handler, Response, trim_prefix}
use mailservice.Http.Gate.{Refused, guard-gate}
use mailservice.Http.Admin.{is_admin_token, with_admin_key}

abbrev pub bearer : Bytes
bearer = codes "Bearer "

has_prefix-append : (p s : Bytes) → has_prefix (p ++ s) p ≡ true
unfolding has_prefix
has_prefix-append [] s = refl
has_prefix-append (x ∷ p) s = ground (arith, has_prefix-append p s)

-- The header carries the key, behind "Bearer " or alone, and the key is not blank.
abbrev pub IsKey : Bytes → Bytes → Type 0
IsKey key authorization =
    ((authorization ≡ bearer ++ key) ⊎ (authorization ≡ key)) × (is_empty (trim_space key) ≡ false)

carries :
    (key authorization : Bytes)
    → trim_prefix authorization bearer ≡ key
    → (authorization ≡ bearer ++ key) ⊎ (authorization ≡ key)
unfolding trim_prefix
carries key authorization e = go (Bool-cases (has_prefix authorization bearer)) e
  where
    go :
        ((has_prefix authorization bearer ≡ true) ⊎ (has_prefix authorization bearer ≡ false))
        → trim_prefix authorization bearer ≡ key
        → (authorization ≡ bearer ++ key) ⊎ (authorization ≡ key)
    go (inl there) e =
        let rest : drop (length bearer) authorization ≡ key = rw there at e in
        inl (has_prefix-drop authorization bearer there ∙ ap (λ t. bearer ++ t) rest)
    go (inr absent) e = let whole : authorization ≡ key = rw absent at e in inr whole

is_admin_token-IsKey :
    (key authorization : Bytes) → is_admin_token key authorization ≡ true → IsKey key authorization
unfolding is_admin_token
is_admin_token-IsKey key authorization h =
    let same : trim_prefix authorization bearer ≡ key =
      ==ᵇ-eq (trim_prefix authorization bearer) key (ground arith) in
    (
      carries key authorization same,
      subst (λ t. is_empty (trim_space t) ≡ false) same (ground arith),
    )

trim_prefix-append : (p key : Bytes) → trim_prefix (p ++ key) p ≡ key
unfolding trim_prefix
trim_prefix-append p key = rw (has_prefix-append p key) (drop-append p key)

is_admin_token-bearer :
    (key : Bytes) → is_empty (trim_space key) ≡ false → is_admin_token key (bearer ++ key) ≡ true
unfolding is_admin_token
is_admin_token-bearer key h = rw (trim_prefix-append bearer key, h, ==ᵇ-refl key) refl

not_blank : (key : Bytes) → is_empty (trim_space key) ≡ false → is_empty key ≡ false
unfolding trim_space trim_left trim_right
not_blank [] h = absurd (ground arith)
not_blank (c ∷ key) h = refl

module _ ⦃env : Env⦄ (h : Handler) where
  -- A request whose bearer token is the configured key, which is not blank, goes to the handler.
  pub with_admin_key-bearer :
      (next : M Response) (w : World)
      → is_empty (trim_space h.admin_api_key) ≡ false
      → with_admin_key h (bearer ++ h.admin_api_key) next w ≡ next w
  unfolding with_admin_key
  with_admin_key-bearer next w e =
      rw (not_blank h.admin_api_key e, is_admin_token-bearer h.admin_api_key e) refl

  -- A request behind the key of the administrator carries that key, which is not blank, or it is
  -- refused and changes nothing.
  pub with_admin_key-gate :
      (authorization : Bytes) (next : M Response) (w : World)
      → IsKey h.admin_api_key authorization ⊎ Refused w (with_admin_key h authorization next w)
  unfolding with_admin_key
  with_admin_key-gate authorization next w =
      guard-gate (is_empty h.admin_api_key) _ _ w (omega arith) (λ set.
        guard-gate (not (is_admin_token h.admin_api_key authorization)) _ _ w (omega arith)
          (λ known. inl (is_admin_token-IsKey h.admin_api_key authorization (ground arith))))
