-- ===== src/Sessions/Once.antt =====
-- A refresh token is granted once: behind a granted `RefreshAccess` the token is spent, and no
-- call of the account service brings it back.
use mathlib.Core.Path.{subst}
use mailservice.Prelude.{
  ◌++◌, ◌+◌, ◌≡◌, refl, sym, ◌⊎◌, inl, inr, false, List, [], ◌∷◌, Bytes, Bool-cases, Option-cases,
}
use mailservice.Calendar.{Time, before}
use mailservice.Text.{is_empty, trim_space}
use mailservice.Domain.{Account, RefreshToken}
use mailservice.Ports.{Result, ok, err, external, refresh_not_found}
use mailservice.World.{Env, World, pure, raise, gets, attempt, call, time_now, modify, ◌>>=◌}
use mailservice.World.Yields.{Yields, Yields-then, Yields-call, bump}
use mailservice.World.Keeps.{Yields-Keeps}
use mailservice.Repository.Query.{bytes_less, first, exists_row}
use mailservice.Repository.Accounts
use mailservice.Sessions
use mailservice.Sessions.{
  AuthTokens, refresh_access, refresh_from, renew_tokens, start_recovery,
  complete_recovery_by_token, get_by_token,
}
use mailservice.Sessions.Tokens.{
  blocks_token, mark_used, create_account-Keeps, refresh_access-Keeps, start_recovery-Keeps,
  complete_recovery_by_token-Keeps, get_by_token-Keeps, k_renew,
}
use mailservice.Sessions.Spent.{
  hashes, AllDifferent, Spent, different-new, different-mark, Spent-new, Spent-mark, mark-Spent,
  first-Spent, is_granted,
}

module _ ⦃env : Env⦄ (base : Bytes) where
  -- One call of the account service, or a step of another part, which has no access to the table of
  -- the refresh tokens.
  pub data Step : World → World → Type 0 where
    accounts_create : (email : Bytes) (w : World) → Step w (Sessions.create_account base email w).1
    accounts_refresh : (token : Bytes) (w : World) → Step w (refresh_access base token w).1
    recovery_start : (email : Bytes) (w : World) → Step w (start_recovery base email w).1
    recovery_complete :
        (token : Bytes) (w : World) → Step w (complete_recovery_by_token base token w).1
    token_lookup : (token : Bytes) (w : World) → Step w (get_by_token base token w).1
    elsewhere : (w w' : World) → w'.refresh_tokens ≡ w.refresh_tokens → Step w w'

  pub data Steps : World → World → Type 0 where
    done : (w : World) → Steps w w
    step : {w w1 w2 : World} → Steps w w1 → Step w1 w2 → Steps w w2

  module _ (P : List RefreshToken → Type 0)
      (on_new : (t : RefreshToken) (rows : List RefreshToken)
        → exists_row (blocks_token t) rows ≡ false
        → P rows
        → P (rows ++ t ∷ []))
      (on_mark : (id : Bytes) (at : Time) (rows : List RefreshToken)
        → P rows
        → P (mark_used id at rows)) where
    Step-keeps : {w w' : World} → Step w w' → P w.refresh_tokens → P w'.refresh_tokens
    Step-keeps (accounts_create email w) h = create_account-Keeps base P on_new on_mark email w h
    Step-keeps (accounts_refresh token w) h = refresh_access-Keeps base P on_new on_mark token w h
    Step-keeps (recovery_start email w) h = start_recovery-Keeps base P on_new on_mark email w h
    Step-keeps (recovery_complete token w) h =
        complete_recovery_by_token-Keeps base P on_new on_mark token w h
    Step-keeps (token_lookup token w) h = get_by_token-Keeps base P on_new on_mark token w h
    Step-keeps (elsewhere w w' e) h = subst P (sym e) h

    Steps-keeps : {w w' : World} → Steps w w' → P w.refresh_tokens → P w'.refresh_tokens
    Steps-keeps (done w) h = h
    Steps-keeps (step before last) h = Step-keeps last (Steps-keeps before h)

  -- The hash under which a raw token is stored
  abbrev pub key_of : Bytes → Bytes
  key_of token = env.hash_token (trim_space token)

  mark_yields :
      (h : Bytes) (id : Bytes) (at : Time) (w : World)
      → Spent h (mark_used id at w.refresh_tokens)
      → Yields (Accounts.mark_refresh_used id at w) (λ _ w'. Spent h w'.refresh_tokens)
  unfolding Accounts.mark_refresh_used modify
  mark_yields h id at w spent = Yields-call _ w (λ _ w'. Spent h w'.refresh_tokens) spent

  granted_row :
      (h : Bytes) (stored : RefreshToken) (now : Time) (w : World)
      → Spent h (mark_used stored.id now w.refresh_tokens)
      → Yields (refresh_from base now (ok stored) w) (λ _ w'. Spent h w'.refresh_tokens)
  granted_row h stored now w spent = elim (Bool-cases (before stored.expires_at now)) [
    | inl late ↦ unfold raise in simp late tt
    | inr good ↦ simp good (
        Yields-then (λ _ w'. Spent h w'.refresh_tokens) (Accounts.mark_refresh_used stored.id now)
          (λ _. renew_tokens base stored.account_id now) w (λ _ w'. Spent h w'.refresh_tokens)
          (mark_yields h stored.id now w spent)
          (λ _ w' there.
            Yields-Keeps (λ v. Spent h v.refresh_tokens) (renew_tokens base stored.account_id now)
              w' (k_renew base (Spent h) (Spent-new h) (Spent-mark h) stored.account_id now) there))
  ]

  granted_from :
      (token : Bytes) (now : Time) (w : World)
      → AllDifferent (hashes w.refresh_tokens)
      → Yields
          (refresh_from base now
            (Accounts.get_active_by_token_hash (key_of token) w).0
            (Accounts.get_active_by_token_hash (key_of token) w).1)
          (λ _ w'. Spent (key_of token) w'.refresh_tokens)
  unfolding Accounts.get_active_by_token_hash call gets ◌>>=◌ raise pure
  granted_from token now w d = elim (Bool-cases (env.fails w.ticks)) [
    | inl down ↦ simp down tt
    | inr up ↦
        simp up
          (elim (Option-cases
            (first (λ q r. bytes_less q.id r.id) (is_granted (key_of token)) w.refresh_tokens)) [
              | inl missing ↦ simp missing tt
              | inr (stored, found) ↦ simp found (
                  granted_row (key_of token) stored now (bump w)
                    (mark-Spent (key_of token) w.refresh_tokens stored now d found))
            ])
  ]

  refresh_access-Spent :
      (token : Bytes) (w : World)
      → AllDifferent (hashes w.refresh_tokens)
      → Yields (refresh_access base token w) (λ _ w'. Spent (key_of token) w'.refresh_tokens)
  unfolding refresh_access time_now attempt ◌>>=◌ raise
  refresh_access-Spent token w d = elim (Bool-cases (is_empty (trim_space token))) [
    | inl blank ↦ simp blank tt
    | inr given ↦ simp given (granted_from token (env.clock w.ticks) (bump w) d)
  ]

  abbrev pub Refused : Result (Account × AuthTokens) → Type 0
  Refused r = (r ≡ err refresh_not_found) ⊎ (r ≡ err external)

  Spent-Refused :
      (token : Bytes) (w : World)
      → Spent (key_of token) w.refresh_tokens
      → Refused (refresh_access base token w).0
  unfolding refresh_access time_now attempt ◌>>=◌ raise Accounts.get_active_by_token_hash call gets
      pure
  Spent-Refused token w spent = elim (Bool-cases (is_empty (trim_space token))) [
    | inl blank ↦ simp blank (inl refl)
    | inr given ↦ simp given (elim (Bool-cases (env.fails (w.ticks + 1))) [
      | inl down ↦ simp down (inr refl)
      | inr up ↦ simp up (simp (first-Spent (key_of token) w.refresh_tokens spent) (inl refl))
    ])
  ]

  granted :
      (token : Bytes) (tokens : Account × AuthTokens) (w w' : World)
      → Yields (refresh_access base token w) (λ _ w'. Spent (key_of token) w'.refresh_tokens)
      → (refresh_access base token w).0 ≡ ok tokens
      → Spent (key_of token) (refresh_access base token w).1.refresh_tokens
  granted token tokens w w' y e =
      subst
        (λ r.
          Yields (r, (refresh_access base token w).1)
            (λ _ w'. Spent (key_of token) w'.refresh_tokens))
        e y

  -- Take any sequence of whole calls of the account service, and of steps of other parts, that
  -- starts with no refresh token. If a call of `RefreshAccess` in it is granted, then every later
  -- call with the same token is refused: as not found, or as the failure of the database.
  pub refresh_access-once :
      (token : Bytes) (tokens : Account × AuthTokens) (w0 w w' : World)
      → w0.refresh_tokens ≡ []
      → Steps w0 w
      → (refresh_access base token w).0 ≡ ok tokens
      → Steps (refresh_access base token w).1 w'
      → Refused (refresh_access base token w').0
  refresh_access-once token tokens w0 w w' empty before grant after =
      let different =
        Steps-keeps (λ rows. AllDifferent (hashes rows)) different-new different-mark before
          (subst (λ rows. AllDifferent (hashes rows)) (sym empty) tt) in
      let h = key_of token in
      Spent-Refused token w' (
        Steps-keeps (Spent h) (Spent-new h) (Spent-mark h) after
          (granted token tokens w w' (refresh_access-Spent token w different) grant))
