-- ===== src/Sessions/Tokens.antt =====
-- The account service keeps every property of the table `refresh_tokens` that a new row and the
-- mark of a used row keep.
use mailservice.Prelude.{
  ℕ, ◌≡◌, Bool, false, ◌||◌, Option, none, some, List, [], ◌∷◌, ◌++◌, Bytes, Bool-cases, inl, inr,
  ⊤, ◌==ᵇ◌,
}
use mailservice.Calendar.{Time}
use mailservice.Domain.{Account, AccountRecovery, RefreshToken}
use mailservice.Ports.{
  Error, Result, ok, err, account_exists, refresh_not_found, refresh_expired, recovery_invalid,
  recovery_expired, rate_limit_reached, account_not_found, constraint, Mail,
}
use mailservice.World.{
  Env, World, raise, gets, modify, wrapping, call, time_now, new_uuid, new_token, send, ◌>>=◌,
}
use mailservice.World.Keeps.{
  Keeps, Keeps-bind, Keeps-gets, Keeps-pure, Keeps-raise, Keeps-if, Keeps-wrapping, Keeps-attempt,
  Keeps-modify, Keeps-call, Keeps-time_now, Keeps-new_uuid, Keeps-new_token,
}
use mailservice.Repository.Query.{exists_row, update_where}
use mailservice.Repository.Accounts
use mailservice.Repository.Accounts.{or_raise, get_account, get_recovery}
use mailservice.Sessions
use mailservice.Sessions.{
  AuthTokens, issue_refresh_token, create_fresh, create_unless, renew_tokens, refresh_from,
  refresh_access, recovery_rate_limit_window, check_window, enforce_recovery_rate_limit,
  create_and_send_recovery_code, recover_from, start_recovery, complete_from,
  complete_recovery_by_token, get_by_token,
}

-- `id` and `token_hash` are unique.
abbrev pub blocks_token : RefreshToken → RefreshToken → Bool
blocks_token t r = (r.id ==ᵇ t.id) || (r.token_hash ==ᵇ t.token_hash)

abbrev pub mark_used : Bytes → Time → List RefreshToken → List RefreshToken
mark_used id at rows =
    update_where (λ (r : RefreshToken). r.id ==ᵇ id) (λ r. record r { used_at = some at }) rows

module _ ⦃env : Env⦄ (base : Bytes) (P : List RefreshToken → Type 0)
    (on_new : (t : RefreshToken) (rows : List RefreshToken)
      → exists_row (blocks_token t) rows ≡ false
      → P rows
      → P (rows ++ t ∷ []))
    (on_mark : (id : Bytes) (at : Time) (rows : List RefreshToken)
      → P rows
      → P (mark_used id at rows)) where
  abbrev T : World → Type 0
  T w = P w.refresh_tokens

  k_call : Keeps T call
  k_call = Keeps-call T (λ n w h. h)

  k_time : Keeps T time_now
  k_time = Keeps-time_now T (λ n w h. h)

  k_uuid : Keeps T new_uuid
  k_uuid = Keeps-new_uuid T (λ n w h. h)

  k_token : (text : Bytes) (size : ℕ) → Keeps T (wrapping text (new_token size))
  k_token text size = Keeps-wrapping T text (new_token size) (Keeps-new_token T (λ n w h. h) size)

  k_or_raise : {A : Type 0} (e : Error) (o : Option A) → Keeps T (or_raise e o)
  k_or_raise {A} e none = Keeps-raise T A e
  k_or_raise e (some a) = Keeps-pure T a

  k_get_account : (p : Account → Bool) → Keeps T (get_account p)
  unfolding get_account
  k_get_account p =
      Keeps-bind T _ _ k_call (λ _. Keeps-gets T _ _ (λ w h. k_or_raise account_not_found _ w h))

  k_get_recovery :
      (less : AccountRecovery → AccountRecovery → Bool) (p : AccountRecovery → Bool)
      → Keeps T (get_recovery less p)
  unfolding get_recovery
  k_get_recovery less p =
      Keeps-bind T _ _ k_call (λ _. Keeps-gets T _ _ (λ w h. k_or_raise _ _ w h))

  k_create_refresh_token : (t : RefreshToken) → Keeps T (Accounts.create_refresh_token t)
  unfolding Accounts.create_refresh_token gets ◌>>=◌ modify raise
  k_create_refresh_token t w h = elim (Bool-cases (env.fails w.ticks)) [
    | inl down ↦ unfold call in simp down h
    | inr up ↦
        unfold call in
        simp up (elim (Bool-cases (exists_row (blocks_token t) w.refresh_tokens)) [
          | inl blocked ↦ simp blocked h
          | inr free ↦ simp free (on_new t w.refresh_tokens free h)
        ])
  ]

  k_mark_refresh_used : (id : Bytes) (at : Time) → Keeps T (Accounts.mark_refresh_used id at)
  unfolding Accounts.mark_refresh_used
  k_mark_refresh_used id at =
      Keeps-bind T _ _ k_call (λ _. Keeps-modify T _ (λ w h. on_mark id at w.refresh_tokens h))

  k_send : (mail : Mail) → Keeps T (send mail)
  unfolding send
  k_send mail = Keeps-bind T _ _ k_call (λ _. Keeps-modify T _ (λ w h. h))

  k_create_account : (a : Account) → Keeps T (Accounts.create_account a)
  unfolding Accounts.create_account
  k_create_account a = Keeps-bind T _ _ k_call (λ _.
      Keeps-gets T _ _
        (λ w h. Keeps-if T _ _ _ (Keeps-raise T ⊤ constraint) (Keeps-modify T _ (λ w h. h)) w h))

  k_update_api_token : (id t : Bytes) → Keeps T (Accounts.update_api_token id t)
  unfolding Accounts.update_api_token
  k_update_api_token id t = Keeps-bind T _ _ k_call (λ _.
      Keeps-gets T _ _
        (λ w h. Keeps-if T _ _ _ (Keeps-raise T ⊤ constraint) (Keeps-modify T _ (λ w h. h)) w h))

  k_create_recovery : (r : AccountRecovery) → Keeps T (Accounts.create_recovery r)
  unfolding Accounts.create_recovery
  k_create_recovery r = Keeps-bind T _ _ k_call (λ _.
      Keeps-gets T _ _
        (λ w h. Keeps-if T _ _ _ (Keeps-raise T ⊤ constraint) (Keeps-modify T _ (λ w h. h)) w h))

  k_delete_active : (id : Bytes) → Keeps T (Accounts.delete_active_by_account_id id)
  unfolding Accounts.delete_active_by_account_id
  k_delete_active id = Keeps-bind T _ _ k_call (λ _. Keeps-modify T _ (λ w h. h))

  k_mark_recovery_used : (id : Bytes) (at : Time) → Keeps T (Accounts.mark_recovery_used id at)
  unfolding Accounts.mark_recovery_used
  k_mark_recovery_used id at = Keeps-bind T _ _ k_call (λ _. Keeps-modify T _ (λ w h. h))

  k_get_active : (hash : Bytes) → Keeps T (Accounts.get_active_by_token_hash hash)
  unfolding Accounts.get_active_by_token_hash
  k_get_active hash =
      Keeps-bind T _ _ k_call (λ _. Keeps-gets T _ _ (λ w h. k_or_raise refresh_not_found _ w h))

  k_issue : (id : Bytes) (now : Time) → Keeps T (issue_refresh_token base id now)
  unfolding issue_refresh_token
  k_issue id now = Keeps-bind T _ _ (k_token _ 48) (λ raw.
      Keeps-bind T _ _ k_uuid
        (λ token_id. Keeps-bind T _ _ (k_create_refresh_token _) (λ _. Keeps-pure T raw)))

  k_create_fresh : (owner : Bytes) → Keeps T (create_fresh base owner)
  unfolding create_fresh
  k_create_fresh owner = Keeps-bind T _ _ (k_token _ 32) (λ t. Keeps-bind T _ _ k_uuid (λ id.
      Keeps-bind T _ _ (k_create_account _) (λ _.
        Keeps-bind T _ _ k_time
          (λ now. Keeps-bind T _ _ (k_issue id now) (λ raw. Keeps-pure T _)))))

  k_create_unless : (owner : Bytes) (r : Result Account) → Keeps T (create_unless base owner r)
  k_create_unless owner (ok a) = Keeps-raise T _ account_exists
  k_create_unless owner (err e) = Keeps-if T _ _ _ (Keeps-raise T _ e) (k_create_fresh owner)

  -- CreateAccount
  pub create_account-Keeps : (email : Bytes) → Keeps T (Sessions.create_account base email)
  unfolding Sessions.create_account Accounts.get_by_owner_email
  create_account-Keeps email =
      Keeps-if T _ _ _ (Keeps-raise T _ _)
        (Keeps-bind T _ _ (Keeps-attempt T _ (k_get_account _)) (λ found. k_create_unless _ found))

  pub k_renew : (id : Bytes) (now : Time) → Keeps T (renew_tokens base id now)
  unfolding renew_tokens Accounts.get_by_api_token
  k_renew id now = Keeps-bind T _ _ (k_token _ 32) (λ t.
      Keeps-bind T _ _ (k_update_api_token id t) (λ _.
        Keeps-bind T _ _ (k_issue id now)
          (λ raw. Keeps-bind T _ _ (k_get_account _) (λ a. Keeps-pure T _))))

  k_refresh_from : (now : Time) (r : Result RefreshToken) → Keeps T (refresh_from base now r)
  k_refresh_from now (err e) = Keeps-if T _ _ _ (Keeps-raise T _ _) (Keeps-raise T _ e)
  k_refresh_from now (ok stored) =
      Keeps-if T _ _ _ (Keeps-raise T _ refresh_expired)
        (Keeps-bind T _ _ (k_mark_refresh_used stored.id now) (λ _. k_renew stored.account_id now))

  -- RefreshAccess
  pub refresh_access-Keeps : (token : Bytes) → Keeps T (refresh_access base token)
  unfolding refresh_access
  refresh_access-Keeps token = Keeps-if T _ _ _ (Keeps-raise T _ refresh_not_found) (
      Keeps-bind T _ _ k_time (λ now.
        Keeps-bind T _ _ (Keeps-attempt T _ (k_get_active _))
          (λ stored. k_refresh_from now stored)))

  k_check_window : (now : Time) (r : Result AccountRecovery) → Keeps T (check_window base now r)
  k_check_window now (err e) = Keeps-if T _ _ _ (Keeps-pure T tt) (Keeps-raise T _ e)
  k_check_window now (ok latest) =
      Keeps-if T _ _ _ (Keeps-raise T _ rate_limit_reached) (Keeps-pure T tt)

  k_send_code :
      (a : Account) (owner : Bytes) (now : Time)
      → Keeps T (create_and_send_recovery_code base a owner now)
  unfolding create_and_send_recovery_code
  k_send_code a owner now = Keeps-bind T _ _ (k_token _ 12) (λ code. Keeps-bind T _ _ k_uuid (λ id.
      Keeps-bind T _ _ (k_delete_active a.id)
        (λ _. Keeps-bind T _ _ (k_create_recovery _) (λ _. k_send _))))

  k_recover_from : (owner : Bytes) (r : Result Account) → Keeps T (recover_from base owner r)
  unfolding enforce_recovery_rate_limit Accounts.get_latest_by_account_id
  k_recover_from owner (err e) = Keeps-if T _ _ _ (Keeps-pure T tt) (Keeps-raise T _ e)
  k_recover_from owner (ok a) = Keeps-bind T _ _ k_time (λ now.
      Keeps-bind T _ _
        (Keeps-bind T _ _ (Keeps-attempt T _ (k_get_recovery _ _))
          (λ latest. k_check_window now latest))
        (λ _. k_send_code a owner now))

  -- StartRecovery
  pub start_recovery-Keeps : (email : Bytes) → Keeps T (start_recovery base email)
  unfolding start_recovery Accounts.get_by_owner_email
  start_recovery-Keeps email =
      Keeps-if T _ _ _ (Keeps-pure T tt)
        (Keeps-bind T _ _ (Keeps-attempt T _ (k_get_account _)) (λ found. k_recover_from _ found))

  k_complete_from : (r : Result AccountRecovery) → Keeps T (complete_from base r)
  k_complete_from (err e) = Keeps-if T _ _ _ (Keeps-raise T _ recovery_invalid) (Keeps-raise T _ e)
  k_complete_from (ok recovery) = Keeps-bind T _ _ k_time (λ now.
      Keeps-if T _ _ _ (Keeps-raise T _ recovery_expired) (
        Keeps-bind T _ _ (k_mark_recovery_used recovery.id now)
          (λ _. k_renew recovery.account_id now)))

  -- CompleteRecoveryByToken
  pub complete_recovery_by_token-Keeps :
      (token : Bytes) → Keeps T (complete_recovery_by_token base token)
  unfolding complete_recovery_by_token Accounts.get_active_by_code_hash
  complete_recovery_by_token-Keeps token =
      Keeps-if T _ _ _ (Keeps-raise T _ recovery_invalid)
        (Keeps-bind T _ _ (Keeps-attempt T _ (k_get_recovery _ _)) (λ found. k_complete_from found))

  -- AccountService.GetByToken
  pub get_by_token-Keeps : (token : Bytes) → Keeps T (get_by_token base token)
  unfolding get_by_token Accounts.get_by_api_token
  get_by_token-Keeps token = Keeps-if T _ _ _ (Keeps-raise T _ account_not_found) (k_get_account _)
