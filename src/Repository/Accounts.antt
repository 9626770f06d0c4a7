-- ===== src/Repository/Accounts.antt =====
-- account_gorm.go: the tables `accounts`, `account_recoveries` and `refresh_tokens`.
use mailservice.Prelude.{
  ℕ, Bool, not, ◌&&◌, ◌||◌, Option, none, some, List, [], ◌∷◌, ◌++◌, ⊤, ltb, ◌==◌, if◌then◌else◌,
  Bytes, ◌==ᵇ◌,
}
use mailservice.Calendar.{Time}
use mailservice.Domain.{Account, AccountRecovery, RefreshToken, is_set}
use mailservice.Ports.{Error, account_not_found, recovery_not_found, refresh_not_found, constraint}
use mailservice.World.{Env, World, M, pure, raise, gets, modify, call, ◌>>=◌, ◌>>◌}
use mailservice.Repository.Query.{bytes_less, first, find_all, exists_row, update_where, count_rows}

abbrev pub or_raise : {A : Type 0} → Error → Option A → M A
or_raise e none = raise e
or_raise e (some a) = pure a

abbrev pub set_accounts : List Account → World → World
set_accounts rows w = record w { accounts = rows }

-- ORDER BY created_at DESC, id
unfoldable pub is_later : AccountRecovery → AccountRecovery → Bool
is_later q r =
    if q.created_at == r.created_at then bytes_less q.id r.id else ltb r.created_at q.created_at

module _ ⦃env : Env⦄ where
  unfoldable pub get_account : (Account → Bool) → M Account
  get_account p = do
    call
    row ← gets (λ w. first (λ q r. bytes_less q.id r.id) p w.accounts)
    or_raise account_not_found row

  -- AccountRepository.Create: `id`, `owner_email` and `api_token` are unique.
  unfoldable pub create_account : Account → M ⊤
  create_account account = do
    call
    rows ← gets (λ w. w.accounts)
    if exists_row
          (λ r.
            (r.id ==ᵇ account.id)
            || (r.owner_email ==ᵇ account.owner_email)
            || (r.api_token ==ᵇ account.api_token))
          rows
        then raise constraint
        else modify (set_accounts (rows ++ account ∷ []))

  -- AccountRepository.GetByOwnerEmail
  unfoldable pub get_by_owner_email : Bytes → M Account
  get_by_owner_email owner_email = get_account (λ r. r.owner_email ==ᵇ owner_email)

  -- AccountRepository.GetByID
  unfoldable pub get_by_id : Bytes → M Account
  get_by_id account_id = get_account (λ r. r.id ==ᵇ account_id)

  -- AccountRepository.GetByAPIToken
  unfoldable pub get_by_api_token : Bytes → M Account
  get_by_api_token api_token = get_account (λ r. r.api_token ==ᵇ api_token)

  -- AccountRepository.UpdateAPIToken
  unfoldable pub update_api_token : Bytes → Bytes → M ⊤
  update_api_token account_id api_token = do
    call
    rows ← gets (λ w. w.accounts)
    if exists_row (λ r. not (r.id ==ᵇ account_id) && (r.api_token ==ᵇ api_token)) rows
          && exists_row (λ r. r.id ==ᵇ account_id) rows
        then raise constraint
        else modify (
            set_accounts (
              update_where (λ r. r.id ==ᵇ account_id) (λ r. record r { api_token = api_token })
                rows))

  -- AccountRepository.UpdateSubscriptionExpiresAt
  unfoldable pub update_subscription_expires_at : Bytes → Time → M ⊤
  update_subscription_expires_at account_id expires_at = do
    call
    rows ← gets (λ w. w.accounts)
    modify (
        set_accounts (
          update_where (λ r. r.id ==ᵇ account_id)
            (λ r. record r { subscription_expires_at = some expires_at }) rows))

  -- AccountRepository.ClearSubscriptionExpiresAt
  unfoldable pub clear_subscription_expires_at : M ℕ
  clear_subscription_expires_at = do
    call
    rows ← gets (λ w. w.accounts)
    modify (
        set_accounts (
          update_where (λ r. is_set r.subscription_expires_at)
            (λ r. record r { subscription_expires_at = none }) rows))
    pure (count_rows (λ r. is_set r.subscription_expires_at) rows)

  unfoldable pub get_recovery :
      (AccountRecovery → AccountRecovery → Bool) → (AccountRecovery → Bool) → M AccountRecovery
  get_recovery less p = do
    call
    row ← gets (λ w. first less p w.recoveries)
    or_raise recovery_not_found row

  -- AccountRecoveryRepository.Create; the database sets `created_at`.
  unfoldable pub create_recovery : AccountRecovery → M ⊤
  create_recovery recovery = do
    n ← call
    rows ← gets (λ w. w.recoveries)
    if exists_row (λ r. r.id ==ᵇ recovery.id) rows
        then raise constraint
        else modify (λ w. record w {
          recoveries = rows ++ (record recovery { created_at = env.clock n }) ∷ [];
        })

  -- AccountRecoveryRepository.DeleteActiveByAccountID
  unfoldable pub delete_active_by_account_id : Bytes → M ⊤
  delete_active_by_account_id account_id = do
    call
    modify (λ w. record w {
      recoveries =
          find_all (λ r. not ((r.account_id ==ᵇ account_id) && not (is_set r.used_at)))
            w.recoveries;
    })

  -- AccountRecoveryRepository.GetLatestByAccountID
  unfoldable pub get_latest_by_account_id : Bytes → M AccountRecovery
  get_latest_by_account_id account_id = get_recovery is_later (λ r. r.account_id ==ᵇ account_id)

  -- AccountRecoveryRepository.GetLatestActiveByAccountID
  unfoldable pub get_latest_active_by_account_id : Bytes → M AccountRecovery
  get_latest_active_by_account_id account_id =
      get_recovery is_later (λ r. (r.account_id ==ᵇ account_id) && not (is_set r.used_at))

  -- AccountRecoveryRepository.GetActiveByCodeHash
  unfoldable pub get_active_by_code_hash : Bytes → M AccountRecovery
  get_active_by_code_hash code_hash =
      get_recovery (λ q r. bytes_less q.id r.id)
        (λ r. (r.code_hash ==ᵇ code_hash) && not (is_set r.used_at))

  -- AccountRecoveryRepository.MarkUsed
  unfoldable pub mark_recovery_used : Bytes → Time → M ⊤
  mark_recovery_used recovery_id used_at = do
    call
    modify (λ w. record w {
      recoveries =
          update_where (λ r. r.id ==ᵇ recovery_id) (λ r. record r { used_at = some used_at })
            w.recoveries;
    })

  -- RefreshTokenRepository.Create: `id` and `token_hash` are unique.
  unfoldable pub create_refresh_token : RefreshToken → M ⊤
  create_refresh_token token = do
    call
    rows ← gets (λ w. w.refresh_tokens)
    if exists_row (λ r. (r.id ==ᵇ token.id) || (r.token_hash ==ᵇ token.token_hash)) rows
        then raise constraint
        else modify (λ w. record w { refresh_tokens = rows ++ token ∷ [] })

  -- RefreshTokenRepository.GetActiveByTokenHash
  unfoldable pub get_active_by_token_hash : Bytes → M RefreshToken
  get_active_by_token_hash token_hash = do
    call
    row ← gets (λ w.
        first (λ q r. bytes_less q.id r.id)
          (λ r. (r.token_hash ==ᵇ token_hash) && not (is_set r.used_at)) w.refresh_tokens)
    or_raise refresh_not_found row

  -- RefreshTokenRepository.MarkUsed
  unfoldable pub mark_refresh_used : Bytes → Time → M ⊤
  mark_refresh_used token_id used_at = do
    call
    modify (λ w. record w {
      refresh_tokens =
          update_where (λ r. r.id ==ᵇ token_id) (λ r. record r { used_at = some used_at })
            w.refresh_tokens;
    })
