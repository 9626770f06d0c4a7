-- ===== src/Sessions.antt =====
-- internal/core/service/account_service.go: accounts, their API tokens, the refresh tokens that
-- renew these, and the recovery of an account by an emailed link.
pub mod Tokens
pub mod Spent
pub mod Once
use mailservice.Prelude.{
  ℕ, ◌+◌, ◌-◌, ◌*◌, ◌==◌, not, none, [], ◌∷◌, ◌++◌, ⊤, ltb, if◌then◌else◌, Bytes, codes,
}
use mailservice.Calendar.{Time, minute, hour, before}
use mailservice.Text.{is_empty, trim_space, normalize}
use mailservice.Domain.{Account, AccountRecovery, RefreshToken}
use mailservice.Ports.{
  Result, ok, err, message, account_exists, account_not_found, is_account_not_found,
  refresh_not_found, refresh_expired, is_refresh_not_found, recovery_invalid, recovery_expired,
  is_recovery_not_found, rate_limit_reached, Mail,
}
use mailservice.World.{
  Env, M, pure, raise, attempt, wrapping, time_now, new_uuid, new_token, send, ◌>>=◌, ◌>>◌,
}
use mailservice.Repository.Accounts
use mailservice.Service.Claim.{invalid_email}

abbrev pub recovery_ttl : Time
recovery_ttl = 10 * minute

abbrev pub recovery_rate_limit_window : Time
recovery_rate_limit_window = 1 * minute

abbrev pub refresh_token_ttl : Time
refresh_token_ttl = 30 * 24 * hour

pub record AuthTokens : Type 0 where
  pub api_token : Bytes
  pub refresh_token : Bytes

-- What `trim_slashes` makes of a byte in front of the trimmed rest.
abbrev keep_slash : ℕ → Bytes → Bytes
keep_slash c [] = if c == b'/' then [] else c ∷ []
keep_slash c (d ∷ r) = c ∷ d ∷ r

-- strings.TrimRight(url, "/"), as NewAccountService takes its base URL
unfoldable pub trim_slashes : Bytes → Bytes
trim_slashes [] = []
trim_slashes (c ∷ s) = keep_slash c (trim_slashes s)

module _ ⦃env : Env⦄ (public_base_url : Bytes) where
  -- issueRefreshToken: the raw token; only its hash is stored.
  unfoldable pub issue_refresh_token : Bytes → Time → M Bytes
  issue_refresh_token account_id now = do
    raw ← wrapping (codes "generate refresh token") (new_token 48)
    id ← new_uuid
    let stored : RefreshToken = record {
      id = id;
      account_id = account_id;
      token_hash = env.hash_token raw;
      expires_at = now + refresh_token_ttl;
      used_at = none;
    }
    Accounts.create_refresh_token stored
    pure raw

  -- CreateAccount, once the address is known to be free
  unfoldable pub create_fresh : Bytes → M (Account × AuthTokens)
  create_fresh owner_email = do
    api_token ← wrapping (codes "generate api token") (new_token 32)
    id ← new_uuid
    let account : Account = record {
      id = id;
      owner_email = owner_email;
      api_token = api_token;
      subscription_expires_at = none;
    }
    Accounts.create_account account
    now ← time_now
    refresh_token ← issue_refresh_token account.id now
    pure (account, record { api_token = api_token; refresh_token = refresh_token })

  abbrev pub create_unless : Bytes → Result Account → M (Account × AuthTokens)
  create_unless owner_email (ok account) = raise account_exists
  create_unless owner_email (err e) =
      if not (is_account_not_found e) then raise e else create_fresh owner_email

  -- CreateAccount
  unfoldable pub create_account : Bytes → M (Account × AuthTokens)
  create_account email =
      if invalid_email (normalize email)
      then raise (message (codes "owner_email must be a valid email"))
      else do
        found ← attempt (Accounts.get_by_owner_email (normalize email))
        create_unless (normalize email) found

  -- New tokens for an account, where a refresh or a recovery has been granted
  unfoldable pub renew_tokens : Bytes → Time → M (Account × AuthTokens)
  renew_tokens account_id now = do
    api_token ← wrapping (codes "generate api token") (new_token 32)
    Accounts.update_api_token account_id api_token
    refresh_token ← issue_refresh_token account_id now
    account ← Accounts.get_by_api_token api_token
    pure (account, record { api_token = api_token; refresh_token = refresh_token })

  abbrev pub refresh_from : Time → Result RefreshToken → M (Account × AuthTokens)
  refresh_from now (err e) = if is_refresh_not_found e then raise refresh_not_found else raise e
  refresh_from now (ok stored) =
      if before stored.expires_at now
      then raise refresh_expired
      else do Accounts.mark_refresh_used stored.id now; renew_tokens stored.account_id now

  -- RefreshAccess
  unfoldable pub refresh_access : Bytes → M (Account × AuthTokens)
  refresh_access refresh_token =
      if is_empty (trim_space refresh_token) then raise refresh_not_found else do
        now ← time_now
        stored ←
            attempt (Accounts.get_active_by_token_hash (env.hash_token (trim_space refresh_token)))
        refresh_from now stored

  abbrev pub check_window : Time → Result AccountRecovery → M ⊤
  check_window now (err e) = if is_recovery_not_found e then pure tt else raise e
  check_window now (ok latest) =
      if ltb (now - latest.created_at) recovery_rate_limit_window
      then raise rate_limit_reached
      else pure tt

  -- enforceRecoveryRateLimit
  unfoldable pub enforce_recovery_rate_limit : Bytes → Time → M ⊤
  enforce_recovery_rate_limit account_id now = do
    latest ← attempt (Accounts.get_latest_by_account_id account_id)
    check_window now latest

  -- createAndSendRecoveryCode
  unfoldable pub create_and_send_recovery_code : Account → Bytes → Time → M ⊤
  create_and_send_recovery_code account owner_email now = do
    code ← wrapping (codes "generate recovery code") (new_token 12)
    id ← new_uuid
    let recovery : AccountRecovery = record {
      id = id;
      account_id = account.id;
      code_hash = env.hash_token code;
      expires_at = now + recovery_ttl;
      used_at = none;
      created_at = 0;
    }
    Accounts.delete_active_by_account_id account.id
    Accounts.create_recovery recovery
    send (
        Mail.recovery_link owner_email
          (public_base_url ++ codes "/v1/accounts/recovery/complete?token=" ++ code))

  abbrev pub recover_from : Bytes → Result Account → M ⊤
  recover_from owner_email (err e) = if is_account_not_found e then pure tt else raise e
  recover_from owner_email (ok account) = do
    now ← time_now
    enforce_recovery_rate_limit account.id now
    create_and_send_recovery_code account owner_email now

  -- StartRecovery
  unfoldable pub start_recovery : Bytes → M ⊤
  start_recovery email = if invalid_email (normalize email) then pure tt else do
    account ← attempt (Accounts.get_by_owner_email (normalize email))
    recover_from (normalize email) account

  abbrev pub complete_from : Result AccountRecovery → M (Account × AuthTokens)
  complete_from (err e) = if is_recovery_not_found e then raise recovery_invalid else raise e
  complete_from (ok recovery) = do
    now ← time_now
    if before recovery.expires_at now
        then raise recovery_expired
        else do Accounts.mark_recovery_used recovery.id now; renew_tokens recovery.account_id now

  -- CompleteRecoveryByToken
  unfoldable pub complete_recovery_by_token : Bytes → M (Account × AuthTokens)
  complete_recovery_by_token token =
      if is_empty (trim_space token) then raise recovery_invalid else do
        recovery ← attempt (Accounts.get_active_by_code_hash (env.hash_token (trim_space token)))
        complete_from recovery

  -- AccountService.GetByToken
  unfoldable pub get_by_token : Bytes → M Account
  get_by_token api_token =
      if is_empty (trim_space api_token)
      then raise account_not_found
      else Accounts.get_by_api_token (trim_space api_token)
