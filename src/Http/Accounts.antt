-- ===== src/Http/Accounts.antt =====
-- handler.go: the handlers of accounts, their tokens and their recovery.
use mailservice.Prelude.{ℕ, if◌then◌else◌, Bytes, codes}
use mailservice.Text.{is_empty, trim_space}
use mailservice.Domain.{Account}
use mailservice.Ports.{
  Error, message, account_exists, rate_limit_reached, refresh_not_found, refresh_expired,
  recovery_invalid, recovery_expired,
}
use mailservice.World.{Env, M, pure}
use mailservice.Sessions.{
  AuthTokens, create_account, refresh_access, start_recovery, complete_recovery_by_token,
}
use mailservice.Http.{
  Handler, Decoded, Response, AccountView, account_body, credentials_body, status_body, write_json,
  write_error, cause, serve, with_body,
}

-- The view of an account with its tokens
abbrev pub account_view : Account × AuthTokens → AccountView
account_view (account, tokens) = record {
  id = account.id;
  owner_email = account.owner_email;
  api_token = tokens.api_token;
  refresh_token = tokens.refresh_token;
  subscription_expires_at = account.subscription_expires_at;
}

abbrev pub email_sent_if_exists : Response
email_sent_if_exists = write_json 202 (status_body (codes "email_sent_if_exists"))

abbrev create_failure : Error → Error → Response
create_failure account_exists e = email_sent_if_exists
create_failure _ e = write_error 400 e

abbrev pub refresh_status : Error → ℕ
refresh_status refresh_not_found = 401
refresh_status refresh_expired = 401
refresh_status _ = 500

abbrev start_failure : Error → Error → Response
start_failure rate_limit_reached e = email_sent_if_exists
start_failure _ e = write_error 500 e

abbrev pub recovery_status : Error → ℕ
recovery_status recovery_invalid = 401
recovery_status recovery_expired = 401
recovery_status _ = 500

module _ ⦃env : Env⦄ (h : Handler) where
  -- handleCreateAccount
  unfoldable pub handle_create_account : Decoded Bytes → M Response
  handle_create_account d = with_body d (λ owner_email.
      serve (create_account h.account_base_url owner_email) (λ e. create_failure (cause e) e)
        (λ a. pure (write_json 201 (account_body (account_view a)))))

  -- handleRefreshAuth
  unfoldable pub handle_refresh_auth : Decoded Bytes → M Response
  handle_refresh_auth d = with_body d (λ refresh_token.
      serve (refresh_access h.account_base_url refresh_token)
        (λ e. write_error (refresh_status (cause e)) e)
        (λ a. pure (write_json 200 (account_body (account_view a)))))

  -- handleStartRecovery
  unfoldable pub handle_start_recovery : Decoded Bytes → M Response
  handle_start_recovery d = with_body d (λ owner_email.
      serve (start_recovery h.account_base_url owner_email) (λ e. start_failure (cause e) e)
        (λ _. pure email_sent_if_exists))

  -- handleCompleteRecovery
  unfoldable pub handle_complete_recovery : Decoded Bytes → M Response
  handle_complete_recovery d = with_body d (λ token.
      serve (complete_recovery_by_token h.account_base_url token)
        (λ e. write_error (recovery_status (cause e)) e)
        (λ a. pure (write_json 200 (account_body (account_view a)))))

  -- handleCompleteRecoveryByLink, on the token of the query
  unfoldable pub handle_complete_recovery_by_link : Bytes → M Response
  handle_complete_recovery_by_link query_token =
      if is_empty (trim_space query_token)
      then pure (write_error 400 (message (codes "missing token")))
      else serve (complete_recovery_by_token h.account_base_url (trim_space query_token))
          (λ e. write_error (recovery_status (cause e)) e)
          (λ (account, tokens). pure (write_json 200 (credentials_body account tokens)))
