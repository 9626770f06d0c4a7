-- ===== src/Tests/Sessions.antt =====
-- A refresh token that is granted once, on concrete data: an account is created, its token is used.
use mailservice.Prelude.{◌+◌, ◌==ᵇ◌, refl, none, [], ◌∷◌, codes}
use mailservice.World.{World, Env}
use mailservice.Domain.{Account}
use mailservice.Sessions
use mailservice.Text
use mailservice.World
use mailservice.Repository.Query
use mailservice.Repository.Accounts
use mailservice.Service.Claim
use mailservice.Sessions.{AuthTokens, refresh_access}
use mailservice.Sessions.Once.{Refused, done, step, accounts_create, refresh_access-once}
use mailservice.Tests.Fixtures.{test_env, start}

-- An outside that never repeats a token or an identifier
abbrev fresh_env : Env
fresh_env = record test_env { new_token = λ k size. (100 + k) ∷ []; new_uuid = λ k. (100 + k) ∷ [] }

abbrev with_account : World
with_account = (Sessions.create_account ⦃env = fresh_env⦄ [] (codes "a@b.lt") start).1

abbrev spent_token : World
spent_token = (refresh_access ⦃env = fresh_env⦄ [] (105 ∷ []) with_account).1

abbrev account : Account
account = record {
  id = 102 ∷ [];
  owner_email = codes "a@b.lt";
  api_token = 111 ∷ [];
  subscription_expires_at = none;
}

abbrev tokens : AuthTokens
tokens = record { api_token = 111 ∷ []; refresh_token = 113 ∷ [] }

refresh_access-once_example :
    Refused ⦃env = fresh_env⦄ [] (refresh_access ⦃env = fresh_env⦄ [] (105 ∷ []) spent_token).0
unfolding refresh_access Text.trim_space World.◌>>=◌ World.time_now World.attempt
    Accounts.get_active_by_token_hash World.call World.gets Query.first Sessions.create_account
    Claim.invalid_email Text.normalize Text.contains_byte Accounts.get_by_owner_email
    Accounts.get_account World.raise Sessions.create_fresh ◌==ᵇ◌ Accounts.create_account
    Accounts.create_refresh_token Accounts.get_by_api_token Accounts.mark_refresh_used
    Accounts.update_api_token Query.bytes_less Query.exists_row Query.update_where
    Sessions.issue_refresh_token Sessions.renew_tokens Text.is_space Text.lower Text.to_lower
    Text.trim_left Text.trim_right World.modify World.new_token World.new_uuid World.pure
    World.wrapping
refresh_access-once_example =
    refresh_access-once ⦃env = fresh_env⦄ [] (105 ∷ []) (account, tokens) start with_account
      spent_token refl (step (done start) (accounts_create (codes "a@b.lt") start)) refl
      (done spent_token)
