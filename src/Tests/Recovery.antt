-- ===== src/Tests/Recovery.antt =====
-- Requests for recovery on concrete data.
use mailservice.Prelude.{◌*◌, ◌≡◌, refl, none, [], ◌∷◌, codes, ◌==ᵇ◌}
use mailservice.Calendar.{day}
use mailservice.Domain.{Account, AccountRecovery}
use mailservice.Ports.{ok}
use mailservice.World.{World}
use mailservice.Http.{decode_json}
use mailservice.Http.Challenge.{alone}
use mailservice.Http.Accounts.{email_sent_if_exists, handle_start_recovery}
use mailservice.Http.Recovery.{handle_start_recovery-uniform}
use mailservice.Tests.Fixtures.{test_env, start}
use mailservice.Tests.Http.{handler}

abbrev account : Account
account = record {
  id = codes "1";
  owner_email = codes "a@b";
  api_token = codes "t";
  subscription_expires_at = none;
}

-- Asked for just now
abbrev asked : AccountRecovery
asked = record {
  id = codes "r";
  account_id = codes "1";
  code_hash = codes "h";
  expires_at = 10 * day;
  used_at = none;
  created_at = 10 * day;
}

abbrev asking : World
asking = record start { accounts = account ∷ []; recoveries = asked ∷ [] }

handle_start_recovery-uniform_example :
    (handle_start_recovery ⦃env = test_env⦄ handler (alone (codes "a@b")) asking).0
    ≡ ok email_sent_if_exists
unfolding decode_json ◌==ᵇ◌
handle_start_recovery-uniform_example =
    handle_start_recovery-uniform ⦃env = test_env⦄ handler (alone (codes "a@b")) (codes "a@b")
      asking refl (λ k. refl) (λ k. (refl, tt))
