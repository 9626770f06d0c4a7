-- ===== src/Tests/Expiry.antt =====
-- The sweep of the overdue mailboxes on concrete data: one mailbox is overdue, one is not.
use mailservice.Prelude.{◌≡◌, refl, some, [], ◌∷◌, ◌*◌, codes, ◌==ᵇ◌, ==ᵇ_iff}
use mailservice.Calendar.{day}
use mailservice.Text.{normalize}
use mailservice.World.{World}
use mailservice.Repository.Query.{count_rows}
use mailservice.Repository.Mailboxes.Unique
use mailservice.Repository.Mailboxes.Kept.{IsKept}
use mailservice.Service.Expiry.{expire_mailboxes}
use mailservice.Service.Expiry.Sweep.{Ends, Swept, is_overdue}
use mailservice.Service.Expiry.Cleared.{expire_mailboxes-Swept}
use mailservice.Tests.Fixtures.{test_env, config, row, start}

abbrev two_rows : World
two_rows = record start {
  mailboxes =
      record row { expires_at = some (9 * day) }
      ∷ record row {
        id = codes "2";
        imap_username = codes "other";
        access_token = codes "b";
        payment_session_id = codes "tva-2";
      }
      ∷ [];
}

two_rows-IsKept : IsKept two_rows.mailboxes
unfolding Unique.clash ◌==ᵇ◌ normalize
two_rows-IsKept = (
  ((((λ e. cc ((==ᵇ_iff (codes "2") (codes "1")).1 e)), refl), tt), (tt, tt)),
  (refl, (refl, tt)),
)

expire_mailboxes-Swept_example : Ends (expire_mailboxes ⦃env = test_env⦄ config two_rows) (λ n w'.
    (n ≡ count_rows (is_overdue (test_env.clock 0)) two_rows.mailboxes)
    × Swept (test_env.clock 0) two_rows w')
expire_mailboxes-Swept_example =
    expire_mailboxes-Swept ⦃env = test_env⦄ config (λ k. refl) two_rows refl two_rows-IsKept
