-- ===== src/Service/Support/Limit.antt =====
-- The rate limit of support messages.
use mailservice.Prelude.{◌+◌, ◌-◌, ◌<◌, ◌≡◌, [], ◌∷◌, ◌++◌, Bytes}
use mailservice.Domain.{SupportMessage}
use mailservice.World.{Env, World}
use mailservice.World.Yields.{Yields}
use mailservice.Repository.Query.{count_rows}
use mailservice.Repository.Mailboxes
use mailservice.Repository.Support as SupportMessages
use mailservice.Repository.Support.{is_recent}
use mailservice.Service.{Config}
use mailservice.Service.Support.{support_rate_window}

module _ ⦃env : Env⦄ (s : Config) where
  -- A support message was sent for key `fp`, under the limit of three in an hour.
  abbrev pub IsLimited : Bytes → World → World → Type 0
  IsLimited fp w w' =
      (count_rows (is_recent fp (env.clock (w.ticks + 1) - support_rate_window)) w.support_messages
        < 3)
      × (msg : SupportMessage) × (msg.key_fingerprint ≡ fp)
      × (w'.support_messages ≡ w.support_messages ++ msg ∷ [])
