-- ===== src/Tests/Mailboxes.antt =====
-- Expiry, access and activation on concrete data.
use mailservice.Prelude.{◌∷◌, [], true, codes}
use mailservice.Domain.{MailboxStatus}
use mailservice.World.Yields.{Yields}
use mailservice.Repository.Mailboxes
use mailservice.Repository.Mailboxes.RoundTrip.{IsStored, get_by_id-write}
use mailservice.Service.Expiry.{expire_mailbox}
use mailservice.Service.Expiry.Order.{Expired, expire_mailbox-order}
use mailservice.Service.Access.{resolve_found}
use mailservice.Service.Access.Gate.{Gated, resolve_found-gate}
use mailservice.Service.Free.{activate_found}
use mailservice.Service.Free.Activation.{Activated, activate_found-Activated}
use mailservice.Service.{Config}
use mailservice.Ports.{VerifiedKey}
use mailservice.World.{World}
use mailservice.Tests.Fixtures.{row, test_env, config, mailbox, start}

abbrev support_config : Config
support_config = record config { support_email = codes "s@m.lt"; support_repo = true }

abbrev support_key : VerifiedKey
support_key = record { fingerprint = codes "f"; algorithm = codes "ed25519" }

abbrev support_start : World
support_start = record start { mailboxes = record row { key_fingerprint = codes "f" } ∷ [] }

expire_mailbox-order_example :
    Expired ⦃env = test_env⦄ config mailbox start
      (expire_mailbox ⦃env = test_env⦄ config mailbox start)
expire_mailbox-order_example = expire_mailbox-order ⦃env = test_env⦄ config mailbox start

resolve_found-gate_example :
    Gated ⦃env = test_env⦄ config mailbox start
      (resolve_found ⦃env = test_env⦄ config mailbox start)
resolve_found-gate_example = resolve_found-gate ⦃env = test_env⦄ config mailbox start

activate_found-Activated_example :
    Yields
      (activate_found ⦃env = test_env⦄ config
        (record mailbox { status = MailboxStatus.pending_payment })
        start)
      (Activated ⦃env = test_env⦄ config
        (record mailbox { status = MailboxStatus.pending_payment })
        start)
activate_found-Activated_example =
    activate_found-Activated ⦃env = test_env⦄ config
      (record mailbox { status = MailboxStatus.pending_payment }) start

get_by_id-write_example :
    Yields
      (Mailboxes.create ⦃env = test_env⦄ mailbox start)
      (λ _ w1. IsStored ⦃env = test_env⦄ mailbox w1)
    × Yields
        (Mailboxes.update ⦃env = test_env⦄ mailbox start)
        (λ _ w1. IsStored ⦃env = test_env⦄ mailbox w1)
get_by_id-write_example = get_by_id-write ⦃env = test_env⦄ mailbox start (tt, tt)
