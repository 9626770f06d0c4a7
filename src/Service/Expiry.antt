-- ===== src/Service/Expiry.antt =====
-- mailbox_service.go: `ExpireMailboxByID`, `ExpireMailboxes` and `DisableExpiredMailboxes`, which
-- take the access away from a mailbox whose time is over.
pub mod Order
pub mod Sweep
pub mod Cleared
use mailservice.Prelude.{ℕ, ◌+◌, not, ◌||◌, List, [], ◌∷◌, ⊤, if◌then◌else◌, Bytes, codes}
use mailservice.Domain.{Mailbox, MailboxStatus}
use mailservice.World.{Env, M, pure, wrapping, time_now, when, ◌>>=◌, ◌>>◌}
use mailservice.Repository.Mailboxes
use mailservice.Repository.Runtime
use mailservice.Service.{Config}

module _ ⦃env : Env⦄ (s : Config) where
  -- expireMailbox
  unfoldable pub expire_mailbox : Mailbox → M ⊤
  expire_mailbox mailbox = do
    when s.provisioner (wrapping (codes "disable mailbox") (Runtime.disable_mailbox mailbox))
    Mailboxes.update (record mailbox { status = MailboxStatus.expired })

  -- ExpireMailboxByID
  unfoldable pub expire_mailbox_by_id : Bytes → M ⊤
  expire_mailbox_by_id mailbox_id =
      if s.free_mode
      then pure tt
      else do mailbox ← Mailboxes.get_by_id mailbox_id; expire_mailbox mailbox

  -- The loop of ExpireMailboxes
  unfoldable pub expire_all : List Mailbox → ℕ → M ℕ
  expire_all [] count = pure count
  expire_all (mb ∷ rest) count = do
    wrapping (codes "expire mailbox") (expire_mailbox mb)
    expire_all rest (count + 1)

  -- ExpireMailboxes; an error drops the count so far.
  unfoldable pub expire_mailboxes : M ℕ
  expire_mailboxes = if s.free_mode then pure 0 else do
    now ← time_now
    expired ← wrapping (codes "list active expired") (Mailboxes.list_active_expired now)
    expire_all expired 0

  -- The loop of DisableExpiredMailboxes
  unfoldable pub disable_all : List Mailbox → ℕ → M ℕ
  disable_all [] count = pure count
  disable_all (mb ∷ rest) count = do
    wrapping (codes "disable mailbox") (Runtime.disable_mailbox mb)
    disable_all rest (count + 1)

  -- DisableExpiredMailboxes
  unfoldable pub disable_expired_mailboxes : M ℕ
  disable_expired_mailboxes = if s.free_mode || not s.provisioner then pure 0 else do
    expired ← wrapping (codes "list expired mailboxes") Mailboxes.list_expired
    disable_all expired 0
