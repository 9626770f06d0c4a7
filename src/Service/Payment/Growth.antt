-- ===== src/Service/Payment/Growth.antt =====
-- How far a payment moves the expiry of a mailbox.
use mailservice.Prelude.{⊤, ℕ, ◌+◌, ◌*◌, ◌≤◌, ◌≡◌, Option, none, some}
use mailservice.Calendar.{Time, day}
use mailservice.Domain.{Mailbox, MailboxStatus}
use mailservice.World.{World}
use mailservice.World.Yields.{Yields}
use mailservice.Repository.Models.{to_model}
use mailservice.Repository.Mailboxes.{upsert}
use mailservice.Service.Payment.{renewal_base, months_granted}

-- The expiry that was there is not cut.
abbrev pub Reaches : Option Time → ℕ → Time → Type 0
Reaches none grown expiry = ⊤
Reaches (some old) grown expiry = old + grown ≤ expiry

-- What a payment of `mb` at `now` gives back, and what the table of the mailboxes is then
abbrev pub Extended : Mailbox → Time → World → Option Mailbox → World → Type 0
Extended mb now w r w' =
    (m : Mailbox) × (t : Time) × (r ≡ some m)
    × (m ≡ record mb { status = MailboxStatus.active; paid_at = some now; expires_at = some t })
    × (w'.mailboxes ≡ upsert (to_model m) w.mailboxes)
    × (now + 28 * months_granted mb * day ≤ t)
    × Reaches mb.expires_at (28 * months_granted mb * day) t
    × (t ≤ renewal_base mb.expires_at now + 31 * months_granted mb * day)
