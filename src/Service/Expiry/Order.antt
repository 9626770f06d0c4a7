-- ===== src/Service/Expiry/Order.antt =====
-- `expireMailbox` disables the mail user before it writes the status.
use mailservice.Prelude.{
  ⊤, Bytes, List, [], ◌∷◌, ==ᵇ_iff, ◌==ᵇ◌, ◌≡◌, refl, ap, true, false, inl, inr, Bool-cases,
}
use mailservice.Domain.{Mailbox, MailboxStatus}
use mailservice.Ports.{Result, ok, err}
use mailservice.World.{Env, World, call, pure, raise, gets, modify, when, wrapping, ◌>>=◌}
use mailservice.Repository.Models.{MailUser, to_model}
use mailservice.Repository.Query.{All, update_where, exists_row}
use mailservice.Repository.Mailboxes
use mailservice.Repository.Mailboxes.{upsert, blocks_update}
use mailservice.Repository.Runtime
use mailservice.Service.{Config}
use mailservice.Service.Expiry.{expire_mailbox}

disabled :
    (login : Bytes) (users : List MailUser)
    → All
        (λ v. v.login ≡ login → v.enabled ≡ false)
        (update_where (λ v. v.login ==ᵇ login) (λ v. record v { enabled = false }) users)
unfolding update_where
disabled login [] = tt
disabled login (v ∷ users) = elim (Bool-cases (v.login ==ᵇ login)) [
  | inl same ↦ rw same ((λ e. refl), disabled login users)
  | inr other ↦ rw other ((λ e. cc ((==ᵇ_iff v.login login).1 e)), disabled login users)
]

module _ ⦃env : Env⦄ (s : Config) where
  -- What an expiry has done
  abbrev pub Expired : Mailbox → World → Result ⊤ × World → Type 0
  Expired m w (err e, w') = w'.mailboxes ≡ w.mailboxes
  Expired m w (ok u, w') =
      (w'.mailboxes ≡ upsert (to_model (record m { status = MailboxStatus.expired })) w.mailboxes)
      × (s.provisioner ≡ true
          → All (λ v. v.login ≡ m.imap_username → v.enabled ≡ false) w'.mail_users)

  -- The rest of an expiry, behind the call that disables the mail user
  write_status :
      (m : Mailbox) (w w0 : World)
      → w.mailboxes ≡ w0.mailboxes
      → (s.provisioner ≡ true
          → All (λ v. v.login ≡ m.imap_username → v.enabled ≡ false) w.mail_users)
      → Expired m w0 (Mailboxes.update (record m { status = MailboxStatus.expired }) w)
  unfolding Mailboxes.update call raise gets modify ◌>>=◌
  write_status m w w0 same off = elim (Bool-cases (env.fails w.ticks)) [
    | inl down ↦ rw down same
    | inr up ↦
        elim (Bool-cases (
          exists_row (blocks_update (to_model (record m { status = MailboxStatus.expired })))
            w.mailboxes)) [
              | inl blocked ↦ rw (up, blocked) same
              | inr free ↦
                  rw (up, free)
                    (ap (upsert (to_model (record m { status = MailboxStatus.expired }))) same, off)
            ]
  ]

  -- Where expireMailbox fails, the mailbox has kept its status, so that the next sweep finds it
  -- again. Where it succeeds, the mailbox is stored as expired and, if there is a provisioner, no
  -- mail user of its login is enabled.
  pub expire_mailbox-order : (m : Mailbox) (w : World) → Expired m w (expire_mailbox s m w)
  unfolding expire_mailbox Runtime.disable_mailbox when call gets modify pure wrapping ◌>>=◌
  expire_mailbox-order m w = elim (Bool-cases s.provisioner) [
    | inr absent ↦ simp absent (write_status m w w refl λ e. cc)
    | inl present ↦ simp present (elim (Bool-cases (env.fails w.ticks)) [
      | inl down ↦ simp down refl
      | inr up ↦ simp up (write_status m _ w refl λ e. disabled m.imap_username w.mail_users)
    ])
  ]
