-- ===== src/Service/Free/Activation.antt =====
-- `ActivateMailboxByActivationToken`
use mailservice.Prelude.{ap, ◌∙◌, ◌≡◌, refl, true, false, ◌⊎◌, inl, inr, Bool-cases, some, none}
use mailservice.Domain.{Mailbox, MailboxStatus, is_active, is_pending, is_after}
use mailservice.World.{Env, World, pure, raise, time_now, ◌>>◌}
use mailservice.World.Yields.{Yields, Yields-then, Yields-weaken}
use mailservice.Repository.Models.{to_model}
use mailservice.Repository.Mailboxes.{upsert}
use mailservice.Repository.Mailboxes.Runs.{update-Yields}
use mailservice.Calendar.{Time}
use mailservice.Repository.Mailboxes
use mailservice.Service.{Config, provision}
use mailservice.Service.Free.{ActivationResult, activate_found}
use mailservice.Service.Payment.Credit.{SameRows, provision-SameRows}

-- The mailbox that an activation stores
abbrev pub stored : Mailbox → Time → Mailbox
stored m now = record m { status = MailboxStatus.active; paid_at = some now; expires_at = none }

module _ ⦃env : Env⦄ (s : Config) where
  -- What a successful activation of mailbox `m` says and has done
  abbrev pub Activated : Mailbox → World → ActivationResult → World → Type 0
  Activated m w r w' =
      ((is_active m.status ≡ true)
        × (r ≡ record { mailbox = m; already_active = true })
        × (w'.mailboxes ≡ w.mailboxes))
      ⊎ ((is_pending m.status ≡ true)
          × (is_after m.activation_expires_at (env.clock w.ticks) ≡ true)
          × (r ≡ record { mailbox = stored m (env.clock w.ticks); already_active = false })
          × (w'.mailboxes ≡ upsert (to_model (stored m (env.clock w.ticks))) w.mailboxes))

  -- The rest of an activation, at the time that it has read
  Activated-by_link :
      (m : Mailbox) (w : World) (now : Time) (w1 : World)
      → is_pending m.status ≡ true
      → now ≡ env.clock w.ticks
      → w1.mailboxes ≡ w.mailboxes
      → is_after m.activation_expires_at now ≡ true
      → Yields
          ((Mailboxes.update (stored m now)
              >> (provision s (stored m now)
                  >> pure (record { mailbox = stored m now; already_active = false })))
            w1)
          (Activated m w)
  unfolding pure
  Activated-by_link m w now w1 pending is_now same in_time =
      Yields-then (λ _ w2. w2.mailboxes ≡ upsert (to_model (stored m now)) w.mailboxes) _ _ _ _
        (Yields-weaken _ _ (λ _ w2. w2.mailboxes ≡ upsert (to_model (stored m now)) w.mailboxes)
          (update-Yields (stored m now) w1)
          λ u w2 (e, free).
            ap (λ (x : World). x.mailboxes) e ∙ ap (upsert (to_model (stored m now))) same)
        λ u w2 e2.
          Yields-then (SameRows s w2) _ _ _ _ (provision-SameRows s (stored m now) w2)
            λ u' w3 e3. rw (← is_now) (inr (pending, in_time, refl, e3 ∙ e2))

  -- An activation that succeeds has met one of two cases. The mailbox is active already: it is
  -- given back, and no mailbox changes. Or it is pending and its link has not run out: it is given
  -- back as active, paid now and without an expiry, but else as it was, and this version, and no
  -- other row, is written to the table.
  pub activate_found-Activated :
      (m : Mailbox) (w : World) → Yields (activate_found s m w) (Activated m w)
  unfolding activate_found raise pure time_now
  activate_found-Activated m w = elim (Bool-cases (is_active m.status)) [
    | inl running ↦ rw running (
        Yields-then (SameRows s w) _ _ _ _ (provision-SameRows s m w)
          λ u w1 e. inl (running, refl, e))
    | inr idle ↦ elim (Bool-cases (is_pending m.status)) [
      | inr gone ↦ rw (idle, gone) tt
      | inl pending ↦
          rw (idle, pending)
            (Yields-then (λ now w1. (now ≡ env.clock w.ticks) × (w1.mailboxes ≡ w.mailboxes)) _ _ _
              _ (refl, refl)
              λ now w1 (is_now, same). elim (Bool-cases (is_after m.activation_expires_at now)) [
                | inr late ↦ rw late tt
                | inl in_time ↦
                    rw in_time (Activated-by_link m w now w1 pending is_now same in_time)
              ])
    ]
  ]
