-- ===== src/Repository/Mailboxes/Runs.antt =====
-- What the calls of the mailbox repository do to the state.
use mailservice.Prelude.{
  ◌≡◌, refl, Bool, true, false, Option, none, some, ◌⊎◌, inl, inr, Bool-cases, Option-cases,
  if◌then◌else◌,
}
use mailservice.Ports.{Result, ok, err, mailbox_not_found, external}
use mailservice.Domain.{Mailbox}
use mailservice.World.{Env, World, attempt, call, pure, raise, gets, modify, ◌>>=◌}
use mailservice.World.Yields.{Yields, bump}
use mailservice.Repository.Models.{MailboxModel, to_domain, to_model}
use mailservice.Repository.Query.{exists_row}
use mailservice.Repository.Mailboxes.{find_row, get_where, update, upsert, blocks_update}

-- The answer of a `First`
abbrev pub answer : Option MailboxModel → Result Mailbox
answer none = err mailbox_not_found
answer (some r) = ok (to_domain r)

module _ ⦃env : Env⦄ where
  pub update-Yields :
      (m : Mailbox) (w : World)
      → Yields (update m w) (λ _ w'.
        (w' ≡ record (bump w) { mailboxes = upsert (to_model m) w.mailboxes })
        × (exists_row (blocks_update (to_model m)) w.mailboxes ≡ false))
  unfolding update call raise gets modify ◌>>=◌
  update-Yields m w = elim (Bool-cases (env.fails w.ticks)) [
    | inl down ↦ rw down tt
    | inr up ↦ elim (Bool-cases (exists_row (blocks_update (to_model m)) w.mailboxes)) [
      | inl blocked ↦ rw (up, blocked) tt
      | inr free ↦ rw (up, free) (refl, refl)
    ]
  ]

  pub get_where-run :
      (p : MailboxModel → Bool) (w : World)
      → get_where p w
        ≡ (if env.fails w.ticks then err external else answer (find_row p w.mailboxes), bump w)
  unfolding get_where call raise gets pure ◌>>=◌
  get_where-run p w = elim (Bool-cases (env.fails w.ticks)) [
    | inl down ↦ rw down
    | inr up ↦ elim (Option-cases (find_row p w.mailboxes)) [
      | inl missing ↦ rw (up, missing)
      | inr (r, found) ↦ rw (up, found)
    ]
  ]

  pub get_where-Yields :
      (p : MailboxModel → Bool) (w : World)
      → Yields (get_where p w) (λ m w'. (w' ≡ bump w) × (answer (find_row p w.mailboxes) ≡ ok m))
  get_where-Yields p w = rw get_where-run (from (env.fails w.ticks) (find_row p w.mailboxes))
    where
      from :
          (down : Bool) (o : Option MailboxModel)
          → Yields
              (if down then err external else answer o, bump w)
              (λ m w'. (w' ≡ bump w) × (answer o ≡ ok m))
      from true o = tt
      from false none = tt
      from false (some r) = (refl, refl)

  -- A `First` whose error the caller looks at
  pub attempt-get_where :
      (p : MailboxModel → Bool) (w : World)
      → Yields
          (attempt (get_where p) w)
          (λ r w'. (w' ≡ bump w) × ((r ≡ err external) ⊎ (r ≡ answer (find_row p w.mailboxes))))
  unfolding attempt
  attempt-get_where p w = rw get_where-run (refl, from (env.fails w.ticks))
    where
      from :
          (down : Bool)
          → ((if down then err external else answer (find_row p w.mailboxes)) ≡ err external)
            ⊎ ((if down then err external else answer (find_row p w.mailboxes))
                ≡ answer (find_row p w.mailboxes))
      from true = inl refl
      from false = inr refl
