-- ===== src/Service/Access/Gate.antt =====
-- Who gets the credentials of a mailbox.
use mailservice.Prelude.{
  ap, not, ◌&&◌, ℕ, ◌+◌, ◌≤◌, ◌≡◌, refl, true, false, arith, Bool-cases, inl, inr,
}
use mailservice.Domain.{Mailbox, is_active, usable}
use mailservice.Ports.{Result, err, mailbox_not_usable}
use mailservice.World.{Env, World, pure, raise, when, ignore, time_now, ◌>>=◌, ◌>>◌}
use mailservice.World.Yields.{Yields, Yields-always}
use mailservice.Calendar.{Time}
use mailservice.Repository.Mailboxes.{past_due}
use mailservice.Service.{Config, check_usable}
use mailservice.Service.Access.{ResolveImapResult, resolve_found, expire_stale, clamp_limit}

-- The limit of a listing is from 1 to 100, the limit asked for where that lies in this range.
pub clamp_limit_lem :
    (n : ℕ) → (1 ≤ clamp_limit n) × (clamp_limit n ≤ 100) × (1 ≤ n → n ≤ 100 → clamp_limit n ≡ n)
unfolding clamp_limit
clamp_limit_lem n = ground arith

module _ ⦃env : Env⦄ (s : Config) where
  stale_refuses :
      (m : Mailbox) (now : Time) (w : World)
      → (expire_stale s m now >> raise {A = ResolveImapResult} mailbox_not_usable) w
        ≡ (err mailbox_not_usable, (expire_stale s m now w).1)
  unfolding expire_stale when ignore pure raise ◌>>=◌
  stale_refuses m now w =
      elim (Bool-cases (not s.free_mode && is_active m.status && past_due m.expires_at now)) [
        | inl stale ↦ simp stale
        | inr fresh ↦ simp fresh
      ]

  stale_free :
      (m : Mailbox) (w : World)
      → s.free_mode ≡ true
      → (expire_stale s m (env.clock w.ticks) (record w { ticks = w.ticks + 1 + 1 })).1
        ≡ record w { ticks = w.ticks + 2 }
  unfolding expire_stale when pure
  stale_free m w free = simp free (ap (λ t. record w { ticks = t }) (omega arith))

  -- Outcomes of the check of mailbox `m` in state `w`
  abbrev pub Gated : Mailbox → World → Result ResolveImapResult × World → Type 0
  Gated m w x =
      Yields x (λ r w'. usable m (env.clock (w.ticks + 1)) ≡ true)
      × (usable m (env.clock (w.ticks + 1)) ≡ false → x.0 ≡ err mailbox_not_usable)
      × (usable m (env.clock (w.ticks + 1)) ≡ false
          → s.free_mode ≡ true
          → x.1 ≡ record w { ticks = w.ticks + 2 })

  -- The check of a key's mailbox hands out its credentials only if the mailbox is usable at the
  -- second reading of the clock. Otherwise its error is that the mailbox is not usable, and in free
  -- mode it has read the clock twice and changed nothing.
  pub resolve_found-gate : (m : Mailbox) (w : World) → Gated m w (resolve_found s m w)
  unfolding resolve_found check_usable time_now pure ◌>>=◌
  resolve_found-gate m w = elim (Bool-cases (usable m (env.clock (w.ticks + 1)))) [
    | inl passed ↦ rw passed ((Yields-always _ _ (λ m' w'. refl), (λ e. cc), (λ e. cc)))
    | inr refused ↦ rw refused (
        rw (stale_refuses m (env.clock w.ticks) (record w { ticks = w.ticks + 1 + 1 }))
          (tt, (λ e. refl), (λ e free. stale_free m w free)))
  ]
