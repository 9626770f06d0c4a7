-- ===== src/App/Schedule.antt =====
-- cmd/app/main.go: what the program does on its own: at its start it disables expired mailboxes,
-- every five minutes it sweeps, and where Open Collective is configured it reconciles, at the
-- start of that loop and at each tick of its interval. An error is printed and nothing else.
use mailservice.Prelude.{
  ◌≡◌, refl, Bool, true, false, not, ◌||◌, List, [], ◌∷◌, ⊤, if◌then◌else◌, Bool-cases, inl, inr,
}
use mailservice.Text.{is_empty}
use mailservice.AppConfig.{AppConfig}
use mailservice.Ports.{ok}
use mailservice.World.{Env, World, M, pure, ignore, ◌>>=◌, ◌>>◌}
use mailservice.Service.{Config}
use mailservice.Service.Expiry.{expire_mailboxes, disable_expired_mailboxes}
use mailservice.Service.Payment.{reconcile_open_collective_payments}

-- The ticks of the two timers, in the order in which they are served
pub data Tick : Type 0 where
  sweep_tick reconcile_tick : Tick

-- The condition of the loop of reconciliations
unfoldable pub reconciles : AppConfig → Bool
reconciles cfg =
    if is_empty cfg.opencollective_personal_token
      || is_empty cfg.opencollective_project_slug
      || is_empty cfg.opencollective_tier_slug
    then false
    else not cfg.free_mode

module _ ⦃env : Env⦄ (cfg : AppConfig) (s : Config) where
  unfoldable pub on_tick : Tick → M ⊤
  unfolding reconciles
  on_tick sweep_tick = ignore (expire_mailboxes s)
  on_tick reconcile_tick =
      if reconciles cfg then ignore (reconcile_open_collective_payments s) else pure tt

  -- The loops of the two timers
  unfoldable pub on_ticks : List Tick → M ⊤
  on_ticks [] = pure tt
  on_ticks (t ∷ ticks) = do on_tick t; on_ticks ticks

  -- main, behind the start of the server; the first reconciliation does not wait for a tick.
  unfoldable pub run_schedule : List Tick → M ⊤
  run_schedule ticks = do
    ignore (disable_expired_mailboxes s)
    on_tick reconcile_tick
    on_ticks ticks

  -- In free mode the program does nothing on its own: no tick changes the state or reaches outside.
  module _ (free : s.free_mode ≡ true) where
    on_tick-still : (t : Tick) (w : World) → on_tick t w ≡ (ok tt, w)
    unfolding on_tick expire_mailboxes reconcile_open_collective_payments ignore pure
    on_tick-still sweep_tick w = simp free refl
    on_tick-still reconcile_tick w = elim (Bool-cases (reconciles cfg)) [
      | inl configured ↦ simp (configured, free) refl
      | inr off ↦ simp off refl
    ]

    on_ticks-still : (ticks : List Tick) (w : World) → on_ticks ticks w ≡ (ok tt, w)
    unfolding on_ticks ◌>>=◌ pure
    on_ticks-still [] w = refl
    on_ticks-still (t ∷ ticks) w = simp (on_tick-still t w) (on_ticks-still ticks w)

    pub run_schedule-still : (ticks : List Tick) (w : World) → run_schedule ticks w ≡ (ok tt, w)
    unfolding run_schedule disable_expired_mailboxes ignore ◌>>=◌ pure
    run_schedule-still ticks w =
        simp (free) (simp (on_tick-still reconcile_tick w) (on_ticks-still ticks w))
