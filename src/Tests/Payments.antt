-- ===== src/Tests/Payments.antt =====
-- Payments on concrete data.
use mailservice.Prelude.{◌+◌, ◌≡◌, refl, [], ◌∷◌, ◌==ᵇ◌}
use mailservice.Text.{has_prefix, trim_space, to_lower, normalize}
use mailservice.Ports.{ok}
use mailservice.World.{
  World, pure, raise, gets, modify, attempt, wrapping, lift, when, call, list_paid_charges, ◌>>=◌,
}
use mailservice.World.Yields.{Yields}
use mailservice.Repository.Models.{to_domain, to_model, first_non_empty}
use mailservice.Repository.Query.{first, exists_row}
use mailservice.Repository.Mailboxes
use mailservice.Repository.Mailboxes.{find_row, same_index, upsert}
use mailservice.Repository.Runtime
use mailservice.Service.{provision}
use mailservice.Service.Payment.{
  credits, renewal_base, record_charge, activated, renew_by_charge, apply_charge, reconcile_charge,
  reconcile_charges, reconcile_open_collective_payments,
}
use mailservice.Service.Payment.Once.{reconcile-once}
use mailservice.Service.Payment.Credit.{Credit, reconcile_charge-Credit}
use mailservice.Tests.Fixtures.{test_env, config, charge, start}

-- The state after a first reconciliation
abbrev after_first : World
after_first = (reconcile_open_collective_payments ⦃env = test_env⦄ config start).1

first_run : reconcile_open_collective_payments ⦃env = test_env⦄ config start ≡ (ok 1, after_first)
unfolding reconcile_open_collective_payments reconcile_charges reconcile_charge apply_charge
    renew_by_charge record_charge activated credits renewal_base list_paid_charges pure raise gets
    modify attempt wrapping lift when call ◌>>=◌ Mailboxes.get_by_payment_session_id
    Mailboxes.get_where Mailboxes.update find_row first exists_row same_index upsert to_domain
    to_model first_non_empty provision Runtime.ensure_mailbox has_prefix trim_space normalize
    to_lower ◌==ᵇ◌
first_run = refl

reconcile-once_example :
    reconcile_open_collective_payments ⦃env = test_env⦄ config after_first
    ≡ (ok 0, record after_first { ticks = (after_first.ticks + 1) + 1 })
reconcile-once_example =
    reconcile-once ⦃env = test_env⦄ config refl (charge ∷ []) start after_first after_first 1
      (λ k. refl) (tt, tt) first_run refl (λ k h. refl)

reconcile_charge-Credit_example :
    Yields
      (reconcile_charge ⦃env = test_env⦄ config charge start)
      (λ n w'. Credit charge start.mailboxes w'.mailboxes)
reconcile_charge-Credit_example = reconcile_charge-Credit ⦃env = test_env⦄ config charge start refl
