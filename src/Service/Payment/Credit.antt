-- ===== src/Service/Payment/Credit.antt =====
-- What one round of the reconciliation loop does to the table of mailboxes.
use mathlib.Core.Path.{subst}
use mailservice.Prelude.{
  ◌+◌, ◌*◌, ◌≤◌, ℕ, ◌≡◌, refl, sym, ◌∙◌, Bool, true, false, Option, none, some, ◌⊎◌, inl, inr, ⊤,
  Bool-cases, if◌then◌else◌, List, Bytes, arith, ap,
}
use mailservice.Calendar.{Time, day, add_months}
use mailservice.Calendar.Growth.{add_months_bounds}
use mailservice.Text.{is_empty, trim_space}
use mailservice.Ports.{ok, err, PaymentCharge, external}
use mailservice.Domain.{Mailbox, MailboxStatus, is_active, is_pending}
use mailservice.World.{Env, World, M, call, pure, raise, gets, modify, when, time_now, ◌>>=◌}
use mailservice.World.Yields.{Yields, Yields-then, Yields-weaken, Yields-wrapping, bump}
use mailservice.Repository.Models.{MailboxModel, to_domain, to_model}
use mailservice.Repository.Query.{exists_row}
use mailservice.Repository.Mailboxes
use mailservice.Repository.Mailboxes.{find_row, has_session, upsert, blocks_update}
use mailservice.Repository.Mailboxes.Runs.{
  answer, update-Yields, get_where-Yields, attempt-get_where,
}
use mailservice.Repository.Accounts
use mailservice.Repository.Runtime
use mailservice.Service.{Config, provision}
use mailservice.Service.Payment.{
  renewal_base, months_granted, credits, record_charge, activated, mark_key_bound,
  mark_account_bound, mark_found, mark_mailbox_paid, renew_by_charge, apply_charge, charge_found,
  reconcile_charge, payment_time,
}

-- Mailbox `mb` with the charge written down, its identifier and its time: active, paid when the
-- card was charged, until `until`
abbrev pub credited_as : PaymentCharge → Mailbox → Time → Mailbox
credited_as c mb until = record mb {
  status = MailboxStatus.active;
  paid_at = some c.charged_at;
  expires_at = some until;
  last_payment_charge_id = c.charge_id;
  last_payment_charged_at = some c.charged_at;
}

-- The outcome of a round for a charge: no mailbox has its tag, or the mailbox is not to be
-- credited, or the mailbox as credited, for 28 days at least, replaces it.
pub data Credit (c : PaymentCharge) (rows : List MailboxModel) : List MailboxModel → Type 0 where
  unknown : find_row (has_session c.tag) rows ≡ none → Credit c rows rows
  settled :
      (r : MailboxModel)
      → find_row (has_session c.tag) rows ≡ some r
      → credits c (to_domain r) ≡ false
      → Credit c rows rows
  credited :
      (r : MailboxModel) (until : Time)
      → find_row (has_session c.tag) rows ≡ some r
      → credits c (to_domain r) ≡ true
      → c.charged_at + 28 * day ≤ until
      → exists_row (blocks_update (to_model (credited_as c (to_domain r) until))) rows ≡ false
      → Credit c rows (upsert (to_model (credited_as c (to_domain r) until)) rows)

pub renewal_base-now : (t : Option Time) (now : Time) → now ≤ renewal_base t now
unfolding renewal_base
renewal_base-now none now = omega arith
renewal_base-now (some t) now = ground arith

-- A period of `n` months from the end of the running one, or from now
period_length :
    (t : Option Time) (now : Time) (n : ℕ)
    → 1 ≤ n
    → now + 28 * day ≤ add_months (renewal_base t now) n
period_length t now n some_month =
    let (low, high) = add_months_bounds (renewal_base t now) n in
    omega (arith, low, renewal_base-now t now)

months_granted-positive : (m : Mailbox) → 1 ≤ months_granted m
unfolding months_granted
months_granted-positive m = ground arith

module _ ⦃env : Env⦄ (s : Config) where
  -- Actions that leave the table of mailboxes alone
  abbrev pub SameRows : {A : Type 0} → World → A → World → Type 0
  SameRows w a w' = w'.mailboxes ≡ w.mailboxes

  pub provision-SameRows : (m : Mailbox) (w : World) → Yields (provision s m w) (SameRows w)
  unfolding provision Runtime.ensure_mailbox when call raise gets modify pure ◌>>=◌
  provision-SameRows m w = ground arith

  get_account-SameRows : (id : Bytes) (w : World) → Yields (Accounts.get_by_id id w) (SameRows w)
  unfolding Accounts.get_by_id Accounts.get_account call raise gets pure ◌>>=◌
  get_account-SameRows id w = ground arith

  extend_account-SameRows :
      (id : Bytes) (t : Time) (w : World)
      → Yields (Accounts.update_subscription_expires_at id t w) (SameRows w)
  unfolding Accounts.update_subscription_expires_at call gets modify ◌>>=◌
  extend_account-SameRows id t w = ground arith

  payment_time-charged :
      (c : PaymentCharge) (w : World)
      → Yields
          (payment_time s (some c) w)
          (λ now w'. (now ≡ c.charged_at) × (w'.mailboxes ≡ w.mailboxes))
  unfolding payment_time time_now pure ◌>>=◌
  payment_time-charged c w = (refl, refl)

  -- Mailbox `mb` is stored as active and paid at `paid`, for 28 days at least.
  abbrev Rewritten : {A : Type 0} → Mailbox → Time → World → A → World → Type 0
  Rewritten mb paid w a w' =
      (until : Time) × (paid + 28 * day ≤ until)
      × (exists_row (blocks_update (to_model (activated mb paid until))) w.mailboxes ≡ false)
      × (w'.mailboxes ≡ upsert (to_model (activated mb paid until)) w.mailboxes)

  update-Rewritten :
      (mb : Mailbox) (paid until : Time) (w0 w : World)
      → paid + 28 * day ≤ until
      → w.mailboxes ≡ w0.mailboxes
      → Yields (Mailboxes.update (activated mb paid until) w) (Rewritten mb paid w0)
  update-Rewritten mb paid until w0 w long same =
      let m = activated mb paid until in
      Yields-weaken (Mailboxes.update m w) _ (Rewritten mb paid w0) (update-Yields m w)
        λ u w' (e, free). (
          until,
          long,
          rw (← same) free,
          ap (λ (x : World). x.mailboxes) e ∙ ap (upsert (to_model m)) same,
        )

  mark_key_bound-Rewritten :
      (mb : Mailbox) (now : Time) (w0 w : World)
      → w.mailboxes ≡ w0.mailboxes
      → Yields (mark_key_bound s mb now w) (Rewritten mb now w0)
  unfolding mark_key_bound pure
  mark_key_bound-Rewritten mb now w0 w same =
      let until = add_months (renewal_base mb.expires_at now) (months_granted mb) in
      Yields-then (Rewritten mb now w0) _ _ _ _
        (update-Rewritten mb now until w0 w
          (period_length mb.expires_at now (months_granted mb) (months_granted-positive mb)) same)
        λ u w1 (t, long, free, e).
          Yields-then (SameRows w1) _ _ _ _ (provision-SameRows _ w1)
            λ u' w2 e2. (t, long, free, e2 ∙ e)

  mark_account_bound-Rewritten :
      (mb : Mailbox) (now : Time) (w0 w : World)
      → w.mailboxes ≡ w0.mailboxes
      → Yields (mark_account_bound s mb now w) (Rewritten mb now w0)
  unfolding mark_account_bound pure
  mark_account_bound-Rewritten mb now w0 w same =
      Yields-then (SameRows w) _ _ _ _ (get_account-SameRows mb.account_id w) λ account w1 e1.
        Yields-then (SameRows w1) _ _ _ _ (extend_account-SameRows account.id _ w1) λ u w2 e2.
          Yields-then (Rewritten mb now w0) _ _ _ _
            (update-Rewritten mb now _ w0 w2
              (period_length account.subscription_expires_at now 1 (omega arith))
              (e2 ∙ (e1 ∙ same)))
            λ u' w3 (t, long, free, e).
              Yields-then (SameRows w3) _ _ _ _ (provision-SameRows _ w3)
                λ u'' w4 e4. (t, long, free, e4 ∙ e)

  mark_found-Rewritten :
      (mb : Mailbox) (c : PaymentCharge) (w : World)
      → is_active mb.status ≡ false
      → Yields (mark_found s mb (some c) w) (Rewritten (record_charge (some c) mb) c.charged_at w)
  unfolding mark_found
  mark_found-Rewritten mb c w inactive = rw inactive (
      Yields-then (λ now w1. (now ≡ c.charged_at) × (w1.mailboxes ≡ w.mailboxes)) _ _ _ _
        (payment_time-charged c w) λ now w1 (at, same). rw at (branch w1 same))
    where
      charged : Mailbox
      charged = record_charge (some c) mb

      branch :
          (w1 : World)
          → w1.mailboxes ≡ w.mailboxes
          → Yields
              ((if is_empty (trim_space charged.account_id)
                  then mark_key_bound s charged c.charged_at
                  else mark_account_bound s charged c.charged_at)
                w1)
              (Rewritten charged c.charged_at w)
      branch w1 e1 = elim (Bool-cases (is_empty (trim_space charged.account_id))) [
        | inl own ↦ rw own (mark_key_bound-Rewritten charged c.charged_at w w1 e1)
        | inr bound ↦ rw bound (mark_account_bound-Rewritten charged c.charged_at w w1 e1)
      ]

  mark_mailbox_paid-Rewritten :
      (c : PaymentCharge) (r : MailboxModel) (w : World)
      → s.free_mode ≡ false
      → find_row (has_session c.tag) w.mailboxes ≡ some r
      → is_active r.status ≡ false
      → Yields
          (mark_mailbox_paid s c.tag (some c) w)
          (Rewritten (record_charge (some c) (to_domain r)) c.charged_at w)
  unfolding mark_mailbox_paid Mailboxes.get_by_payment_session_id
  mark_mailbox_paid-Rewritten c r w paid_mode found inactive = simp paid_mode (
      Yields-then
        (λ m w'. (w' ≡ bump w) × (answer (find_row (has_session c.tag) w.mailboxes) ≡ ok m)) _ _ _ _
        (get_where-Yields (has_session c.tag) w)
        λ mb w1 (e1, is_mb).
          let same : to_domain r ≡ mb = cc (rw found at is_mb) in
          rw (← same)
            (rw e1 (mark_found-Rewritten (to_domain r) c (bump w) (unfold to_domain in inactive))))

  when-SameRows :
      (b : Bool) (m : M ⊤) (w : World)
      → Yields (m w) (SameRows w)
      → Yields (when b m w) (SameRows w)
  unfolding when pure
  when-SameRows true m w h = h
  when-SameRows false m w h = refl

  renew_by_charge-Rewritten :
      (c : PaymentCharge) (mb : Mailbox) (w : World)
      → Yields (renew_by_charge s c mb w) (Rewritten (record_charge (some c) mb) c.charged_at w)
  unfolding renew_by_charge
  renew_by_charge-Rewritten c mb w =
      let charged = record_charge (some c) mb in
      Yields-then (SameRows w) _ _ _ _
        (when-SameRows _ _ w
          (Yields-wrapping _ _ w (SameRows w) (extend_account-SameRows mb.account_id _ w)))
        λ u w1 e1.
          Yields-then (Rewritten charged c.charged_at w) _ _ _ _
            (Yields-wrapping _ _ w1 (Rewritten charged c.charged_at w) (
              update-Rewritten charged c.charged_at _ w w1
                (period_length mb.expires_at c.charged_at 1 (omega arith)) e1))
            λ u' w2 (t, long, free, e).
              Yields-weaken _ (SameRows w2) (Rewritten charged c.charged_at w)
                (Yields-wrapping _ _ w2 (SameRows w2) (provision-SameRows _ w2))
                λ u'' w3 e3. (t, long, free, e3 ∙ e)

  apply_charge-Rewritten :
      (c : PaymentCharge) (r : MailboxModel) (w : World)
      → s.free_mode ≡ false
      → find_row (has_session c.tag) w.mailboxes ≡ some r
      → Yields
          (apply_charge s c (to_domain r) w)
          (Rewritten (record_charge (some c) (to_domain r)) c.charged_at w)
  unfolding apply_charge pure
  apply_charge-Rewritten c r w paid_mode found = elim (Bool-cases (is_pending r.status)) [
    | inl pending ↦
        let p : is_pending (to_domain r).status ≡ true = unfold to_domain in pending in
        rw p (
          Yields-then (Rewritten (record_charge (some c) (to_domain r)) c.charged_at w) _ _ _ _
            (Yields-wrapping _ _ w (Rewritten (record_charge (some c) (to_domain r)) c.charged_at w)
              (mark_mailbox_paid-Rewritten c r w paid_mode found (not_active r.status pending)))
            λ m w' h. h)
    | inr other ↦
        let p : is_pending (to_domain r).status ≡ false = unfold to_domain in other in
        rw p (renew_by_charge-Rewritten c (to_domain r) w)
  ]
    where
      not_active : (st : MailboxStatus) → is_pending st ≡ true → is_active st ≡ false
      not_active MailboxStatus.pending_payment h = refl
      not_active MailboxStatus.active h = cc
      not_active MailboxStatus.expired h = cc

  Credit-of :
      (c : PaymentCharge) (r : MailboxModel) (w w' : World)
      → find_row (has_session c.tag) w.mailboxes ≡ some r
      → credits c (to_domain r) ≡ true
      → Rewritten (record_charge (some c) (to_domain r)) c.charged_at w tt w'
      → Credit c w.mailboxes w'.mailboxes
  unfolding activated record_charge
  Credit-of c r w w' found due (until, long, free, e) =
      subst (Credit c w.mailboxes) (sym e) (Credit.credited r until found due long free)

  found-Credit :
      (c : PaymentCharge) (w w1 : World) (o : Option MailboxModel)
      → s.free_mode ≡ false
      → w1.mailboxes ≡ w.mailboxes
      → find_row (has_session c.tag) w.mailboxes ≡ o
      → Yields (charge_found s c (answer o) w1) (λ n w'. Credit c w.mailboxes w'.mailboxes)
  unfolding pure
  found-Credit c w w1 none paid_mode e found =
      subst (Credit c w.mailboxes) (sym e) (Credit.unknown found)
  found-Credit c w w1 (some r) paid_mode e found = elim (Bool-cases (credits c (to_domain r))) [
    | inr skip ↦ rw skip (subst (Credit c w.mailboxes) (sym e) (Credit.settled r found skip))
    | inl due ↦ rw due (
        Yields-then (Rewritten (record_charge (some c) (to_domain r)) c.charged_at w1) _ _ _ _
          (apply_charge-Rewritten c r w1 paid_mode (ap (find_row (has_session c.tag)) e ∙ found))
          λ u w2 (t, long, free, e2).
            Credit-of c r w w2 found due (t, long, rw (← e) free, e2 ∙ ap (upsert _) e))
  ]

  -- In paid mode a round of the loop for a charge that ends without an error has one of three
  -- outcomes: no mailbox has its tag, or the mailbox found is not to be credited, and the table is
  -- as it was; or this one row is replaced: by the mailbox as active, paid when the card was
  -- charged, for 28 days or more from then, with the identifier and the time of the charge written
  -- down, and else as it was.
  pub reconcile_charge-Credit :
      (c : PaymentCharge) (w : World)
      → s.free_mode ≡ false
      → Yields (reconcile_charge s c w) (λ n w'. Credit c w.mailboxes w'.mailboxes)
  unfolding reconcile_charge Mailboxes.get_by_payment_session_id raise
  reconcile_charge-Credit c w paid_mode =
      Yields-then
        (λ r w'.
          (w' ≡ bump w)
          × ((r ≡ err external) ⊎ (r ≡ answer (find_row (has_session c.tag) w.mailboxes))))
        _ _ _ _ (attempt-get_where (has_session c.tag) w)
        λ r w1 (e, outcome). elim outcome [
          | inl down ↦ rw down tt
          | inr is_answer ↦ rw is_answer (
              found-Credit c w w1 (find_row (has_session c.tag) w.mailboxes) paid_mode
                (ap (λ (x : World). x.mailboxes) e) refl)
        ]
