-- ===== src/Service/Payment/Once.antt =====
-- A charge is credited once: after a reconciliation that ended without an error, another one over
-- the same charges changes nothing.
use mathlib.Core.Path.{subst}
use mailservice.Prelude.{
  ℕ, ◌+◌, ◌≡◌, refl, sym, ◌∙◌, ap, true, false, Option, none, some, inl, inr, Bool-cases, ◌≤◌,
  length, List, [], ◌∷◌, Bytes, codes, ==ᵇ_iff, arith,
}
use mailservice.Calendar.{Time}
use mailservice.Text.{is_empty, has_prefix}
use mailservice.Ports.{Result, ok, PaymentCharge}
use mailservice.World.{Env, World, pure, attempt, wrapping, call, lift, list_paid_charges, ◌>>=◌}
use mailservice.World.Yields.{
  Yields, Yields-then, Yields-weaken, Yields-wrapping, Yields-call, Yields_of, bump,
}
use mailservice.Repository.Models.{MailboxModel, to_domain, to_model}
use mailservice.Repository.Query.{All}
use mailservice.Repository.Query.Laws.{All-first}
use mailservice.Repository.Mailboxes
use mailservice.Repository.Mailboxes.{find_row, has_session, by_id, upsert}
use mailservice.Repository.Mailboxes.Rows.{
  IsKeyed, upsert-IsKeyed, All-upsert, settle_row, settle_found, settle_missing,
}
use mailservice.Repository.Mailboxes.Runs.{answer, get_where-run}
use mailservice.Service.{Config}
use mailservice.Service.Payment.{
  credits, charge_found, reconcile_charge, reconcile_charges, reconcile_open_collective_payments,
}
use mailservice.Service.Payment.Credit.{Credit, credited_as, reconcile_charge-Credit}

-- No row of the charge's session is still to be credited with it.
abbrev pub SettledFor : List MailboxModel → PaymentCharge → Type 0
SettledFor rows c = All (λ r. r.payment_session_id ≡ c.tag → credits c (to_domain r) ≡ false) rows

abbrev Skips : PaymentCharge → MailboxModel → Type 0
Skips c r = credits c (to_domain r) ≡ false

prefix_empty : (t : Bytes) → is_empty t ≡ true → has_prefix t (codes "tva-") ≡ false
unfolding has_prefix
prefix_empty [] h = refl
prefix_empty (c ∷ t) h = cc

-- A charge of an empty tag is never credited.
credits_empty :
    (c : PaymentCharge) (r : MailboxModel) → is_empty r.payment_session_id ≡ true → Skips c r
unfolding credits to_domain
credits_empty c r h = rw (prefix_empty r.payment_session_id h)

-- A mailbox is not credited twice with one charge.
credits_written :
    (c : PaymentCharge) (m : MailboxModel)
    → m.last_payment_charged_at ≡ some c.charged_at
    → Skips c m
unfolding credits to_domain
credits_written c m h = ground arith

-- The new version of a mailbox still skips what the old one skipped.
credits_later :
    (c d : PaymentCharge) (r m : MailboxModel)
    → credits c (to_domain r) ≡ true
    → m.payment_session_id ≡ r.payment_session_id
    → m.last_payment_charged_at ≡ some c.charged_at
    → Skips d r
    → Skips d m
unfolding credits to_domain
credits_later c d r m due se la skip = ground arith

due_tag :
    (c : PaymentCharge) (r : MailboxModel)
    → credits c (to_domain r) ≡ true
    → is_empty r.payment_session_id ≡ false
due_tag c r due = elim (Bool-cases (is_empty r.payment_session_id)) [
  | inl empty ↦ cc (credits_empty c r empty)
  | inr real ↦ real
]

untagged :
    (c : PaymentCharge) → is_empty c.tag ≡ true → (rows : List MailboxModel) → SettledFor rows c
untagged c empty [] = tt
untagged c empty (r ∷ rows) = (λ e. credits_empty c r (rw e empty), untagged c empty rows)

-- The row of mailbox `r` as credited
abbrev credited_row : PaymentCharge → MailboxModel → Time → MailboxModel
credited_row c r until = to_model (credited_as c (to_domain r) until)

credited_row-same :
    (c : PaymentCharge) (r : MailboxModel) (until : Time)
    → ((credited_row c r until).id ≡ r.id)
      × ((credited_row c r until).payment_session_id ≡ r.payment_session_id)
      × ((credited_row c r until).last_payment_charged_at ≡ some c.charged_at)
unfolding to_domain to_model
credited_row-same c r until = (refl, refl, refl)

module _ (rows : List MailboxModel) (keyed : IsKeyed rows) where
  -- After its round a charge is settled.
  Credit-SettledFor :
      (c : PaymentCharge) {rows' : List MailboxModel} → Credit c rows rows' → SettledFor rows' c
  Credit-SettledFor c {rows'} round = elim (Bool-cases (is_empty c.tag)) [
    | inl empty ↦ untagged c empty rows'
    | inr real ↦ tagged real round
  ]
    where
      tagged :
          {rows1 : List MailboxModel}
          → is_empty c.tag ≡ false
          → Credit c rows rows1
          → SettledFor rows1 c
      tagged real (Credit.unknown missing) = settle_missing (Skips c) c.tag real rows missing
      tagged real (Credit.settled r found skip) =
          settle_found (Skips c) c.tag real rows r keyed found skip
      tagged real (Credit.credited r until found due long free) =
          let m = credited_row c r until in
          let (i, se, la) = credited_row-same c r until in
          settle_row (Skips c) c.tag real rows r m keyed found i (credits_written c m la)

  -- A round settles nothing anew for another charge.
  Credit-keeps :
      (c d : PaymentCharge) {rows' : List MailboxModel}
      → Credit c rows rows'
      → SettledFor rows d
      → SettledFor rows' d
  Credit-keeps c d (Credit.unknown missing) h = h
  Credit-keeps c d (Credit.settled r found skip) h = h
  Credit-keeps c d (Credit.credited r until found due long free) h =
      let m = credited_row c r until in
      let (i, se, la) = credited_row-same c r until in
      All-upsert m (λ x. x.payment_session_id ≡ d.tag → Skips d x) rows
        (λ e. credits_later c d r m due se la (
          (All-first (λ x. x.payment_session_id ≡ d.tag → Skips d x) by_id (has_session c.tag) rows
              r h (unfold find_row in found)).0
            (sym se ∙ e)))
        h

  Credit-IsKeyed :
      (c : PaymentCharge) {rows' : List MailboxModel} → Credit c rows rows' → IsKeyed rows'
  Credit-IsKeyed c (Credit.unknown missing) = keyed
  Credit-IsKeyed c (Credit.settled r found skip) = keyed
  Credit-IsKeyed c (Credit.credited r until found due long free) =
      upsert-IsKeyed (credited_row c r until) rows free keyed

-- A run that only takes ticks
abbrev quiet_run : ℕ → ℕ → World → Result ℕ × World
quiet_run n t w = (ok n, record w { ticks = t })

same_run : {n n' t t' : ℕ} (w : World) → n ≡ n' → t ≡ t' → quiet_run n t w ≡ quiet_run n' t' w
same_run w e f = cc

module _ ⦃env : Env⦄ (s : Config) (paid_mode : s.free_mode ≡ false) where
  -- What the loop over the charges `cs` leaves behind, from the table `rows`
  abbrev Settled : List PaymentCharge → List MailboxModel → List MailboxModel → Type 0
  Settled cs rows rows' =
      IsKeyed rows'
      × All (SettledFor rows') cs
      × ((d : PaymentCharge) → SettledFor rows d → SettledFor rows' d)

  reconcile_charges-Settled :
      (cs : List PaymentCharge) (n : ℕ) (w : World)
      → IsKeyed w.mailboxes
      → Yields (reconcile_charges s cs n w) (λ _ w'. Settled cs w.mailboxes w'.mailboxes)
  unfolding reconcile_charges pure
  reconcile_charges-Settled [] n w keyed = (keyed, tt, λ d h. h)
  reconcile_charges-Settled (c ∷ cs) n w keyed =
      Yields-then (λ _ w1. Credit c w.mailboxes w1.mailboxes) _ _ _ _
        (reconcile_charge-Credit s c w paid_mode)
        λ k w1 round.
          Yields-weaken _ (λ _ w'. Settled cs w1.mailboxes w'.mailboxes) _
            (reconcile_charges-Settled cs (n + k) w1 (Credit-IsKeyed w.mailboxes keyed c round))
            λ k' w' (keyed', settled, keeps). (
              keyed',
              (keeps c (Credit-SettledFor w.mailboxes keyed c round), settled),
              λ d h. keeps d (Credit-keeps w.mailboxes keyed c d round h),
            )

  -- The outside answers from the tick `t` on.
  abbrev pub Answers : ℕ → Type 0
  Answers t = (k : ℕ) → t ≤ k → env.fails k ≡ false

  charge_found-quiet :
      (c : PaymentCharge) (w : World) (o : Option MailboxModel)
      → find_row (has_session c.tag) w.mailboxes ≡ o
      → SettledFor w.mailboxes c
      → charge_found s c (answer o) (bump w) ≡ (ok 0, bump w)
  unfolding pure
  charge_found-quiet c w none found h = refl
  charge_found-quiet c w (some r) found h =
      let hit =
        All-first (λ x. x.payment_session_id ≡ c.tag → Skips c x) by_id (has_session c.tag)
          w.mailboxes r h (unfold find_row in found) in
      let skip : Skips c r = hit.0 ((==ᵇ_iff r.payment_session_id c.tag).0 hit.1) in rw skip

  reconcile_charge-quiet :
      (c : PaymentCharge) (w : World)
      → env.fails w.ticks ≡ false
      → SettledFor w.mailboxes c
      → reconcile_charge s c w ≡ (ok 0, bump w)
  unfolding reconcile_charge Mailboxes.get_by_payment_session_id attempt ◌>>=◌
  reconcile_charge-quiet c w up h =
      simp (get_where-run (has_session c.tag) w, up)
        (charge_found-quiet c w (find_row (has_session c.tag) w.mailboxes) refl h)

  reconcile_charges-quiet :
      (cs : List PaymentCharge) (n : ℕ) (w : World)
      → Answers w.ticks
      → All (SettledFor w.mailboxes) cs
      → reconcile_charges s cs n w ≡ (ok n, record w { ticks = w.ticks + length cs })
  unfolding reconcile_charges pure ◌>>=◌
  reconcile_charges-quiet [] n w up h = ap (λ t. (ok n, record w { ticks = t })) (omega arith)
  reconcile_charges-quiet (c ∷ cs) n w up h =
      simp (reconcile_charge-quiet c w (up w.ticks (omega arith)) h.0) (
        reconcile_charges-quiet cs (n + 0) (bump w) (λ k after_w. up k (omega arith)) h.1
        ∙ same_run w (omega arith) (omega arith))

  listed_charges :
      (cs : List PaymentCharge) (w : World)
      → ((k : ℕ) → env.list_paid_charges k ≡ ok cs)
      → Yields (list_paid_charges w) (λ got w2. (got ≡ cs) × (w2.mailboxes ≡ w.mailboxes))
  unfolding list_paid_charges lift
  listed_charges cs w listed =
      Yields-call _ w (λ got w2. (got ≡ cs) × (w2.mailboxes ≡ w.mailboxes))
        (rw (listed w.ticks) (refl, refl))

  listed-Settled :
      (cs : List PaymentCharge) (w : World)
      → ((k : ℕ) → env.list_paid_charges k ≡ ok cs)
      → IsKeyed w.mailboxes
      → Yields
          (reconcile_open_collective_payments s w)
          (λ _ w'. Settled cs w.mailboxes w'.mailboxes)
  unfolding reconcile_open_collective_payments
  listed-Settled cs w listed keyed = simp paid_mode (
      Yields-then (λ got w2. (got ≡ cs) × (w2.mailboxes ≡ w.mailboxes)) _ _ _ _
        (Yields-wrapping _ _ w (λ got w2. (got ≡ cs) × (w2.mailboxes ≡ w.mailboxes))
          (listed_charges cs w listed))
        λ got w2 (is_cs, e). rw is_cs (
          subst
            (λ rows. Yields (reconcile_charges s cs 0 w2) (λ _ w'. Settled cs rows w'.mailboxes)) e
            (reconcile_charges-Settled cs 0 w2 (rw e keyed))))

  -- In paid mode, after a reconciliation that ended without an error on a table with distinct
  -- keys, a reconciliation over the same charges, from any state with the mailboxes that the first
  -- one left, credits none of them again and changes nothing but the counter of calls, as long as
  -- the outside answers.
  pub reconcile-once :
      (cs : List PaymentCharge) (w w' w1 : World) (n : ℕ)
      → ((k : ℕ) → env.list_paid_charges k ≡ ok cs)
      → IsKeyed w.mailboxes
      → reconcile_open_collective_payments s w ≡ (ok n, w')
      → w1.mailboxes ≡ w'.mailboxes
      → Answers w1.ticks
      → reconcile_open_collective_payments s w1
        ≡ (ok 0, record w1 { ticks = (w1.ticks + 1) + length cs })
  unfolding reconcile_open_collective_payments list_paid_charges wrapping call lift ◌>>=◌
  reconcile-once cs w w' w1 n listed keyed first_run same up =
      simp (paid_mode, up w1.ticks (omega arith), listed w1.ticks)
        (reconcile_charges-quiet cs 0 (bump w1) (λ k after_w. up k (omega arith)) (rw same settled))
    where
      settled : All (SettledFor w'.mailboxes) cs
      settled =
          (Yields_of (λ _ w2. Settled cs w.mailboxes w2.mailboxes)
            (reconcile_open_collective_payments s w) (listed-Settled cs w listed keyed) first_run).1
