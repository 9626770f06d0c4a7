-- ===== src/OpenCollective/Provenance.antt =====
-- Where the charges of `ListPaidCharges` come from.
use mailservice.Prelude.{
  ℕ, ◌≡◌, refl, ap, inl, inr, Bool, true, false, Option, none, some, List, [], ◌∷◌, ◌++◌, Bytes,
  codes, ==ᵇ_iff, Bool-cases, arith, ⊤,
}
use mailservice.Text.{is_empty}
use mailservice.Ports.{Result, ok, err, PaymentCharge}
use mailservice.Repository.Query.{All, Among, here, there}
use mailservice.OpenCollective.{
  OcOrder, OcTransaction, single_mailbox_tag, is_settled, is_kept, is_tier, is_monthly, add_charge,
  charges_of, append_charges, tagged_charges, order_charges, page_charges,
}

-- A charge stands for a settled contribution of a monthly order on the tier, whose only tag of the
-- shop it carries.
pub record PaidBy (slug : Bytes) (order : OcOrder) (t : OcTransaction) (c : PaymentCharge)
    : Type 0 where
  pub tier : order.tier ≡ some slug
  pub monthly : order.frequency ≡ codes "MONTHLY"
  pub tag : single_mailbox_tag order.tags ≡ some c.tag
  pub credit : t.type ≡ codes "CREDIT"
  pub contribution : t.kind ≡ codes "CONTRIBUTION"
  pub kept : t.is_refunded ≡ some false
  pub charge_id : t.public_id ≡ c.charge_id
  pub named : is_empty c.charge_id ≡ false
  pub charged_at : t.created_at ≡ some c.charged_at

tier_of : (slug : Bytes) (o : Option Bytes) → is_tier slug o ≡ true → o ≡ some slug
tier_of slug none h = cc h
tier_of slug (some tier) h = ap some ((==ᵇ_iff tier slug).0 h)

kept_of : (o : Option Bool) → is_kept o ≡ true → o ≡ some false
kept_of none h = cc h
kept_of (some true) h = cc h
kept_of (some false) h = refl

paid_by :
    (slug tag : Bytes) (order : OcOrder) (t : OcTransaction) (at : ℕ)
    → is_monthly slug order ≡ true
    → single_mailbox_tag order.tags ≡ some tag
    → is_settled t ≡ true
    → t.created_at ≡ some at
    → PaidBy slug order t (record { tag = tag; charge_id = t.public_id; charged_at = at })
unfolding is_monthly is_settled
paid_by slug tag order t at monthly single settled timed = record {
  tier = tier_of slug order.tier (ground arith);
  monthly = (==ᵇ_iff order.frequency (codes "MONTHLY")).0 (ground arith);
  tag = single;
  credit = (==ᵇ_iff t.type (codes "CREDIT")).0 (ground arith);
  contribution = (==ᵇ_iff t.kind (codes "CONTRIBUTION")).0 (ground arith);
  kept = kept_of t.is_refunded (ground arith);
  charge_id = refl;
  named = ground arith;
  charged_at = timed;
}

-- A charge with its order and its transaction
abbrev pub FromOrder : Bytes → OcOrder → PaymentCharge → Type 0
FromOrder slug order c = (t : OcTransaction) × Among t order.transactions × PaidBy slug order t c

abbrev pub FromOrders : Bytes → List OcOrder → PaymentCharge → Type 0
FromOrders slug orders c = (order : OcOrder) × Among order orders × FromOrder slug order c

-- A property of all elements of a result that is no error
abbrev pub AllOk : (PaymentCharge → Type 0) → Result (List PaymentCharge) → Type 0
AllOk P (err e) = ⊤
AllOk P (ok cs) = All P cs

pub AllOk-map :
    (P Q : PaymentCharge → Type 0) (r : Result (List PaymentCharge))
    → ((c : PaymentCharge) → P c → Q c)
    → AllOk P r
    → AllOk Q r
AllOk-map P Q (err e) f h = tt
AllOk-map P Q (ok cs) f h = go cs h
  where
    go : (cs : List PaymentCharge) → All P cs → All Q cs
    go [] h = tt
    go (c ∷ cs) h = (f c h.0, go cs h.1)

pub All-append :
    (P : PaymentCharge → Type 0) (cs ds : List PaymentCharge)
    → All P cs
    → All P ds
    → All P (cs ++ ds)
All-append P [] ds hc hd = hd
All-append P (c ∷ cs) ds hc hd = (hc.0, All-append P cs ds hc.1 hd)

AllOk-append :
    (P : PaymentCharge → Type 0) (r s : Result (List PaymentCharge))
    → AllOk P r
    → AllOk P s
    → AllOk P (append_charges r s)
AllOk-append P (err e) s hr hs = tt
AllOk-append P (ok cs) (err e) hr hs = tt
AllOk-append P (ok cs) (ok ds) hr hs = All-append P cs ds hr hs

add-AllOk :
    (P : PaymentCharge → Type 0) (tag id : Bytes) (o : Option ℕ)
    (rest : Result (List PaymentCharge))
    → ((at : ℕ) → o ≡ some at → P (record { tag = tag; charge_id = id; charged_at = at }))
    → AllOk P rest
    → AllOk P (add_charge tag id o rest)
add-AllOk P tag id none rest new h = tt
add-AllOk P tag id (some at) (err e) new h = tt
add-AllOk P tag id (some at) (ok cs) new h = (new at refl, h)

module _ (slug : Bytes) where
  charges_of-FromOrder :
      (tag : Bytes) (order : OcOrder) (ts : List OcTransaction)
      → is_monthly slug order ≡ true
      → single_mailbox_tag order.tags ≡ some tag
      → ((t : OcTransaction) → Among t ts → Among t order.transactions)
      → AllOk (FromOrder slug order) (charges_of tag ts)
  unfolding charges_of
  charges_of-FromOrder tag order [] monthly single within = tt
  charges_of-FromOrder tag order (t ∷ ts) monthly single within = elim (Bool-cases (is_settled t)) [
    | inl settled ↦ rw settled (
        add-AllOk (FromOrder slug order) tag t.public_id t.created_at (charges_of tag ts)
          (λ at timed. (t, within t here, paid_by slug tag order t at monthly single settled timed))
          (charges_of-FromOrder tag order ts monthly single (λ u m. within u (there m))))
    | inr skip ↦
        rw skip (charges_of-FromOrder tag order ts monthly single (λ u m. within u (there m)))
  ]

  tagged-FromOrder :
      (order : OcOrder) (o : Option Bytes)
      → is_monthly slug order ≡ true
      → single_mailbox_tag order.tags ≡ o
      → AllOk (FromOrder slug order) (tagged_charges o order.transactions)
  tagged-FromOrder order none monthly single = tt
  tagged-FromOrder order (some tag) monthly single =
      charges_of-FromOrder tag order order.transactions monthly single (λ u m. m)

  order_charges-FromOrder :
      (order : OcOrder) → AllOk (FromOrder slug order) (order_charges slug order)
  unfolding order_charges
  order_charges-FromOrder order = elim (Bool-cases (is_monthly slug order)) [
    | inl monthly ↦ rw monthly (tagged-FromOrder order (single_mailbox_tag order.tags) monthly refl)
    | inr other ↦ rw other tt
  ]

  pub page_charges-FromOrders :
      (orders within : List OcOrder)
      → ((o : OcOrder) → Among o orders → Among o within)
      → AllOk (FromOrders slug within) (page_charges slug orders)
  unfolding page_charges
  page_charges-FromOrders [] within inc = tt
  page_charges-FromOrders (order ∷ orders) within inc =
      AllOk-append (FromOrders slug within) (order_charges slug order) (page_charges slug orders)
        (AllOk-map (FromOrder slug order) (FromOrders slug within) (order_charges slug order)
          (λ c from. (order, inc order here, from)) (order_charges-FromOrder order))
        (page_charges-FromOrders orders within (λ o m. inc o (there m)))
