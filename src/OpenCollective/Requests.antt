-- ===== src/OpenCollective/Requests.antt =====
-- How many requests `ListPaidCharges` makes.
use mailservice.Prelude.{
  ℕ, zero, suc, ◌+◌, ◌*◌, ◌<◌, ◌≡◌, refl, ◌∙◌, ap, inl, inr, ◌||◌, List, [], ◌++◌, Bool-cases,
  arith,
}
use mailservice.Prelude.{Bytes}
use mailservice.Text.{is_empty}
use mailservice.Ports.{Result, ok, err, PaymentCharge}
use mailservice.OpenCollective.{
  OpenCollectiveGateway, OcReply, OcOrder, oc_page_size, oc_max_pages, page_orders, short_page,
  next_page, batch_charges, read_pages, oc_paid_charges,
}

module _ (pages pages' : ℕ → Result OcReply) (slug : Bytes) where
  next-same :
      (charges : List PaymentCharge) (orders : Result (List OcOrder))
      (batch : Result (List PaymentCharge))
      (rest rest' : List PaymentCharge → Result (List PaymentCharge))
      → ((more : List PaymentCharge) → rest more ≡ rest' more)
      → next_page pages slug charges orders batch rest
        ≡ next_page pages' slug charges orders batch rest'
  next-same charges (err e) batch rest rest' same = refl
  next-same charges (ok orders) (err e) rest rest' same = refl
  next-same charges (ok orders) (ok more) rest rest' same = elim (Bool-cases (short_page orders)) [
    | inl short ↦ rw short refl
    | inr full ↦ rw full (same (charges ++ more))
  ]

  read_pages-same :
      (n page : ℕ) (charges : List PaymentCharge)
      → page + n ≡ oc_max_pages
      → ((k : ℕ) → k < oc_max_pages → pages (k * oc_page_size) ≡ pages' (k * oc_page_size))
      → read_pages pages slug n page charges ≡ read_pages pages' slug n page charges
  unfolding read_pages
  read_pages-same zero page charges h same = refl
  read_pages-same (suc n) page charges h same =
      let reply = pages' (page * oc_page_size) in
      ap
        (λ r.
          next_page pages slug charges (page_orders r) (batch_charges pages slug (page_orders r))
            (read_pages pages slug n (page + 1)))
        (same page (omega arith))
      ∙ next-same charges (page_orders reply) (batch_charges pages slug (page_orders reply))
          (read_pages pages slug n (page + 1)) (read_pages pages' slug n (page + 1))
          (λ more. read_pages-same n (page + 1) more (omega arith) same)

-- The result of ListPaidCharges depends only on the answers of the gateway for the 20 offsets 0,
-- 100, up to 1900.
pub oc_paid_charges-requests :
    (g : OpenCollectiveGateway) (pages pages' : ℕ → Result OcReply)
    → ((k : ℕ) → k < oc_max_pages → pages (k * oc_page_size) ≡ pages' (k * oc_page_size))
    → oc_paid_charges g pages ≡ oc_paid_charges g pages'
unfolding oc_paid_charges
oc_paid_charges-requests g pages pages' same =
    elim (Bool-cases (is_empty g.token || is_empty g.project_slug || is_empty g.tier_slug)) [
      | inl missing ↦ rw missing refl
      | inr set ↦ rw set (read_pages-same pages pages' g.tier_slug oc_max_pages 0 [] refl same)
    ]
