-- ===== src/OpenCollective/Pages.antt =====
-- What `ListPaidCharges` returns over all pages.
use mailservice.Prelude.{
  ℕ, zero, suc, ◌+◌, ◌*◌, ◌<◌, ◌≡◌, refl, inl, inr, true, false, ◌||◌, List, [], ◌∷◌, ◌++◌, Bytes,
  Bool-cases, insert_by, sort_by, sort_by-IsSortedBy, IsSortedBy, arith, ⊤,
}
use mathlib.Core.Path.{subst}
use mailservice.Text.{is_empty}
use mailservice.Ports.{Result, ok, err, PaymentCharge}
use mailservice.Repository.Query.{All}
use mailservice.OpenCollective.{
  OpenCollectiveGateway, OcReply, OcOrder, oc_page_size, oc_max_pages, page_charges, page_orders,
  earlier, short_page, next_page, batch_charges, read_pages, oc_paid_charges,
}
use mailservice.OpenCollective.Provenance.{
  AllOk, AllOk-map, FromOrders, All-append, page_charges-FromOrders,
}

All-insert_by :
    (P : PaymentCharge → Type 0) (c : PaymentCharge) (cs : List PaymentCharge)
    → P c
    → All P cs
    → All P (insert_by earlier c cs)
unfolding insert_by
All-insert_by P c [] h hs = (h, tt)
All-insert_by P c (d ∷ ds) h hs = elim (Bool-cases (earlier d c)) [
  | inl after ↦ rw after (hs.0, All-insert_by P c ds h hs.1)
  | inr first ↦ rw first (h, hs)
]

All-sort_by :
    (P : PaymentCharge → Type 0) (cs : List PaymentCharge) → All P cs → All P (sort_by earlier cs)
unfolding sort_by
All-sort_by P [] hs = tt
All-sort_by P (c ∷ cs) hs = All-insert_by P c (sort_by earlier cs) hs.0 (All-sort_by P cs hs.1)

earlier_asym : (c d : PaymentCharge) → earlier c d ≡ true → earlier d c ≡ false
earlier_asym c d h = ground arith

-- A charge of an order on one of the pages that may be asked for
abbrev pub FromPage : Bytes → (ℕ → Result OcReply) → PaymentCharge → Type 0
FromPage slug pages c =
    (page : ℕ) × (page < oc_max_pages)
    × ((orders : List OcOrder) × (page_orders (pages (page * oc_page_size)) ≡ ok orders)
        × FromOrders slug orders c)

-- Charges in the order of their times, each of them from a page
abbrev pub IsReport : Bytes → (ℕ → Result OcReply) → List PaymentCharge → Type 0
IsReport slug pages cs = All (FromPage slug pages) cs × IsSortedBy earlier cs

abbrev ReportOk : Bytes → (ℕ → Result OcReply) → Result (List PaymentCharge) → Type 0
ReportOk slug pages (err e) = ⊤
ReportOk slug pages (ok cs) = IsReport slug pages cs

module _ (pages : ℕ → Result OcReply) (slug : Bytes) where
  batch-FromPage :
      (page : ℕ) (orders : List OcOrder)
      → page < oc_max_pages
      → page_orders (pages (page * oc_page_size)) ≡ ok orders
      → AllOk (FromPage slug pages) (page_charges slug orders)
  batch-FromPage page orders h e =
      AllOk-map (FromOrders slug orders) (FromPage slug pages) (page_charges slug orders)
        (λ c from. (page, h, (orders, e, from)))
        (page_charges-FromOrders slug orders orders (λ o m. m))

  next-ReportOk :
      (charges : List PaymentCharge) (orders : List OcOrder) (batch : Result (List PaymentCharge))
      (rest : List PaymentCharge → Result (List PaymentCharge))
      → All (FromPage slug pages) charges
      → AllOk (FromPage slug pages) batch
      → ((more : List PaymentCharge)
          → All (FromPage slug pages) more
          → ReportOk slug pages (rest more))
      → ReportOk slug pages (next_page pages slug charges (ok orders) batch rest)
  next-ReportOk charges orders (err e) rest hc hb go = tt
  next-ReportOk charges orders (ok more) rest hc hb go =
      let all = All-append (FromPage slug pages) charges more hc hb in
      elim (Bool-cases (short_page orders)) [
        | inl short ↦ rw short (
          All-sort_by (FromPage slug pages) (charges ++ more) all,
          sort_by-IsSortedBy earlier earlier_asym (charges ++ more),
        )
        | inr full ↦ rw full (go (charges ++ more) all)
      ]

  step-ReportOk :
      (page : ℕ) (charges : List PaymentCharge) (orders : Result (List OcOrder))
      (rest : List PaymentCharge → Result (List PaymentCharge))
      → page < oc_max_pages
      → page_orders (pages (page * oc_page_size)) ≡ orders
      → All (FromPage slug pages) charges
      → ((more : List PaymentCharge)
          → All (FromPage slug pages) more
          → ReportOk slug pages (rest more))
      → ReportOk slug pages
          (next_page pages slug charges orders (batch_charges pages slug orders) rest)
  step-ReportOk page charges (err e) rest h eq hc go = tt
  step-ReportOk page charges (ok orders) rest h eq hc go =
      next-ReportOk charges orders (page_charges slug orders) rest hc
        (batch-FromPage page orders h eq) go

  read_pages-ReportOk :
      (n page : ℕ) (charges : List PaymentCharge)
      → page + n ≡ oc_max_pages
      → All (FromPage slug pages) charges
      → ReportOk slug pages (read_pages pages slug n page charges)
  unfolding read_pages
  read_pages-ReportOk zero page charges h hc = tt
  read_pages-ReportOk (suc n) page charges h hc =
      step-ReportOk page charges (page_orders (pages (page * oc_page_size)))
        (read_pages pages slug n (page + 1)) (omega arith) refl hc
        (λ more hm. read_pages-ReportOk n (page + 1) more (omega arith) hm)

oc-ReportOk :
    (g : OpenCollectiveGateway) (pages : ℕ → Result OcReply)
    → ReportOk g.tier_slug pages (oc_paid_charges g pages)
unfolding oc_paid_charges
oc-ReportOk g pages =
    elim (Bool-cases (is_empty g.token || is_empty g.project_slug || is_empty g.tier_slug)) [
      | inl missing ↦ rw missing tt
      | inr set ↦ rw set (read_pages-ReportOk pages g.tier_slug oc_max_pages 0 [] refl tt)
    ]

-- Charges that `ListPaidCharges` returns stand in the order of their times, and each is a settled
-- monthly contribution on the configured tier whose order, on one of the first 20 pages, carries no
-- other tag of the shop.
pub oc_paid_charges-IsReport :
    (g : OpenCollectiveGateway) (pages : ℕ → Result OcReply) (cs : List PaymentCharge)
    → oc_paid_charges g pages ≡ ok cs
    → IsReport g.tier_slug pages cs
oc_paid_charges-IsReport g pages cs h = subst (ReportOk g.tier_slug pages) h (oc-ReportOk g pages)
