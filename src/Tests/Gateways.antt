-- ===== src/Tests/Gateways.antt =====
-- The payment gateways on concrete data.
use mailservice.Prelude.{
  ℕ, ◌*◌, ◌<◌, inl, inr, Bool-cases, ==_iff, arith, ◌≡◌, refl, false, some, [], ◌∷◌, ◌==◌,
  if◌then◌else◌, codes, ◌==ᵇ◌, insert_by, sort_by,
}
use mailservice.Calendar.{day}
use mailservice.Text.{has_prefix, trim_space}
use mailservice.Ports.{Result, ok, err, external, PaymentCharge}
use mailservice.OpenCollective.{
  oc_page_size, oc_max_pages, Url, OpenCollectiveGateway, OcOrder, OcReply, single_tag_from,
  single_mailbox_tag, is_settled, is_monthly, charges_of, order_charges, page_charges, read_reply,
  read_pages, oc_paid_charges,
}
use mailservice.OpenCollective.Tags.{shop_tags, only, single_mailbox_tag_lem}
use mailservice.OpenCollective.Requests.{oc_paid_charges-requests}
use mailservice.OpenCollective.Pages.{IsReport, oc_paid_charges-IsReport}
use mailservice.Stripe.{CheckoutSession, paid}

single_mailbox_tag_lem_example :
    single_mailbox_tag (codes "x" ∷ codes "tva-1" ∷ [])
    ≡ only (shop_tags (codes "x" ∷ codes "tva-1" ∷ []))
single_mailbox_tag_lem_example = single_mailbox_tag_lem (codes "x" ∷ codes "tva-1" ∷ [])

abbrev url : Url
url = record {
  scheme = codes "https";
  host = codes "opencollective.com";
  hostname = codes "opencollective.com";
  path = codes "/contribute/checkout";
  has_user = false;
  raw_query = [];
  fragment = [];
}

abbrev gateway : OpenCollectiveGateway
gateway = record {
  checkout_url = url;
  token = codes "t";
  project_slug = codes "p";
  tier_slug = codes "m";
}

abbrev order : OcOrder
order = record {
  public_id = codes "o";
  frequency = codes "MONTHLY";
  tier = some (codes "m");
  tags = codes "tva-1" ∷ [];
  transactions =
      record {
        public_id = codes "c";
        type = codes "CREDIT";
        kind = codes "CONTRIBUTION";
        created_at = some day;
        is_refunded = some false;
      }
      ∷ [];
}

-- One page with that order
abbrev pages : ℕ → Result OcReply
pages offset =
    if offset == 0
    then ok (record {
      status_code = 200;
      body = codes "{";
      decoded = some (record { errors = []; account = some (order ∷ []) });
    })
    else err external

abbrev charges : PaymentCharge
charges = record { tag = codes "tva-1"; charge_id = codes "c"; charged_at = day }

listed : oc_paid_charges gateway pages ≡ ok (charges ∷ [])
unfolding oc_paid_charges read_pages read_reply page_charges order_charges charges_of is_monthly
    is_settled single_mailbox_tag single_tag_from insert_by sort_by has_prefix trim_space ◌==ᵇ◌
listed = refl

oc_paid_charges-IsReport_example : IsReport gateway.tier_slug pages (charges ∷ [])
oc_paid_charges-IsReport_example = oc_paid_charges-IsReport gateway pages (charges ∷ []) listed

-- The same answers but for an offset that is not asked for
abbrev more_pages : ℕ → Result OcReply
more_pages offset = if offset == 2000 then pages 0 else pages offset

same_answers : (k : ℕ) → k < oc_max_pages → pages (k * oc_page_size) ≡ more_pages (k * oc_page_size)
same_answers k below = elim (Bool-cases ((k * oc_page_size) == 2000)) [
  | inl beyond ↦ absurd (omega (arith, (==_iff (k * oc_page_size) 2000).0 beyond, below))
  | inr within ↦ rw within refl
]

oc_paid_charges-requests_example :
    oc_paid_charges gateway pages ≡ oc_paid_charges gateway more_pages
oc_paid_charges-requests_example = oc_paid_charges-requests gateway pages more_pages same_answers

abbrev session : CheckoutSession
session = record { id = codes "s"; url = codes "u"; payment_status = paid }
