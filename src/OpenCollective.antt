-- ===== src/OpenCollective.antt =====
-- internal/adapters/payment/opencollective_gateway.go: checkouts with a tag, and the settled
-- charges of the tagged orders. An answer of the API is a parameter, by the offset of its page.
pub mod Tags
pub mod Provenance
pub mod Pages
pub mod Requests
use mailservice.Prelude.{
  ℕ, zero, suc, ◌+◌, ◌*◌, Bool, true, false, not, ◌&&◌, ◌||◌, Option, none, some, List, [], ◌∷◌,
  ◌++◌, ltb, ◌==◌, if◌then◌else◌, Bytes, codes, ◌==ᵇ◌, length, take, sort_by,
}
use mailservice.Calendar.{Time, before}
use mailservice.Text.{is_empty, has_prefix, trim_space}
use mailservice.Domain.{is_set}
use mailservice.Ports.{
  Result, ok, err, Error, message, payment_session_not_found, PaymentCharge, PaymentLink,
  PaymentLinkRequest, PaymentSession, session_open,
}

abbrev pub oc_page_size : ℕ
oc_page_size = 100

abbrev pub oc_max_pages : ℕ
oc_max_pages = 20

-- The parts of a `url.URL` that the gateway looks at
pub record Url : Type 0 where
  pub scheme : Bytes
  pub host : Bytes
  pub hostname : Bytes
  pub path : Bytes
  pub has_user : Bool
  pub raw_query : Bytes
  pub fragment : Bytes

-- OpenCollectiveGateway, without its client
pub record OpenCollectiveGateway : Type 0 where
  pub checkout_url : Url
  pub token : Bytes
  pub project_slug : Bytes
  pub tier_slug : Bytes

-- A transaction of an order; `created_at` is what `time.Parse` makes of its text.
pub record OcTransaction : Type 0 where
  pub public_id : Bytes
  pub type : Bytes
  pub kind : Bytes
  pub created_at : Option Time
  pub is_refunded : Option Bool

-- An order; a missing tier is `none`.
pub record OcOrder : Type 0 where
  pub public_id : Bytes
  pub frequency : Bytes
  pub tier : Option Bytes
  pub tags : List Bytes
  pub transactions : List OcTransaction

-- A page of orders as it is decoded: the first error text, and the orders of the account.
pub record OcOrdersResponse : Type 0 where
  pub errors : List Bytes
  pub account : Option (List OcOrder)

-- An HTTP answer with the decoding of its body
pub record OcReply : Type 0 where
  pub status_code : ℕ
  pub body : Bytes
  pub decoded : Option OcOrdersResponse

-- strings.HasSuffix(s, p)
unfoldable pub has_suffix : Bytes → Bytes → Bool
has_suffix [] p = is_empty p
has_suffix (c ∷ s) p = ((c ∷ s) ==ᵇ p) || has_suffix s p

-- strings.Contains(s, p)
unfoldable pub contains : Bytes → Bytes → Bool
contains [] p = is_empty p
contains (c ∷ s) p = has_prefix (c ∷ s) p || contains s p

-- The test of the checkout URL
unfoldable pub valid_checkout : Url → Bool
valid_checkout u =
    (u.scheme ==ᵇ codes "https")
    && (u.host ==ᵇ codes "opencollective.com")
    && contains u.path (codes "/contribute/")
    && has_suffix u.path (codes "/checkout")

-- The test of the API URL
unfoldable pub valid_api : Url → Bool
valid_api u =
    ((u.scheme ==ᵇ codes "https")
      || ((u.scheme ==ᵇ codes "http")
          && ((u.hostname ==ᵇ codes "localhost") || (u.hostname ==ᵇ codes "127.0.0.1"))))
    && not (is_empty u.host)
    && not u.has_user
    && is_empty u.raw_query
    && is_empty u.fragment

abbrev passes : (Url → Bool) → Option Url → Bool
passes test none = false
passes test (some u) = test u

abbrev gateway_of : Option Url → Bytes → Bytes → Bytes → Result OpenCollectiveGateway
gateway_of none token project tier = err (message (codes "invalid Open Collective checkout URL"))
gateway_of (some checkout) token project tier =
    ok (record { checkout_url = checkout; token = token; project_slug = project; tier_slug = tier })

-- NewOpenCollectiveGateway, on the URLs as `url.Parse` reads them
unfoldable pub new_open_collective_gateway :
    Option Url → Option Url → Bytes → Bytes → Bytes → Result OpenCollectiveGateway
new_open_collective_gateway checkout api token project tier =
    if not (passes valid_checkout checkout)
    then err (message (codes "invalid Open Collective checkout URL"))
    else if not (passes valid_api api)
    then err (message (codes "invalid Open Collective API URL"))
    else gateway_of checkout token project tier

-- GetPaymentSession
unfoldable pub oc_payment_session : Bytes → Result PaymentSession
oc_payment_session session_id =
    if not (has_prefix session_id (codes "tva-"))
    then err payment_session_not_found
    else ok (record { session_id = session_id; status = session_open; url = [] })

-- The loop of singleMailboxTag, with the tag found so far
unfoldable pub single_tag_from : Bytes → List Bytes → Option Bytes
single_tag_from found [] = if is_empty found then none else some found
single_tag_from found (tag ∷ tags) = elim (has_prefix tag (codes "tva-")) [
  | false ↦ single_tag_from found tags
  | true ↦ elim (is_empty found) [ true ↦ single_tag_from tag tags | false ↦ none ]
]

-- singleMailboxTag
unfoldable pub single_mailbox_tag : List Bytes → Option Bytes
single_mailbox_tag tags = single_tag_from [] tags

abbrev pub is_kept : Option Bool → Bool
is_kept none = false
is_kept (some refunded) = not refunded

-- A contribution that was credited and not taken back
unfoldable pub is_settled : OcTransaction → Bool
is_settled t =
    (t.type ==ᵇ codes "CREDIT")
    && (t.kind ==ᵇ codes "CONTRIBUTION")
    && is_kept t.is_refunded
    && not (is_empty t.public_id)

abbrev pub is_tier : Bytes → Option Bytes → Bool
is_tier slug none = false
is_tier slug (some tier) = tier ==ᵇ slug

-- A monthly order on the tier
unfoldable pub is_monthly : Bytes → OcOrder → Bool
is_monthly slug order =
    is_tier slug order.tier
    && (order.frequency ==ᵇ codes "MONTHLY")
    && not (is_empty order.public_id)

abbrev pub invalid_time : Error
invalid_time = message (codes "invalid Open Collective transaction time")

abbrev pub add_charge :
    Bytes → Bytes → Option Time → Result (List PaymentCharge) → Result (List PaymentCharge)
add_charge tag id none rest = err invalid_time
add_charge tag id (some at) (err e) = err e
add_charge tag id (some at) (ok charges) =
    ok (record { tag = tag; charge_id = id; charged_at = at } ∷ charges)

-- The charges of the transactions of an order
unfoldable pub charges_of : Bytes → List OcTransaction → Result (List PaymentCharge)
charges_of tag [] = ok []
charges_of tag (t ∷ ts) =
    let rest = charges_of tag ts in
    if is_settled t then add_charge tag t.public_id t.created_at rest else rest

abbrev pub append_charges :
    Result (List PaymentCharge) → Result (List PaymentCharge) → Result (List PaymentCharge)
append_charges (err e) rest = err e
append_charges (ok cs) (err e) = err e
append_charges (ok cs) (ok ds) = ok (cs ++ ds)

abbrev pub tagged_charges : Option Bytes → List OcTransaction → Result (List PaymentCharge)
tagged_charges none ts = ok []
tagged_charges (some tag) ts = charges_of tag ts

-- The charges of an order
unfoldable pub order_charges : Bytes → OcOrder → Result (List PaymentCharge)
order_charges slug order =
    if is_monthly slug order
    then tagged_charges (single_mailbox_tag order.tags) order.transactions
    else ok []

-- The charges of a page
unfoldable pub page_charges : Bytes → List OcOrder → Result (List PaymentCharge)
page_charges slug [] = ok []
page_charges slug (order ∷ orders) =
    append_charges (order_charges slug order) (page_charges slug orders)

abbrev pub orders_of : Option (List OcOrder) → Result (List OcOrder)
orders_of none = err (message (codes "Open Collective account unavailable"))
orders_of (some orders) = ok orders

-- The checks of a decoded answer
abbrev pub read_response : ℕ → List Bytes → Option (List OcOrder) → Result (List OcOrder)
read_response status (e ∷ es) account =
    err (message (codes "Open Collective rejected orders query"))
read_response status [] account =
    if not (status == 200)
    then err (message (codes "Open Collective HTTP status"))
    else orders_of account

abbrev pub read_decoded : ℕ → Option OcOrdersResponse → Result (List OcOrder)
read_decoded status none = err (message (codes "decode Open Collective response"))
read_decoded status (some r) = read_response status r.errors r.account

-- fetchPage behind the request: an answer that is no JSON object is named.
unfoldable pub read_reply : OcReply → Result (List OcOrder)
read_reply reply =
    if not (has_prefix (trim_space reply.body) (codes "{"))
    then err (message (codes "Open Collective HTTP answer"))
    else read_decoded reply.status_code reply.decoded

-- What `fetchPage` returns for an offset: the request may fail, or its answer be refused.
abbrev pub page_orders : Result OcReply → Result (List OcOrder)
page_orders (err e) = err e
page_orders (ok reply) = read_reply reply

-- sort.Slice by the time of the charge; charges of one time may stand in any order.
abbrev pub earlier : PaymentCharge → PaymentCharge → Bool
earlier a b = before a.charged_at b.charged_at

abbrev pub short_page : List OcOrder → Bool
short_page orders = ltb (length orders) oc_page_size

module _ (pages : ℕ → Result OcReply) (slug : Bytes) where
  -- The body of the loop for a page whose orders and charges are read; `rest` is the rest of the
  -- loop.
  abbrev pub next_page :
      List PaymentCharge
      → Result (List OcOrder)
      → Result (List PaymentCharge)
      → (List PaymentCharge → Result (List PaymentCharge))
      → Result (List PaymentCharge)
  next_page charges (err e) batch rest = err e
  next_page charges (ok orders) (err e) rest = err e
  next_page charges (ok orders) (ok more) rest =
      if short_page orders then ok (sort_by earlier (charges ++ more)) else rest (charges ++ more)

  abbrev pub batch_charges : Result (List OcOrder) → Result (List PaymentCharge)
  batch_charges (err e) = err e
  batch_charges (ok orders) = page_charges slug orders

  -- The loop over the pages, with `n` pages left to ask for
  unfoldable pub read_pages : ℕ → ℕ → List PaymentCharge → Result (List PaymentCharge)
  read_pages zero page charges = err (message (codes "Open Collective orders exceeded 20 pages"))
  read_pages (suc n) page charges =
      let orders = page_orders (pages (page * oc_page_size)) in
      next_page charges orders (batch_charges orders) (read_pages n (page + 1))

-- ListPaidCharges
unfoldable pub oc_paid_charges :
    OpenCollectiveGateway → (ℕ → Result OcReply) → Result (List PaymentCharge)
oc_paid_charges g pages =
    if is_empty g.token || is_empty g.project_slug || is_empty g.tier_slug
    then err (
        message (codes "Open Collective reconciliation requires token, project slug and tier slug"))
    else read_pages pages g.tier_slug oc_max_pages 0 []

-- What the gateway takes from Go's library: SHA-256, base 32 without padding in lower case, and the
-- text of a URL whose query has the tag set.
pub record OcCodec : Type 0 where
  pub sha256 : Bytes → Bytes
  pub base32_lower : Bytes → Bytes
  pub tagged_url : Url → Bytes → Bytes

-- checkoutTag
unfoldable pub checkout_tag : OcCodec → Bytes → Bytes
checkout_tag codec mailbox_id =
    codes "tva-"
    ++ take 16 (codec.base32_lower (codec.sha256 (codes "truevipaccess-checkout:" ++ mailbox_id)))

-- CreatePaymentLink
unfoldable pub oc_payment_link :
    OcCodec → OpenCollectiveGateway → PaymentLinkRequest → Result PaymentLink
oc_payment_link codec g req =
    if is_empty req.mailbox_id
    then err (message (codes "mailbox ID is required"))
    else let tag = checkout_tag codec req.mailbox_id in
      ok (record { session_id = tag; url = codec.tagged_url g.checkout_url tag })
