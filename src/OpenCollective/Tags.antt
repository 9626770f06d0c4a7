-- ===== src/OpenCollective/Tags.antt =====
-- `singleMailboxTag` against a description by the list of all tags of the shop.
use mailservice.Prelude.{
  true, false, Option, none, some, List, [], ◌∷◌, ◌≡◌, refl, Bytes, codes, Bool-cases, inl, inr,
  if◌then◌else◌,
}
use mailservice.Text.{is_empty, has_prefix}
use mailservice.OpenCollective.{single_tag_from, single_mailbox_tag}

-- The tags with the prefix of the shop
unfoldable pub shop_tags : List Bytes → List Bytes
shop_tags [] = []
shop_tags (tag ∷ tags) =
    let rest = shop_tags tags in if has_prefix tag (codes "tva-") then tag ∷ rest else rest

-- The only element of a list
abbrev pub only : List Bytes → Option Bytes
only (tag ∷ []) = some tag
only _ = none

not_empty : (tag : Bytes) → has_prefix tag (codes "tva-") ≡ true → is_empty tag ≡ false
unfolding has_prefix
not_empty [] h = cc
not_empty (c ∷ tag) h = refl

-- With a tag found, any other tag of the shop spoils it.
found_tag :
    (found : Bytes) (tags : List Bytes)
    → is_empty found ≡ false
    → single_tag_from found tags ≡ only (found ∷ shop_tags tags)
unfolding single_tag_from shop_tags has_prefix
found_tag found [] h = rw h refl
found_tag found (tag ∷ tags) h = elim (Bool-cases (has_prefix tag (codes "tva-"))) [
  | inl shop ↦ rw (shop, h) refl
  | inr other ↦ rw other (found_tag found tags h)
]

-- An order is attributed to a tag exactly if that is its only tag of the shop.
pub single_mailbox_tag_lem : (tags : List Bytes) → single_mailbox_tag tags ≡ only (shop_tags tags)
unfolding single_mailbox_tag single_tag_from shop_tags has_prefix
single_mailbox_tag_lem [] = refl
single_mailbox_tag_lem (tag ∷ tags) = elim (Bool-cases (has_prefix tag (codes "tva-"))) [
  | inl shop ↦ rw shop (found_tag tag tags (not_empty tag shop))
  | inr other ↦ rw other (unfold single_mailbox_tag in single_mailbox_tag_lem tags)
]
