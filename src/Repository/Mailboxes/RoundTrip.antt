-- ===== src/Repository/Mailboxes/RoundTrip.antt =====
-- What Create and Update store, GetByID finds.
use mailservice.Prelude.{
  ◌≡◌, refl, if◌then◌else◌, ◌≢◌, true, false, some, List, [], ◌∷◌, ◌++◌, ◌==ᵇ◌, ==ᵇ_iff, ==ᵇ-refl,
  ◌∙◌, ap, Bytes, Bool, arith, Bool-cases, inl, inr,
}
use mailservice.Domain.{Mailbox}
use mailservice.Text.{is_empty, trim_space, to_lower, normalize}
use mailservice.Text.Laws.{trim_space_idem, normalize_idem, normalize_nil}
use mailservice.Ports.{ok}
use mailservice.World.{Env, World, call, raise, gets, modify, ◌>>=◌}
use mailservice.World.Yields.{Yields, Yields-weaken, bump}
use mailservice.Repository.Models.{MailboxModel, to_domain, to_model, first_non_empty}
use mailservice.Repository.Query.{All, exists_row}
use mailservice.Repository.Query.Laws.{All-map, exists_row_none, first-none, first_hit, first_skip}
use mailservice.Repository.Mailboxes.{
  same_id, upsert, by_id, find_row, blocks_insert, create, update, get_by_id,
}
use mailservice.Repository.Mailboxes.Rows.{Apart, IsKeyed}
use mailservice.Repository.Mailboxes.Runs.{update-Yields, get_where-run}

-- What the table keeps of a mailbox: all but the activation link, the fingerprint and the billing
-- address in lower case and trimmed, the owner's address for a blank billing address
abbrev pub kept : Mailbox → Mailbox
kept m = record m {
  billing_email =
      if is_empty (normalize m.billing_email)
      then normalize m.owner_email
      else normalize m.billing_email;
  key_fingerprint = normalize m.key_fingerprint;
  activation_url = [];
}

trim_space-normalize : (s : Bytes) → trim_space (normalize s) ≡ normalize s
unfolding normalize
trim_space-normalize s = trim_space_idem (to_lower s)

empty_nil : (s : Bytes) → is_empty s ≡ true → s ≡ []
empty_nil [] h = refl
empty_nil (c ∷ s) h = absurd (cc h)

billing_kept :
    (b o : Bytes)
    → first_non_empty (first_non_empty (normalize b) (normalize o)) o
      ≡ (if is_empty (normalize b) then normalize o else normalize b)
unfolding first_non_empty trim_space
billing_kept b o =
    rw (trim_space-normalize b, trim_space-normalize o)
      (elim (Bool-cases (is_empty (normalize b))) [
        | inr given ↦ simp (given, trim_space-normalize b) refl
        | inl blank ↦ elim (Bool-cases (is_empty (normalize o))) [
          | inr own ↦ simp (blank, own, trim_space-normalize o) refl
          | inl nobody ↦
              let gone = empty_nil (normalize o) nobody in
              simp (blank, nobody, normalize_nil o gone, gone) refl
        ]
      ])

to_domain-to_model : (m : Mailbox) → to_domain (to_model m) ≡ kept m
unfolding to_domain to_model
to_domain-to_model m =
    cc (billing_kept m.billing_email m.owner_email, normalize_idem m.key_fingerprint)

abbrev has_id : Bytes → MailboxModel → Bool
has_id id r = r.id ==ᵇ id

-- A row that is not of the identifier
not_has_id : (m q : MailboxModel) → q.id ≢ m.id → has_id m.id q ≡ false
not_has_id m q ne = elim (Bool-cases (has_id m.id q)) [
  | inl same ↦ absurd (ne ((==ᵇ_iff q.id m.id).0 same))
  | inr other ↦ other
]

module _ (m : MailboxModel) where
  find_row-upsert :
      (rows : List MailboxModel) → IsKeyed rows → find_row (has_id m.id) (upsert m rows) ≡ some m
  unfolding find_row upsert
  find_row-upsert [] keyed =
      first_hit by_id (has_id m.id) m [] (==ᵇ-refl m.id) (first-none by_id (has_id m.id) [] tt)
  find_row-upsert (q ∷ rows) keyed = elim (Bool-cases (same_id m q)) [
    | inl same ↦
        let id : q.id ≡ m.id = (==ᵇ_iff q.id m.id).0 same in
        rw same (
          first_hit by_id (has_id m.id) m rows (==ᵇ-refl m.id) (
            first-none by_id (has_id m.id) rows (
              All-map (Apart q) (λ r. has_id m.id r ≡ false) rows
                (λ r apart. not_has_id m r (rw (← id) apart.0)) keyed.0)))
    | inr other ↦
        rw other
          (first_skip by_id (has_id m.id) q (upsert m rows) other ∙ find_row-upsert rows keyed.1)
  ]

  find_row-append :
      (rows : List MailboxModel)
      → All (λ q. blocks_insert m q ≡ false) rows
      → find_row (has_id m.id) (rows ++ m ∷ []) ≡ some m
  unfolding find_row
  find_row-append [] free =
      first_hit by_id (has_id m.id) m [] (==ᵇ-refl m.id) (first-none by_id (has_id m.id) [] tt)
  find_row-append (q ∷ rows) free =
      first_skip by_id (has_id m.id) q (rows ++ m ∷ []) (other q free.0)
      ∙ find_row-append rows free.1
    where
      other : (q : MailboxModel) → blocks_insert m q ≡ false → has_id m.id q ≡ false
      other q h = ground arith

module _ ⦃env : Env⦄ where
  -- Under the identifier of `m`, if the database answers, the mailbox `kept m` is read back.
  abbrev pub IsStored : Mailbox → World → Type 0
  IsStored m w = env.fails w.ticks ≡ false → get_by_id m.id w ≡ (ok (kept m), bump w)

  IsStored-if_found :
      (m : Mailbox) (w : World)
      → find_row (has_id (to_model m).id) w.mailboxes ≡ some (to_model m)
      → IsStored m w
  unfolding get_by_id
  IsStored-if_found m w found up =
      let here : find_row (has_id m.id) w.mailboxes ≡ some (to_model m) =
        unfold to_model in found in
      simp (get_where-run (has_id m.id) w, up, here, ← (to_domain-to_model m)) refl

  create-IsStored : (m : Mailbox) (w : World) → Yields (create m w) (λ _ w1. IsStored m w1)
  unfolding create call raise gets modify ◌>>=◌
  create-IsStored m w = elim (Bool-cases (env.fails w.ticks)) [
    | inl down ↦ rw down tt
    | inr up ↦ elim (Bool-cases (exists_row (blocks_insert (to_model m)) w.mailboxes)) [
      | inl blocked ↦ rw (up, blocked) tt
      | inr free ↦
          rw (up, free)
            (IsStored-if_found m _ (
              find_row-append (to_model m) w.mailboxes
                (exists_row_none (blocks_insert (to_model m)) w.mailboxes free)))
    ]
  ]

  update-IsStored :
      (m : Mailbox) (w : World) → IsKeyed w.mailboxes → Yields (update m w) (λ _ w1. IsStored m w1)
  update-IsStored m w keyed =
      Yields-weaken _ _ (λ _ w1. IsStored m w1) (update-Yields m w)
        λ u w1 (e, free). IsStored-if_found m w1 (
          ap (λ (x : World). find_row (has_id (to_model m).id) x.mailboxes) e
          ∙ find_row-upsert (to_model m) w.mailboxes keyed)

  -- After a Create that ends without an error, and after such an Update of a table with distinct
  -- keys, GetByID finds the mailbox under its identifier, with every field as it was given but
  -- three: the fingerprint is in lower case and trimmed, so is the billing address, which is the
  -- owner's where it was blank, and the activation link is empty.
  pub get_by_id-write :
      (m : Mailbox) (w : World)
      → IsKeyed w.mailboxes
      → Yields (create m w) (λ _ w1. IsStored m w1) × Yields (update m w) (λ _ w1. IsStored m w1)
  get_by_id-write m w keyed = (create-IsStored m w, update-IsStored m w keyed)
