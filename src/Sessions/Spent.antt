-- ===== src/Sessions/Spent.antt =====
-- The table `refresh_tokens` by its hashes: what a new row and the mark of a used row leave of the
-- uniqueness of the hashes, and of a hash whose row is used.
use mathlib.Core.Path.{subst}
use mailservice.Prelude.{
  ◌≡◌, ◌≢◌, refl, sym, ap, ◌⊎◌, inl, inr, Bool, true, false, not, ◌&&◌, none, some, List, [], ◌∷◌,
  ◌++◌, map, Bytes, ⊤, arith, Bool-cases, ◌==ᵇ◌, ==ᵇ_iff,
}
use mailservice.Calendar.{Time}
use mailservice.Domain.{RefreshToken, is_set}
use mailservice.Repository.Query.{
  All, Among, here, there, bytes_less, first, exists_row, update_where,
}
use mailservice.Repository.Query.Laws.{
  All-map, All-snoc, All-Among, exists_row_none, first_cases, first-none,
}
use mailservice.Sessions.Tokens.{blocks_token, mark_used}

abbrev pub hashes : List RefreshToken → List Bytes
hashes rows = map (λ (r : RefreshToken). r.token_hash) rows

abbrev pub AllDifferent : List Bytes → Type 0
AllDifferent [] = ⊤
AllDifferent (k ∷ ks) = All (λ x. x ≢ k) ks × AllDifferent ks

-- The table has the hash `h`, and its row is used.
abbrev pub Spent : Bytes → List RefreshToken → Type 0
Spent h rows = All (λ r. r.token_hash ≡ h → is_set r.used_at ≡ true) rows × Among h (hashes rows)

pub hashes-mark_used :
    (id : Bytes) (at : Time) (rows : List RefreshToken)
    → hashes (mark_used id at rows) ≡ hashes rows
unfolding update_where
hashes-mark_used id at [] = refl
hashes-mark_used id at (r ∷ rows) = elim (Bool-cases (r.id ==ᵇ id)) [
  | inl same ↦ rw same (ap (λ t. r.token_hash ∷ t) (hashes-mark_used id at rows))
  | inr other ↦ rw other (ap (λ t. r.token_hash ∷ t) (hashes-mark_used id at rows))
]

hashes-snoc :
    (rows : List RefreshToken) (t : RefreshToken)
    → hashes (rows ++ t ∷ []) ≡ hashes rows ++ t.token_hash ∷ []
hashes-snoc [] t = refl
hashes-snoc (r ∷ rows) t = ap (λ x. r.token_hash ∷ x) (hashes-snoc rows t)

Among-snoc : (h k : Bytes) (ks : List Bytes) → Among h ks → Among h (ks ++ k ∷ [])
Among-snoc h k [] m = elim m [ ]
Among-snoc h k (_ ∷ ks) here = here
Among-snoc h k (x ∷ ks) (there m) = there (Among-snoc h k ks m)

AllDifferent-snoc :
    (k : Bytes) (ks : List Bytes)
    → AllDifferent ks
    → All (λ x. x ≢ k) ks
    → AllDifferent (ks ++ k ∷ [])
AllDifferent-snoc k [] d n = (tt, tt)
AllDifferent-snoc k (x ∷ ks) d n =
    (All-snoc (λ y. y ≢ x) ks k d.0 (λ e. n.0 (sym e)), AllDifferent-snoc k ks d.1 n.1)

fresh_hash :
    (t : RefreshToken) (rows : List RefreshToken)
    → All (λ r. blocks_token t r ≡ false) rows
    → All (λ x. x ≢ t.token_hash) (hashes rows)
fresh_hash t [] h = tt
fresh_hash t (r ∷ rows) h =
    (λ e. ground (arith, h.0, (==ᵇ_iff r.token_hash t.token_hash).1 e), fresh_hash t rows h.1)

pub different-new :
    (t : RefreshToken) (rows : List RefreshToken)
    → exists_row (blocks_token t) rows ≡ false
    → AllDifferent (hashes rows)
    → AllDifferent (hashes (rows ++ t ∷ []))
different-new t rows free d = subst AllDifferent (sym (hashes-snoc rows t)) (
    AllDifferent-snoc t.token_hash (hashes rows) d
      (fresh_hash t rows (exists_row_none (blocks_token t) rows free)))

pub different-mark :
    (id : Bytes) (at : Time) (rows : List RefreshToken)
    → AllDifferent (hashes rows)
    → AllDifferent (hashes (mark_used id at rows))
different-mark id at rows d = subst AllDifferent (sym (hashes-mark_used id at rows)) d

module _ (h : Bytes) where
  pub Spent-new :
      (t : RefreshToken) (rows : List RefreshToken)
      → exists_row (blocks_token t) rows ≡ false
      → Spent h rows
      → Spent h (rows ++ t ∷ [])
  Spent-new t rows free (used, known) = (
    All-snoc (λ r. r.token_hash ≡ h → is_set r.used_at ≡ true) rows t used
        (λ e. absurd (
          All-Among (λ x. x ≢ t.token_hash) h (hashes rows)
            (fresh_hash t rows (exists_row_none (blocks_token t) rows free)) known (sym e))),
    subst (Among h) (sym (hashes-snoc rows t)) (Among-snoc h t.token_hash (hashes rows) known),
  )

  pub used-mark :
      (id : Bytes) (at : Time) (rows : List RefreshToken)
      → All (λ r. r.token_hash ≡ h → (is_set r.used_at ≡ true) ⊎ (r.id ≡ id)) rows
      → All (λ r. r.token_hash ≡ h → is_set r.used_at ≡ true) (mark_used id at rows)
  unfolding update_where
  used-mark id at [] k = tt
  used-mark id at (r ∷ rows) k = (
    elim (Bool-cases (r.id ==ᵇ id)) [
      | inl same ↦ rw same (λ _. refl)
      | inr other ↦ rw other (λ e. elim (k.0 e) [
        | inl used ↦ used
        | inr same ↦ absurd (cc (other, (==ᵇ_iff r.id id).1 same))
      ])
    ],
    used-mark id at rows k.1,
  )

  pub Spent-mark :
      (id : Bytes) (at : Time) (rows : List RefreshToken)
      → Spent h rows
      → Spent h (mark_used id at rows)
  Spent-mark id at rows (used, known) = (
    used-mark id at rows (
        All-map (λ r. r.token_hash ≡ h → is_set r.used_at ≡ true)
          (λ r. r.token_hash ≡ h → (is_set r.used_at ≡ true) ⊎ (r.id ≡ id)) rows
          (λ r f e. inl (f e)) used),
    subst (Among h) (sym (hashes-mark_used id at rows)) known,
  )

  -- The row that a refresh looks for
  abbrev pub is_granted : RefreshToken → Bool
  is_granted r = (r.token_hash ==ᵇ h) && not (is_set r.used_at)

  -- Every row of the hash is used or is the row `id`.
  abbrev pub Owned : Bytes → RefreshToken → Type 0
  Owned id r = r.token_hash ≡ h → (is_set r.used_at ≡ true) ⊎ (r.id ≡ id)

  unowned :
      (id : Bytes) (rows : List RefreshToken) → All (λ x. x ≢ h) (hashes rows) → All (Owned id) rows
  unowned id [] d = tt
  unowned id (r ∷ rows) d = ((λ e. absurd (d.0 e)), unowned id rows d.1)

  -- The row that is found is the only one of its hash.
  found_owns :
      (rows : List RefreshToken) (stored : RefreshToken)
      → AllDifferent (hashes rows)
      → first (λ q r. bytes_less q.id r.id) is_granted rows ≡ some stored
      → All (Owned stored.id) rows × Among h (hashes rows)
  found_owns [] stored d e = absurd (unfold first in ground arith)
  found_owns (q ∷ rows) stored d e =
      elim (first_cases (λ q r. bytes_less q.id r.id) is_granted q rows stored e) [
        | inl later ↦
            let (owned, known) = found_owns rows stored d.1 later in
            (
              (
                (λ same.
                    absurd
                      (All-Among (λ x. x ≢ q.token_hash) h (hashes rows) d.0 known (sym same))),
                owned,
              ),
              there known,
            )
        | inr (same, hit) ↦
            let e : q.token_hash ≡ h = (==ᵇ_iff q.token_hash h).0 (ground arith) in
            (
              (
                (λ _. inr (ap (λ (r : RefreshToken). r.id) same)),
                unowned stored.id rows (subst (λ k. All (λ x. x ≢ k) (hashes rows)) e d.0),
              ),
              subst (λ k. Among h (k ∷ hashes rows)) (sym e) here,
            )
      ]

  -- The mark of that row spends the hash.
  pub mark-Spent :
      (rows : List RefreshToken) (stored : RefreshToken) (at : Time)
      → AllDifferent (hashes rows)
      → first (λ q r. bytes_less q.id r.id) is_granted rows ≡ some stored
      → Spent h (mark_used stored.id at rows)
  mark-Spent rows stored at d e =
      let (owned, known) = found_owns rows stored d e in
      (
        used-mark stored.id at rows owned,
        subst (Among h) (sym (hashes-mark_used stored.id at rows)) known,
      )

  -- A spent hash is not found.
  pub first-Spent :
      (rows : List RefreshToken)
      → Spent h rows
      → first (λ q r. bytes_less q.id r.id) is_granted rows ≡ none
  first-Spent rows (used, known) =
      first-none (λ q r. bytes_less q.id r.id) is_granted rows
        (All-map (λ r. r.token_hash ≡ h → is_set r.used_at ≡ true) (λ r. is_granted r ≡ false) rows
          missed used)
    where
      missed :
          (r : RefreshToken) → (r.token_hash ≡ h → is_set r.used_at ≡ true) → is_granted r ≡ false
      missed r f = elim (Bool-cases (r.token_hash ==ᵇ h)) [
        | inl same ↦ simp (same, f ((==ᵇ_iff r.token_hash h).0 same)) refl
        | inr other ↦ simp other refl
      ]
