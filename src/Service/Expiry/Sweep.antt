-- ===== src/Service/Expiry/Sweep.antt =====
-- What a sweep leaves behind when the outside answers.
use mathlib.Core.Path.{subst}
use mailservice.Prelude.{
  ℕ, ◌+◌, ◌≡◌, ◌≢◌, refl, sym, ap, ◌∙◌, inl, inr, Bool, true, false, ◌&&◌, List, [], ◌∷◌, map,
  arith, Bytes, codes, Bool-cases, length,
}
use mailservice.Calendar.{Time}
use mailservice.Domain.{Mailbox, MailboxStatus, is_active}
use mailservice.Ports.{Result, ok, err}
use mailservice.World.{
  Env, World, M, continue, rewrap, call, pure, raise, gets, modify, when, wrapping, ◌>>=◌,
}
use mailservice.World.Yields.{bump}
use mailservice.Repository.Models.{MailboxModel, to_model}
use mailservice.Repository.Query.{All, Among}
use mailservice.Repository.Query.Laws.{All-map, Among-cons}
use mailservice.Repository.Mailboxes
use mailservice.Repository.Mailboxes.{upsert, past_due, list_where}
use mailservice.Repository.Mailboxes.Unique.{
  keys_of, IsUnique, unblocked, keys-upsert, All-upsert_others,
}
use mailservice.Repository.Runtime
use mailservice.Service.{Config}
use mailservice.Service.Expiry.{expire_mailbox, expire_all}

abbrev pub is_overdue : Time → MailboxModel → Bool
is_overdue now r = is_active r.status && past_due r.expires_at now

-- The row that an expiry stores
abbrev pub expired_row : Mailbox → MailboxModel
expired_row mb = to_model (record mb { status = MailboxStatus.expired })

-- A run that ends without an error, and what it leaves
abbrev pub Ends : {A : Type 0} → Result A × World → (A → World → Type 0) → Type 0
Ends (ok a, w) Q = Q a w
Ends (err e, w) Q = ⊥

pub Ends-then :
    {A B : Type 0} (P : A → World → Type 0) (m : M A) (f : A → M B) (w : World)
    (Q : B → World → Type 0)
    → Ends (m w) P
    → ((a : A) (w' : World) → P a w' → Ends (f a w') Q)
    → Ends ((m >>= f) w) Q
unfolding ◌>>=◌
Ends-then {A} P m f w Q h k = go (m w).0 (m w).1 h
  where
    go : (r : Result A) (w' : World) → Ends (r, w') P → Ends (continue r f w') Q
    go (ok a) w' h = k a w' h
    go (err e) w' h = absurd h

pub Ends-weaken :
    {A : Type 0} (x : Result A × World) (P Q : A → World → Type 0)
    → ((a : A) (w : World) → P a w → Q a w)
    → Ends x P
    → Ends x Q
Ends-weaken (ok a, w) P Q f h = f a w h
Ends-weaken (err e, w) P Q f h = absurd h

pub Ends-wrapping :
    {A : Type 0} (text : Bytes) (m : M A) (w : World) (Q : A → World → Type 0)
    → Ends (m w) Q
    → Ends (wrapping text m w) Q
unfolding wrapping
Ends-wrapping {A} text m w Q h = go (m w).0 (m w).1 h
  where
    go : (r : Result A) (w' : World) → Ends (r, w') Q → Ends (rewrap text r, w') Q
    go (ok a) w' h = h
    go (err e) w' h = absurd h

-- An overdue row is still to come in the sweep.
abbrev pub ToCome : Time → List Mailbox → MailboxModel → Type 0
ToCome now ms q = is_overdue now q ≡ true → Among q.id (map (λ (mb : Mailbox). mb.id) ms)

-- The table behind a sweep: the same keys, and no overdue row
abbrev pub Swept : Time → World → World → Type 0
Swept now w w' =
    (map keys_of w'.mailboxes ≡ map keys_of w.mailboxes)
    × All (λ q. is_overdue now q ≡ false) w'.mailboxes

module _ ⦃env : Env⦄ (s : Config) (up : (k : ℕ) → env.fails k ≡ false) where
  update_answers :
      (m : Mailbox) (w : World)
      → IsUnique (map keys_of w.mailboxes)
      → Among (keys_of (to_model m)) (map keys_of w.mailboxes)
      → Mailboxes.update m w
        ≡ (ok tt, record (bump w) { mailboxes = upsert (to_model m) w.mailboxes })
  unfolding Mailboxes.update call raise gets modify ◌>>=◌
  update_answers m w unique m_in =
      rw (up w.ticks, unblocked (to_model m) w.mailboxes unique m_in) refl

  expire_mailbox-Ends :
      (mb : Mailbox) (w : World)
      → IsUnique (map keys_of w.mailboxes)
      → Among (keys_of (expired_row mb)) (map keys_of w.mailboxes)
      → Ends (expire_mailbox s mb w) (λ _ w'. w'.mailboxes ≡ upsert (expired_row mb) w.mailboxes)
  unfolding expire_mailbox Runtime.disable_mailbox when call gets modify pure wrapping ◌>>=◌
  expire_mailbox-Ends mb w unique mb_in = elim (Bool-cases s.provisioner) [
    | inl present ↦
        simp (present, up w.ticks)
          (simp (update_answers (record mb { status = MailboxStatus.expired }) _ unique mb_in) refl)
    | inr absent ↦
        simp absent
          (simp (update_answers (record mb { status = MailboxStatus.expired }) w unique mb_in) refl)
  ]

  ToCome-done : (now : Time) (q : MailboxModel) → ToCome now [] q → is_overdue now q ≡ false
  ToCome-done now q h = elim (Bool-cases (is_overdue now q)) [
    | inl overdue ↦ elim (h overdue) [ ]
    | inr fine ↦ fine
  ]

  id-expired_row : (mb : Mailbox) → (expired_row mb).id ≡ mb.id
  unfolding to_model
  id-expired_row mb = refl

  expired-fine : (now : Time) (mb : Mailbox) → is_overdue now (expired_row mb) ≡ false
  unfolding to_model
  expired-fine now mb = refl

  pub expire_all-Ends :
      (now : Time) (ms : List Mailbox) (count : ℕ) (w0 w : World)
      → map keys_of w.mailboxes ≡ map keys_of w0.mailboxes
      → IsUnique (map keys_of w0.mailboxes)
      → All (λ mb. Among (keys_of (expired_row mb)) (map keys_of w0.mailboxes)) ms
      → All (ToCome now ms) w.mailboxes
      → Ends (expire_all s ms count w) (λ n w'. (n ≡ count + length ms) × Swept now w0 w')
  unfolding expire_all pure
  expire_all-Ends now [] count w0 w same unique known coming = (
    omega arith,
    (
      same,
      All-map (ToCome now []) (λ q. is_overdue now q ≡ false) w.mailboxes (ToCome-done now) coming,
    ),
  )
  expire_all-Ends now (mb ∷ rest) count w0 w same unique known coming =
      let unique_now : IsUnique (map keys_of w.mailboxes) = subst IsUnique (sym same) unique in
      let mb_in : Among (keys_of (expired_row mb)) (map keys_of w.mailboxes) =
        subst (Among (keys_of (expired_row mb))) (sym same) known.0 in
      Ends-then (λ _ w'. w'.mailboxes ≡ upsert (expired_row mb) w.mailboxes)
        (wrapping (codes "expire mailbox") (expire_mailbox s mb))
        (λ _. expire_all s rest (count + 1)) w
        (λ n w'. (n ≡ count + length (mb ∷ rest)) × Swept now w0 w')
        (Ends-wrapping (codes "expire mailbox") (expire_mailbox s mb) w
          (λ _ w'. w'.mailboxes ≡ upsert (expired_row mb) w.mailboxes)
          (expire_mailbox-Ends mb w unique_now mb_in))
        (λ _ w' e.
          Ends-weaken (expire_all s rest (count + 1) w')
            (λ n w''. (n ≡ count + 1 + length rest) × Swept now w0 w'')
            (λ n w''. (n ≡ count + length (mb ∷ rest)) × Swept now w0 w'')
            (λ n w'' (sum, swept). (omega (arith, sum), swept))
            (expire_all-Ends now rest (count + 1) w0 w'
              (ap (map keys_of) e
                ∙ keys-upsert (expired_row mb) w.mailboxes unique_now mb_in
                ∙ same)
              unique known.1
              (subst (All (ToCome now rest)) (sym e) (
                All-upsert_others (expired_row mb) (ToCome now rest) w.mailboxes unique_now
                  (All-map (ToCome now (mb ∷ rest))
                    (λ q. q.id ≢ (expired_row mb).id → ToCome now rest q) w.mailboxes
                    (later mb rest) coming)
                  (λ overdue. absurd (cc (overdue, expired-fine now mb)))))))
    where
      later :
          (mb : Mailbox) (rest : List Mailbox) (q : MailboxModel)
          → ToCome now (mb ∷ rest) q
          → q.id ≢ (expired_row mb).id
          → ToCome now rest q
      later mb rest q h ne overdue =
          elim (Among-cons q.id mb.id (map (λ (x : Mailbox). x.id) rest) (h overdue)) [
            | inl same ↦ absurd (ne (same ∙ sym (id-expired_row mb)))
            | inr m ↦ m
          ]
