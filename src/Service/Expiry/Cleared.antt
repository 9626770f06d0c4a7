-- ===== src/Service/Expiry/Cleared.antt =====
-- `ExpireMailboxes` as a whole: the query finds what is overdue, and the sweep clears it.
use mathlib.Core.Path.{subst}
use mailservice.Prelude.{
  ℕ, ◌+◌, ◌≡◌, refl, sym, inl, inr, Bool, true, false, List, [], ◌∷◌, map, arith, Bool-cases,
  length,
}
use mailservice.Domain.{Mailbox}
use mailservice.World.{Env, World, call, gets, time_now, wrapping, ◌>>=◌}
use mailservice.Repository.Models.{MailboxModel, to_model, to_domain}
use mailservice.Repository.Query.{All, Among, here, there, find_all, count_rows}
use mailservice.Repository.Query.Laws.{All-map}
use mailservice.Repository.Mailboxes
use mailservice.Repository.Mailboxes.{list_where}
use mailservice.Repository.Mailboxes.Unique.{Keys, keys_of}
use mailservice.Repository.Mailboxes.Kept.{HasNormalKey, IsKept}
use mailservice.Service.{Config}
use mailservice.Service.Expiry.{expire_all, expire_mailboxes}
use mailservice.Service.Expiry.Sweep.{
  is_overdue, expired_row, Ends, Ends-weaken, Swept, expire_all-Ends,
}

keys-expired : (r : MailboxModel) → HasNormalKey r → keys_of (expired_row (to_domain r)) ≡ keys_of r
unfolding to_model to_domain
keys-expired r normal = simp (normal) refl

module _ (p : MailboxModel → Bool) where
  known :
      (ks : List Keys) (rows : List MailboxModel)
      → All (λ r. Among (keys_of r) ks) rows
      → All HasNormalKey rows
      → All (λ mb. Among (keys_of (expired_row mb)) ks) (map to_domain (find_all p rows))
  unfolding find_all
  known ks [] h n = tt
  known ks (r ∷ rows) h n = elim (Bool-cases (p r)) [
    | inl hit ↦
        rw hit (subst (λ k. Among k ks) (sym (keys-expired r n.0)) h.0, known ks rows h.1 n.1)
    | inr miss ↦ rw miss (known ks rows h.1 n.1)
  ]

  -- A row that matches is found.
  unfoldable Listed : List MailboxModel → MailboxModel → Type 0
  Listed rows q =
      p q ≡ true → Among q.id (map (λ (mb : Mailbox). mb.id) (map to_domain (find_all p rows)))

  Listed-cons :
      (r : MailboxModel) (rows : List MailboxModel) (q : MailboxModel)
      → Listed rows q
      → Listed (r ∷ rows) q
  unfolding find_all Listed
  Listed-cons r rows q h hit = elim (Bool-cases (p r)) [
    | inl found ↦ rw found (there (h hit))
    | inr miss ↦ rw miss (h hit)
  ]

  Listed-head : (r : MailboxModel) (rows : List MailboxModel) → Listed (r ∷ rows) r
  unfolding find_all to_domain Listed
  Listed-head r rows hit = rw hit here

  All-Listed : (rows : List MailboxModel) → All (Listed rows) rows
  All-Listed [] = tt
  All-Listed (r ∷ rows) = (
    Listed-head r rows,
    All-map (Listed rows) (Listed (r ∷ rows)) rows (Listed-cons r rows) (All-Listed rows),
  )

  length-found :
      (rows : List MailboxModel) → length (map to_domain (find_all p rows)) ≡ count_rows p rows
  unfolding find_all count_rows
  length-found [] = refl
  length-found (r ∷ rows) = elim (Bool-cases (p r)) [
    | inl hit ↦ rw hit (omega (arith, length-found rows))
    | inr miss ↦ rw miss (omega (arith, length-found rows))
  ]

Among-keys : (rows : List MailboxModel) → All (λ r. Among (keys_of r) (map keys_of rows)) rows
Among-keys [] = tt
Among-keys (r ∷ rows) = (
  here,
  All-map (λ q. Among (keys_of q) (map keys_of rows))
      (λ q. Among (keys_of q) (keys_of r ∷ map keys_of rows)) rows (λ q m. there m)
      (Among-keys rows),
)

module _ ⦃env : Env⦄ (s : Config) (up : (k : ℕ) → env.fails k ≡ false) where
  -- When no call of the outside fails, outside free mode, on a table that keeps its rules,
  -- `expire_mailboxes` ends without an error; it counts the mailboxes that were active and overdue
  -- at the time it read; behind it the table has the same keys, and no row of it is active and
  -- overdue at that time.
  pub expire_mailboxes-Swept :
      (w : World)
      → s.free_mode ≡ false
      → IsKept w.mailboxes
      → Ends (expire_mailboxes s w) (λ n w'.
        (n ≡ count_rows (is_overdue (env.clock w.ticks)) w.mailboxes)
        × Swept (env.clock w.ticks) w w')
  unfolding expire_mailboxes Mailboxes.list_active_expired list_where call gets time_now wrapping
      ◌>>=◌
  expire_mailboxes-Swept w paid (unique, normal) =
      let now = env.clock w.ticks in
      let found = map to_domain (find_all (is_overdue now) w.mailboxes) in
      simp (paid, up (w.ticks + 1))
        (Ends-weaken (expire_all s found 0 (record w { ticks = w.ticks + 1 + 1 }))
          (λ n w'. (n ≡ 0 + length found) × Swept now w w')
          (λ n w'. (n ≡ count_rows (is_overdue now) w.mailboxes) × Swept now w w')
          (λ n w' (e, swept). (omega (arith, e, length-found (is_overdue now) w.mailboxes), swept))
          (expire_all-Ends s up now found 0 w (record w { ticks = w.ticks + 1 + 1 }) refl unique
            (known (is_overdue now) (map keys_of w.mailboxes) w.mailboxes (Among-keys w.mailboxes)
              normal)
            (unfold Listed in All-Listed (is_overdue now) w.mailboxes)))
