-- ===== src/Http/Recovery.antt =====
-- What the answer to a request for recovery tells of an address: nothing.
use mailservice.Prelude.{
  ℕ, Bool, ◌-◌, ◌≡◌, refl, ◌⊎◌, inl, inr, false, not, ◌&&◌, ◌==ᵇ◌, Bool-cases, Option, none, some,
  List, [], ◌∷◌, Bytes, ltb, ⊤,
}
use mailservice.Text.{normalize}
use mailservice.Domain.{Account, AccountRecovery, is_set}
use mailservice.Ports.{Result, ok, err, rate_limit_reached, account_not_found, recovery_not_found}
use mailservice.World.{
  Env, World, call, gets, modify, send, new_token, new_uuid, pure, raise, attempt, wrapping, lift,
  time_now, ◌>>=◌,
}
use mailservice.World.Yields.{bump}
use mailservice.Repository.Query.{All, bytes_less, first, find_all, exists_row}
use mailservice.Repository.Query.Laws.{none_exists_row}
use mailservice.Repository.Accounts
use mailservice.Repository.Accounts.{or_raise}
use mailservice.Service.Claim.{invalid_email}
use mailservice.Sessions.{
  start_recovery, enforce_recovery_rate_limit, recovery_rate_limit_window,
  create_and_send_recovery_code, recover_from, check_window,
}
use mailservice.Http.{Handler, Decoded, decode_json, serve, with_body}
use mailservice.Http.Accounts.{email_sent_if_exists, handle_start_recovery}

abbrev OtherId : Bytes → AccountRecovery → Type 0
OtherId id r = (r.id ==ᵇ id) ≡ false

All-find_all :
    (P : AccountRecovery → Type 0) (p : AccountRecovery → Bool) (rows : List AccountRecovery)
    → All P rows
    → All P (find_all p rows)
unfolding find_all
All-find_all P p [] h = tt
All-find_all P p (r ∷ rows) h = elim (Bool-cases (p r)) [
  | inl hit ↦ rw hit (h.0, All-find_all P p rows h.1)
  | inr miss ↦ rw miss (All-find_all P p rows h.1)
]

-- The recovery of an account is granted, or refused since one was asked for just now.
abbrev IsTold : Result ⊤ → Type 0
IsTold r = (r ≡ ok tt) ⊎ (r ≡ err rate_limit_reached)

module _ ⦃env : Env⦄ where
  -- The database, the mailer and the generator of tokens work.
  abbrev pub Works : Type 0
  Works = (k : ℕ) → env.fails k ≡ false

  -- No recovery has an identifier that is still to be generated.
  abbrev pub Fresh : World → Type 0
  Fresh w = (k : ℕ) → All (OtherId (env.new_uuid k)) w.recoveries

module _ ⦃env : Env⦄ (base : Bytes) where
  code_sent :
      (a : Account) (email : Bytes) (now : ℕ) (w : World)
      → Works
      → Fresh w
      → (create_and_send_recovery_code base a email now w).0 ≡ ok tt
  unfolding create_and_send_recovery_code Accounts.delete_active_by_account_id
      Accounts.create_recovery wrapping new_token new_uuid call gets modify send pure raise ◌>>=◌
  code_sent a email now w up fresh = simp (up, free) refl
    where
      left : AccountRecovery → Bool
      left r = not ((r.account_id ==ᵇ a.id) && not (is_set r.used_at))

      free :
          (k : ℕ) → exists_row (λ r. r.id ==ᵇ env.new_uuid k) (find_all left w.recoveries) ≡ false
      free k =
          none_exists_row (λ r. r.id ==ᵇ env.new_uuid k) (find_all left w.recoveries)
            (All-find_all (OtherId (env.new_uuid k)) left w.recoveries (fresh k))

  check_window-IsTold :
      (a : Account) (email : Bytes) (now : ℕ) (o : Option AccountRecovery) (w : World)
      → Works
      → Fresh w
      → IsTold
          ((attempt (or_raise recovery_not_found o) >>= λ latest.
              check_window base now latest >>= λ _. create_and_send_recovery_code base a email now)
            w).0
  unfolding attempt pure raise ◌>>=◌
  check_window-IsTold a email now none w up fresh = inl (code_sent a email now w up fresh)
  check_window-IsTold a email now (some latest) w up fresh =
      elim (Bool-cases (ltb (now - latest.created_at) recovery_rate_limit_window)) [
        | inl recent ↦ rw recent (inr refl)
        | inr long_ago ↦ rw long_ago (inl (code_sent a email now w up fresh))
      ]

  recover_from-IsTold :
      (a : Account) (email : Bytes) (w : World)
      → Works
      → Fresh w
      → IsTold (recover_from base email (ok a) w).0
  unfolding time_now enforce_recovery_rate_limit Accounts.get_latest_by_account_id
      Accounts.get_recovery call gets attempt pure raise ◌>>=◌
  recover_from-IsTold a email w up fresh = simp up (
      check_window-IsTold a email (env.clock w.ticks)
        (first Accounts.is_later (λ r. r.account_id ==ᵇ a.id) w.recoveries) (bump (bump w)) up
        fresh)

  start_recovery-IsTold :
      (email : Bytes) (w : World) → Works → Fresh w → IsTold (start_recovery base email w).0
  unfolding start_recovery Accounts.get_by_owner_email Accounts.get_account call gets attempt pure
      raise ◌>>=◌
  start_recovery-IsTold email w up fresh = elim (Bool-cases (invalid_email (normalize email))) [
    | inl invalid ↦ rw invalid (inl refl)
    | inr valid ↦ rw valid (
        simp up (
          found (
            first (λ q r. bytes_less q.id r.id) (λ r. r.owner_email ==ᵇ normalize email)
              w.accounts)))
  ]
    where
      found :
          (o : Option Account)
          → IsTold
              ((attempt (or_raise account_not_found o) >>= λ account.
                  recover_from base (normalize email) account)
                (bump w)).0
      found none = inl refl
      found (some a) = recover_from-IsTold a (normalize email) (bump w) up fresh

module _ ⦃env : Env⦄ (h : Handler) where
  -- As long as the database, the mailer and the generator of tokens work and a new identifier is
  -- not one of a stored recovery, a request for recovery whose body can be read gets the one answer
  -- "email_sent_if_exists": whatever address it names, well-formed or not, whether an account has
  -- this address, and whether a recovery was asked for just now.
  pub handle_start_recovery-uniform :
      (d : Decoded Bytes) (email : Bytes) (w : World)
      → decode_json d ≡ ok email
      → Works
      → Fresh w
      → (handle_start_recovery h d w).0 ≡ ok email_sent_if_exists
  unfolding handle_start_recovery with_body serve lift attempt pure ◌>>=◌
  handle_start_recovery-uniform d email w read up fresh =
      rw read (elim (start_recovery-IsTold h.account_base_url email w up fresh) [
        | inl sent ↦ rw sent refl
        | inr limited ↦ rw limited refl
      ])
