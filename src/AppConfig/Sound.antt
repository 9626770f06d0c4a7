-- ===== src/AppConfig/Sound.antt =====
-- What a configuration that `Load` accepts guarantees.
use mailservice.Prelude.{
  ◌<◌, ◌≤◌, ◌≡◌, refl, ◌⊎◌, inl, inr, true, false, Option, none, some, [], ◌∷◌, length, arith,
  Bytes, codes, ◌==ᵇ◌, ==ᵇ-eq, Bool-cases,
}
use mathlib.Core.Path.{subst}
use mailservice.Calendar.{Time}
use mailservice.Text.{is_empty}
use mailservice.Ports.{Result, ok, err}
use mailservice.EdProof.Decimal.{Int64, nonneg, negative}
use mailservice.AppConfig.{
  Environ, AppConfig, get_env, is_one_of, notifier_providers, required_by, any_missing,
  validate_notifier_provider, check_database, check_secret, positive_interval, app_config, checked,
  load,
}

-- The database is local, or is Turso's with its address and its token.
abbrev pub HasDatabase : AppConfig → Type 0
HasDatabase c =
    (c.database_mode ≡ codes "local")
    ⊎ ((c.database_mode ≡ codes "turso")
        × (is_empty c.turso_database_url ≡ false)
        × (is_empty c.turso_auth_token ≡ false))

-- No provider is named, or one that is known and has the variables that it requires.
abbrev pub HasNotifier : Environ → Bytes → Type 0
HasNotifier env provider =
    (provider ≡ [])
    ⊎ ((is_one_of provider notifier_providers ≡ true)
        × (any_missing env (required_by provider) ≡ false))

-- What the program relies on
abbrev pub IsSound : Environ → AppConfig → Type 0
IsSound env c =
    (32 ≤ length c.edproof_hmac_secret)
    × (0 < c.opencollective_reconcile_interval)
    × HasDatabase c
    × HasNotifier env c.notifier_provider

secret_of : (secret : Bytes) → check_secret secret ≡ ok tt → 32 ≤ length secret
unfolding check_secret
secret_of secret h = ground arith

interval_of : (o : Option Int64) (n : Time) → positive_interval o ≡ ok n → 0 < n
interval_of none n h = absurd (ground arith)
interval_of (some (negative k)) n h = absurd (ground arith)
interval_of (some (nonneg k)) n h = ground arith

empty_text : (s : Bytes) → is_empty s ≡ true → s ≡ []
empty_text [] h = refl
empty_text (c ∷ s) h = cc h

pub notifier_of :
    (env : Environ) (provider : Bytes)
    → validate_notifier_provider env provider ≡ ok tt
    → HasNotifier env provider
unfolding validate_notifier_provider
notifier_of env provider h = elim (Bool-cases (is_empty provider)) [
  | inl unset ↦ inl (empty_text provider unset)
  | inr set ↦ inr (ground arith, ground arith)
]

database_of :
    (env : Environ) (mode : Bytes)
    → check_database env mode ≡ ok tt
    → (mode ≡ codes "local")
      ⊎ ((mode ≡ codes "turso")
          × (is_empty (env (codes "TURSO_DATABASE_URL")) ≡ false)
          × (is_empty (env (codes "TURSO_AUTH_TOKEN")) ≡ false))
unfolding check_database any_missing
database_of env mode h = elim (Bool-cases (mode ==ᵇ codes "turso")) [
  | inl turso ↦ inr (==ᵇ-eq mode (codes "turso") turso, ground arith, ground arith)
  | inr other ↦ inl (==ᵇ-eq mode (codes "local") (ground arith))
]

-- A configuration that is loaded is the one that Load builds, its checks passed.
abbrev pub Loaded : Environ → AppConfig → Type 0
Loaded env c =
    (interval : Time) × (app_config env interval (env (codes "DATABASE_MODE"))
        (env (codes "EDPROOF_HMAC_SECRET"))
      ≡ c)
    × (0 < interval)
    × (check_database env (env (codes "DATABASE_MODE")) ≡ ok tt)
    × (validate_notifier_provider env (env (codes "NOTIFIER_PROVIDER")) ≡ ok tt)
    × (check_secret (env (codes "EDPROOF_HMAC_SECRET")) ≡ ok tt)

pub load-Loaded :
    (parse_duration : Bytes → Option Int64) (env : Environ) (c : AppConfig)
    → load parse_duration env ≡ ok c
    → Loaded env c
unfolding load
load-Loaded parse_duration env c h =
    go
      (positive_interval
        (parse_duration (get_env env (codes "OPENCOLLECTIVE_RECONCILE_INTERVAL") (codes "15m"))))
      (check_database env (env (codes "DATABASE_MODE")))
      (validate_notifier_provider env (env (codes "NOTIFIER_PROVIDER")))
      (check_secret (env (codes "EDPROOF_HMAC_SECRET"))) refl refl refl refl h
  where
    make : Time → AppConfig
    make interval =
        app_config env interval (env (codes "DATABASE_MODE")) (env (codes "EDPROOF_HMAC_SECRET"))

    go :
        (i : Result Time) (d p s : Result (Unit {0}))
        → positive_interval
            (parse_duration (get_env env (codes "OPENCOLLECTIVE_RECONCILE_INTERVAL") (codes "15m")))
          ≡ i
        → check_database env (env (codes "DATABASE_MODE")) ≡ d
        → validate_notifier_provider env (env (codes "NOTIFIER_PROVIDER")) ≡ p
        → check_secret (env (codes "EDPROOF_HMAC_SECRET")) ≡ s
        → checked i d p s make ≡ ok c
        → Loaded env c
    go (err e) d p s ei ed ep es h = absurd (ground arith)
    go (ok n) (err e) p s ei ed ep es h = absurd (ground arith)
    go (ok n) (ok a) (err e) s ei ed ep es h = absurd (ground arith)
    go (ok n) (ok a) (ok b) (err e) ei ed ep es h = absurd (ground arith)
    go (ok n) (ok a) (ok b) (ok s) ei ed ep es h = (
      n,
      ground arith,
      interval_of
          (parse_duration (get_env env (codes "OPENCOLLECTIVE_RECONCILE_INTERVAL") (codes "15m"))) n
          ei,
      ed,
      ep,
      es,
    )

-- A configuration that is loaded has a secret of 32 bytes or more, a positive interval, a known
-- mode of the database with the credentials of Turso where that is the mode, and no notifier
-- provider or a known one with the variables that it requires.
pub load-IsSound :
    (parse_duration : Bytes → Option Int64) (env : Environ) (c : AppConfig)
    → load parse_duration env ≡ ok c
    → IsSound env c
unfolding app_config
load-IsSound parse_duration env c h =
    let (n, same, positive, database, notifier, secret) = load-Loaded parse_duration env c h in
    subst (IsSound env) same (
      secret_of (env (codes "EDPROOF_HMAC_SECRET")) secret,
      positive,
      database_of env (env (codes "DATABASE_MODE")) database,
      notifier_of env (env (codes "NOTIFIER_PROVIDER")) notifier,
    )
