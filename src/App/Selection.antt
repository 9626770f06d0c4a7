-- ===== src/App/Selection.antt =====
-- The notifier of a configuration that was loaded.
use mathlib.Core.Path.{subst}
use mailservice.Prelude.{
  ℕ, ◌≡◌, refl, ◌∙◌, inl, inr, true, false, not, ◌&&◌, ◌⊎◌, Bool, Option, none, some, [], ◌∷◌,
  if◌then◌else◌, arith, ⊤, Bytes, codes, ◌==ᵇ◌, ==ᵇ-eq, Bool-cases,
}
use mailservice.Text.{is_empty}
use mailservice.Ports.{ok}
use mailservice.EdProof.Decimal.{Int64}
use mailservice.AppConfig.{
  Environ, AppConfig, get_env, is_one_of, notifier_providers, required_by, any_missing, app_config,
  load,
}
use mailservice.AppConfig.Sound.{HasNotifier, notifier_of, load-Loaded}
use mailservice.App.{
  Notifier, unsend, resend, sendgrid, mailgun, log_only, select_notifier_explicit,
  select_notifier_cascade, select_notifier,
}

-- The notifier has its key and the address that it sends from; Mailgun has its domain too.
abbrev pub IsReady : Notifier → Type 0
IsReady (unsend url key email name) = (is_empty key ≡ false) × (is_empty email ≡ false)
IsReady (resend key email name) = (is_empty key ≡ false) × (is_empty email ≡ false)
IsReady (sendgrid key email name) = (is_empty key ≡ false) × (is_empty email ≡ false)
IsReady (mailgun key domain url email name) =
    (is_empty key ≡ false) × (is_empty domain ≡ false) × (is_empty email ≡ false)
IsReady log_only = ⊤

-- The name of a notifier's provider
abbrev pub provider_of : Notifier → Bytes
provider_of (unsend url key email name) = codes "unsend"
provider_of (resend key email name) = codes "resend"
provider_of (sendgrid key email name) = codes "sendgrid"
provider_of (mailgun key domain url email name) = codes "mailgun"
provider_of log_only = codes "log"

-- A key and a sender are set.
abbrev pub can_send : Bytes → Bytes → Bool
can_send key email = not (is_empty key) && not (is_empty email)

-- Where no provider is named, Unsend stands before Resend, Resend before SendGrid, and the log is
-- for a configuration of none of the three.
abbrev pub IsPreferred : AppConfig → Notifier → Type 0
IsPreferred c (unsend url key email name) = ⊤
IsPreferred c (resend key email name) = can_send c.unsend_key c.unsend_from_email ≡ false
IsPreferred c (sendgrid key email name) =
    (can_send c.unsend_key c.unsend_from_email ≡ false)
    × (can_send c.resend_api_key c.resend_from_email ≡ false)
IsPreferred c (mailgun key domain url email name) = ⊥
IsPreferred c log_only =
    (can_send c.unsend_key c.unsend_from_email ≡ false)
    × (can_send c.resend_api_key c.resend_from_email ≡ false)
    × (can_send c.sendgrid_api_key c.sendgrid_from_email ≡ false)

-- A notifier is selected, and it is ready: that of the provider that is named, or the preferred one.
abbrev pub SelectsReady : AppConfig → Option Notifier → Type 0
SelectsReady c none = ⊥
SelectsReady c (some n) =
    IsReady n
    × ((provider_of n ≡ c.notifier_provider)
        ⊎ ((is_empty c.notifier_provider ≡ true) × IsPreferred c n))

cascade-IsReady :
    (c : AppConfig)
    → IsReady (select_notifier_cascade c) × IsPreferred c (select_notifier_cascade c)
unfolding select_notifier_cascade
cascade-IsReady c =
    elim (Bool-cases (not (is_empty c.unsend_key) && not (is_empty c.unsend_from_email))) [
      | inl first ↦ rw first ((ground arith, ground arith), tt)
      | inr no_unsend ↦
          rw no_unsend
            (elim (Bool-cases
              (not (is_empty c.resend_api_key) && not (is_empty c.resend_from_email))) [
                | inl second ↦ rw second ((ground arith, ground arith), no_unsend)
                | inr no_resend ↦
                    rw no_resend
                      (elim (Bool-cases (
                        not (is_empty c.sendgrid_api_key)
                        && not (is_empty c.sendgrid_from_email))) [
                          | inl third ↦
                              rw third ((ground arith, ground arith), (no_unsend, no_resend))
                          | inr rest ↦ rw rest (tt, (no_unsend, no_resend, rest))
                        ])
              ])
    ]

get_env-none : (env : Environ) (key : Bytes) → get_env env key [] ≡ env key
unfolding get_env
get_env-none env key = go (env key)
  where
    go : (v : Bytes) → (if is_empty v then [] else v) ≡ v
    go [] = refl
    go (c ∷ v) = refl

module _ (env : Environ) (interval : ℕ) (mode secret : Bytes) where
  abbrev built : AppConfig
  built = app_config env interval mode secret

  from_unsend :
      env (codes "NOTIFIER_PROVIDER") ≡ codes "unsend"
      → any_missing env (required_by (codes "unsend")) ≡ false
      → SelectsReady built (select_notifier_explicit true built)
  unfolding app_config select_notifier_explicit any_missing required_by ◌==ᵇ◌
  from_unsend p h =
      rw p
        (rw (get_env-none env (codes "UNSEND_FROM_EMAIL")) ((ground arith, ground arith), inl refl))

  from_resend :
      env (codes "NOTIFIER_PROVIDER") ≡ codes "resend"
      → any_missing env (required_by (codes "resend")) ≡ false
      → SelectsReady built (select_notifier_explicit true built)
  unfolding app_config select_notifier_explicit any_missing required_by ◌==ᵇ◌
  from_resend p h =
      rw p
        (rw (get_env-none env (codes "RESEND_FROM_EMAIL")) ((ground arith, ground arith), inl refl))

  from_sendgrid :
      env (codes "NOTIFIER_PROVIDER") ≡ codes "sendgrid"
      → any_missing env (required_by (codes "sendgrid")) ≡ false
      → SelectsReady built (select_notifier_explicit true built)
  unfolding app_config select_notifier_explicit any_missing required_by ◌==ᵇ◌
  from_sendgrid p h =
      rw p (
        rw (get_env-none env (codes "SENDGRID_FROM_EMAIL"))
          ((ground arith, ground arith), inl refl))

  from_mailgun :
      env (codes "NOTIFIER_PROVIDER") ≡ codes "mailgun"
      → any_missing env (required_by (codes "mailgun")) ≡ false
      → SelectsReady built (select_notifier_explicit true built)
  unfolding app_config select_notifier_explicit any_missing required_by ◌==ᵇ◌
  from_mailgun p h = rw p (
      rw (get_env-none env (codes "MAILGUN_FROM_EMAIL"))
        ((ground arith, ground arith, ground arith), inl refl))

  from_log :
      env (codes "NOTIFIER_PROVIDER") ≡ codes "log"
      → SelectsReady built (select_notifier_explicit true built)
  unfolding app_config select_notifier_explicit ◌==ᵇ◌
  from_log p = rw p (tt, inl refl)

  from_known :
      (provider : Bytes)
      → env (codes "NOTIFIER_PROVIDER") ≡ provider
      → is_one_of provider notifier_providers ≡ true
      → any_missing env (required_by provider) ≡ false
      → SelectsReady built (select_notifier_explicit true built)
  unfolding is_one_of
  from_known provider e known have = elim (Bool-cases (provider ==ᵇ codes "unsend")) [
    | inl is ↦
        let p = ==ᵇ-eq provider (codes "unsend") is in
        from_unsend (e ∙ p) (subst (λ q. any_missing env (required_by q) ≡ false) p have)
    | inr no1 ↦ elim (Bool-cases (provider ==ᵇ codes "resend")) [
      | inl is ↦
          let p = ==ᵇ-eq provider (codes "resend") is in
          from_resend (e ∙ p) (subst (λ q. any_missing env (required_by q) ≡ false) p have)
      | inr no2 ↦ elim (Bool-cases (provider ==ᵇ codes "sendgrid")) [
        | inl is ↦
            let p = ==ᵇ-eq provider (codes "sendgrid") is in
            from_sendgrid (e ∙ p) (subst (λ q. any_missing env (required_by q) ≡ false) p have)
        | inr no3 ↦ elim (Bool-cases (provider ==ᵇ codes "mailgun")) [
          | inl is ↦
              let p = ==ᵇ-eq provider (codes "mailgun") is in
              from_mailgun (e ∙ p) (subst (λ q. any_missing env (required_by q) ≡ false) p have)
          | inr no4 ↦ from_log (e ∙ ==ᵇ-eq provider (codes "log") (ground arith))
        ]
      ]
    ]
  ]

  built-ready :
      HasNotifier env (env (codes "NOTIFIER_PROVIDER"))
      → SelectsReady built (select_notifier true built)
  unfolding select_notifier app_config
  built-ready has = elim (Bool-cases (is_empty (env (codes "NOTIFIER_PROVIDER")))) [
    | inl unset ↦
        let (ready, preferred) = cascade-IsReady built in rw unset (ready, inr (unset, preferred))
    | inr set ↦ rw set (elim has [
      | inl none_set ↦ absurd (ground arith)
      | inr known ↦ from_known (env (codes "NOTIFIER_PROVIDER")) refl known.0 known.1
    ])
  ]

-- With a configuration that was loaded, and a domain that Mailgun's notifier takes, the program
-- selects a notifier. It is the one of the provider that the configuration names, or, where it names
-- none, the first of Unsend, Resend and SendGrid whose key and sender are set, or else the log. Any
-- but the log has its key and the address that it sends from, and Mailgun its domain.
pub select_notifier-SelectsReady :
    (parse_duration : Bytes → Option Int64) (env : Environ) (c : AppConfig)
    → load parse_duration env ≡ ok c
    → SelectsReady c (select_notifier true c)
select_notifier-SelectsReady parse_duration env c h =
    let (interval, same, positive, database, notifier, secret) =
      load-Loaded parse_duration env c h in
    subst (λ k. SelectsReady k (select_notifier true k)) same
      (built-ready env interval (env (codes "DATABASE_MODE")) (env (codes "EDPROOF_HMAC_SECRET"))
        (notifier_of env (env (codes "NOTIFIER_PROVIDER")) notifier))
