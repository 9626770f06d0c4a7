-- ===== src/Tests/Config.antt =====
-- The configuration on concrete data.
use mailservice.Prelude.{◌*◌, ◌≡◌, refl, true, some, [], if◌then◌else◌, codes, ◌==ᵇ◌}
use mailservice.Ports.{ok}
use mailservice.Calendar.{minute}
use mailservice.EdProof.Decimal.{nonneg}
use mailservice.AppConfig.{
  Environ, AppConfig, get_env, check_database, check_secret, validate_notifier_provider,
  any_missing, app_config, load,
}
use mailservice.AppConfig.Sound.{IsSound, load-IsSound}
use mailservice.App.{select_notifier}
use mailservice.App.Selection.{SelectsReady, select_notifier-SelectsReady}

-- A local database and a secret
abbrev environ : Environ
environ key =
    if key ==ᵇ codes "DATABASE_MODE"
    then codes "local"
    else if key ==ᵇ codes "EDPROOF_HMAC_SECRET"
    then codes "0123456789abcdef0123456789abcdef"
    else []

abbrev loaded : AppConfig
loaded = app_config environ (15 * minute) (codes "local") (codes "0123456789abcdef0123456789abcdef")

accepted : load (λ text. some (nonneg (15 * minute))) environ ≡ ok loaded
unfolding load check_database check_secret validate_notifier_provider any_missing get_env ◌==ᵇ◌
accepted = refl

load-IsSound_example : IsSound environ loaded
load-IsSound_example = load-IsSound (λ text. some (nonneg (15 * minute))) environ loaded accepted

-- The same with a key and a sender of Resend, and with a key of Unsend that has no sender
abbrev resend_environ : Environ
resend_environ key =
    if key ==ᵇ codes "RESEND_API_KEY"
    then codes "re"
    else if key ==ᵇ codes "RESEND_FROM_EMAIL"
    then codes "a@m.lt"
    else if key ==ᵇ codes "UNSEND_KEY"
    then codes "un"
    else environ key

abbrev resend_loaded : AppConfig
resend_loaded =
    app_config resend_environ (15 * minute) (codes "local")
      (codes "0123456789abcdef0123456789abcdef")

resend_accepted : load (λ text. some (nonneg (15 * minute))) resend_environ ≡ ok resend_loaded
unfolding load check_database check_secret validate_notifier_provider any_missing get_env ◌==ᵇ◌
resend_accepted = refl

select_notifier-SelectsReady_example :
    SelectsReady resend_loaded (select_notifier true resend_loaded)
select_notifier-SelectsReady_example =
    select_notifier-SelectsReady (λ text. some (nonneg (15 * minute))) resend_environ resend_loaded
      resend_accepted
