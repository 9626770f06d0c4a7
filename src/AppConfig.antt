-- ===== src/AppConfig.antt =====
-- internal/platform/config/config.go: the settings of the program, from its environment.
pub mod Sound
use mailservice.Prelude.{
  ℕ, zero, Bool, true, false, not, ◌&&◌, ◌||◌, Option, none, some, List, [], ◌∷◌, if◌then◌else◌,
  ltb, length, Bytes, codes, ◌==ᵇ◌,
}
use mailservice.Calendar.{Time}
use mailservice.Text.{is_empty}
use mailservice.Ports.{Result, ok, err, Error, message}
use mailservice.EdProof.Decimal.{Int64, nonneg, negative, parse_int}

-- os.Getenv: a variable that is not set reads as an empty text.
abbrev pub Environ : Type 0
Environ = Bytes → Bytes

-- config.Config
pub record AppConfig : Type 0 where
  pub http_addr : Bytes
  pub database_mode : Bytes
  pub database_dsn : Bytes
  pub turso_database_url : Bytes
  pub turso_auth_token : Bytes
  pub admin_api_key : Bytes
  pub max_concurrent_reqs : ℕ
  pub build_number : Bytes
  pub cache_buster : Bytes
  pub public_base_url : Bytes
  pub mail_domain : Bytes
  pub imap_host : Bytes
  pub imap_port : ℕ
  pub free_mode : Bool
  pub notifier_provider : Bytes
  pub sendgrid_api_key : Bytes
  pub sendgrid_from_email : Bytes
  pub sendgrid_from_name : Bytes
  pub resend_api_key : Bytes
  pub resend_from_email : Bytes
  pub resend_from_name : Bytes
  pub unsend_key : Bytes
  pub unsend_base_url : Bytes
  pub unsend_from_email : Bytes
  pub unsend_from_name : Bytes
  pub mailgun_api_key : Bytes
  pub mailgun_domain : Bytes
  pub mailgun_base_url : Bytes
  pub mailgun_from_email : Bytes
  pub mailgun_from_name : Bytes
  pub opencollective_checkout_url : Bytes
  pub opencollective_personal_token : Bytes
  pub opencollective_project_slug : Bytes
  pub opencollective_tier_slug : Bytes
  pub opencollective_api_url : Bytes
  pub opencollective_reconcile_interval : Time
  pub stripe_secret_key : Bytes
  pub stripe_webhook_secret : Bytes
  pub stripe_success_url : Bytes
  pub stripe_cancel_url : Bytes
  pub stripe_currency : Bytes
  pub mailbox_price_cents : Int64
  pub edproof_hmac_secret : Bytes
  pub support_email : Bytes

-- getEnv
unfoldable pub get_env : Environ → Bytes → Bytes → Bytes
get_env env key fallback = if is_empty (env key) then fallback else env key

abbrev int64_or : Int64 → Option Int64 → Int64
int64_or fallback none = fallback
int64_or fallback (some n) = n

-- getEnvInt64
unfoldable pub get_env_int64 : Environ → Bytes → Int64 → Int64
get_env_int64 env key fallback =
    if is_empty (env key) then fallback else int64_or fallback (parse_int (env key))

abbrev int_or : ℕ → Option Int64 → ℕ
int_or fallback (some (nonneg n)) = n
int_or fallback (some (negative zero)) = 0
int_or fallback _ = fallback

-- getEnvInt
unfoldable pub get_env_int : Environ → Bytes → ℕ → ℕ
get_env_int env key fallback =
    if is_empty (env key) then fallback else int_or fallback (parse_int (env key))

unfoldable pub is_one_of : Bytes → List Bytes → Bool
is_one_of s [] = false
is_one_of s (t ∷ ts) = (s ==ᵇ t) || is_one_of s ts

-- strconv.ParseBool, with what stands for a text that is none
unfoldable pub bool_or : Bool → Bytes → Bool
bool_or fallback s =
    if is_one_of s
      (codes "1" ∷ codes "t" ∷ codes "T" ∷ codes "TRUE" ∷ codes "true" ∷ codes "True" ∷ [])
    then true
    else if is_one_of s
        (codes "0" ∷ codes "f" ∷ codes "F" ∷ codes "FALSE" ∷ codes "false" ∷ codes "False" ∷ [])
    then false
    else fallback

-- getEnvBool
unfoldable pub get_env_bool : Environ → Bytes → Bool → Bool
get_env_bool env key fallback = if is_empty (env key) then fallback else bool_or fallback (env key)

-- The body of the loop of loadDotEnv; os.Setenv takes the keys of the file.
unfoldable pub set_missing : Bytes → Bytes → Environ → Environ
set_missing key value env k = if (k ==ᵇ key) && is_empty (env k) then value else env k

-- loadDotEnv, on the pairs of the file
unfoldable pub load_dot_env : List (Bytes × Bytes) → Environ → Environ
load_dot_env [] env = env
load_dot_env ((key, value) ∷ rest) env = load_dot_env rest (set_missing key value env)

abbrev pub notifier_providers : List Bytes
notifier_providers =
    codes "unsend" ∷ codes "resend" ∷ codes "sendgrid" ∷ codes "mailgun" ∷ codes "log" ∷ []

-- The variables that a provider requires
unfoldable pub required_by : Bytes → List Bytes
required_by provider =
    if provider ==ᵇ codes "unsend"
    then codes "UNSEND_KEY" ∷ codes "UNSEND_FROM_EMAIL" ∷ []
    else if provider ==ᵇ codes "resend"
    then codes "RESEND_API_KEY" ∷ codes "RESEND_FROM_EMAIL" ∷ []
    else if provider ==ᵇ codes "sendgrid"
    then codes "SENDGRID_API_KEY" ∷ codes "SENDGRID_FROM_EMAIL" ∷ []
    else if provider ==ᵇ codes "mailgun"
    then codes "MAILGUN_API_KEY" ∷ codes "MAILGUN_DOMAIN" ∷ codes "MAILGUN_FROM_EMAIL" ∷ []
    else []

-- One of the variables is empty.
unfoldable pub any_missing : Environ → List Bytes → Bool
any_missing env [] = false
any_missing env (key ∷ keys) = is_empty (env key) || any_missing env keys

-- validateNotifierProvider
unfoldable pub validate_notifier_provider : Environ → Bytes → Result (Unit {0})
validate_notifier_provider env provider =
    if is_empty provider
    then ok tt
    else if not (is_one_of provider notifier_providers)
    then err
        (message (codes "NOTIFIER_PROVIDER must be one of unsend, resend, sendgrid, mailgun, log"))
    else if any_missing env (required_by provider)
    then err (message (codes "NOTIFIER_PROVIDER requires its variables"))
    else ok tt

-- The check of the mode of the database
unfoldable pub check_database : Environ → Bytes → Result (Unit {0})
check_database env mode =
    if is_empty mode
    then err (message (codes "DATABASE_MODE is required"))
    else if not (mode ==ᵇ codes "turso") && not (mode ==ᵇ codes "local")
    then err (message (codes "DATABASE_MODE must be turso or local"))
    else if (mode ==ᵇ codes "turso")
        && any_missing env (codes "TURSO_DATABASE_URL" ∷ codes "TURSO_AUTH_TOKEN" ∷ [])
    then err (message (codes "DATABASE_MODE=turso requires its variables"))
    else ok tt

-- The check of the secret of the challenges
unfoldable pub check_secret : Bytes → Result (Unit {0})
check_secret secret =
    if is_empty secret
    then err (message (codes "EDPROOF_HMAC_SECRET is required"))
    else if ltb (length secret) 32
    then err (message (codes "EDPROOF_HMAC_SECRET must be at least 32 bytes"))
    else ok tt

abbrev pub bad_interval : Error
bad_interval = message (codes "OPENCOLLECTIVE_RECONCILE_INTERVAL must be a positive duration")

-- The interval, if it is a positive duration
abbrev pub positive_interval : Option Int64 → Result Time
positive_interval (some (nonneg n)) = if ltb 0 n then ok n else err bad_interval
positive_interval _ = err bad_interval

-- The configuration that Load builds
unfoldable pub app_config : Environ → Time → Bytes → Bytes → AppConfig
app_config env interval mode secret = record {
  http_addr = get_env env (codes "HTTP_ADDR") (codes ":8080");
  database_mode = mode;
  database_dsn = get_env env (codes "DATABASE_DSN") (codes "mailservice.db");
  turso_database_url = env (codes "TURSO_DATABASE_URL");
  turso_auth_token = env (codes "TURSO_AUTH_TOKEN");
  admin_api_key = env (codes "ADMIN_API_KEY");
  max_concurrent_reqs = get_env_int env (codes "MAX_CONCURRENT_REQUESTS") 100;
  build_number = get_env env (codes "BUILD_NUMBER") (codes "dev");
  cache_buster = get_env env (codes "CACHE_BUSTER") [];
  public_base_url = get_env env (codes "PUBLIC_BASE_URL") (codes "http://localhost:8080");
  mail_domain = get_env env (codes "MAIL_DOMAIN") (codes "mail.local");
  imap_host =
      get_env env (codes "IMAP_HOST") (get_env env (codes "MAIL_DOMAIN") (codes "mail.local"));
  imap_port = get_env_int env (codes "IMAP_PORT") 143;
  free_mode = get_env_bool env (codes "FREE_MODE") false;
  notifier_provider = env (codes "NOTIFIER_PROVIDER");
  sendgrid_api_key = env (codes "SENDGRID_API_KEY");
  sendgrid_from_email = get_env env (codes "SENDGRID_FROM_EMAIL") [];
  sendgrid_from_name = get_env env (codes "SENDGRID_FROM_NAME") (codes "MailService");
  resend_api_key = env (codes "RESEND_API_KEY");
  resend_from_email = get_env env (codes "RESEND_FROM_EMAIL") [];
  resend_from_name = get_env env (codes "RESEND_FROM_NAME") (codes "MailService");
  unsend_key = env (codes "UNSEND_KEY");
  unsend_base_url = get_env env (codes "UNSEND_BASE_URL") (codes "https://unsend.admin.lt/api");
  unsend_from_email = get_env env (codes "UNSEND_FROM_EMAIL") [];
  unsend_from_name = get_env env (codes "UNSEND_FROM_NAME") (codes "MailService");
  mailgun_api_key = env (codes "MAILGUN_API_KEY");
  mailgun_domain = env (codes "MAILGUN_DOMAIN");
  mailgun_base_url = get_env env (codes "MAILGUN_BASE_URL") (codes "https://api.mailgun.net");
  mailgun_from_email = get_env env (codes "MAILGUN_FROM_EMAIL") [];
  mailgun_from_name = get_env env (codes "MAILGUN_FROM_NAME") (codes "MailService");
  opencollective_checkout_url = get_env env (codes "OPENCOLLECTIVE_CHECKOUT_URL") (
      codes
        "https://opencollective.com/it-uoga/projects/truevipaccess/contribute/mailbox-monthly-106782/checkout");
  opencollective_personal_token = env (codes "OPENCOLLECTIVE_PERSONAL_TOKEN");
  opencollective_project_slug =
      get_env env (codes "OPENCOLLECTIVE_PROJECT_SLUG") (codes "truevipaccess");
  opencollective_tier_slug =
      get_env env (codes "OPENCOLLECTIVE_TIER_SLUG") (codes "mailbox-monthly");
  opencollective_api_url =
      get_env env (codes "OPENCOLLECTIVE_API_URL")
        (codes "https://api.opencollective.com/graphql/v2");
  opencollective_reconcile_interval = interval;
  stripe_secret_key = env (codes "STRIPE_SECRET_KEY");
  stripe_webhook_secret = env (codes "STRIPE_WEBHOOK_SECRET");
  stripe_success_url =
      get_env env (codes "STRIPE_SUCCESS_URL") (codes "http://localhost:8080/payment/success");
  stripe_cancel_url =
      get_env env (codes "STRIPE_CANCEL_URL") (codes "http://localhost:8080/payment/cancel");
  stripe_currency = get_env env (codes "STRIPE_CURRENCY") (codes "usd");
  mailbox_price_cents = get_env_int64 env (codes "MAILBOX_PRICE_CENTS") (nonneg 100);
  edproof_hmac_secret = secret;
  support_email = get_env env (codes "SUPPORT_EMAIL") (codes "mbx_014d51a9d0b@truevipaccess.com");
}

abbrev pub checked :
    Result Time
    → Result (Unit {0})
    → Result (Unit {0})
    → Result (Unit {0})
    → (Time → AppConfig)
    → Result AppConfig
checked (err e) database provider secret make = err e
checked (ok interval) (err e) provider secret make = err e
checked (ok interval) (ok _) (err e) secret make = err e
checked (ok interval) (ok _) (ok _) (err e) make = err e
checked (ok interval) (ok _) (ok _) (ok _) make = ok (make interval)

-- Load behind loadDotEnv; `parse_duration` is time.ParseDuration.
unfoldable pub load : (Bytes → Option Int64) → Environ → Result AppConfig
load parse_duration env =
    let mode = env (codes "DATABASE_MODE") in
    let secret = env (codes "EDPROOF_HMAC_SECRET") in
    checked
      (positive_interval
        (parse_duration (get_env env (codes "OPENCOLLECTIVE_RECONCILE_INTERVAL") (codes "15m"))))
      (check_database env mode) (validate_notifier_provider env (env (codes "NOTIFIER_PROVIDER")))
      (check_secret secret) (λ interval. app_config env interval mode secret)
