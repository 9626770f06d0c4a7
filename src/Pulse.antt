-- ===== src/Pulse.antt =====
-- cmd/pulse/main.go: the report on the service, up to its numbers. The environment, the database's
-- rows and the answers of the HTTP server are the outside. The text of the report, which prints
-- floating-point numbers, is left out.
pub mod Percentile
use mailservice.Prelude.{
  ℕ, zero, suc, ◌+◌, ◌-◌, ◌*◌, ◌/◌, Bool, true, false, not, ◌&&◌, ◌||◌, Option, none, some, List,
  [], ◌∷◌, ◌++◌, leb, ltb, ◌==◌, ◌%◌, ◌^◌, if◌then◌else◌, Bytes, codes, length, reverse, sort_by,
}
use mailservice.Calendar.{Time, hour, minute}
use mailservice.Text.{is_empty, trim_space, has_prefix}
use mailservice.Domain.{MailboxStatus, is_active}
use mailservice.Ports.{Result, ok, err, Error, message, external}
use mailservice.EdProof.Decimal.{Int64, nonneg, negative, parse_int, format_int}
use mailservice.Repository.Query.{count_rows}

abbrev pub default_public_base_url : Bytes
default_public_base_url = codes "https://truevipaccess.com"

abbrev pub health_probe_samples : ℕ
health_probe_samples = 5

-- strings.TrimSuffix(s, c) where `c` is the last byte, and `none` where it is not
unfoldable pub cut_last : ℕ → Bytes → Option Bytes
cut_last d [] = none
cut_last d (c ∷ []) = if c == d then some [] else none
cut_last d (c ∷ e ∷ s) = elim (cut_last d (e ∷ s)) [ none ↦ none | some rest ↦ some (c ∷ rest) ]

-- A number above 0 times its unit, as the pattern of a `time.Duration`
abbrev span_of : ℕ → Bytes → Option Int64 → Result ℕ
span_of unit problem none = err (message problem)
span_of unit problem (some (negative n)) = err (message problem)
span_of unit problem (some (nonneg n)) =
    if n == 0 then err (message problem) else ok ((n * unit) % (2 ^ 64))

abbrev days_or_invalid : Option Bytes → Result ℕ
days_or_invalid none = err (message (codes "invalid window"))
days_or_invalid (some digits) = span_of (24 * hour) (codes "invalid day window") (parse_int digits)

abbrev hours_or_days : Bytes → Option Bytes → Result ℕ
hours_or_days value (some digits) = span_of hour (codes "invalid hour window") (parse_int digits)
hours_or_days value none = days_or_invalid (cut_last b'd' value)

-- parseWindow; the errors are named without the text that they quote.
unfoldable pub parse_window : Bytes → Result ℕ
parse_window value = hours_or_days (trim_space value) (cut_last b'h' (trim_space value))

pub record PulseConfig : Type 0 where
  pub database_url : Bytes
  pub database_auth : Bytes
  pub public_base_url : Bytes
  pub admin_api_key : Bytes

abbrev missing : Bytes → Error
missing name = message (codes "required environment variable " ++ name ++ codes " is missing")

abbrev value_or_missing : Bytes → Option Bytes → Result Bytes
value_or_missing name none = err (missing name)
value_or_missing name (some value) =
    if is_empty (trim_space value) then err (missing name) else ok (trim_space value)

-- requiredEnv; `environ` is os.LookupEnv.
unfoldable pub required_env : (Bytes → Option Bytes) → Bytes → Result Bytes
required_env environ name = value_or_missing name (environ name)

abbrev getenv : Option Bytes → Bytes
getenv none = []
getenv (some value) = value

abbrev after : {A B : Type 0} → Result A → (A → Result B) → Result B
after (err e) f = err e
after (ok a) f = f a

-- loadPulseConfig
unfoldable pub load_pulse_config : (Bytes → Option Bytes) → Result PulseConfig
load_pulse_config environ =
    after (required_env environ (codes "TURSO_DATABASE_URL")) (λ database_url.
      after (required_env environ (codes "TURSO_AUTH_TOKEN")) (λ database_auth.
        after (required_env environ (codes "ADMIN_API_KEY")) (λ admin_api_key.
          let base = trim_space (getenv (environ (codes "PUBLIC_BASE_URL"))) in
          ok (record {
            database_url = database_url;
            database_auth = database_auth;
            public_base_url = if is_empty base then default_public_base_url else base;
            admin_api_key = admin_api_key;
          }))))

-- The columns of `mailboxes` that the report counts by
pub record MailboxDates : Type 0 where
  pub status : MailboxStatus
  pub created_at : Time
  pub paid_at : Option Time

pub record DatabaseMetrics : Type 0 where
  pub active_paid_mailboxes : ℕ
  pub new_claims : ℕ
  pub activated : ℕ
  pub support_volume : ℕ
  pub renewals_in_window : ℕ

-- t >= start AND t < end
abbrev pub is_within : Time → Time → Time → Bool
is_within start end t = leb start t && ltb t end

abbrev pub is_within? : Time → Time → Option Time → Bool
is_within? start end none = false
is_within? start end (some t) = is_within start end t

-- collectDatabaseMetrics, on the rows of `mailboxes` and the times of `support_messages`, where no
-- query fails
unfoldable pub collect_database_metrics :
    List MailboxDates → List Time → Time → Time → DatabaseMetrics
collect_database_metrics rows support start end = record {
  active_paid_mailboxes = count_rows (λ (r : MailboxDates). is_active r.status) rows;
  new_claims = count_rows (λ (r : MailboxDates). is_within start end r.created_at) rows;
  activated =
      count_rows (λ (r : MailboxDates). is_within start end r.created_at && is_active r.status)
        rows;
  support_volume = count_rows (is_within start end) support;
  renewals_in_window =
      count_rows (λ (r : MailboxDates). is_within? start end r.paid_at && is_active r.status) rows;
}

-- What a probe of /healthz took, and its status, none where the request failed
pub record Probe : Type 0 where
  pub duration : ℕ
  pub status_code : Option ℕ

pub record HealthMetrics : Type 0 where
  pub p50 : ℕ
  pub p95 : ℕ
  pub p99 : ℕ
  pub non_200 : ℕ
  pub probe_count : ℕ

abbrev pub nth_or : ℕ → ℕ → List ℕ → ℕ
nth_or fallback i [] = fallback
nth_or fallback zero (x ∷ xs) = x
nth_or fallback (suc i) (x ∷ xs) = nth_or fallback i xs

-- d.Round(time.Millisecond) of a duration that is not negative: half a millisecond is rounded up.
abbrev pub round_ms : ℕ → ℕ
round_ms d = ((d + 500_000) / 1_000_000) * 1_000_000

-- int(math.Ceil(float64(percentile)*float64(n)/100)) - 1, cut to the indices of `n` samples
abbrev pub rank_index : ℕ → ℕ → ℕ
rank_index percentile n =
    let index = (percentile * n + 99) / 100 - 1 in if leb n index then n - 1 else index

-- percentileDuration
unfoldable pub percentile_duration : List ℕ → ℕ → ℕ
percentile_duration samples percentile =
    let sorted = sort_by ltb samples in
    round_ms (nth_or 0 (rank_index percentile (length sorted)) sorted)

abbrev pub is_failed : Option ℕ → Bool
is_failed none = true
is_failed (some status) = not (status == 200)

abbrev durations : List Probe → List ℕ
durations [] = []
durations (p ∷ probes) = p.duration ∷ durations probes

-- The first `n` probes, in their order
unfoldable pub first_probes : (ℕ → Probe) → ℕ → List Probe
first_probes probe zero = []
first_probes probe (suc n) = first_probes probe n ++ probe n ∷ []

-- probeHealthz; `probe` is what probeHealthzOnce gives when it is called for a time.
unfoldable pub probe_healthz : (ℕ → Probe) → HealthMetrics
unfolding percentile_duration first_probes
probe_healthz probe =
    let probes = first_probes probe health_probe_samples in
    record {
      p50 = percentile_duration (durations probes) 50;
      p95 = percentile_duration (durations probes) 95;
      p99 = percentile_duration (durations probes) 99;
      non_200 = count_rows (λ (p : Probe). is_failed p.status_code) probes;
      probe_count = length probes;
    }

pub record AdminTopError : Type 0 where
  pub msg : Bytes
  pub count : ℕ

-- fmt.Sprintf("%s (%d)", item.Msg, item.Count)
abbrev shown_error : AdminTopError → Bytes
shown_error item = item.msg ++ codes " (" ++ format_int item.count ++ codes ")"

-- strings.Join(parts, "; ")
unfoldable pub join_errors : AdminTopError → List AdminTopError → Bytes
join_errors item [] = shown_error item
join_errors item (next ∷ rest) = shown_error item ++ codes "; " ++ join_errors next rest

-- formatTopErrors
unfoldable pub format_top_errors : List AdminTopError → Bytes
format_top_errors [] = codes "none"
format_top_errors (item ∷ rest) = join_errors item rest

-- The checks of fetchAdminMetrics on the response: the status, and then the decoded body
unfoldable pub fetch_admin_metrics : {A : Type 0} → Result ℕ → Result A → Result A
fetch_admin_metrics (err e) payload = err e
fetch_admin_metrics (ok status) payload =
    if ltb status 200 || leb 300 status
    then err (message (codes "admin metrics status " ++ format_int status))
    else payload
