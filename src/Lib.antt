-- ===== src/Lib.antt =====
-- A model of the mail service and the proofs about it.
--
-- The service sells mailboxes to agents that identify themselves by an SSH key. A claim binds a
-- mailbox to a key and asks for a payment (or, in free mode, for the click on an emailed link); a
-- payment, found by polling the payment gateway, makes the mailbox active for a time; sweeps take
-- the access away when the time is over; a key or an access token resolves to IMAP credentials.
--
-- Parts, with the Go files that they model:
--   * Domain, Ports: internal/domain/*.go and internal/core/ports/ports.go, the records, the errors
--     and the messages between services and adapters. An error wrapped by fmt.Errorf keeps its
--     fixed words; `panicked` is a run-time panic.
--   * World: the state and the monad of a service call. The state holds the tables, the mail that
--     was sent and a counter. The parameter Env is the outside: every reading of the clock and
--     every call that leaves the program takes the next number, and Env answers by that number (the
--     time, whether the call fails, random tokens, the gateway's answers). An action returns the
--     state beside an error too, since Go keeps what was written before it. World.Yields has the
--     rules for postconditions of actions that succeed, World.Keeps those for what an action keeps
--     even if it fails.
--   * Repository: internal/adapters/repository/*.go. Models is mailboxModel with toDomain and
--     toModel; Mailboxes, Accounts, Runtime and Support have one function for each method. A table
--     is the list of its rows in the order of their creation; writes check the primary key and the
--     unique indexes of the migrations.
--   * Service: internal/core/service/mailbox_service.go and mailbox_service_free.go. Config holds
--     the settings of MailboxService, a nil adapter being a false flag. Claim is ClaimMailbox;
--     Payment is MarkMailboxPaid, RenewMailbox and the two reconciliations; Expiry the sweeps;
--     Access the resolution of tokens and keys and the reading of mail; Free the activation links
--     and the switchover; Accounts is CreateMailbox and ReprovisionMailbox; Support is
--     SendSupportMessage. Tables takes the methods as steps that keep the rules of the table of
--     mailboxes.
--   * Sessions: internal/core/service/account_service.go, accounts, refresh tokens and recovery.
--     Sessions.Once takes its calls as steps, one whole call after another.
--   * EdProof: internal/adapters/identity/edproof/challenge.go and verifier.go: challenges with an
--     HMAC (Challenge), OpenSSH public keys (Keys), the SSH wire format (Wire), SSH signatures
--     (SshSig) and the verifier (Verifier), over the parameter Crypto for base64, SHA-2, HMAC and
--     Ed25519. Hex and Decimal are the functions of encoding/hex and strconv that they call.
--   * Http: internal/adapters/httpapi/handler.go, semaphore.go and metrics_middleware.go. A handler
--     is a service action that ends with a response, a status and a body before it is encoded; what
--     json.Decoder made of the request is its argument, and a panic gives no response. Accounts,
--     Mailboxes, Access, Support, Payments and Admin have the handlers; Semaphore is
--     withGlobalSemaphore over a sequence of arrivals and ends, Middleware the recording writer,
--     Routes the table of patterns. Gate and the modules behind it have the proofs.
--   * OpenCollective, Stripe: internal/adapters/payment/opencollective_gateway.go and
--     stripe_gateway.go; the answers of their APIs are parameters.
--   * Metrics: Counter, TopN, Histogram and Registry of internal/platform/metrics/metrics.go; the
--     map and the list of TopN are one list, an array is the function from its indices, and the
--     maps of the registry are lists of named metrics. The counts of TopN, which grow by one, are
--     natural numbers.
--   * ImapStats: internal/platform/imapstats/journal.go, the lines of the mail server's journal
--     counted in the registry.
--   * Notify: internal/adapters/notify/*.go, the mails of the four providers with their texts and
--     their HTML, and what an answer means. The services send through Env; a notifier is how that
--     call is answered.
--   * Imap: internal/adapters/imap/reader.go over a client whose commands are parameters.
--   * AppConfig: Load of internal/platform/config/config.go over an environment. App: the choice of
--     the notifier in cmd/app/main.go, and in App.Schedule the timers of main as a sequence of
--     ticks.
--   * Pulse: cmd/pulse/main.go, the numbers of the report.
--   * Calendar, Text: the functions of Go's time and strings that the code calls. Text.Runes is the
--     conversion of a string to runes and back, by UTF-8.
--   * Prelude: names of the libraries, Boolean tests on native numbers, byte strings.
--   * Tests: the theorems applied to concrete data.
--
-- Conventions: texts are lists of bytes, case mapping is that of ASCII. A time counts nanoseconds
-- since 1970 (UTC); AddDate walks the months of the Gregorian calendar. Go's signed integers that the
-- code keeps from being negative are natural numbers. uint32 sums of the wire format keep their wrap
-- around; key blobs are below 2 GB where a theorem says so. Fuel occurs in the decimal digits of a
-- number, one step for each, and in the search for the month of a day, one step for each day; both
-- are given more than they use. The partial counts that loops return beside an error are dropped.
--
-- The pages of Open Collective are read at most 20 times, which is the bound of the source.
--
-- Not modelled: mutexes (a call runs alone), contexts and logging; the random source, whose answers
-- are parameters; the percentiles of a histogram and the text of the pulse report, which compute in
-- floating point; the texts of static pages; database set-up and migrations, and the rest of
-- cmd/app, which wires the parts together. hashToken is the parameter hash_token of Env.
pub mod Prelude
pub mod Text
pub mod Calendar
pub mod Domain
pub mod Ports
pub mod World
pub mod Repository
pub mod Service
pub mod Sessions
pub mod EdProof
pub mod Metrics
pub mod Notify
pub mod Imap
pub mod ImapStats
pub mod Pulse
pub mod OpenCollective
pub mod Http
pub mod AppConfig
pub mod Stripe
pub mod App
pub mod Tests
