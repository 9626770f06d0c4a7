-- ===== src/ImapStats.antt =====
-- internal/platform/imapstats/journal.go: the lines of the mail server's journal, counted in the
-- registry. The process that prints the journal is the outside; each of its entries is a message,
-- or none where its JSON is malformed.
use mailservice.Prelude.{
  Bool, true, false, ◌&&◌, Option, none, some, List, [], ◌∷◌, ltb, ◌==◌, if◌then◌else◌, Bytes,
  codes, length, drop,
}
use mailservice.Calendar.{Time}
use mailservice.Text.{has_prefix}
use mailservice.EdProof.Decimal.{Int64, nonneg, negative, parse_int}
use mailservice.Metrics.Counter.{add}
use mailservice.Metrics.Registry.{Registry, on_counter}

-- What stands behind the first occurrence of `marker`
unfoldable pub behind : Bytes → Bytes → Option Bytes
behind marker [] = if has_prefix [] marker then some [] else none
behind marker (c ∷ s) =
    let rest = behind marker s in
    if has_prefix (c ∷ s) marker then some (drop (length marker) (c ∷ s)) else rest

abbrev pub is_found : Option Bytes → Bool
is_found none = false
is_found (some _) = true

-- strings.Contains(s, marker)
abbrev pub contains : Bytes → Bytes → Bool
contains s marker = is_found (behind marker s)

-- What stands before the first space
unfoldable pub until_space : Bytes → Bytes
until_space [] = []
until_space (c ∷ s) = let rest = until_space s in if c == 32 then [] else c ∷ rest

-- isImapLogin
unfoldable pub is_imap_login : Bytes → Bool
is_imap_login message =
    contains message (codes "imap-login:") && contains message (codes " Login: user=")

abbrev count_in : Option Bytes → Option Int64
count_in none = none
count_in (some value) = parse_int (until_space value)

-- imapLogoutBodyCount
unfoldable pub imap_logout_body_count : Bytes → Option Int64
imap_logout_body_count message = count_in (behind (codes " body_count=") message)

abbrev add_fetched : Time → Option Int64 → Registry → Registry
add_fetched now none r = r
add_fetched now (some (negative n)) r = r
add_fetched now (some (nonneg n)) r =
    if ltb 0 n then on_counter now (add n) (codes "imap_message_fetched") r else r

-- What Run does with a message
unfoldable pub count_message : Time → Bytes → Registry → Registry
count_message now message r =
    let logged =
      if is_imap_login message then on_counter now (add 1) (codes "imap_login") r else r in
    add_fetched now (imap_logout_body_count message) logged

abbrev count_entry : Time → Option Bytes → Registry → Registry
count_entry now none r = r
count_entry now (some message) r = count_message now message r

-- The scanner's loop of Run, at the time of each entry
unfoldable pub count_entries : List (Time × Option Bytes) → Registry → Registry
count_entries [] r = r
count_entries ((now, entry) ∷ rest) r = count_entries rest (count_entry now entry r)
