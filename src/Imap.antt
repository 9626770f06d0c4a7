-- ===== src/Imap.antt =====
-- internal/adapters/imap/reader.go: the messages of a mailbox, read from its IMAP server. The
-- client library and the server are the outside: a `Client` answers each command.
pub mod Entries
pub mod Newest
use mailservice.Prelude.{
  ℕ, Bool, true, false, not, ◌&&◌, ◌-◌, Option, none, some, List, [], ◌∷◌, ◌++◌, map, reverse, ltb,
  ◌==◌, if◌then◌else◌, Bytes, codes, length, drop, sort_by,
}
use mailservice.Text.{trim_space}
use mailservice.Calendar.{Time}
use mailservice.Ports.{Result, ok, err, Error, message_not_found}

-- ports.IMAPMessage
pub record ImapEntry : Type 0 where
  pub uid : ℕ
  pub subject : Bytes
  pub from : Bytes
  pub date : Time
  pub body : Bytes

-- imap.Address
pub record ImapAddress : Type 0 where
  pub mailbox_name : Bytes
  pub host_name : Bytes

-- imap.Envelope
pub record Envelope : Type 0 where
  pub subject : Bytes
  pub from : List ImapAddress

-- imap.Message; `body` is what the text section reads as, none if it is missing or cannot be read.
pub record FetchedMessage : Type 0 where
  pub uid : ℕ
  pub internal_date : Time
  pub envelope : Option Envelope
  pub body : Option Bytes

-- The commands of a logged-in connection: UidSearch by whether seen messages are left out, and
-- UidFetch by the identifiers and by whether the body is asked for.
pub record Client : Type 0 where
  pub select_inbox : Result (Unit {0})
  pub uid_search : Bool → Result (List ℕ)
  pub uid_fetch : List ℕ → Bool → Result (List FetchedMessage)

-- The server of the program: how a connection is opened, with TLS or without it, and the login
pub record Server : Type 0 where
  pub dial : Bool → Bytes → ℕ → Result (Unit {0})
  pub login : Bytes → Bytes → Result Client

abbrev after : {A B : Type 0} → Result A → (A → Result B) → Result B
after (err e) f = err e
after (ok a) f = f a

-- connectAndLogin: TLS on port 993
unfoldable pub connect_and_login : Server → Bytes → ℕ → Bytes → Bytes → Result Client
connect_and_login server host port username password =
    after (server.dial (port == 993) host port) (λ _. server.login username password)

abbrev sender_of : List ImapAddress → Bytes
sender_of [] = []
sender_of (a ∷ rest) = a.mailbox_name ++ codes "@" ++ a.host_name

abbrev subject_in : Option Envelope → Bytes
subject_in none = []
subject_in (some e) = e.subject

abbrev from_in : Option Envelope → Bytes
from_in none = []
from_in (some e) = sender_of e.from

abbrev body_in : Option Bytes → Bytes
body_in none = []
body_in (some text) = trim_space text

-- The entry that fetchByUIDs makes of a message
unfoldable pub entry_of : Bool → FetchedMessage → ImapEntry
entry_of include_body msg = record {
  uid = msg.uid;
  subject = subject_in msg.envelope;
  from = from_in msg.envelope;
  date = msg.internal_date;
  body = if include_body then body_in msg.body else [];
}

abbrev pub uid_before : ImapEntry → ImapEntry → Bool
uid_before a b = ltb a.uid b.uid

-- fetchByUIDs, with a context that is not cancelled; the messages are all received before the
-- error of the command is looked at.
unfoldable pub fetch_by_uids : Client → List ℕ → Bool → Result (List ImapEntry)
fetch_by_uids c [] include_body = ok []
fetch_by_uids c (u ∷ uids) include_body =
    after (c.uid_fetch (u ∷ uids) include_body)
      (λ messages. ok (sort_by uid_before (map (entry_of include_body) messages)))

-- The identifiers that are fetched: the highest `limit` ones, in ascending order
unfoldable pub newest_uids : ℕ → List ℕ → List ℕ
newest_uids limit uids =
    let sorted = sort_by ltb uids in
    if ltb limit (length sorted) then drop (length sorted - limit) sorted else sorted

-- ListMessages, on a connection; reverseMessages puts the newest first.
unfoldable pub list_inbox : Client → ℕ → Bool → Bool → Result (List ImapEntry)
list_inbox c limit unread_only include_body = after c.select_inbox (λ _.
    after (c.uid_search unread_only) (λ uids.
      after (fetch_by_uids c (newest_uids limit uids) include_body)
        (λ results. ok (reverse results))))

-- ListMessages
unfoldable pub list_messages :
    Server → Bytes → ℕ → Bytes → Bytes → ℕ → Bool → Bool → Result (List ImapEntry)
list_messages server host port username password limit unread_only include_body =
    after (connect_and_login server host port username password)
      (λ c. list_inbox c limit unread_only include_body)

abbrev first_entry : List ImapEntry → Result ImapEntry
first_entry [] = err message_not_found
first_entry (m ∷ rest) = ok m

-- GetMessageByUID
unfoldable pub get_message_by_uid : Server → Bytes → ℕ → Bytes → Bytes → ℕ → Bool → Result ImapEntry
get_message_by_uid server host port username password uid include_body =
    after (connect_and_login server host port username password)
      (λ c. after c.select_inbox (λ _. after (fetch_by_uids c (uid ∷ []) include_body) first_entry))
