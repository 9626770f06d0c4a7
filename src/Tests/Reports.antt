-- ===== src/Tests/Reports.antt =====
-- The reading of an inbox, the HTML of the mails and the report's percentiles on concrete data.
use mailservice.Prelude.{
  ℕ, ◌≡◌, refl, true, false, none, [], ◌∷◌, List, arith, codes, map, sort_by, insert_by,
}
use mailservice.Ports.{ok, Mail}
use mailservice.Notify.{Request}
use mailservice.Notify.Mailgun.{MailgunNotifier}
use mailservice.Notify.Escape.{markup, payment, Requests, notify-markup}
use mailservice.Imap.{Client, ImapEntry, FetchedMessage, newest_uids, list_inbox}
use mathlib.Core.List.{Perm}
use mailservice.Imap.Entries.{AreEntries}
use mailservice.Imap.Newest.{IsListing, list_inbox-IsListing}
use mailservice.Pulse.{percentile_duration, round_ms}
use mailservice.Pulse.Percentile.{IsNearestRank, percentile_duration-IsNearestRank}
use mailservice.Repository.Query.{here, there}

abbrev mailgun : MailgunNotifier
mailgun = record {
  api_key = codes "k";
  domain = codes "m.lt";
  base_url = codes "https://api.mailgun.net";
  from_email = codes "a@m.lt";
  from_name = [];
}

-- A payment link with markup in its identifier and its address, and one without
notify-markup_example :
    (r r' : Request) × Requests mailgun (Mail.payment_link [] (codes "\"><a>") (codes "<")) r
    × Requests mailgun (Mail.payment_link [] (codes "/") (codes "1")) r'
    × (markup r.email.html ≡ markup r'.email.html)
notify-markup_example =
    notify-markup mailgun (Mail.payment_link [] (codes "\"><a>") (codes "<"))
      (Mail.payment_link [] (codes "/") (codes "1"))
      (payment [] [] (codes "\"><a>") (codes "/") (codes "<") (codes "1"))

abbrev message_of : ℕ → FetchedMessage
message_of uid = record { uid = uid; internal_date = 0; envelope = none; body = none }

-- An inbox of three messages
abbrev inbox : Client
inbox = record {
  select_inbox = ok tt;
  uid_search = λ unread_only. ok (7 ∷ 3 ∷ 5 ∷ []);
  uid_fetch = λ uids include_body. ok (map message_of uids);
}

list_inbox-IsListing_example :
    (r : List ImapEntry) × (list_inbox inbox 2 true false ≡ ok r)
    × IsListing 2 (7 ∷ 3 ∷ 5 ∷ []) r
    × (entries : List ImapEntry) × AreEntries false
        (map message_of (newest_uids 2 (7 ∷ 3 ∷ 5 ∷ [])))
        entries
    × Perm r entries
unfolding newest_uids sort_by insert_by
list_inbox-IsListing_example =
    list_inbox-IsListing inbox 2 true false (7 ∷ 3 ∷ 5 ∷ [])
      (map message_of (newest_uids 2 (7 ∷ 3 ∷ 5 ∷ []))) refl refl refl (omega arith)
      (here, (there here, tt))

percentile_duration-IsNearestRank_example :
    (v : ℕ) × (percentile_duration (30 ∷ 10 ∷ 20 ∷ []) 95 ≡ round_ms v)
    × IsNearestRank (30 ∷ 10 ∷ 20 ∷ []) 95 v
percentile_duration-IsNearestRank_example =
    percentile_duration-IsNearestRank (30 ∷ 10 ∷ 20 ∷ []) 95 (omega arith) (omega arith)
      (omega arith)
