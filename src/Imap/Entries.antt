-- ===== src/Imap/Entries.antt =====
-- What the entries of a list of messages say.
use mathlib.Core.Path.{subst}
use mathlib.Core.List.{Perm, reverse_aux, append-nil}
use mathlib.Core.List.Perm
use mailservice.Prelude.{
  ◌≡◌, ⊤, refl, Bool, true, false, Option, none, some, List, [], ◌∷◌, ◌++◌, map, reverse, Bytes,
  codes,
}
use mailservice.Text.{trim_space}
use mailservice.Imap.{ImapAddress, Envelope, FetchedMessage, ImapEntry, sender_of, entry_of}

abbrev pub SaysSender : List ImapAddress → Bytes → Type 0
SaysSender [] from = from ≡ []
SaysSender (a ∷ rest) from = from ≡ a.mailbox_name ++ codes "@" ++ a.host_name

abbrev pub SaysEnvelope : Option Envelope → ImapEntry → Type 0
SaysEnvelope none e = (e.subject ≡ []) × (e.from ≡ [])
SaysEnvelope (some v) e = (e.subject ≡ v.subject) × SaysSender v.from e.from

abbrev pub SaysBody : Bool → Option Bytes → ImapEntry → Type 0
SaysBody false body e = e.body ≡ []
SaysBody true none e = e.body ≡ []
SaysBody true (some text) e = e.body ≡ trim_space text

-- An entry says what the message of the server does: identifier, date, subject and first sender as
-- far as it has an envelope, and the trimmed text if it is asked for.
abbrev pub Says : Bool → FetchedMessage → ImapEntry → Type 0
Says include_body m e =
    (e.uid ≡ m.uid)
    × (e.date ≡ m.internal_date)
    × SaysEnvelope m.envelope e
    × SaysBody include_body m.body e

-- The entries of messages, one for each
abbrev pub AreEntries : Bool → List FetchedMessage → List ImapEntry → Type 0
AreEntries include_body [] [] = ⊤
AreEntries include_body [] (e ∷ es) = ⊥
AreEntries include_body (m ∷ ms) [] = ⊥
AreEntries include_body (m ∷ ms) (e ∷ es) = Says include_body m e × AreEntries include_body ms es

from_said : (from : List ImapAddress) → SaysSender from (sender_of from)
from_said [] = refl
from_said (a ∷ rest) = refl

envelope_said :
    (b : Bool) (m : FetchedMessage) (v : Option Envelope)
    → SaysEnvelope v (entry_of b (record m { envelope = v }))
unfolding entry_of
envelope_said b m none = (refl, refl)
envelope_said b m (some v) = (refl, from_said v.from)

body_said :
    (b : Bool) (m : FetchedMessage) (t : Option Bytes)
    → SaysBody b t (entry_of b (record m { body = t }))
unfolding entry_of
body_said false m t = refl
body_said true m none = refl
body_said true m (some text) = refl

entry_of-Says : (b : Bool) (m : FetchedMessage) → Says b m (entry_of b m)
unfolding entry_of
entry_of-Says b m = (refl, refl, envelope_said b m m.envelope, body_said b m m.body)

pub entries-AreEntries :
    (b : Bool) (ms : List FetchedMessage) → AreEntries b ms (map (entry_of b) ms)
entries-AreEntries b [] = tt
entries-AreEntries b (m ∷ ms) = (entry_of-Says b m, entries-AreEntries b ms)

module _ {A : Type 0} where
  middle-Perm : (x : A) (xs ys : List A) → Perm (xs ++ x ∷ ys) (x ∷ (xs ++ ys))
  middle-Perm x [] ys = Perm.refl (x ∷ ys)
  middle-Perm x (y ∷ xs) ys =
      Perm.trans (Perm.cons y (middle-Perm x xs ys)) (Perm.swap x y (xs ++ ys))

  reverse_aux-Perm : (xs ys : List A) → Perm (reverse_aux xs ys) (xs ++ ys)
  reverse_aux-Perm [] ys = Perm.refl ys
  reverse_aux-Perm (x ∷ xs) ys = Perm.trans (reverse_aux-Perm xs (x ∷ ys)) (middle-Perm x xs ys)

  pub reverse-Perm : (xs : List A) → Perm (reverse xs) xs
  reverse-Perm xs = subst (λ ys. Perm (reverse xs) ys) (append-nil xs) (reverse_aux-Perm xs [])
