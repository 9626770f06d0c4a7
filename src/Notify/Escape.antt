-- ===== src/Notify/Escape.antt =====
-- What `html.EscapeString` leaves of a text: nothing that a browser reads as the start or the end
-- of a tag or of an attribute.
use mailservice.Prelude.{
  ℕ, ◌≡◌, refl, sym, ap, ◌∙◌, Bool, ◌||◌, [], ◌∷◌, ◌++◌, ◌==◌, if◌then◌else◌, Bytes, codes,
  Bool-cases, inl, inr,
}
use mailservice.Ports.{Result, SupportMessageParams, Mail}
use mailservice.Notify.Html.{escape_byte, escape_string}
use mailservice.Notify.Mailgun.{
  MailgunNotifier, shown, notify, send, send_payment_link, send_activation_link, send_recovery_link,
  send_support_message,
}
use mailservice.Notify.{
  Request, Answer, accepted, support_html, activation_html, payment_html, recovery_html,
}

-- `<`, `>`, and the two quotes
abbrev pub is_markup : ℕ → Bool
is_markup c = (c == b'<') || (c == b'>') || (c == b'"') || (c == b'\'')

-- The markup bytes of a text, in their order
unfoldable pub markup : Bytes → Bytes
markup [] = []
markup (c ∷ s) = let rest = markup s in if is_markup c then c ∷ rest else rest

markup-append : (s t : Bytes) → markup (s ++ t) ≡ markup s ++ markup t
unfolding markup
markup-append [] t = refl
markup-append (c ∷ s) t = elim (Bool-cases (is_markup c)) [
  | inl hit ↦ rw hit (ap (λ x. c ∷ x) (markup-append s t))
  | inr miss ↦ rw miss (markup-append s t)
]

markup-escape_byte : (c : ℕ) → markup (escape_byte c) ≡ []
unfolding markup
markup-escape_byte c = elim (Bool-cases (c == b'&')) [
  | inl e ↦ rw e refl
  | inr n1 ↦ rw n1 (elim (Bool-cases (c == b'\'')) [
    | inl e ↦ rw e refl
    | inr n2 ↦ rw n2 (elim (Bool-cases (c == b'<')) [
      | inl e ↦ rw e refl
      | inr n3 ↦ rw n3 (elim (Bool-cases (c == b'>')) [
        | inl e ↦ rw e refl
        | inr n4 ↦ rw n4 (elim (Bool-cases (c == b'"')) [
          | inl e ↦ rw e refl
          | inr n5 ↦ rw n5 (simp (n2, n3, n4, n5) refl)
        ])
      ])
    ])
  ])
]

markup-escape_string : (s : Bytes) → markup (escape_string s) ≡ []
unfolding escape_string
markup-escape_string [] = unfold markup in refl
markup-escape_string (c ∷ s) =
    markup-append (escape_byte c) (escape_string s)
    ∙ rw (markup-escape_byte c) (markup-escape_string s)

-- An escaped text, and what follows it, add the same markup for all values.
then_escaped :
    (s s' v v' t : Bytes)
    → markup s ≡ markup s'
    → markup (s ++ escape_string v ++ t) ≡ markup (s' ++ escape_string v' ++ t)
then_escaped s s' v v' t e = shape s v ∙ ap (λ x. x ++ [] ++ markup t) e ∙ sym (shape s' v')
  where
    shape : (s v : Bytes) → markup (s ++ escape_string v ++ t) ≡ markup s ++ [] ++ markup t
    shape s v =
        markup-append (s ++ escape_string v) t
        ∙ ap (λ x. x ++ markup t)
            (markup-append s (escape_string v) ∙ ap (λ x. markup s ++ x) (markup-escape_string v))

abbrev support_start : Bytes
support_start = codes "<p><strong>Agent Support Message</strong></p><table><tr><td>Mailbox</td><td>"

abbrev mailbox_start : Bytes
mailbox_start = codes "<p>Mailbox <strong>"

abbrev recovery_start : Bytes
recovery_start = codes "<p>Open this one-time recovery link to restore access:</p><p><a href=\""

support-markup : (p q : SupportMessageParams) → markup (support_html p) ≡ markup (support_html q)
unfolding support_html
support-markup p q = then_escaped _ _ p.body q.body (codes "</p>") (
    then_escaped _ _ p.owner_email q.owner_email (codes "</td></tr></table><hr><p>") (
      then_escaped _ _ p.status q.status (codes "</td></tr><tr><td>Owner</td><td>") (
        then_escaped _ _ p.fingerprint q.fingerprint (codes "</td></tr><tr><td>Status</td><td>") (
          then_escaped support_start support_start p.mailbox_id q.mailbox_id
            (codes "</td></tr><tr><td>Fingerprint</td><td>") refl))))

module _ (id id' url url' : Bytes) where
  activation-markup : markup (activation_html id url) ≡ markup (activation_html id' url')
  activation-markup =
      then_escaped _ _ url url'
        (codes "\">Activate mailbox</a></p><p>This link is one-time and expires in 24 hours.</p>")
        (then_escaped mailbox_start mailbox_start id id'
          (codes "</strong> is waiting for activation.</p><p><a href=\"") refl)

  payment-markup :
      markup (payment_html (escape_string id) (escape_string url))
      ≡ markup (payment_html (escape_string id') (escape_string url'))
  payment-markup = then_escaped _ _ url url' (codes "\">Complete payment</a></p>") (
      then_escaped mailbox_start mailbox_start id id'
        (codes "</strong> is waiting for payment.</p><p><a href=\"") refl)

recovery-markup :
    (url url' : Bytes)
    → markup (recovery_html (escape_string url)) ≡ markup (recovery_html (escape_string url'))
recovery-markup url url' =
    then_escaped recovery_start recovery_start url url'
      (codes "\">Recover account access</a></p><p>This link expires in 10 minutes.</p>") refl

-- Two mails of one kind, which differ in their values
pub data SameKind : Mail → Mail → Type 0 where
  payment :
      (to to' url url' id id' : Bytes)
      → SameKind (Mail.payment_link to url id) (Mail.payment_link to' url' id')
  activation :
      (to to' url url' id id' : Bytes)
      → SameKind (Mail.activation_link to url id) (Mail.activation_link to' url' id')
  recovery :
      (to to' url url' : Bytes) → SameKind (Mail.recovery_link to url) (Mail.recovery_link to' url')
  support :
      (p q : SupportMessageParams) → SameKind (Mail.support_message p) (Mail.support_message q)

-- Mailgun's notifier makes the request `r` for a mail: whatever answers it gets, its result is that
-- of the answer to `r`.
abbrev pub Requests : MailgunNotifier → Mail → Request → Type 0
Requests n mail r =
    (answer : Request → Result Answer)
    → notify answer n mail ≡ accepted (codes "mailgun") shown (answer r)

-- The requests that Mailgun's notifier makes for two mails of one kind have HTML with the same angle
-- brackets and quotes in the same order, whatever addresses, links, identifiers and texts the mails
-- have.
pub notify-markup :
    (n : MailgunNotifier) (mail mail' : Mail)
    → SameKind mail mail'
    → (r r' : Request) × Requests n mail r
      × Requests n mail' r'
      × (markup r.email.html ≡ markup r'.email.html)
unfolding notify send send_payment_link send_activation_link send_recovery_link send_support_message
notify-markup n mail mail' (payment to to' url url' id id') =
    (_, _, (λ answer. refl), (λ answer. refl), payment-markup id id' url url')
notify-markup n mail mail' (activation to to' url url' id id') =
    (_, _, (λ answer. refl), (λ answer. refl), activation-markup id id' url url')
notify-markup n mail mail' (recovery to to' url url') =
    (_, _, (λ answer. refl), (λ answer. refl), recovery-markup url url')
notify-markup n mail mail' (support p q) =
    (_, _, (λ answer. refl), (λ answer. refl), support-markup p q)
