-- ===== src/Service/Tables/Kept.antt =====
-- The rules of the table `mailboxes` through any calls of the mailbox service.
use mathlib.Core.Path.{subst}
use mailservice.Prelude.{
  ℕ, ◌≡◌, refl, sym, ap, Bool, Option, none, List, [], ◌∷◌, map, Bytes, Bool-cases, inl, inr,
}
use mailservice.Calendar.{Time}
use mailservice.Domain.{Account, is_active}
use mailservice.Ports.{VerifiedKey, PaymentCharge}
use mailservice.World.{Env, World}
use mailservice.Repository.Models.{MailboxModel, to_model}
use mailservice.Repository.Query.{update_where}
use mailservice.Repository.Query.Laws.{All-update_where, All-snoc, exists_row_none}
use mailservice.Repository.Mailboxes.{blocks_insert, blocks_update}
use mailservice.Repository.Mailboxes.Rows.{All-upsert}
use mailservice.Repository.Mailboxes.Unique.{keys_of, IsUnique}
use mailservice.Repository.Mailboxes.Kept.{
  HasNormalKey, IsKept, insert-IsUnique, upsert-IsUnique, to_model-HasNormalKey,
}
use mailservice.Service.{Config}
use mailservice.Service.Access.{
  MailReader, resolve_access_by_token, resolve_access_by_key, list_messages_by_token,
  get_message_by_uid_token,
}
use mailservice.Service.Accounts.{ReprovisionRequest, create_mailbox, reprovision_mailbox}
use mailservice.Service.Claim.{claim_mailbox}
use mailservice.Service.Expiry.{expire_mailbox_by_id, expire_mailboxes, disable_expired_mailboxes}
use mailservice.Service.Free.{activate_mailbox_by_activation_token, switchover_to_free_mode}
use mailservice.Service.Payment.{
  mark_mailbox_paid, renew_mailbox, reconcile_open_collective_payments, reconcile_pending_payments,
}
use mailservice.Service.Support.{send_support_message}
use mailservice.Service.Tables.{TableRule}
use mailservice.Service.Tables.Payments.{
  k_mark_paid, k_renew, k_reconcile, k_reconcile_pending, k_expire_by_id, k_sweep,
  k_disable_expired,
}
use mailservice.Service.Tables.Activations.{k_activate, k_switchover}
use mailservice.Service.Tables.Claims.{k_claim, k_create_mailbox, k_reprovision, k_support}
use mailservice.Service.Tables.Accesses.{k_by_token, k_by_key, k_list_messages, k_get_message}

abbrev endless : MailboxModel → MailboxModel
endless r = record r { expires_at = none }

keys-endless :
    (rows : List MailboxModel)
    → map keys_of (update_where (λ r. is_active r.status) endless rows) ≡ map keys_of rows
unfolding update_where
keys-endless [] = refl
keys-endless (r ∷ rows) = elim (Bool-cases (is_active r.status)) [
  | inl hit ↦ rw hit (ap (λ ks. keys_of r ∷ ks) (keys-endless rows))
  | inr miss ↦ rw miss (ap (λ ks. keys_of r ∷ ks) (keys-endless rows))
]

-- The writes of the repository keep the rules.
kept_rule : TableRule
kept_rule = record {
  holds = IsKept;
  on_create = λ m rows free kept. (
    insert-IsUnique (to_model m) rows (exists_row_none (blocks_insert (to_model m)) rows free)
        kept.0,
    All-snoc HasNormalKey rows (to_model m) kept.1 (to_model-HasNormalKey m),
  );
  on_update = λ m rows free kept. (
    upsert-IsUnique (to_model m) rows (exists_row_none (blocks_update (to_model m)) rows free)
        kept.0,
    All-upsert (to_model m) HasNormalKey rows (to_model-HasNormalKey m) kept.1,
  );
  on_clear = λ rows kept. (
    subst IsUnique (sym (keys-endless rows)) kept.0,
    All-update_where HasNormalKey (λ r. is_active r.status) endless rows (λ r h. h) kept.1,
  );
}

module _ ⦃env : Env⦄ (s : Config) where
  -- One call of the mailbox service that may write, or a step of another part, which has no access
  -- to the table of the mailboxes
  pub data Call : World → World → Type 0 where
    claims :
        (email : Bytes) (key : VerifiedKey) (coupon : Bytes) (w : World)
        → Call w (claim_mailbox s email key coupon w).1
    creates : (account : Option Account) (w : World) → Call w (create_mailbox s account w).1
    marks_paid :
        (session : Bytes) (charge : Option PaymentCharge) (w : World)
        → Call w (mark_mailbox_paid s session charge w).1
    renews :
        (id : Bytes) (paid until : Time) (w : World) → Call w (renew_mailbox s id paid until w).1
    reconciles_charges : (w : World) → Call w (reconcile_open_collective_payments s w).1
    reconciles_pending : (w : World) → Call w (reconcile_pending_payments s w).1
    expires_one : (id : Bytes) (w : World) → Call w (expire_mailbox_by_id s id w).1
    sweeps : (w : World) → Call w (expire_mailboxes s w).1
    disables : (w : World) → Call w (disable_expired_mailboxes s w).1
    activates : (raw : Bytes) (w : World) → Call w (activate_mailbox_by_activation_token s raw w).1
    switches_over : (w : World) → Call w (switchover_to_free_mode s w).1
    resolves_token :
        (token protocol : Bytes) (w : World) → Call w (resolve_access_by_token s token protocol w).1
    resolves_key :
        (key : VerifiedKey) (protocol : Bytes) (w : World)
        → Call w (resolve_access_by_key s key protocol w).1
    lists_messages :
        (r : Option MailReader) (token : Bytes) (limit : ℕ) (unread body : Bool) (w : World)
        → Call w (list_messages_by_token s r token limit unread body w).1
    gets_message :
        (r : Option MailReader) (token : Bytes) (uid : ℕ) (body : Bool) (w : World)
        → Call w (get_message_by_uid_token s r token uid body w).1
    restores : (req : ReprovisionRequest) (w : World) → Call w (reprovision_mailbox s req w).1
    asks_support :
        (key : VerifiedKey) (subject body : Bytes) (w : World)
        → Call w (send_support_message s key subject body w).1
    elsewhere : (w w' : World) → w'.mailboxes ≡ w.mailboxes → Call w w'

  pub data Calls : World → World → Type 0 where
    done : (w : World) → Calls w w
    call : {w w1 w2 : World} → Calls w w1 → Call w1 w2 → Calls w w2

  Call-IsKept : {w w' : World} → Call w w' → IsKept w.mailboxes → IsKept w'.mailboxes
  unfolding kept_rule
  Call-IsKept (claims email key coupon w) h = k_claim kept_rule s email key coupon w h
  Call-IsKept (creates account w) h = k_create_mailbox kept_rule s account w h
  Call-IsKept (marks_paid session charge w) h = k_mark_paid kept_rule s session charge w h
  Call-IsKept (renews id paid until w) h = k_renew kept_rule s id paid until w h
  Call-IsKept (reconciles_charges w) h = k_reconcile kept_rule s w h
  Call-IsKept (reconciles_pending w) h = k_reconcile_pending kept_rule s w h
  Call-IsKept (expires_one id w) h = k_expire_by_id kept_rule s id w h
  Call-IsKept (sweeps w) h = k_sweep kept_rule s w h
  Call-IsKept (disables w) h = k_disable_expired kept_rule s w h
  Call-IsKept (activates raw w) h = k_activate kept_rule s raw w h
  Call-IsKept (switches_over w) h = k_switchover kept_rule s w h
  Call-IsKept (resolves_token token protocol w) h = k_by_token kept_rule s token protocol w h
  Call-IsKept (resolves_key key protocol w) h = k_by_key kept_rule s key protocol w h
  Call-IsKept (lists_messages r token limit unread body w) h =
      k_list_messages kept_rule s r token limit unread body w h
  Call-IsKept (gets_message r token uid body w) h = k_get_message kept_rule s r token uid body w h
  Call-IsKept (restores req w) h = k_reprovision kept_rule s req w h
  Call-IsKept (asks_support key subject body w) h = k_support kept_rule s key subject body w h
  Call-IsKept (elsewhere w w' e) h = subst IsKept (sym e) h

  -- Through any sequence of calls of the mailbox service, which may succeed or fail, and of steps
  -- of other parts, the table of the mailboxes keeps its rules: no two rows with one identifier,
  -- IMAP user name, access token, or non-empty fingerprint or payment session, and every
  -- fingerprint in lower case and trimmed.
  pub Calls-IsKept : {w w' : World} → Calls w w' → IsKept w.mailboxes → IsKept w'.mailboxes
  Calls-IsKept (done w) h = h
  Calls-IsKept (call before last) h = Call-IsKept last (Calls-IsKept before h)
