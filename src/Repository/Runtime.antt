-- ===== src/Repository/Runtime.antt =====
-- mail_runtime_gorm.go: the tables that Postfix and Dovecot read. A mailbox can be opened over
-- IMAP when its row of `mail_users` is enabled.
use mailservice.Prelude.{
  Bool, true, false, not, ◌&&◌, List, [], ◌∷◌, ◌++◌, ⊤, if◌then◌else◌, Bytes, codes, ◌==ᵇ◌,
}
use mailservice.Text.{is_empty}
use mailservice.Domain.{Mailbox}
use mailservice.Ports.{constraint}
use mailservice.World.{Env, M, raise, gets, modify, call, ◌>>=◌, ◌>>◌}
use mailservice.Repository.Models.{MailUser}
use mailservice.Repository.Query.{exists_row, update_where}

-- The domain that mail is provisioned under.
unfoldable pub runtime_domain : Bytes → Bytes
runtime_domain mail_domain = if is_empty mail_domain then codes "mail.local" else mail_domain

-- The row that EnsureMailbox writes.
unfoldable pub mail_user : Bytes → Mailbox → MailUser
unfolding runtime_domain
mail_user mail_domain mailbox =
    let domain = runtime_domain mail_domain in
    record {
      login = mailbox.imap_username;
      email = mailbox.imap_username ++ codes "@" ++ domain;
      password = mailbox.imap_password;
      maildir = domain ++ codes "/" ++ mailbox.imap_username;
      enabled = true;
    }

-- INSERT OR IGNORE INTO mail_domains
unfoldable pub add_domain : Bytes → List Bytes → List Bytes
add_domain domain [] = domain ∷ []
add_domain domain (d ∷ ds) = if d ==ᵇ domain then d ∷ ds else d ∷ add_domain domain ds

-- INSERT INTO mail_users ... ON CONFLICT(login) DO UPDATE
unfoldable pub put_user : MailUser → List MailUser → List MailUser
put_user u [] = u ∷ []
put_user u (v ∷ users) = if v.login ==ᵇ u.login then u ∷ users else v ∷ put_user u users

-- Another login with the same address: `email` is UNIQUE.
abbrev pub address_taken : MailUser → MailUser → Bool
address_taken u v = not (v.login ==ᵇ u.login) && (v.email ==ᵇ u.email)

module _ ⦃env : Env⦄ where
  -- MailRuntimeProvisioner.EnsureMailbox, one transaction
  unfoldable pub ensure_mailbox : Bytes → Mailbox → M ⊤
  ensure_mailbox mail_domain mailbox = do
    call
    users ← gets (λ w. w.mail_users)
    let u = mail_user mail_domain mailbox
    if exists_row (address_taken u) users
        then raise constraint
        else modify (λ w. record w {
          mail_domains = add_domain (runtime_domain mail_domain) w.mail_domains;
          mail_users = put_user u users;
        })

  -- MailRuntimeProvisioner.DisableMailbox
  unfoldable pub disable_mailbox : Mailbox → M ⊤
  disable_mailbox mailbox = do
    call
    modify (λ w. record w {
      mail_users =
          update_where (λ v. v.login ==ᵇ mailbox.imap_username) (λ v. record v { enabled = false })
            w.mail_users;
    })
