-- ===== src/Repository/Support.antt =====
-- support_message_gorm.go: the messages that agents sent to support.
use mailservice.Prelude.{ℕ, Bool, ◌&&◌, [], ◌∷◌, ◌++◌, ⊤, leb, if◌then◌else◌, Bytes, ◌==ᵇ◌}
use mailservice.Calendar.{Time}
use mailservice.Domain.{SupportMessage}
use mailservice.Ports.{constraint}
use mailservice.World.{Env, M, raise, gets, modify, call, ◌>>=◌, ◌>>◌}
use mailservice.Repository.Query.{exists_row, count_rows}

-- key_fingerprint = ? AND created_at >= ?
abbrev pub is_recent : Bytes → Time → SupportMessage → Bool
is_recent fingerprint since msg = (msg.key_fingerprint ==ᵇ fingerprint) && leb since msg.created_at

module _ ⦃env : Env⦄ where
  -- SupportMessageRepository.Create
  unfoldable pub create : SupportMessage → M ⊤
  create msg = do
    call
    rows ← gets (λ w. w.support_messages)
    if exists_row (λ r. r.id ==ᵇ msg.id) rows
        then raise constraint
        else modify (λ w. record w { support_messages = rows ++ msg ∷ [] })

  -- SupportMessageRepository.CountRecentByFingerprint
  unfoldable pub count_recent_by_fingerprint : Bytes → Time → M ℕ
  count_recent_by_fingerprint fingerprint since = do
    call
    gets (λ w. count_rows (is_recent fingerprint since) w.support_messages)
