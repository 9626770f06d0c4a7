-- ===== src/Http/Routes.antt =====
-- handler.go: `Routes`, the patterns of the server with the handlers and the guards behind them,
-- and the handlers that only read: the home page, health, and the metrics of the administrator.
use mailservice.Prelude.{
  ℕ, Bool, not, ◌&&◌, List, [], ◌∷◌, ◌++◌, ltb, if◌then◌else◌, Bytes, codes, ◌==ᵇ◌,
}
use mailservice.Calendar.{Time}
use mailservice.Http.{fallback_string}
use mailservice.Metrics.Registry.{Registry, MetricsSnapshot, snapshot}

-- The handlers
pub data Endpoint : Type 0 where
  home health terms refund_policy privacy_notice contact create_account refresh_auth start_recovery
        complete_recovery complete_recovery_by_link activate_mailbox list_mailboxes create_mailbox
        auth_challenge claim_mailbox get_mailbox resolve_access resolve_imap list_imap_messages
        get_imap_message_by_uid stripe_webhook admin_metrics reprovision_mailbox reconcile_payments
        free_mode_switchover send_support_message agent_api_skill mock_pay :
      Endpoint

pub data Method : Type 0 where
  get post : Method

-- What stands before a handler
pub data Guard : Type 0 where
  open_to_all account_token admin_key : Guard

pub record Route : Type 0 where
  pub method : Method
  pub pattern : Bytes
  pub guard : Guard
  pub endpoint : Endpoint

abbrev route : Method → Bytes → Guard → Endpoint → Route
route method pattern guard endpoint = record {
  method = method;
  pattern = pattern;
  guard = guard;
  endpoint = endpoint;
}

-- Routes, by whether payments are mocked
unfoldable pub routes : Bool → List Route
routes mock_payment_mode =
    route get (codes "/") open_to_all home
    ∷ route get (codes "/healthz") open_to_all health
    ∷ route get (codes "/terms") open_to_all terms
    ∷ route get (codes "/refund-policy") open_to_all refund_policy
    ∷ route get (codes "/privacy") open_to_all privacy_notice
    ∷ route get (codes "/contact") open_to_all contact
    ∷ route post (codes "/v1/accounts") open_to_all create_account
    ∷ route post (codes "/v1/auth/refresh") open_to_all refresh_auth
    ∷ route post (codes "/v1/accounts/recovery/start") open_to_all start_recovery
    ∷ route post (codes "/v1/accounts/recovery/complete") open_to_all complete_recovery
    ∷ route get (codes "/v1/accounts/recovery/complete") open_to_all complete_recovery_by_link
    ∷ route get (codes "/v1/mailboxes/activate") open_to_all activate_mailbox
    ∷ route get (codes "/v1/mailboxes") account_token list_mailboxes
    ∷ route post (codes "/v1/mailboxes") account_token create_mailbox
    ∷ route post (codes "/v1/auth/challenge") open_to_all auth_challenge
    ∷ route post (codes "/v1/mailboxes/claim") open_to_all claim_mailbox
    ∷ route get (codes "/v1/mailboxes/{id}") account_token get_mailbox
    ∷ route post (codes "/v1/access/resolve") open_to_all resolve_access
    ∷ route post (codes "/v1/imap/resolve") open_to_all resolve_imap
    ∷ route post (codes "/v1/imap/messages") open_to_all list_imap_messages
    ∷ route post (codes "/v1/imap/messages/get") open_to_all get_imap_message_by_uid
    ∷ route post (codes "/v1/webhooks/stripe") open_to_all stripe_webhook
    ∷ route get (codes "/admin/metrics") admin_key admin_metrics
    ∷ route post (codes "/admin/mailboxes/reprovision") admin_key reprovision_mailbox
    ∷ route post (codes "/admin/payments/reconcile") admin_key reconcile_payments
    ∷ route post (codes "/admin/free-mode/switchover") admin_key free_mode_switchover
    ∷ route post (codes "/v1/support/messages") open_to_all send_support_message
    ∷ route get (codes "/docs/agent-api-skill.md") open_to_all agent_api_skill
    ∷ (if mock_payment_mode
        then route get (codes "/mock/pay/{sessionID}") open_to_all mock_pay ∷ []
        else [])

-- httpapi.Config, the texts that the pages show
pub record PageConfig : Type 0 where
  pub build_number : Bytes
  pub cache_buster : Bytes

-- The build number and the cache buster as NewHandler keeps them
unfoldable pub new_page_config : Bytes → Bytes → PageConfig
unfolding fallback_string
new_page_config build_number cache_buster = record {
  build_number = fallback_string build_number (codes "dev");
  cache_buster = fallback_string cache_buster (fallback_string build_number (codes "dev"));
}

-- The entity tag of the home page
abbrev etag : PageConfig → Bytes
etag c = codes "\"" ++ c.build_number ++ codes "\""

pub record PageResponse : Type 0 where
  pub status : ℕ
  pub etag : Bytes

-- handleHome: the tag and the status; any path that no other pattern takes is not found.
unfoldable pub handle_home : PageConfig → (path if_none_match : Bytes) → PageResponse
handle_home c path if_none_match =
    if not (path ==ᵇ codes "/")
    then record { status = 404; etag = [] }
    else record { status = if if_none_match ==ᵇ etag c then 304 else 200; etag = etag c }

pub record AdminMetricsBody : Type 0 where
  pub metrics : MetricsSnapshot
  pub failed_key_proof_ratio : ℕ × ℕ

-- handleAdminMetrics: the ratio as its two counts, 0 of 1 where no proof was counted. A count is
-- the pattern of an `int64`.
unfoldable pub handle_admin_metrics : Time → Bytes → Registry → AdminMetricsBody
handle_admin_metrics now window r =
    let counts = snapshot now window r in
    record {
      metrics = counts;
      failed_key_proof_ratio =
          if ltb 0 counts.key_proof_total && ltb counts.key_proof_total 9_223_372_036_854_775_808
          then (counts.key_proof_failed, counts.key_proof_total)
          else (0, 1);
    }
