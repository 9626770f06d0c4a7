-- ===== src/Http/Support.antt =====
-- handler.go: the handler by which an agent writes to support.
use mailservice.Prelude.{ℕ, ◌||◌, if◌then◌else◌, Bytes, codes, length, ltb}
use mailservice.Text.{is_empty, trim_space}
use mailservice.Ports.{Error, message, mailbox_not_found, rate_limit_reached}
use mailservice.World.{Env, M, pure}
use mailservice.Service.Support.{send_support_message}
use mailservice.Http.{
  Handler, Decoded, Response, status_body, write_json, write_error, cause, serve, with_body,
  with_verifier, with_key,
}

-- supportMessageRequest
pub record SupportMessageRequest : Type 0 where
  pub edproof : Bytes
  pub challenge : Bytes
  pub signature : Bytes
  pub subject : Bytes
  pub body : Bytes

abbrev pub support_subject_max_len : ℕ
support_subject_max_len = 200

abbrev pub support_body_max_len : ℕ
support_body_max_len = 10000

abbrev support_failure : Error → Response
support_failure mailbox_not_found =
    write_error 404 (message (codes "no mailbox found for this key"))
support_failure rate_limit_reached =
    write_error 429 (message (codes "support message rate limit reached"))
support_failure _ = write_error 500 (message (codes "failed to send support message"))

module _ ⦃env : Env⦄ (h : Handler) where
  -- handleSendSupportMessage
  unfoldable pub handle_send_support_message : Decoded SupportMessageRequest → M Response
  handle_send_support_message d = with_body d (λ req. with_verifier h (λ backend.
      let subject = trim_space req.subject in
      let body = trim_space req.body in
      if is_empty subject || is_empty body
      then pure (write_error 400 (message (codes "subject and body are required")))
      else if ltb support_subject_max_len (length subject)
      then pure (write_error 400 (message (codes "subject exceeds 200 characters")))
      else if ltb support_body_max_len (length body)
      then pure (write_error 400 (message (codes "body exceeds 10000 characters")))
      else with_key h backend req.edproof req.challenge req.signature (λ key.
        serve (send_support_message h.service key subject body) (λ e. support_failure (cause e))
          (λ _. pure (write_json 200 (status_body (codes "sent")))))))
