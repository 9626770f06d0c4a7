-- ===== src/Http/Access.antt =====
-- handler.go: the handlers that hand out IMAP access and mail.
use mailservice.Prelude.{
  ℕ, Bool, true, false, not, Option, none, some, ◌==◌, if◌then◌else◌, Bytes, codes, ◌==ᵇ◌,
}
use mailservice.Text.{trim_space, to_lower}
use mailservice.Ports.{
  Error, message, mailbox_not_found, mailbox_not_usable, message_not_found, invalid_key_proof,
}
use mailservice.World.{Env, M, pure}
use mailservice.Service.Access.{
  resolve_access_by_token, resolve_access_by_key, list_messages_by_token, get_message_by_uid_token,
}
use mailservice.Http.{
  Handler, Decoded, Response, access_body, messages_body, message_body, write_json, write_error,
  waiting_payment, cause, serve, with_body, with_verifier, with_key,
}

-- resolveAccessRequest
pub record ResolveAccessRequest : Type 0 where
  pub protocol : Bytes
  pub edproof : Bytes
  pub challenge : Bytes
  pub signature : Bytes

-- listMessagesRequest
pub record ListMessagesRequest : Type 0 where
  pub access_token : Bytes
  pub limit : ℕ
  pub unread_only : Option Bool
  pub include_body : Option Bool

-- getMessageByUIDRequest
pub record GetMessageByUidRequest : Type 0 where
  pub access_token : Bytes
  pub uid : ℕ
  pub include_body : Option Bool

-- The flag of a request, or what stands for a missing one
abbrev pub flag_or : Bool → Option Bool → Bool
flag_or missing none = missing
flag_or missing (some b) = b

abbrev pub token_failure : Error → Error → Response
token_failure mailbox_not_found e = write_error 404 e
token_failure mailbox_not_usable e = waiting_payment
token_failure _ e = write_error 500 e

abbrev pub key_failure : Error → Error → Response
key_failure invalid_key_proof e = write_error 401 e
key_failure inner e = token_failure inner e

abbrev message_failure : Error → Error → Response
message_failure message_not_found e = write_error 404 e
message_failure inner e = token_failure inner e

module _ ⦃env : Env⦄ (h : Handler) where
  -- handleResolveIMAP
  unfoldable pub handle_resolve_imap : Decoded Bytes → M Response
  handle_resolve_imap d = with_body d (λ access_token.
      serve (resolve_access_by_token h.service access_token (codes "imap"))
        (λ e. token_failure (cause e) e) (λ result. pure (write_json 200 (access_body result))))

  -- handleResolveAccess
  unfoldable pub handle_resolve_access : Decoded ResolveAccessRequest → M Response
  handle_resolve_access d = with_body d (λ req.
      if not (trim_space (to_lower req.protocol) ==ᵇ codes "imap")
      then pure (write_error 400 (message (codes "unsupported protocol")))
      else with_verifier h (λ backend.
        with_key h backend req.edproof req.challenge req.signature (λ key.
          serve (resolve_access_by_key h.service key req.protocol) (λ e. key_failure (cause e) e)
            (λ result. pure (write_json 200 (access_body result))))))

  -- handleListIMAPMessages
  unfoldable pub handle_list_imap_messages : Decoded ListMessagesRequest → M Response
  handle_list_imap_messages d = with_body d (λ req.
      serve
        (list_messages_by_token h.service h.reader req.access_token req.limit
          (flag_or true req.unread_only) (flag_or false req.include_body))
        (λ e. token_failure (cause e) e)
        (λ messages. pure (write_json 200 (messages_body messages))))

  -- handleGetIMAPMessageByUID
  unfoldable pub handle_get_imap_message_by_uid : Decoded GetMessageByUidRequest → M Response
  handle_get_imap_message_by_uid d = with_body d (λ req.
      if req.uid == 0
      then pure (write_error 400 (message (codes "uid must be > 0")))
      else serve
          (get_message_by_uid_token h.service h.reader req.access_token req.uid
            (flag_or true req.include_body))
          (λ e. message_failure (cause e) e) (λ m. pure (write_json 200 (message_body m))))
