-- ===== src/Core/Error.antt =====
-- crates/are-core/src/error.rs. The payload of an error is the message that the code formats.
use are.Base.{Message}

pub data CoreError : Type 0 where
  invalid_environment_id : Message → CoreError
  invalid_session_id : Message → CoreError
  invalid_process_id : Message → CoreError
  invalid_capability : Message → CoreError
  invalid_grant : Message → CoreError
  invalid_request : Message → CoreError
  missing_capability : Message → CoreError
  invalid_identity : Message → CoreError

infixr 60 ◌<+>◌
abbrev pub ◌<+>◌ : Message → Message → Message
a <+> b = Message.◌⊕◌ a b

-- The `Display` text of an error.
unfoldable pub to_string : CoreError → Message
to_string (invalid_environment_id m) = Message.lit "invalid environment id: " <+> m
to_string (invalid_session_id m) = Message.lit "invalid session id: " <+> m
to_string (invalid_process_id m) = Message.lit "invalid process id: " <+> m
to_string (invalid_capability m) = Message.lit "invalid capability: " <+> m
to_string (invalid_grant m) = Message.lit "invalid grant: " <+> m
to_string (invalid_request m) = Message.lit "invalid request: " <+> m
to_string (missing_capability m) = Message.lit "missing required capability: " <+> m
to_string (invalid_identity m) = Message.lit "invalid identity: " <+> m
