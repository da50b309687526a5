-- ===== src/Messages/Cleanup.antt =====
-- handlers/message_utils.rs: what the clean-up of a chat keeps.
use que_qiao_router.Base.{◌≡◌}
use que_qiao_router.Messages.{Message, sanitize_msg}

-- The message is as a sanitized one.
abbrev IsClean : Message → Type 0
IsClean m = sanitize_msg m ≡ m
