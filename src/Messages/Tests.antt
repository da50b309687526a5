-- ===== src/Messages/Tests.antt =====
-- A small chat of handlers/message_utils.rs, and the theorem at it.
use que_qiao_router.Base.{◌≡◌, refl, none, some, List, [], ◌∷◌}
use que_qiao_router.Messages.{
  Chars, trim, trim_start, trim_end, string, Message, process_messages, sanitize_msg,
  sanitize_content, is_kept, msg_is_empty, has_reasoning, filter,
}

abbrev message : Chars → Message
message s = record {
  role = "user";
  content = some (string s);
  reasoning = none;
  reasoning_content = none;
  tool_calls = none;
  tool_call_id = none;
}

-- " a ", a blank text, and a blank text with a tool call.
abbrev chat : List Message
chat =
    message (b' ' ∷ b'a' ∷ b' ' ∷ [])
    ∷ message (b' ' ∷ [])
    ∷ record (message (b' ' ∷ [])) { tool_calls = some "[]" }
    ∷ []

processed :
    process_messages chat
    ≡ message (b'a' ∷ []) ∷ record (message []) { tool_calls = some "[]" } ∷ []
unfolding process_messages sanitize_msg sanitize_content trim trim_start trim_end is_kept
    msg_is_empty has_reasoning filter
processed = refl
