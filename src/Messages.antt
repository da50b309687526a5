-- ===== src/Messages.antt =====
-- handlers/message_utils.rs, with the messages of models/requests.rs: the clean-up of a chat before
-- it is sent. A text is the list of its code points; JSON that is only passed on is opaque. The
-- source works on the messages in parallel, each by itself, so a map stands for that.
pub mod Trim
pub mod Cleanup
mod Tests
use que_qiao_router.Base.{
  ℕ, String, Bool, true, false, not, ◌&&◌, ◌||◌, Option, none, some, List, [], ◌∷◌, ◌==◌, leb,
  str_eq, if◌then◌else◌, map,
}
use que_qiao_router.Config.{is_some}

abbrev pub Chars : Type 0
Chars = List ℕ

-- `char::is_whitespace`.
abbrev pub is_whitespace : ℕ → Bool
is_whitespace c =
    leb 9 c && leb c 13
    || c == 32
    || c == 133
    || c == 160
    || c == 5760
    || leb 8192 c && leb c 8202
    || c == 8232
    || c == 8233
    || c == 8239
    || c == 8287
    || c == 12288

abbrev pub is_blank : Chars → Bool
is_blank [] = true
is_blank (_ ∷ _) = false

unfoldable pub trim_start : Chars → Chars
trim_start [] = []
trim_start (c ∷ s) = let rest = trim_start s in if is_whitespace c then rest else c ∷ s

unfoldable pub trim_end : Chars → Chars
trim_end [] = []
trim_end (c ∷ s) =
    let rest = trim_end s in if is_whitespace c && is_blank rest then [] else c ∷ rest

-- `str::trim`.
unfoldable pub trim : Chars → Chars
unfolding trim_start trim_end
trim s = trim_end (trim_start s)

pub record ContentPart : Type 0 where
  pub part_type : String
  pub text : Option Chars
  pub image_url : Option String

pub data MessageContent : Type 0 where
  string : Chars → MessageContent
  array : List ContentPart → MessageContent

pub record Message : Type 0 where
  pub role : String
  pub content : Option MessageContent
  pub reasoning : Option Chars
  pub reasoning_content : Option Chars
  pub tool_calls : Option String
  pub tool_call_id : Option String

abbrev pub trim_text : Option Chars → Option Chars
trim_text none = none
trim_text (some s) = some (trim s)

unfoldable pub sanitize_part : ContentPart → ContentPart
sanitize_part p = if str_eq p.part_type "text" then record p { text = trim_text p.text } else p

unfoldable pub sanitize_content : MessageContent → MessageContent
unfolding sanitize_part trim
sanitize_content (string c) = string (trim c)
sanitize_content (array parts) = array (map sanitize_part parts)

abbrev pub sanitize_option : Option MessageContent → Option MessageContent
sanitize_option none = none
sanitize_option (some c) = some (sanitize_content c)

unfoldable pub sanitize_msg : Message → Message
unfolding sanitize_content
sanitize_msg m = record m { content = sanitize_option m.content }

abbrev pub is_nil : List ContentPart → Bool
is_nil [] = true
is_nil (_ ∷ _) = false

abbrev pub content_is_empty : Option MessageContent → Bool
content_is_empty none = true
content_is_empty (some (string c)) = is_blank c
content_is_empty (some (array parts)) = is_nil parts

unfoldable pub msg_is_empty : Message → Bool
msg_is_empty m = content_is_empty m.content

abbrev pub non_empty : Option Chars → Bool
non_empty none = false
non_empty (some s) = not (is_blank (trim s))

unfoldable pub has_reasoning : Message → Bool
has_reasoning m = non_empty m.reasoning || non_empty m.reasoning_content

abbrev pub content_is_there : Option MessageContent → Bool
content_is_there none = false
content_is_there (some (string c)) = not (is_blank (trim c))
content_is_there (some (array parts)) = not (is_nil parts)

unfoldable pub has_content : Message → Bool
has_content m = content_is_there m.content

-- The filters of the two passes.
unfoldable pub is_kept : Message → Bool
unfolding msg_is_empty has_reasoning
is_kept m = not (msg_is_empty m && not (is_some m.tool_calls) && not (has_reasoning m))

unfoldable pub is_passed : Message → Bool
unfolding has_content has_reasoning
is_passed m = has_content m || is_some m.tool_calls || has_reasoning m

unfoldable pub filter : (Message → Bool) → List Message → List Message
filter p [] = []
filter p (m ∷ ms) = let rest = filter p ms in if p m then m ∷ rest else rest

unfoldable pub process_messages : List Message → List Message
unfolding sanitize_msg is_kept filter
process_messages messages = filter is_kept (map sanitize_msg messages)

unfoldable pub filter_empty_messages : List Message → List Message
unfolding is_passed filter
filter_empty_messages messages = filter is_passed messages
