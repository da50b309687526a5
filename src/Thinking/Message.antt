-- ===== src/Thinking/Message.antt =====
-- handlers/thinking_transformer.rs: the conversion of a whole message. The matches of the regular
-- expression `(?s)<think>(.*?)</think>` are an argument: each with the text before it and its group,
-- and the text after the last.
use que_qiao_router.Base.{
  Option, none, some, List, [], ◌∷◌, ◌++◌, String, if◌then◌else◌, lookup, insert,
}
use que_qiao_router.Config.{ThinkingFormat, passthrough, think_tag, reasoning, reasoning_content}
use que_qiao_router.Thinking.{
  Text, open_tag, close_tag, Value, null, text, opaque, Fields, non_empty, or, is_empty, text_field,
  without_reasoning,
}

abbrev pub Blocks : Type 0
Blocks = List (Text × Text) × Text

-- One piece more of reasoning: empty ones are passed over, and others stand on lines of their own.
abbrev pub join : Text → Text → Text
join acc piece =
    if is_empty piece then acc else if is_empty acc then piece else acc ++ b'\n' ∷ piece

unfoldable pub joined : Text → List (Text × Text) → Text
joined acc [] = acc
joined acc ((before, piece) ∷ blocks) = joined (join acc piece) blocks

unfoldable pub without_blocks : List (Text × Text) → Text → Text
without_blocks [] rest = rest
without_blocks ((before, piece) ∷ blocks) rest = before ++ without_blocks blocks rest

pub data ContentKind : Type 0 where
  str : Text → ContentKind
  missing : ContentKind
  other_kind : ContentKind

abbrev pub kind_of : Option Value → ContentKind
kind_of (some (text s)) = str s
kind_of (some null) = missing
kind_of none = missing
kind_of (some (opaque v)) = other_kind

unfoldable pub classify_content : Fields → ContentKind
classify_content msg = kind_of (lookup "content" msg)

unfoldable pub field_reasoning : Fields → Option Text
field_reasoning msg = or (text_field "reasoning" msg) (text_field "reasoning_content" msg)

abbrev pub put_text : String → Option Text → Fields → Fields
put_text name none obj = obj
put_text name (some s) obj = insert name (text s) obj

abbrev pub tagged_content : Option Text → Option Text → Option Text
tagged_content (some sr) (some ans) = some (open_tag ++ (sr ++ (close_tag ++ ans)))
tagged_content (some sr) none = none
tagged_content none ans = ans

module _ (blocks : Text → Blocks) where
  unfoldable pub extract_think_blocks : Text → Text × Text
  unfolding joined without_blocks
  extract_think_blocks content =
      let found = blocks content in (joined [] found.0, without_blocks found.0 found.1)

  -- The answer and the reasoning that the content has.
  unfoldable pub content_parts : ContentKind → Option Text × Option Text
  unfolding extract_think_blocks
  content_parts (str s) = let r = extract_think_blocks s in (some r.1, non_empty (some r.0))
  content_parts missing = (some [], none)
  content_parts other_kind = (none, none)

  unfoldable pub answer_of : Fields → Option Text
  unfolding content_parts classify_content
  answer_of msg = (content_parts (classify_content msg)).0

  unfoldable pub source_reasoning : Fields → Option Text
  unfolding content_parts classify_content field_reasoning
  source_reasoning msg =
      non_empty (or (field_reasoning msg) (content_parts (classify_content msg)).1)

  unfoldable pub message_to_field : String → Fields → Fields
  unfolding answer_of source_reasoning
  message_to_field tf msg =
      put_text "content" (answer_of msg)
        (put_text tf (source_reasoning msg) (without_reasoning msg))

  unfoldable pub message_to_tag : Fields → Fields
  unfolding answer_of source_reasoning
  message_to_tag msg =
      put_text "content" (tagged_content (source_reasoning msg) (answer_of msg))
        (without_reasoning msg)

  -- `transform_message` on an object.
  unfoldable pub transform_message : ThinkingFormat → Fields → Fields
  unfolding message_to_field message_to_tag
  transform_message passthrough msg = msg
  transform_message reasoning msg = message_to_field "reasoning" msg
  transform_message reasoning_content msg = message_to_field "reasoning_content" msg
  transform_message think_tag msg = message_to_tag msg
