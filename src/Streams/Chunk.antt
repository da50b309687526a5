-- ===== src/Streams/Chunk.antt =====
-- handlers/stream_handler.rs: what is looked for in the text of a chunk, and the changes made to a
-- chunk. A text is the list of its bytes; of a chunk's JSON the handler sees the parts below, and
-- the rest is opaque.
use que_qiao_router.Base.{
  ℕ, zero, suc, String, Bool, true, false, ◌&&◌, ◌||◌, Option, none, some, List, [], ◌∷◌, ◌++◌,
  ◌==◌, if◌then◌else◌, leb, length, lookup, insert,
}
use que_qiao_router.Thinking.{
  Text, Value, text, Fields, strip_prefix, split_once, Transformer, transform_delta,
}

-- The text after one white space of UTF-8 at the start.
abbrev three_byte_space : ℕ → ℕ → ℕ → Bool
three_byte_space a b c =
    (a == 225 && (b == 154 && c == 128))
    || ((a == 226 && (b == 128 && (leb 128 c && leb c 138 || (c == 168 || (c == 169 || c == 175)))))
        || ((a == 226 && (b == 129 && c == 159)) || (a == 227 && (b == 128 && c == 128))))

abbrev third_space : ℕ → ℕ → Text → Option Text
third_space a b [] = none
third_space a b (c ∷ s) = if three_byte_space a b c then some s else none

abbrev second_space : ℕ → Text → Option Text
second_space a [] = none
second_space a (b ∷ s) = if a == 194 && (b == 133 || b == 160) then some s else third_space a b s

abbrev skip_space : Text → Option Text
skip_space [] = none
skip_space (c ∷ s) = if leb 9 c && leb c 13 || c == 32 then some s else second_space c s

unfoldable trim_from : ℕ → Text → Text
trim_from zero s = s
trim_from (suc fuel) s = elim (skip_space s) [ none ↦ s | some rest ↦ trim_from fuel rest ]

-- `str::trim_start`; each space has a byte.
unfoldable pub trim_start : Text → Text
unfolding trim_from
trim_start s = trim_from (length s) s

-- `"choices"`, `"model"` and `"type"`.
abbrev pub choices_key : Text
choices_key = b'"' ∷ b'c' ∷ b'h' ∷ b'o' ∷ b'i' ∷ b'c' ∷ b'e' ∷ b's' ∷ b'"' ∷ []

abbrev pub model_key : Text
model_key = b'"' ∷ b'm' ∷ b'o' ∷ b'd' ∷ b'e' ∷ b'l' ∷ b'"' ∷ []

abbrev pub type_key : Text
type_key = b'"' ∷ b't' ∷ b'y' ∷ b'p' ∷ b'e' ∷ b'"' ∷ []

abbrev then_byte : ℕ → Option Text → Option Text
then_byte b none = none
then_byte b (some s) = strip_prefix (b ∷ []) (trim_start s)

abbrev is_there {ℓ} : {A : Type ℓ} → Option A → Bool
is_there none = false
is_there (some _) = true

-- After the key: a colon and an empty array.
abbrev empty_array : Text → Bool
empty_array after = is_there (then_byte b']' (then_byte b'[' (then_byte b':' (some after))))

unfoldable marker_from : ℕ → Text → Bool
unfolding split_once trim_start
marker_from zero search = false
marker_from (suc fuel) search = elim (split_once choices_key search) [
  | none ↦ false
  | some (before, after) ↦ elim (empty_array after) [ true ↦ true | false ↦ marker_from fuel after ]
]

-- Each round leaves a shorter text.
unfoldable pub has_empty_choices_marker : Text → Bool
unfolding marker_from
has_empty_choices_marker s = marker_from (suc (length s)) s

unfoldable pub contains : Text → Text → Bool
unfolding split_once
contains key s = is_there (split_once key s)

unfoldable pub has_model_field_marker : Text → Bool
unfolding contains
has_model_field_marker s = contains model_key s

pub data Delta : Type 0 where
  object : Fields → Delta
  no_object : String → Delta

pub record Choice : Type 0 where
  pub delta : Option Delta
  pub text_field : Option Value
  pub rest : String

pub data Choices : Type 0 where
  absent : Choices
  no_array : String → Choices
  array : List Choice → Choices

pub record Chunk : Type 0 where
  pub model : Option Value
  pub choices : Choices
  pub rest : String

abbrev pub placeholder : Bool → Choice
placeholder true = record {
  delta = some (object []);
  text_field = none;
  rest = "finish_reason: null";
}
placeholder false = record {
  delta = none;
  text_field = some (text []);
  rest = "finish_reason: null";
}

abbrev filled : Bool → Choices → Choices
filled is_chat (array []) = array (placeholder is_chat ∷ [])
filled is_chat c = c

unfoldable pub ensure_non_empty_choices : Bool → Chunk → Chunk
ensure_non_empty_choices is_chat chunk = record chunk { choices = filled is_chat chunk.choices }

abbrev renamed : Text → Option Value → Option Value
renamed inbound_model none = none
renamed inbound_model (some _) = some (text inbound_model)

unfoldable pub rewrite_chunk_model : Text → Chunk → Chunk
rewrite_chunk_model inbound_model chunk = record chunk { model = renamed inbound_model chunk.model }

-- The content of the first choice with the prefix before it, if it is a text that is not empty.
abbrev prefixed : Text → Option Value → Option Value
prefixed prefix (some (text (c ∷ s))) = some (text (prefix ++ (c ∷ s)))
prefixed prefix _ = none

abbrev put_content : Fields → Option Value → Option Delta
put_content fields none = none
put_content fields (some v) = some (object (insert "content" v fields))

abbrev prefix_delta : Text → Option Delta → Option Delta
prefix_delta prefix (some (object fields)) =
    put_content fields (prefixed prefix (lookup "content" fields))
prefix_delta prefix _ = none

abbrev with_delta : Choice → Option Delta → Option Choice
with_delta choice none = none
with_delta choice (some d) = some (record choice { delta = some d })

abbrev with_text : Choice → Option Value → Option Choice
with_text choice none = none
with_text choice (some v) = some (record choice { text_field = some v })

abbrev prefix_choice : Bool → Text → Choice → Option Choice
prefix_choice true prefix choice = with_delta choice (prefix_delta prefix choice.delta)
prefix_choice false prefix choice = with_text choice (prefixed prefix choice.text_field)

abbrev first_choice : List Choice → Chunk → Option Choice → Chunk × Bool
first_choice later chunk none = (chunk, false)
first_choice later chunk (some choice) = (record chunk { choices = array (choice ∷ later) }, true)

abbrev prefix_choices : Bool → Text → Chunk → Choices → Chunk × Bool
prefix_choices is_chat prefix chunk (array (choice ∷ later)) =
    first_choice later chunk (prefix_choice is_chat prefix choice)
prefix_choices is_chat prefix chunk _ = (chunk, false)

-- The chunk with the prefix in its first choice, and whether there was a place for it.
unfoldable pub apply_prefix : Bool → Text → Chunk → Chunk × Bool
apply_prefix is_chat prefix chunk = prefix_choices is_chat prefix chunk chunk.choices

abbrev transform_choices : Transformer → Chunk → Choices → Chunk × Transformer
transform_choices t chunk (array (choice ∷ later)) = elim choice.delta [
  | some (object fields) ↦
      let r = transform_delta t fields in
      (record chunk { choices = array (record choice { delta = some (object r.0) } ∷ later) }, r.1)
  | _ ↦ (chunk, t)
]
transform_choices t chunk _ = (chunk, t)

-- The delta of the first choice is transformed.
unfoldable pub transform_chunk : Transformer → Chunk → Chunk × Transformer
unfolding transform_delta
transform_chunk t chunk = transform_choices t chunk chunk.choices
