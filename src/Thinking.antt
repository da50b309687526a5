-- ===== src/Thinking.antt =====
-- handlers/thinking_transformer.rs: the stream that moves a model's reasoning between the three
-- formats. Text is a list of its bytes: the source searches and cuts at byte positions, and the
-- tags are ASCII. A JSON object is an association list; what is neither text nor null is opaque.
pub mod Scan
pub mod Partial
pub mod Loop
pub mod Chunks
pub mod Pieces
pub mod Fields
pub mod Tags
pub mod Message
pub mod Convert
mod Tests
use que_qiao_router.Base.{
  ℕ, zero, suc, ◌-◌, min, String, Bool, true, false, not, ◌&&◌, ◌||◌, Option, none, some, List, [],
  ◌∷◌, ◌++◌, ◌==◌, if◌then◌else◌, or_else, length, take, drop, lookup, insert, remove,
}
use que_qiao_router.Config.{ThinkingFormat, passthrough, think_tag, reasoning, reasoning_content}

abbrev pub Text : Type 0
Text = List ℕ

-- `<think>` and `</think>`.
abbrev pub open_tag : Text
open_tag = b'<' ∷ b't' ∷ b'h' ∷ b'i' ∷ b'n' ∷ b'k' ∷ b'>' ∷ []

abbrev pub close_tag : Text
close_tag = b'<' ∷ b'/' ∷ b't' ∷ b'h' ∷ b'i' ∷ b'n' ∷ b'k' ∷ b'>' ∷ []

pub data Phase : Type 0 where
  content in_think : Phase

-- The tag that ends a phase, and the phase after it.
abbrev pub marker : Phase → Text
marker content = open_tag
marker in_think = close_tag

abbrev pub other : Phase → Phase
other content = in_think
other in_think = content

-- The text after a marker at the start.
abbrev pub strip_prefix : Text → Text → Option Text
strip_prefix [] s = some s
strip_prefix (m ∷ ms) [] = none
strip_prefix (m ∷ ms) (c ∷ s) = let rest = strip_prefix ms s in if c == m then rest else none

abbrev pub prepend : ℕ → Option (Text × Text) → Option (Text × Text)
prepend c none = none
prepend c (some (before, after)) = some (c ∷ before, after)

abbrev pub found_or : Option Text → Option (Text × Text) → Option (Text × Text)
found_or none later = later
found_or (some after) later = some ([], after)

-- `rest.find(tag)` with the text before and after the tag that it finds.
unfoldable pub split_once : Text → Text → Option (Text × Text)
split_once m [] = found_or (strip_prefix m []) none
split_once m (c ∷ s) =
    let later = prepend c (split_once m s) in found_or (strip_prefix m (c ∷ s)) later

abbrev pub same_bytes : Text → Text → Bool
same_bytes [] [] = true
same_bytes [] (_ ∷ _) = false
same_bytes (_ ∷ _) [] = false
same_bytes (a ∷ s) (b ∷ m) = a == b && same_bytes s m

-- The loop of `partial_marker_len` from `k` down.
unfoldable pub partial_from : ℕ → Text → Text → ℕ
partial_from zero s m = 0
partial_from (suc k) s m =
    let shorter = partial_from k s m in
    if same_bytes (drop (length s - suc k) s) (take (suc k) m) then suc k else shorter

unfoldable pub partial_marker_len : Text → Text → ℕ
unfolding partial_from
partial_marker_len s m = partial_from (min (length s) (length m - 1)) s m

-- What parsing a piece puts out to the content and to the reasoning field, and the phase and the
-- carried bytes after it.
pub record Parsed : Type 0 where
  pub content_out : Text
  pub reasoning_out : Text
  pub phase : Phase
  pub carry : Text

-- A text put out in a phase, before what follows.
unfoldable pub emit : Phase → Text → Parsed → Parsed
emit content s p = record p { content_out = s ++ p.content_out }
emit in_think s p = record p { reasoning_out = s ++ p.reasoning_out }

-- No tag is left: all is put out but the bytes that may begin one.
unfoldable pub stop : Phase → Text → Parsed
unfolding emit partial_marker_len
stop phase rest =
    let cut = length rest - partial_marker_len rest (marker phase) in
    emit phase (take cut rest)
      (record { content_out = []; reasoning_out = []; phase = phase; carry = drop cut rest })

-- The loop of `parse_content_source`, at most as often as the fuel says.
unfoldable pub parse_loop : ℕ → Phase → Text → Parsed
unfolding split_once stop
parse_loop zero phase rest = stop phase rest
parse_loop (suc n) phase rest = elim (split_once (marker phase) rest) [
  | some (before, after) ↦ emit phase before (parse_loop n (other phase) after)
  | none ↦ stop phase rest
]

unfoldable pub parse : Phase → Text → Parsed
unfolding parse_loop
parse phase rest = parse_loop (suc (length rest)) phase rest

pub record Transformer : Type 0 where
  pub target : ThinkingFormat
  pub phase : Phase
  pub carry : Text
  pub think_open : Bool
  pub think_closed : Bool

unfoldable pub new_transformer : ThinkingFormat → Transformer
new_transformer target = record {
  target = target;
  phase = content;
  carry = [];
  think_open = false;
  think_closed = false;
}

unfoldable pub parse_content_source : Transformer → Text → (Text × Text) × Transformer
unfolding parse
parse_content_source t fragment =
    let p = parse t.phase (t.carry ++ fragment) in
    ((p.content_out, p.reasoning_out), record t { phase = p.phase; carry = p.carry })

pub data Value : Type 0 where
  null : Value
  text : Text → Value
  opaque : String → Value

abbrev pub Fields : Type 0
Fields = List (String × Value)

abbrev pub text_of : Option Value → Option Text
text_of (some (text s)) = some s
text_of _ = none

abbrev pub is_empty : Text → Bool
is_empty [] = true
is_empty (_ ∷ _) = false

abbrev pub non_empty : Option Text → Option Text
non_empty (some (c ∷ s)) = some (c ∷ s)
non_empty _ = none

-- `obj.get(name).and_then(as_str)`, and the same for a text that is not empty.
abbrev pub str_field : String → Fields → Option Text
str_field name obj = text_of (lookup name obj)

abbrev pub text_field : String → Fields → Option Text
text_field name obj = non_empty (str_field name obj)

abbrev pub or : Option Text → Option Text → Option Text
or (some s) o = some s
or none o = o

abbrev pub without_reasoning : Fields → Fields
without_reasoning obj = remove "reasoning_content" (remove "reasoning" obj)

-- The reasoning of a delta, under either name.
abbrev pub reasoning_of : Fields → Option Text
reasoning_of obj = or (text_field "reasoning" obj) (text_field "reasoning_content" obj)

abbrev pub put_reasoning : String → Text → Fields → Fields
put_reasoning tf [] obj = obj
put_reasoning tf (c ∷ s) obj = insert tf (text (c ∷ s)) obj

-- Content with tags becomes content and reasoning.
unfoldable pub split_content : String → Transformer → Fields → Option Text → Fields × Transformer
unfolding parse_content_source
split_content tf t obj none = (obj, t)
split_content tf t obj (some s) =
    let r = parse_content_source t s in
    (put_reasoning tf r.0.1 (insert "content" (text r.0.0) obj), r.1)

-- `transform_delta` for a reasoning field as the target.
unfoldable pub to_field : String → Transformer → Fields → Fields × Transformer
unfolding split_content
to_field tf t obj = elim (reasoning_of obj) [
  | some val ↦ (insert tf (text val) (without_reasoning obj), t)
  | none ↦ split_content tf t obj (str_field "content" obj)
]

-- The two texts that `transform_delta` puts out for the target with tags.
unfoldable pub tag_reasoning : Transformer → Option Text → Text × Transformer
tag_reasoning t none = ([], t)
tag_reasoning t (some r) =
    if t.think_open then (r, t) else (open_tag ++ r, record t { think_open = true })

unfoldable pub tag_content : Transformer → Option Text → Text × Transformer
tag_content t none = ([], t)
tag_content t (some []) = ([], t)
tag_content t (some (c ∷ s)) =
    if t.think_open && not t.think_closed
    then (close_tag ++ c ∷ s, record t { think_closed = true })
    else (c ∷ s, t)

abbrev pub put_content : Option Text → Option Text → Text → Fields → Fields
put_content none none out obj = obj
put_content _ _ out obj = insert "content" (text out) obj

unfoldable pub to_tag : Transformer → Fields → Fields × Transformer
unfolding tag_reasoning tag_content
to_tag t obj =
    let dr = reasoning_of obj in
    let dc = str_field "content" obj in
    let r = tag_reasoning t dr in
    let c = tag_content r.1 dc in (put_content dr dc (r.0 ++ c.0) (without_reasoning obj), c.1)

-- `transform_delta` on an object.
unfoldable pub transform_delta : Transformer → Fields → Fields × Transformer
unfolding to_field to_tag
transform_delta t obj = elim t.target [
  | passthrough ↦ (obj, t)
  | reasoning ↦ to_field "reasoning" t obj
  | reasoning_content ↦ to_field "reasoning_content" t obj
  | think_tag ↦ to_tag t obj
]

abbrev pub flush_field : Phase → String → String
flush_field content tf = "content"
flush_field in_think tf = tf

-- The delta that flushes the carried bytes.
unfoldable pub flush : String → Transformer → Option Fields × Transformer
flush tf t = elim (is_empty t.carry) [
  | true ↦ (none, t)
  | false ↦ (some ((flush_field t.phase tf, text t.carry) ∷ []), record t { carry = [] })
]

unfoldable pub finalize : Transformer → Option Fields × Transformer
unfolding flush
finalize t = elim t.target [
  | passthrough ↦ (none, t)
  | reasoning ↦ flush "reasoning" t
  | reasoning_content ↦ flush "reasoning_content" t
  | think_tag ↦
      if t.think_open && not t.think_closed
      then (some (("content", text close_tag) ∷ []), record t { think_closed = true })
      else (none, t)
]
