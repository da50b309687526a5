-- ===== src/Thinking/Convert.antt =====
-- handlers/thinking_transformer.rs: what the conversion of a whole message does to its fields, and
-- that a conversion into tags can be undone.
use que_qiao_router.Base.{
  ℕ, ◌≡◌, refl, ap, ◌∙◌, String, false, Option, none, some, [], ◌∷◌, ◌++◌, str_eq, lookup,
  lookup-insert_self, lookup-insert_ne,
}
use que_qiao_router.Config.{ThinkingFormat, passthrough, think_tag, reasoning, reasoning_content}
use que_qiao_router.Thinking.{Text, open_tag, close_tag, Value, text, Fields, without_reasoning}
use que_qiao_router.Thinking.Fields.{
  written, unwritten, ToField, to_reasoning, to_reasoning_content, without_reasoning-none,
  without_reasoning-content,
}
use que_qiao_router.Thinking.Message.{
  Blocks, put_text, joined, without_blocks, classify_content, field_reasoning, extract_think_blocks,
  content_parts, answer_of, source_reasoning, message_to_field, message_to_tag, tagged_content,
  transform_message,
}

-- The text as a field.
abbrev pub as_value : Option Text → Option Value → Option Value
as_value none d = d
as_value (some s) d = some (text s)

lookup-put_text_self :
    (name : String) (o : Option Text) (obj : Fields)
    → lookup name (put_text name o obj) ≡ as_value o (lookup name obj)
lookup-put_text_self name none obj = refl
lookup-put_text_self name (some s) obj = lookup-insert_self name (text s) obj

lookup-put_text_ne :
    (name key : String) (o : Option Text) (obj : Fields)
    → str_eq name key ≡ false
    → lookup key (put_text name o obj) ≡ lookup key obj
lookup-put_text_ne name key none obj h = refl
lookup-put_text_ne name key (some s) obj h = lookup-insert_ne name key (text s) obj h

module _ (blocks : Text → Blocks) where
  -- The three fields of a message after its conversion.
  abbrev pub Converted : String → String → Fields → Fields → Type 0
  Converted tf name msg r =
      (lookup tf r ≡ as_value (source_reasoning blocks msg) none)
      × (lookup name r ≡ none)
      × (lookup "content" r ≡ as_value (answer_of blocks msg) (lookup "content" msg))

  to_field-Converted :
      (tf name : String) (msg : Fields)
      → str_eq "content" tf ≡ false
      → str_eq "content" name ≡ false
      → str_eq tf name ≡ false
      → str_eq tf "content" ≡ false
      → lookup tf (without_reasoning msg) ≡ none
      → lookup name (without_reasoning msg) ≡ none
      → Converted tf name msg (message_to_field blocks tf msg)
  unfolding message_to_field
  to_field-Converted tf name msg h h' k k' e e' =
      let ans = answer_of blocks msg in
      let src = source_reasoning blocks msg in
      let bare = without_reasoning msg in
      (
        lookup-put_text_ne "content" tf ans (put_text tf src bare) h
            ∙ lookup-put_text_self tf src bare
            ∙ ap (as_value src) e,
        lookup-put_text_ne "content" name ans (put_text tf src bare) h'
            ∙ lookup-put_text_ne tf name src bare k
            ∙ e',
        lookup-put_text_self "content" ans (put_text tf src bare)
            ∙ ap (as_value ans)
                (lookup-put_text_ne tf "content" src bare k' ∙ without_reasoning-content msg),
      )

  -- Where the target is a field, a whole message ends with its reasoning, from a field or else from
  -- the content, under the name of the target, with nothing under the other name, and with its
  -- content less the blocks of reasoning, or unchanged where it is no text.
  pub transform_message-Converted :
      (target : ThinkingFormat) (msg : Fields)
      → ToField target
      → Converted (written target) (unwritten target) msg (transform_message blocks target msg)
  unfolding transform_message
  transform_message-Converted reasoning msg to_reasoning =
      to_field-Converted "reasoning" "reasoning_content" msg refl refl refl refl
        (without_reasoning-none msg).0 (without_reasoning-none msg).1
  transform_message-Converted reasoning_content msg to_reasoning_content =
      to_field-Converted "reasoning_content" "reasoning" msg refl refl refl refl
        (without_reasoning-none msg).1 (without_reasoning-none msg).0
  transform_message-Converted passthrough msg h = elim h [ ]
  transform_message-Converted think_tag msg h = elim h [ ]

  -- What is read back from a content that is one block and an answer.
  tagged_back :
      (msg : Fields) (c : ℕ) (s ans : Text)
      → lookup "reasoning" msg ≡ none
      → lookup "reasoning_content" msg ≡ none
      → lookup "content" msg ≡ some (text (open_tag ++ ((c ∷ s) ++ (close_tag ++ ans))))
      → blocks (open_tag ++ ((c ∷ s) ++ (close_tag ++ ans))) ≡ (([], c ∷ s) ∷ [], ans)
      → (source_reasoning blocks msg ≡ some (c ∷ s)) × (answer_of blocks msg ≡ some ans)
  unfolding source_reasoning answer_of content_parts extract_think_blocks joined without_blocks
      classify_content field_reasoning
  tagged_back msg c s ans r rc ct h =
      (rw (source_reasoning, r, rc, ct, h) refl, rw (answer_of, ct, h) refl)

  -- A message that was converted into tags.
  to_tag-fields :
      (msg : Fields) (sr ans : Text)
      → source_reasoning blocks msg ≡ some sr
      → answer_of blocks msg ≡ some ans
      → (lookup "reasoning" (message_to_tag blocks msg) ≡ none)
        × (lookup "reasoning_content" (message_to_tag blocks msg) ≡ none)
        × (lookup "content" (message_to_tag blocks msg)
            ≡ some (text (open_tag ++ (sr ++ (close_tag ++ ans)))))
  unfolding message_to_tag
  to_tag-fields msg sr ans s a =
      let bare = without_reasoning msg in
      let c = tagged_content (source_reasoning blocks msg) (answer_of blocks msg) in
      (
        lookup-put_text_ne "content" "reasoning" c bare refl ∙ (without_reasoning-none msg).0,
        lookup-put_text_ne "content" "reasoning_content" c bare refl
            ∙ (without_reasoning-none msg).1,
        lookup-put_text_self "content" c bare
            ∙ ap (λ o. as_value o (lookup "content" bare))
                (ap (λ o. tagged_content o (answer_of blocks msg)) s
                  ∙ ap (tagged_content (some sr)) a),
      )

  -- A message with reasoning and an answer that is converted into tags and then to a field has the
  -- reasoning under the name of the field, nothing under the other name, and the answer as its
  -- content, where the expression matches the one block that the first conversion wrote.
  pub transform_message-tag_field :
      (target : ThinkingFormat) (msg : Fields) (c : ℕ) (s ans : Text)
      → ToField target
      → source_reasoning blocks msg ≡ some (c ∷ s)
      → answer_of blocks msg ≡ some ans
      → blocks (open_tag ++ ((c ∷ s) ++ (close_tag ++ ans))) ≡ (([], c ∷ s) ∷ [], ans)
      → let r = transform_message blocks target (transform_message blocks think_tag msg) in
        (lookup (written target) r ≡ some (text (c ∷ s)))
        × (lookup (unwritten target) r ≡ none)
        × (lookup "content" r ≡ some (text ans))
  unfolding transform_message
  transform_message-tag_field target msg c s ans f src a h =
      let tagged = message_to_tag blocks msg in
      let at = to_tag-fields msg (c ∷ s) ans src a in
      let back = tagged_back tagged c s ans at.0 at.1 at.2 h in
      let done = transform_message-Converted target tagged f in
      (
        done.0 ∙ ap (λ o. as_value o none) back.0,
        done.1,
        done.2 ∙ ap (λ o. as_value o (lookup "content" tagged)) back.1,
      )
