-- ===== src/Thinking/Tags.antt =====
-- handlers/thinking_transformer.rs: a stream whose reasoning is put into the content between tags.
use que_qiao_router.Base.{
  ◌≡◌, refl, sym, ap, ◌∙◌, Bool, true, false, Option, none, some, List, [], ◌∷◌, ◌++◌, All, or_else,
  lookup, insert, map, concat, lookup-insert_self, lookup-remove_ne, remove, append_nil,
  append_assoc,
}
use que_qiao_router.Config.{think_tag}
use que_qiao_router.Thinking.{
  Text, open_tag, close_tag, content, Transformer, new_transformer, text, Fields, text_of,
  str_field, without_reasoning, reasoning_of, tag_reasoning, tag_content, to_tag, transform_delta,
  finalize,
}

-- The text that a delta has as its content.
abbrev pub content_of : Fields → Text
content_of obj = or_else (str_field "content" obj) []

abbrev pub content_of_final : Option Fields → Text
content_of_final none = []
content_of_final (some obj) = content_of obj

-- All content that a stream has after the transformation, with that of the final delta.
abbrev pub stream_content : Transformer → List Fields → Text
stream_content t [] = content_of_final (finalize t).0
stream_content t (obj ∷ objs) =
    let r = transform_delta t obj in content_of r.0 ++ stream_content r.1 objs

-- A delta of reasoning alone, and one of the answer alone.
abbrev pub Reasons : Fields × Text → Type 0
Reasons p = (reasoning_of p.0 ≡ some p.1) × (content_of p.0 ≡ [])

abbrev pub Answers : Fields × Text → Type 0
Answers p = (reasoning_of p.0 ≡ none) × (content_of p.0 ≡ p.1)

without_reasoning-content :
    (obj : Fields) → lookup "content" (without_reasoning obj) ≡ lookup "content" obj
without_reasoning-content obj =
    lookup-remove_ne "reasoning_content" "content" (remove "reasoning" obj) refl
    ∙ lookup-remove_ne "reasoning" "content" obj refl

content_of-put : (out : Text) (obj : Fields) → content_of (insert "content" (text out) obj) ≡ out
content_of-put out obj =
    ap (λ v. or_else (text_of v) []) (lookup-insert_self "content" (text out) obj)

-- Whether the tag was opened, and whether it was closed.
abbrev tagging : Bool → Bool → Transformer
tagging opened closed = record {
  target = think_tag;
  phase = content;
  carry = [];
  think_open = opened;
  think_closed = closed;
}

abbrev shown : Fields × Transformer → Text × Transformer
shown r = (content_of r.0, r.1)

abbrev tag_step : Transformer → Option Text → Option Text → Text × Transformer
tag_step t dr dc = let r = tag_reasoning t dr in let c = tag_content r.1 dc in (r.0 ++ c.0, c.1)

shown-to_tag :
    (t : Transformer) (obj : Fields) (dr dc : Option Text)
    → reasoning_of obj ≡ dr
    → str_field "content" obj ≡ dc
    → shown (to_tag t obj) ≡ tag_step t dr dc
unfolding to_tag
shown-to_tag t obj none none e e' =
    rw (to_tag, e, e')
      (ap (λ (s : Text). (s, t))
        (ap (λ v. or_else (text_of v) []) (without_reasoning-content obj)
          ∙ ap (λ o. or_else o []) e'))
shown-to_tag t obj none (some c) e e' =
    rw (to_tag, e, e') (ap (λ (s : Text). (s, (tag_step t none (some c)).1)) (content_of-put _ _))
shown-to_tag t obj (some r) none e e' =
    rw (to_tag, e, e') (ap (λ (s : Text). (s, (tag_step t (some r) none).1)) (content_of-put _ _))
shown-to_tag t obj (some r) (some c) e e' =
    rw (to_tag, e, e')
      (ap (λ (s : Text). (s, (tag_step t (some r) (some c)).1)) (content_of-put _ _))

tag_content_empty :
    (t : Transformer) (dc : Option Text) → or_else dc [] ≡ [] → tag_content t dc ≡ ([], t)
unfolding tag_content
tag_content_empty t none h = refl
tag_content_empty t (some []) h = refl
tag_content_empty t (some (c ∷ s)) h = absurd (cc)

tag_content_text :
    (t : Transformer) (dc : Option Text) (s : Text)
    → or_else dc [] ≡ s
    → tag_content t dc ≡ tag_content t (some s)
unfolding tag_content
tag_content_text t none s h = rw (← h) refl
tag_content_text t (some c) s h = rw h refl

-- One delta, in terms of what it carries.
reason_step :
    (o k : Bool) (p : Fields × Text)
    → Reasons p
    → shown (transform_delta (tagging o k) p.0) ≡ tag_reasoning (tagging o k) (some p.1)
unfolding transform_delta
reason_step o k p h =
    let r = tag_reasoning (tagging o k) (some p.1) in
    shown-to_tag (tagging o k) p.0 (some p.1) (str_field "content" p.0) h.0 refl
    ∙ ap (λ (c : Text × Transformer). (r.0 ++ c.0, c.1)) (tag_content_empty r.1 _ h.1)
    ∙ ap (λ (s : Text). (s, r.1)) (append_nil r.0)

answer_step :
    (o k : Bool) (p : Fields × Text)
    → Answers p
    → shown (transform_delta (tagging o k) p.0) ≡ tag_content (tagging o k) (some p.1)
unfolding transform_delta tag_reasoning
answer_step o k p h =
    shown-to_tag (tagging o k) p.0 none (str_field "content" p.0) h.0 refl
    ∙ tag_content_text (tagging o k) _ p.1 h.1

abbrev pub deltas : List (Fields × Text) → List Fields
deltas ps = map (λ p. p.0) ps

abbrev pub texts : List (Fields × Text) → Text
texts ps = concat (map (λ p. p.1) ps)

next : List Fields → Text × Transformer → Text
next objs q = q.0 ++ stream_content q.1 objs

closed_stream :
    (answers : List (Fields × Text))
    → All Answers answers
    → stream_content (tagging true true) (deltas answers) ≡ texts answers
unfolding finalize tag_content next
closed_stream [] h = refl
closed_stream ((obj, []) ∷ answers) h =
    ap (next (deltas answers)) (answer_step true true (obj, []) h.0) ∙ closed_stream answers h.1
closed_stream ((obj, c ∷ s) ∷ answers) h =
    ap (next (deltas answers)) (answer_step true true (obj, c ∷ s) h.0)
    ∙ ap (λ x. (c ∷ s) ++ x) (closed_stream answers h.1)

open_stream :
    (answers : List (Fields × Text))
    → All Answers answers
    → stream_content (tagging true false) (deltas answers) ≡ close_tag ++ texts answers
unfolding finalize tag_content next lookup
open_stream [] h = refl
open_stream ((obj, []) ∷ answers) h =
    ap (next (deltas answers)) (answer_step true false (obj, []) h.0) ∙ open_stream answers h.1
open_stream ((obj, c ∷ s) ∷ answers) h =
    ap (next (deltas answers)) (answer_step true false (obj, c ∷ s) h.0)
    ∙ ap (λ x. close_tag ++ ((c ∷ s) ++ x)) (closed_stream answers h.1)

reasoning_stream :
    (reasons answers : List (Fields × Text))
    → All Reasons reasons
    → All Answers answers
    → stream_content (tagging true false) (deltas reasons ++ deltas answers)
      ≡ texts reasons ++ (close_tag ++ texts answers)
unfolding tag_reasoning next
reasoning_stream [] answers h k = open_stream answers k
reasoning_stream (p ∷ reasons) answers h k =
    ap (next (deltas reasons ++ deltas answers)) (reason_step true false p h.0)
    ∙ ap (λ x. p.1 ++ x) (reasoning_stream reasons answers h.1 k)
    ∙ sym (append_assoc p.1 (texts reasons) (close_tag ++ texts answers))

-- A stream that reasons first and answers then, for the target with tags: whatever the pieces, and
-- whichever names the reasoning comes under, the content of the whole stream with its final delta
-- is the reasoning between one `<think>` and one `</think>`, and the answer after it.
pub stream_content-tagged :
    (p : Fields × Text) (reasons answers : List (Fields × Text))
    → All Reasons (p ∷ reasons)
    → All Answers answers
    → stream_content (new_transformer think_tag) (deltas (p ∷ reasons) ++ deltas answers)
      ≡ open_tag ++ (texts (p ∷ reasons) ++ (close_tag ++ texts answers))
unfolding new_transformer tag_reasoning next
stream_content-tagged p reasons answers h k =
    ap (next (deltas reasons ++ deltas answers)) (reason_step false false p h.0)
    ∙ ap (λ x. open_tag ++ (p.1 ++ x)) (reasoning_stream reasons answers h.1 k)
    ∙ ap (λ x. open_tag ++ x) (sym (append_assoc p.1 (texts reasons) (close_tag ++ texts answers)))

-- Without reasoning the content is unchanged, and no tag is added.
pub stream_content-plain :
    (answers : List (Fields × Text))
    → All Answers answers
    → stream_content (new_transformer think_tag) (deltas answers) ≡ texts answers
unfolding new_transformer finalize tag_content next
stream_content-plain [] h = refl
stream_content-plain ((obj, []) ∷ answers) h =
    ap (next (deltas answers)) (answer_step false false (obj, []) h.0)
    ∙ stream_content-plain answers h.1
stream_content-plain ((obj, c ∷ s) ∷ answers) h =
    ap (next (deltas answers)) (answer_step false false (obj, c ∷ s) h.0)
    ∙ ap (λ x. (c ∷ s) ++ x) (stream_content-plain answers h.1)
