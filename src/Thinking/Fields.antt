-- ===== src/Thinking/Fields.antt =====
-- handlers/thinking_transformer.rs: the fields of a delta whose reasoning goes to a field.
use que_qiao_router.Base.{
  Option-cases, inl, inr, subst, sym, ◌≡◌, refl, ap, ◌∙◌, String, false, Option, none, some, [],
  ◌∷◌, lookup, insert, remove, str_eq, lookup-insert_self, lookup-insert_ne, lookup-remove_self,
  lookup-remove_ne,
}
use que_qiao_router.Config.{ThinkingFormat, passthrough, think_tag, reasoning, reasoning_content}
use que_qiao_router.Thinking.{
  Text, Transformer, text, Fields, text_of, non_empty, str_field, text_field, or, without_reasoning,
  reasoning_of, put_reasoning, parse_content_source, split_content, to_field, transform_delta,
}

-- The names of the field that a target writes, and of the other one.
abbrev pub written : ThinkingFormat → String
written reasoning = "reasoning"
written _ = "reasoning_content"

abbrev pub unwritten : ThinkingFormat → String
unwritten reasoning = "reasoning_content"
unwritten _ = "reasoning"

pub data ToField : ThinkingFormat → Type 0 where
  to_reasoning : ToField reasoning
  to_reasoning_content : ToField reasoning_content

or-none : {a b : Option Text} → or a b ≡ none → (a ≡ none) × (b ≡ none)
or-none {a = none} h = (refl, h)
or-none {a = some s} h = absurd (cc)

pub without_reasoning-content :
    (obj : Fields) → lookup "content" (without_reasoning obj) ≡ lookup "content" obj
without_reasoning-content obj =
    lookup-remove_ne "reasoning_content" "content" (remove "reasoning" obj) refl
    ∙ lookup-remove_ne "reasoning" "content" obj refl

pub without_reasoning-none :
    (obj : Fields)
    → (lookup "reasoning" (without_reasoning obj) ≡ none)
      × (lookup "reasoning_content" (without_reasoning obj) ≡ none)
without_reasoning-none obj = (
  lookup-remove_ne "reasoning_content" "reasoning" (remove "reasoning" obj) refl
      ∙ lookup-remove_self "reasoning" obj,
  lookup-remove_self "reasoning_content" (remove "reasoning" obj),
)

-- A field that neither the content nor the written field is.
lookup-put :
    (tf name : String) (c r : Text) (obj : Fields)
    → str_eq tf name ≡ false
    → str_eq "content" name ≡ false
    → lookup name (put_reasoning tf r (insert "content" (text c) obj)) ≡ lookup name obj
lookup-put tf name c [] obj h h' = lookup-insert_ne "content" name (text c) obj h'
lookup-put tf name c (b ∷ r) obj h h' =
    lookup-insert_ne tf name (text (b ∷ r)) (insert "content" (text c) obj) h
    ∙ lookup-insert_ne "content" name (text c) obj h'

split_content-lookup :
    (tf name : String) (t : Transformer) (obj : Fields) (dc : Option Text)
    → str_eq tf name ≡ false
    → str_eq "content" name ≡ false
    → lookup name (split_content tf t obj dc).0 ≡ lookup name obj
unfolding split_content
split_content-lookup tf name t obj none h h' = refl
split_content-lookup tf name t obj (some s) h h' =
    let r = parse_content_source t s in lookup-put tf name r.0.0 r.0.1 obj h h'

-- A delta with reasoning under either name.
record Moved (tf name : String) (t : Transformer) (obj : Fields) (val : Text)
    (r : Fields × Transformer) : Type 0 where
  pub value : lookup tf r.0 ≡ some (text val)
  pub gone : lookup name r.0 ≡ none
  pub content : lookup "content" r.0 ≡ lookup "content" obj
  pub state : r.1 ≡ t

abbrev Shows : String → String → Transformer → Fields → Type 0
Shows tf name t obj =
    ((val : Text) → reasoning_of obj ≡ some val → Moved tf name t obj val (to_field tf t obj))
    × (reasoning_of obj ≡ none → text_field name (to_field tf t obj).0 ≡ none)

to_field-Shows :
    (tf name : String) (t : Transformer) (obj : Fields)
    → str_eq tf name ≡ false
    → str_eq "content" name ≡ false
    → str_eq tf "content" ≡ false
    → lookup name (without_reasoning obj) ≡ none
    → (reasoning_of obj ≡ none → text_field name obj ≡ none)
    → Shows tf name t obj
unfolding to_field
to_field-Shows tf name t obj h h' h'' gone empty = (
  λ val e.
      rw (to_field, e)
        (record {
          value = lookup-insert_self tf (text val) (without_reasoning obj);
          gone = lookup-insert_ne tf name (text val) (without_reasoning obj) h ∙ gone;
          content =
              lookup-insert_ne tf "content" (text val) (without_reasoning obj) h''
              ∙ without_reasoning-content obj;
          state = refl;
        }),
  λ e.
      rw (to_field, e)
        (ap (λ v. non_empty (text_of v))
            (split_content-lookup tf name t obj (str_field "content" obj) h h')
          ∙ empty e),
)

reasoning_target :
    (t : Transformer) (obj : Fields)
    → t.target ≡ reasoning
    → transform_delta t obj ≡ to_field "reasoning" t obj
unfolding transform_delta
reasoning_target t obj e = rw e

reasoning_content_target :
    (t : Transformer) (obj : Fields)
    → t.target ≡ reasoning_content
    → transform_delta t obj ≡ to_field "reasoning_content" t obj
unfolding transform_delta
reasoning_content_target t obj e = rw e

-- What a delta with the given reasoning, or without, becomes.
abbrev pub Moves :
    ThinkingFormat → Transformer → Fields → Option Text → Fields × Transformer → Type 0
Moves target t obj (some val) r =
    (lookup (written target) r.0 ≡ some (text val))
    × (lookup (unwritten target) r.0 ≡ none)
    × (lookup "content" r.0 ≡ lookup "content" obj)
    × (r.1 ≡ t)
Moves target t obj none r = text_field (unwritten target) r.0 ≡ none

Shows-Moves :
    (target : ThinkingFormat) (t : Transformer) (obj : Fields)
    → Shows (written target) (unwritten target) t obj
    → Moves target t obj (reasoning_of obj) (to_field (written target) t obj)
Shows-Moves target t obj shows = elim (Option-cases (reasoning_of obj)) [
  | inl e ↦ subst (λ o. Moves target t obj o (to_field (written target) t obj)) (sym e) (shows.1 e)
  | inr (val, e) ↦
      let m = shows.0 val e in
      subst (λ o. Moves target t obj o (to_field (written target) t obj)) (sym e)
        (m.value, m.gone, m.content, m.state)
]

-- Where the target is a field, the reasoning of a delta, under whichever name it came, stands under
-- the name of the target, nothing is left under the other name, and the content and the state are
-- kept. A delta without reasoning ends with no text under the other name either.
pub transform_delta-Moves :
    (target : ThinkingFormat) (t : Transformer) (obj : Fields)
    → ToField target
    → t.target ≡ target
    → Moves target t obj (reasoning_of obj) (transform_delta t obj)
transform_delta-Moves reasoning t obj to_reasoning e = rw (reasoning_target t obj e) (
    Shows-Moves reasoning t obj (
      to_field-Shows "reasoning" "reasoning_content" t obj refl refl refl
        (without_reasoning-none obj).1 (λ h. (or-none h).1)))
transform_delta-Moves reasoning_content t obj to_reasoning_content e =
    rw (reasoning_content_target t obj e) (
      Shows-Moves reasoning_content t obj (
        to_field-Shows "reasoning_content" "reasoning" t obj refl refl refl
          (without_reasoning-none obj).0 (λ h. (or-none h).0)))
transform_delta-Moves passthrough t obj h e = elim h [ ]
transform_delta-Moves think_tag t obj h e = elim h [ ]
