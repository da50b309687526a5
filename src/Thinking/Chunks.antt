-- ===== src/Thinking/Chunks.antt =====
-- handlers/thinking_transformer.rs: parsing a stream of content does not depend on how it is cut
-- into pieces.
use que_qiao_router.Base.{
  ℕ, zero, suc, ◌<◌, ◌≡◌, refl, sym, ap, ◌∙◌, inl, inr, none, some, List, [], ◌∷◌, ◌++◌, length,
  concat, arith, Option-cases, append_nil, append_assoc,
}
use que_qiao_router.Thinking.{
  Text, Phase, content, in_think, marker, other, split_once, Parsed, emit, parse, Transformer,
  parse_content_source,
}
use que_qiao_router.Thinking.Scan.{
  cut, split_once-append, split_once-append_none, prepend_all, cut-append,
}
use que_qiao_router.Thinking.Loop.{kept, stop-cut, shorter, parse_found, parse-none}

-- What a parse has put out, and the parse of what was kept back with a text that follows.
abbrev and_then : Parsed → Text → Parsed
and_then p t =
    let q = parse p.phase (p.carry ++ t) in
    record q {
      content_out = p.content_out ++ q.content_out;
      reasoning_out = p.reasoning_out ++ q.reasoning_out;
    }

and_then-emit :
    (phase : Phase) (b : Text) (p : Parsed) (t : Text)
    → and_then (emit phase b p) t ≡ emit phase b (and_then p t)
unfolding emit
and_then-emit content b p t =
    rw (append_assoc b p.content_out (parse p.phase (p.carry ++ t)).content_out)
and_then-emit in_think b p t =
    rw (append_assoc b p.reasoning_out (parse p.phase (p.carry ++ t)).reasoning_out)

emit-emit :
    (phase : Phase) (a b : Text) (p : Parsed)
    → emit phase a (emit phase b p) ≡ emit phase (a ++ b) p
unfolding emit
emit-emit content a b p = rw (append_assoc a b p.content_out)
emit-emit in_think a b p = rw (append_assoc a b p.reasoning_out)

prepend_all-none : (s : Text) → prepend_all s none ≡ none
prepend_all-none [] = refl
prepend_all-none (c ∷ s) = rw (prepend_all-none s)

prepend_all-some :
    (s before after : Text) → prepend_all s (some (before, after)) ≡ some (s ++ before, after)
prepend_all-some [] before after = refl
prepend_all-some (c ∷ s) before after = rw (prepend_all-some s before after)

stop-append :
    (phase : Phase) (s t : Text)
    → split_once (marker phase) s ≡ none
    → parse phase (s ++ t)
      ≡ emit phase (cut (marker phase) s).0 (parse phase ((cut (marker phase) s).1 ++ t))
stop-append phase s t e =
    let m = marker phase in
    let b = (cut m s).0 in
    let k = (cut m s).1 in
    let moved = split_once-append_none m s t e in
    elim (Option-cases (split_once m (k ++ t))) [
      | inl none_left ↦
          parse-none phase (s ++ t) (moved ∙ ap (prepend_all b) none_left ∙ prepend_all-none b)
          ∙ stop-cut phase (s ++ t)
          ∙ ap (λ (p : Text × Text). emit phase p.0 (kept phase p.1)) (cut-append m s t e)
          ∙ sym (emit-emit phase b (cut m (k ++ t)).0 (kept phase (cut m (k ++ t)).1))
          ∙ ap (emit phase b)
              (sym (stop-cut phase (k ++ t)) ∙ sym (parse-none phase (k ++ t) none_left))
      | inr ((before, after), found) ↦
          parse_found phase (s ++ t)
            (moved ∙ ap (prepend_all b) found ∙ prepend_all-some b before after)
          ∙ sym (emit-emit phase b before (parse (other phase) after))
          ∙ ap (emit phase b) (sym (parse_found phase (k ++ t) found))
    ]

kept-and_then :
    (phase : Phase) (b k t : Text)
    → and_then (emit phase b (kept phase k)) t ≡ emit phase b (parse phase (k ++ t))
kept-and_then phase b k t = and_then-emit phase b (kept phase k) t

append_within :
    (n : ℕ) (phase : Phase) (s t : Text)
    → length s < n
    → parse phase (s ++ t) ≡ and_then (parse phase s) t
append_within zero phase s t h = absurd (omega arith)
append_within (suc n) phase s t h = elim (Option-cases (split_once (marker phase) s)) [
  | inl e ↦
      stop-append phase s t e
      ∙ sym (kept-and_then phase (cut (marker phase) s).0 (cut (marker phase) s).1 t)
      ∙ ap (λ p. and_then p t) (sym (stop-cut phase s) ∙ sym (parse-none phase s e))
  | inr ((before, after), e) ↦
      let less = shorter phase s e in
      parse_found phase (s ++ t) (split_once-append (marker phase) s t e)
      ∙ ap (emit phase before) (append_within n (other phase) after t (omega arith))
      ∙ sym (and_then-emit phase before (parse (other phase) after) t)
      ∙ ap (λ p. and_then p t) (sym (parse_found phase s e))
]

-- A stream of pieces, one after the other: all that is put out to the content and to the
-- reasoning, and the transformer at its end.
abbrev pub feed : Transformer → List Text → (Text × Text) × Transformer
feed t [] = (([], []), t)
feed t (piece ∷ pieces) =
    let now = parse_content_source t piece in
    let later = feed now.1 pieces in ((now.0.0 ++ later.0.0, now.0.1 ++ later.0.1), later.1)

abbrev follow : Transformer → Text → Text → (Text × Text) × Transformer
follow t s s' =
    let now = parse_content_source t s in
    let later = parse_content_source now.1 s' in
    ((now.0.0 ++ later.0.0, now.0.1 ++ later.0.1), later.1)

result_of : Transformer → Parsed → (Text × Text) × Transformer
result_of t p = ((p.content_out, p.reasoning_out), record t { phase = p.phase; carry = p.carry })

parse_content_source-append :
    (t : Transformer) (s s' : Text) → parse_content_source t (s ++ s') ≡ follow t s s'
unfolding parse_content_source result_of
parse_content_source-append t s s' =
    ap (λ x. result_of t (parse t.phase x)) (sym (append_assoc t.carry s s'))
    ∙ ap (result_of t)
        (append_within (suc (length (t.carry ++ s))) t.phase (t.carry ++ s) s' (omega arith))

-- Streaming does not depend on the pieces: from any state, what a stream of at least one piece
-- puts out in all to the content and to the reasoning, and the state that it ends in, are those of
-- the whole text given at once, wherever the tags are cut.
pub feed-concat :
    (t : Transformer) (piece : Text) (pieces : List Text)
    → feed t (piece ∷ pieces) ≡ parse_content_source t (concat (piece ∷ pieces))
feed-concat t piece [] =
    let r = parse_content_source t piece in
    ap (λ (o : Text × Text). (o, r.1)) (cc (append_nil r.0.0, append_nil r.0.1))
    ∙ ap (parse_content_source t) (sym (append_nil piece))
feed-concat t piece (next ∷ pieces) =
    let now = parse_content_source t piece in
    ap
      (λ (later : (Text × Text) × Transformer).
        ((now.0.0 ++ later.0.0, now.0.1 ++ later.0.1), later.1))
      (feed-concat now.1 next pieces)
    ∙ sym (parse_content_source-append t piece (concat (next ∷ pieces)))
