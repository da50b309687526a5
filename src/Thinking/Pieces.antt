-- ===== src/Thinking/Pieces.antt =====
-- handlers/thinking_transformer.rs: parsing a text loses nothing of it.
use que_qiao_router.Base.{
  ℕ, zero, suc, ◌<◌, ◌≡◌, refl, sym, ◌∙◌, subst, inl, inr, none, ◌++◌, length, arith, Option-cases,
}
use que_qiao_router.Thinking.{
  Text, Phase, content, in_think, marker, other, split_once, Parsed, emit, parse, Transformer,
  parse_content_source,
}
use que_qiao_router.Thinking.Scan.{cut, split_once-IsSplit, cut-eq, cut_begins}
use que_qiao_router.Thinking.Loop.{kept, stop-cut, marker_long, shorter, parse_found, parse-none}

emit-carry : (phase : Phase) (b : Text) (p : Parsed) → (emit phase b p).carry ≡ p.carry
unfolding emit
emit-carry content b p = refl
emit-carry in_think b p = refl

emit-phase : (phase : Phase) (b : Text) (p : Parsed) → (emit phase b p).phase ≡ p.phase
unfolding emit
emit-phase content b p = refl
emit-phase in_think b p = refl

-- How a text is put together from what a parse from a phase puts out: texts that are put out, with
-- the tag that ends the phase after each but the last, and what is kept back, which is shorter than
-- the tag that is looked for.
pub data Pieces : Phase → Text → Parsed → Type 0 where
  last :
      {phase : Phase} (b k : Text)
      → length k < length (marker phase)
      → Pieces phase (b ++ k) (emit phase b (kept phase k))
  tagged :
      {phase : Phase} {after : Text} {p : Parsed} (b : Text)
      → Pieces (other phase) after p
      → Pieces phase (b ++ marker phase ++ after) (emit phase b p)

cut-Pieces :
    (phase : Phase) (s : Text) → split_once (marker phase) s ≡ none → Pieces phase s (parse phase s)
cut-Pieces phase s e =
    let m = marker phase in
    subst (λ p. Pieces phase s p) (sym (parse-none phase s e ∙ stop-cut phase s))
      (subst (λ x. Pieces phase x (emit phase (cut m s).0 (kept phase (cut m s).1)))
        (sym (cut-eq m s))
        (last (cut m s).0 (cut m s).1 (omega (arith, cut_begins m s, marker_long phase))))

Pieces-within : (n : ℕ) (phase : Phase) (s : Text) → length s < n → Pieces phase s (parse phase s)
Pieces-within zero phase s h = absurd (omega arith)
Pieces-within (suc n) phase s h = elim (Option-cases (split_once (marker phase) s)) [
  | inl e ↦ cut-Pieces phase s e
  | inr ((before, after), e) ↦
      let less = shorter phase s e in
      subst (λ p. Pieces phase s p) (sym (parse_found phase s e))
        (subst (λ x. Pieces phase x (emit phase before (parse (other phase) after)))
          (sym (split_once-IsSplit (marker phase) s e).same)
          (tagged before (Pieces-within n (other phase) after (omega arith))))
]

-- Nothing is lost or made up: the carried bytes with a piece after them are what the parse puts
-- out to the content and to the reasoning, in turn and with only tags between, and the bytes that
-- it keeps back, fewer than the tag has that it looks for next.
pub parse-Pieces : (phase : Phase) (s : Text) → Pieces phase s (parse phase s)
parse-Pieces phase s = Pieces-within (suc (length s)) phase s (omega arith)

Pieces-short :
    {phase : Phase} {s : Text} {p : Parsed}
    → Pieces phase s p
    → length p.carry < length (marker p.phase)
Pieces-short {phase} (last b k h) =
    rw (emit-carry phase b (kept phase k), emit-phase phase b (kept phase k)) h
Pieces-short {phase} (tagged {p} b rest) =
    rw (emit-carry phase b p, emit-phase phase b p) (Pieces-short rest)

-- After any piece, whatever the state before, fewer bytes are carried than the tag has that is
-- looked for.
pub parse_content_source-carry :
    (t : Transformer) (piece : Text)
    → let after = (parse_content_source t piece).1 in
      length after.carry < length (marker after.phase)
unfolding parse_content_source
parse_content_source-carry t piece = Pieces-short (parse-Pieces t.phase (t.carry ++ piece))
