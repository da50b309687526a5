-- ===== src/Thinking/Loop.antt =====
-- The parsing loop of handlers/thinking_transformer.rs without its bound.
use que_qiao_router.Base.{
  ℕ, zero, suc, ◌<◌, ◌≤◌, ◌≡◌, refl, sym, ap, ◌∙◌, inl, inr, Option, none, some, [], length, arith,
  Option-cases,
}
use que_qiao_router.Thinking.{
  Text, Phase, content, in_think, marker, other, split_once, Parsed, emit, stop, parse_loop, parse,
}
use que_qiao_router.Thinking.Scan.{cut, split_once-IsSplit}
use que_qiao_router.Thinking.Partial.{take-partial_marker_len, drop-partial_marker_len}

-- Nothing put out, and bytes kept back.
abbrev pub kept : Phase → Text → Parsed
kept phase carry = record { content_out = []; reasoning_out = []; phase = phase; carry = carry }

pub stop-cut :
    (phase : Phase) (s : Text)
    → stop phase s ≡ emit phase (cut (marker phase) s).0 (kept phase (cut (marker phase) s).1)
unfolding stop
stop-cut phase s =
    rw (take-partial_marker_len s (marker phase), drop-partial_marker_len s (marker phase))

pub marker_long : (phase : Phase) → 1 ≤ length (marker phase)
marker_long content = omega arith
marker_long in_think = omega arith

pub shorter :
    (phase : Phase) (s : Text) {before after : Text}
    → split_once (marker phase) s ≡ some (before, after)
    → length after < length s
shorter phase s e = omega (arith, (split_once-IsSplit (marker phase) s e).long, marker_long phase)

loop_found :
    (n : ℕ) (phase : Phase) (s : Text) {before after : Text}
    → split_once (marker phase) s ≡ some (before, after)
    → parse_loop (suc n) phase s ≡ emit phase before (parse_loop n (other phase) after)
unfolding parse_loop
loop_found n phase s e = rw (e, parse_loop)

loop_none :
    (n : ℕ) (phase : Phase) (s : Text)
    → split_once (marker phase) s ≡ none
    → parse_loop n phase s ≡ stop phase s
unfolding parse_loop
loop_none zero phase s e = refl
loop_none (suc n) phase s e = rw (e, parse_loop)

loop_enough :
    (n k : ℕ) (phase : Phase) (s : Text)
    → length s < n
    → length s < k
    → parse_loop n phase s ≡ parse_loop k phase s
loop_enough zero k phase s h h' = absurd (omega arith)
loop_enough (suc n) zero phase s h h' = absurd (omega arith)
loop_enough (suc n) (suc k) phase s h h' = elim (Option-cases (split_once (marker phase) s)) [
  | inl e ↦ loop_none (suc n) phase s e ∙ sym (loop_none (suc k) phase s e)
  | inr ((before, after), e) ↦
      let less = shorter phase s e in
      loop_found n phase s e
      ∙ ap (emit phase before) (loop_enough n k (other phase) after (omega arith) (omega arith))
      ∙ sym (loop_found k phase s e)
]

pub parse_found :
    (phase : Phase) (s : Text) {before after : Text}
    → split_once (marker phase) s ≡ some (before, after)
    → parse phase s ≡ emit phase before (parse (other phase) after)
unfolding parse
parse_found phase s {before} {after} e =
    let less = shorter phase s e in
    loop_found (length s) phase s e
    ∙ ap (emit phase before)
        (loop_enough (length s) (suc (length after)) (other phase) after less (omega arith))

pub parse-none :
    (phase : Phase) (s : Text) → split_once (marker phase) s ≡ none → parse phase s ≡ stop phase s
unfolding parse
parse-none phase s e = loop_none (suc (length s)) phase s e

-- The loop without its bound.
abbrev pub round : Phase → Text → Option (Text × Text) → Parsed
round phase s none = stop phase s
round phase s (some (before, after)) = emit phase before (parse (other phase) after)

-- The bound on the rounds of the parsing loop is never met: parsing a text is the round that the
-- source's loop makes, followed by parsing what that round leaves.
pub parse-round :
    (phase : Phase) (s : Text) → parse phase s ≡ round phase s (split_once (marker phase) s)
parse-round phase s = elim (Option-cases (split_once (marker phase) s)) [
  | inl e ↦ rw e (parse-none phase s e)
  | inr ((before, after), e) ↦ rw e (parse_found phase s e)
]
