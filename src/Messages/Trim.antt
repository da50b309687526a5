-- ===== src/Messages/Trim.antt =====
-- handlers/message_utils.rs: trimming twice is trimming once.
use que_qiao_router.Base.{
  ◌≡◌, refl, sym, ap, ◌∙◌, inl, inr, false, ◌&&◌, [], ◌∷◌, Bool-cases, if_true, if_false,
  if◌then◌else◌, subst,
}
use que_qiao_router.Messages.{Chars, is_whitespace, is_blank, trim_start, trim_end, trim}

-- The text does not begin with a space.
abbrev Starts : Chars → Type 0
Starts [] = Unit
Starts (c ∷ s) = is_whitespace c ≡ false

trim_start-Starts : (s : Chars) → Starts (trim_start s)
unfolding trim_start
trim_start-Starts [] = tt
trim_start-Starts (c ∷ s) = elim (Bool-cases (is_whitespace c)) [
  | inl space ↦ subst Starts (sym (if_true _ _ space)) (trim_start-Starts s)
  | inr letter ↦ subst Starts (sym (if_false _ _ letter)) letter
]

trim_start_started : (s : Chars) → Starts s → trim_start s ≡ s
unfolding trim_start
trim_start_started [] h = refl
trim_start_started (c ∷ s) h = if_false _ _ h

trim_end-Starts : (s : Chars) → Starts s → Starts (trim_end s)
unfolding trim_end
trim_end-Starts [] h = tt
trim_end-Starts (c ∷ s) h =
    let out : (is_whitespace c && is_blank (trim_end s)) ≡ false = rw h refl in
    subst Starts (sym (if_false _ _ out)) h

trim_end_idem : (s : Chars) → trim_end (trim_end s) ≡ trim_end s
unfolding trim_end
trim_end_idem [] = refl
trim_end_idem (c ∷ s) = elim (Bool-cases (is_whitespace c && is_blank (trim_end s))) [
  | inl gone ↦ ap trim_end (if_true _ _ gone) ∙ sym (if_true _ _ gone)
  | inr kept ↦
      ap trim_end (if_false _ _ kept)
      ∙ ap (λ t. if is_whitespace c && is_blank t then [] else c ∷ t) (trim_end_idem s)
]

-- A trimmed text is trimmed.
pub trim_idem : (s : Chars) → trim (trim s) ≡ trim s
unfolding trim
trim_idem s =
    ap trim_end (
      trim_start_started (trim_end (trim_start s))
        (trim_end-Starts (trim_start s) (trim_start-Starts s)))
    ∙ trim_end_idem (trim_start s)
