-- ===== src/Thinking/Scan.antt =====
-- The search for a tag in handlers/thinking_transformer.rs: how a text that goes on changes what is
-- found, and which bytes at the end are kept back.
use que_qiao_router.Base.{
  ℕ, ◌+◌, ◌-◌, ◌<◌, ◌≤◌, ◌≡◌, refl, sym, ap, ◌∙◌, ◌⊎◌, inl, inr, Bool, true, false, ◌&&◌, Option,
  none, some, [], ◌∷◌, ◌++◌, ◌==◌, if◌then◌else◌, length, arith, Bool-cases, if_true, if_false,
}
use que_qiao_router.Thinking.{Text, strip_prefix, prepend, found_or, split_once}

-- The text is a beginning of the marker, and not the whole of it.
abbrev pub begins : Text → Text → Bool
begins [] [] = false
begins [] (_ ∷ _) = true
begins (_ ∷ _) [] = false
begins (c ∷ s) (m ∷ ms) = c == m && begins s ms

-- Before the longest end that begins the marker, and that end.
unfoldable pub cut : Text → Text → Text × Text
cut m [] = ([], [])
cut m (c ∷ s) =
    let later = cut m s in if begins (c ∷ s) m then ([], c ∷ s) else (c ∷ later.0, later.1)

strip_prefix-append :
    (m s t : Text) {after : Text}
    → strip_prefix m s ≡ some after
    → strip_prefix m (s ++ t) ≡ some (after ++ t)
strip_prefix-append [] s t h = ground arith
strip_prefix-append (b ∷ m) [] t h = absurd (cc)
strip_prefix-append (b ∷ m) (c ∷ s) t h = elim (Bool-cases (c == b)) [
  | inl same ↦ rw (if_true _ _ same) (strip_prefix-append m s t (sym (if_true _ _ same) ∙ h))
  | inr apart ↦ absurd (cc (sym (if_false _ _ apart) ∙ h))
]

-- Where neither is a beginning of the other, nothing that follows matters.
strip_prefix-append_none :
    (m s t : Text)
    → strip_prefix m s ≡ none
    → begins s m ≡ false
    → (strip_prefix m (s ++ t) ≡ none) × (begins (s ++ t) m ≡ false)
strip_prefix-append_none [] s t h b = absurd (cc)
strip_prefix-append_none (m ∷ ms) [] t h b = absurd (cc)
strip_prefix-append_none (m ∷ ms) (c ∷ s) t h b = elim (Bool-cases (c == m)) [
  | inl same ↦
      let r = strip_prefix-append_none ms s t (sym (if_true _ _ same) ∙ h) (rw same at b) in
      (rw (if_true _ _ same) r.0, rw same r.1)
  | inr apart ↦ (if_false _ _ apart, rw apart refl)
]

strip_prefix-length :
    (m s : Text) {after : Text} → strip_prefix m s ≡ some after → length s ≡ length m + length after
strip_prefix-length [] s h = ground arith
strip_prefix-length (b ∷ m) [] h = absurd (cc)
strip_prefix-length (b ∷ m) (c ∷ s) h = elim (Bool-cases (c == b)) [
  | inl same ↦ omega (arith, strip_prefix-length m s (sym (if_true _ _ same) ∙ h))
  | inr apart ↦ absurd (cc (sym (if_false _ _ apart) ∙ h))
]

pub begins_short : (s m : Text) → begins s m ≡ true → length s < length m
begins_short [] [] h = absurd (cc)
begins_short [] (b ∷ m) h = omega arith
begins_short (c ∷ s) [] h = absurd (cc)
begins_short (c ∷ s) (b ∷ m) h = elim (Bool-cases (c == b)) [
  | inl same ↦ omega (arith, begins_short s m (rw same at h))
  | inr apart ↦ absurd (cc (rw apart at h))
]

pub begins_long : (s m : Text) → length m ≤ length s → begins s m ≡ false
begins_long s m h = elim (Bool-cases (begins s m)) [
  | inl yes_ ↦ absurd (omega (arith, begins_short s m yes_))
  | inr no_ ↦ no_
]

found_or-none :
    {o : Option Text} {later : Option (Text × Text)}
    → found_or o later ≡ none
    → (o ≡ none) × (later ≡ none)
found_or-none {o = none} h = (refl, h)
found_or-none {o = some after} h = absurd (cc)

prepend-none : (c : ℕ) {o : Option (Text × Text)} → prepend c o ≡ none → o ≡ none
prepend-none c {o = none} h = refl
prepend-none c {o = some p} h = absurd (cc)

-- What a search finds, it has split off.
pub record IsSplit (m s before after : Text) : Type 0 where
  pub same : s ≡ before ++ m ++ after
  pub long : length s ≡ length before + length m + length after

strip_prefix-eq : (m s : Text) {after : Text} → strip_prefix m s ≡ some after → s ≡ m ++ after
strip_prefix-eq [] s h = ground arith
strip_prefix-eq (b ∷ m) [] h = absurd (cc)
strip_prefix-eq (b ∷ m) (c ∷ s) h = elim (Bool-cases (c == b)) [
  | inl same ↦
      let e : c ≡ b = ground arith in cc (e, strip_prefix-eq m s (sym (if_true _ _ same) ∙ h))
  | inr apart ↦ absurd (cc (sym (if_false _ _ apart) ∙ h))
]

-- The two ways in which a search succeeds.
split_once_step :
    (m : Text) (c : ℕ) (s : Text) {before after : Text}
    → split_once m (c ∷ s) ≡ some (before, after)
    → ((strip_prefix m (c ∷ s) ≡ some after) × (before ≡ []))
      ⊎ ((later : Text) × (strip_prefix m (c ∷ s) ≡ none)
          × (split_once m s ≡ some (later, after))
          × (before ≡ c ∷ later))
unfolding split_once
split_once_step m c s h = ground arith

found_at_end :
    (m : Text) {before after : Text}
    → split_once m [] ≡ some (before, after)
    → IsSplit m [] before after
unfolding split_once
found_at_end [] h = record { same = ground arith; long = ground arith }
found_at_end (b ∷ m) h = absurd (cc)

split_nothing : (t : Text) → split_once [] t ≡ some ([], t)
unfolding split_once
split_nothing [] = refl
split_nothing (c ∷ t) = refl

pub split_once-IsSplit :
    (m s : Text) {before after : Text}
    → split_once m s ≡ some (before, after)
    → IsSplit m s before after
split_once-IsSplit m [] h = found_at_end m h
split_once-IsSplit m (c ∷ s) {before} {after} h = elim (split_once_step m c s h) [
  | inl (e, b) ↦ record {
    same = rw b (strip_prefix-eq m (c ∷ s) e);
    long = rw b (omega (arith, strip_prefix-length m (c ∷ s) e));
  }
  | inr (later, e, found, b) ↦
      let ih = split_once-IsSplit m s found in
      record { same = rw b (ap (◌∷◌ c) ih.same); long = rw b (omega (arith, ih.long)) }
]

-- A text that goes on does not move the tag.
pub split_once-append :
    (m s t : Text) {before after : Text}
    → split_once m s ≡ some (before, after)
    → split_once m (s ++ t) ≡ some (before, after ++ t)
unfolding split_once
split_once-append [] [] t h = split_nothing t ∙ ground arith
split_once-append (b ∷ m) [] t h = absurd (cc)
split_once-append m (c ∷ s) t {before} {after} h = elim (split_once_step m c s h) [
  | inl (e, b) ↦ rw (b, strip_prefix-append m (c ∷ s) t e)
  | inr (later, e, found, b) ↦
      let short = (split_once-IsSplit m s found).long in
      let apart =
        strip_prefix-append_none m (c ∷ s) t e (begins_long (c ∷ s) m (omega (arith, short))) in
      rw (b, apart.0, split_once-append m s t found)
]

-- Puts a text before what is found.
abbrev pub prepend_all : Text → Option (Text × Text) → Option (Text × Text)
prepend_all [] o = o
prepend_all (c ∷ s) o = prepend c (prepend_all s o)

-- If none is found, the bytes before the cut play no part in what follows.
pub split_once-append_none :
    (m s t : Text)
    → split_once m s ≡ none
    → split_once m (s ++ t) ≡ prepend_all (cut m s).0 (split_once m ((cut m s).1 ++ t))
unfolding split_once cut
split_once-append_none m [] t h = refl
split_once-append_none m (c ∷ s) t h = elim (Bool-cases (begins (c ∷ s) m)) [
  | inl kept ↦ rw (kept, prepend_all)
  | inr out ↦
      let r = found_or-none h in
      let apart = strip_prefix-append_none m (c ∷ s) t r.0 out in
      rw (out, apart.0, split_once-append_none m s t (prepend-none c r.1))
]

pub cut-append :
    (m s t : Text)
    → split_once m s ≡ none
    → let k = cut m ((cut m s).1 ++ t) in cut m (s ++ t) ≡ ((cut m s).0 ++ k.0, k.1)
unfolding split_once cut
cut-append m [] t h = refl
cut-append m (c ∷ s) t h = elim (Bool-cases (begins (c ∷ s) m)) [
  | inl kept ↦ rw kept
  | inr out ↦
      let r = found_or-none h in
      let apart = strip_prefix-append_none m (c ∷ s) t r.0 out in
      rw (out, apart.1, cut-append m s t (prepend-none c r.1))
]

pub cut-eq : (m s : Text) → s ≡ (cut m s).0 ++ (cut m s).1
unfolding cut
cut-eq m [] = refl
cut-eq m (c ∷ s) = elim (Bool-cases (begins (c ∷ s) m)) [
  | inl kept ↦ rw kept
  | inr out ↦ rw out (ap (◌∷◌ c) (cut-eq m s))
]

-- What is kept back begins the marker, or is nothing.
pub cut_begins : (m s : Text) → length (cut m s).1 ≤ length m - 1
unfolding cut
cut_begins m [] = omega arith
cut_begins m (c ∷ s) = elim (Bool-cases (begins (c ∷ s) m)) [
  | inl kept ↦ rw kept (omega (arith, begins_short (c ∷ s) m kept))
  | inr out ↦ rw out (cut_begins m s)
]
