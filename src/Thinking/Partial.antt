-- ===== src/Thinking/Partial.antt =====
-- `partial_marker_len` of handlers/thinking_transformer.rs: its loop, and the cut that it makes.
use que_qiao_router.Base.{
  ℕ, zero, suc, ◌-◌, ◌<◌, ◌≤◌, ◌≡◌, refl, ap, ◌∙◌, inl, inr, [], ◌∷◌, ◌++◌, if◌then◌else◌, min,
  length, take, drop, arith, Bool-cases, length-append, ltb, ltb→lt,
}
use que_qiao_router.Thinking.{Text, same_bytes, partial_from, partial_marker_len}
use que_qiao_router.Thinking.Scan.{begins, begins_long, cut, cut-eq}

partial_from-cons :
    (k c : ℕ) (s m : Text) → k ≤ length s → partial_from k (c ∷ s) m ≡ partial_from k s m
unfolding partial_from
partial_from-cons zero c s m h = refl
partial_from-cons (suc k) c s m h =
    let e : length (c ∷ s) - suc k ≡ suc (length s - suc k) = omega arith in
    let same : drop (length (c ∷ s) - suc k) (c ∷ s) ≡ drop (length s - suc k) s =
      ap (λ n. drop n (c ∷ s)) e in
    rw (partial_from, same, partial_from-cons k c s m (omega arith))

begins-same_bytes :
    (s m : Text) → length s < length m → begins s m ≡ same_bytes s (take (length s) m)
begins-same_bytes [] [] h = absurd (omega arith)
begins-same_bytes [] (b ∷ m) h = refl
begins-same_bytes (c ∷ s) [] h = absurd (omega arith)
begins-same_bytes (c ∷ s) (b ∷ m) h = rw (begins-same_bytes s m (omega arith))

-- The first test of the loop, at the whole text.
partial_from_all :
    (c : ℕ) (s m : Text)
    → length (c ∷ s) < length m
    → partial_from (length (c ∷ s)) (c ∷ s) m
      ≡ (if begins (c ∷ s) m then length (c ∷ s) else partial_from (length s) s m)
unfolding partial_from
partial_from_all c s m h =
    let e : length (c ∷ s) - suc (length s) ≡ 0 = omega arith in
    let whole : drop (length (c ∷ s) - suc (length s)) (c ∷ s) ≡ c ∷ s =
      ap (λ n. drop n (c ∷ s)) e in
    rw (begins-same_bytes (c ∷ s) m h, partial_from-cons (length s) c s m (omega arith), whole)

partial_marker_len-cons :
    (c : ℕ) (s m : Text)
    → partial_marker_len (c ∷ s) m
      ≡ (if begins (c ∷ s) m then length (c ∷ s) else partial_marker_len s m)
unfolding partial_marker_len
partial_marker_len-cons c s m = elim (Bool-cases (ltb (length (c ∷ s)) (length m))) [
  | inl short ↦
      let lt = ltb→lt _ _ short in
      let e : min (length (c ∷ s)) (length m - 1) ≡ length (c ∷ s) = omega arith in
      let e' : min (length s) (length m - 1) ≡ length s = omega arith in
      rw (e, e') (partial_from_all c s m lt)
  | inr long ↦
      let le : length m ≤ length (c ∷ s) = ground arith in
      let e : min (length (c ∷ s)) (length m - 1) ≡ length m - 1 = omega arith in
      let e' : min (length s) (length m - 1) ≡ length m - 1 = omega arith in
      rw (e, e', begins_long (c ∷ s) m le) (partial_from-cons (length m - 1) c s m (omega arith))
]

-- `partial_marker_len` is the length of what the cut keeps back.
pub partial_marker_len-cut : (s m : Text) → partial_marker_len s m ≡ length (cut m s).1
unfolding partial_marker_len cut
partial_marker_len-cut [] m = ground arith
partial_marker_len-cut (c ∷ s) m = elim (Bool-cases (begins (c ∷ s) m)) [
  | inl kept ↦ partial_marker_len-cons c s m ∙ rw kept refl
  | inr out ↦ partial_marker_len-cons c s m ∙ rw out (partial_marker_len-cut s m)
]

take-append_self : (s t : Text) → take (length s) (s ++ t) ≡ s
take-append_self [] t = refl
take-append_self (c ∷ s) t = ap (◌∷◌ c) (take-append_self s t)

drop-append_self : (s t : Text) → drop (length s) (s ++ t) ≡ t
drop-append_self [] t = refl
drop-append_self (c ∷ s) t = drop-append_self s t

-- So it cuts the text there.
pub partial_marker_len_at : (s m : Text) → length s - partial_marker_len s m ≡ length (cut m s).0
partial_marker_len_at s m = omega (
  arith,
  partial_marker_len-cut s m,
  ap length (cut-eq m s),
  length-append (cut m s).0 (cut m s).1,
)

pub take-partial_marker_len :
    (s m : Text) → take (length s - partial_marker_len s m) s ≡ (cut m s).0
take-partial_marker_len s m =
    ap (λ n. take n s) (partial_marker_len_at s m)
    ∙ ap (take (length (cut m s).0)) (cut-eq m s)
    ∙ take-append_self (cut m s).0 (cut m s).1

pub drop-partial_marker_len :
    (s m : Text) → drop (length s - partial_marker_len s m) s ≡ (cut m s).1
drop-partial_marker_len s m =
    ap (λ n. drop n s) (partial_marker_len_at s m)
    ∙ ap (drop (length (cut m s).0)) (cut-eq m s)
    ∙ drop-append_self (cut m s).0 (cut m s).1
