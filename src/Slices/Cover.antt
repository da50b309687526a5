-- ===== src/Slices/Cover.antt =====
-- handlers/analysis_api/shards.rs: each instant of a span is in just one of its slices.
use Prim.Native.Nat.{◌/◌}
use native.Mathlib.Nat.{mul-le-mul_right, mul-div-le}
use mathlib.Core.Path.{ap₂}
use que_qiao_router.Base.{
  ℕ, zero, suc, ◌+◌, ◌-◌, ◌*◌, ◌^◌, ◌≤◌, ◌<◌, min, ◌≡◌, refl, sym, ap, ◌∙◌, subst, inl, inr, Bool,
  true, false, ◌&&◌, ◌||◌, List, [], ◌∷◌, arith, if◌then◌else◌, ltb, leb, ◌==◌, length, Bool-cases,
  ==_iff, if_true, if_false,
}
use que_qiao_router.Base.Int.{
  ℤ, pos, ◌+ℤ◌, ◌≤ℤ◌, ◌<ℤ◌, leb_ℤ, pred_ℤ, parts-+ℤ, leb-pred_ℤ, lt→ltb_ℤ, ℤ_eq, leb_ℤ→le, le→leb_ℤ,
  not_leb_ℤ→lt, le→not_ltb_ℤ,
}
use que_qiao_router.Base.Merging.{keep}
use que_qiao_router.Slices.{
  day_ms, saturating_span, saturating_add, saturating_mul, splits_of, slice_start, slice_end,
  slice_loop, range_slices,
}

-- The instant is in the slice.
abbrev pub covers : ℤ → ℤ × ℤ → Bool
covers t slice = leb_ℤ slice.0 t && leb_ℤ t slice.1

abbrev pub once : Bool → ℕ
once b = if b then 1 else 0

not_eq : (a b : ℕ) → a < b → (a == b) ≡ false
not_eq a b h = ground arith

-- How many slices an instant is in.
abbrev pub covering : ℤ → List (ℤ × ℤ) → ℕ
covering t slices = length (keep (covers t) slices)

covering_one : (t : ℤ) (slice : ℤ × ℤ) → covering t (slice ∷ []) ≡ once (covers t slice)
unfolding keep
covering_one t slice = elim (Bool-cases (covers t slice)) [
  | inl there ↦ rw there refl
  | inr gone ↦ rw gone refl
]

covering_cons :
    (t : ℤ) (slice : ℤ × ℤ) (slices : List (ℤ × ℤ))
    → covering t (slice ∷ slices) ≡ once (covers t slice) + covering t slices
unfolding keep
covering_cons t slice slices = elim (Bool-cases (covers t slice)) [
  | inl there ↦ rw there (omega arith)
  | inr gone ↦ rw gone (omega arith)
]

-- Two slices that meet.
covers_split :
    (t a b c : ℤ)
    → a ≤ℤ b
    → b ≤ℤ c
    → once (covers t (a, c)) ≡ once (covers t (a, pred_ℤ b)) + once (covers t (b, c))
covers_split t a b c h k = rw (leb-pred_ℤ t b) (elim (Bool-cases (leb_ℤ b t)) [
  | inl late ↦
      let le = leb_ℤ→le b t late in
      rw (late, le→not_ltb_ℤ t b le, le→leb_ℤ a t (omega (arith, le))) (omega arith)
  | inr early ↦
      let lt = not_leb_ℤ→lt b t early in
      rw (early, lt→ltb_ℤ t b lt, le→leb_ℤ t c (omega (arith, lt))) (omega arith)
])

plus_zero : (a : ℤ) (n : ℕ) → n ≡ 0 → a +ℤ n ≡ a
plus_zero a n h = ℤ_eq (a +ℤ n) a (omega (arith, parts-+ℤ a n)) (omega (arith, parts-+ℤ a n))

not_le : (a b : ℕ) → leb a b ≡ false → b < a
not_le a b h = ground arith

neither : (a b : Bool) → (a || b) ≡ false → a ≡ false
neither true b h = h
neither false b h = refl

module _ (from to : ℤ) (splits step : ℕ) (fits : to <ℤ pos (2 ^ 63))
    (inside : splits * step ≤ saturating_span from to) (less : from ≤ℤ to) where
  abbrev bound : ℕ → ℤ
  bound i = from +ℤ i * step

  below_span : (i : ℕ) → i ≤ splits → i * step ≤ saturating_span from to
  below_span i h = let m = mul-le-mul_right step h in omega (arith, m, inside)

  bound_le : (i : ℕ) → i ≤ splits → bound i ≤ℤ to
  bound_le i h = omega (arith, parts-+ℤ from (i * step), below_span i h, less)

  bound-saturating : (i : ℕ) → i ≤ splits → saturating_add from (saturating_mul i step) ≡ bound i
  bound-saturating i h =
      let m : min (2 ^ 63 - 1) (i * step) ≡ i * step = omega (arith, below_span i h) in
      let lt : bound i <ℤ pos (2 ^ 63) = omega (arith, bound_le i h, fits) in
      rw (m, lt→ltb_ℤ (bound i) (pos (2 ^ 63)) lt) refl

  bound_zero : bound 0 ≡ from
  bound_zero = plus_zero from (0 * step) (omega arith)

  start-bound : (i : ℕ) → i ≤ splits → slice_start from to splits step i ≡ bound i
  start-bound i h = elim (Bool-cases (i == 0)) [
    | inl first ↦ rw ((==_iff i 0).0 first) (sym bound_zero)
    | inr later ↦ rw later (bound-saturating i h)
  ]

  bound_next : (i : ℕ) → bound i ≤ℤ bound (suc i)
  bound_next i =
      let le : i ≤ suc i = omega arith in
      let m = mul-le-mul_right step le in
      omega (arith, m, parts-+ℤ from (i * step), parts-+ℤ from (suc i * step))

  covering_loop :
      (t : ℤ) (i left : ℕ)
      → i + suc left ≡ splits
      → covering t (slice_loop from to splits step i (suc left)) ≡ once (covers t (bound i, to))
  unfolding slice_loop
  covering_loop t i zero h =
      let last : i ≡ splits - 1 = omega arith in
      covering_one t (slice_start from to splits step i, slice_end from to splits step i)
      ∙ ap₂ (λ a b. once (covers t (a, b))) (start-bound i (omega arith))
          (if_true _ _ ((==_iff i (splits - 1)).1 last))
  covering_loop t i (suc left) h =
      let here : ℤ × ℤ = (slice_start from to splits step i, slice_end from to splits step i) in
      let next = suc i in
      let end =
        if_false _ _ (not_eq i (splits - 1) (omega arith))
        ∙ ap pred_ℤ (bound-saturating next (omega arith)) in
      covering_cons t here (slice_loop from to splits step (suc i) (suc left))
      ∙ ap₂ ◌+◌ (ap₂ (λ a b. once (covers t (a, b))) (start-bound i (omega arith)) end)
          (covering_loop t (suc i) left (omega arith))
      ∙ sym (covers_split t (bound i) (bound next) to (bound_next i) (bound_le next (omega arith)))

-- Each instant of a span is in one of its slices, and no other is in any.
pub range_slices-covers :
    (from to t : ℤ)
    → to <ℤ pos (2 ^ 63)
    → covering t (range_slices from to) ≡ once (covers t (from, to))
unfolding range_slices
range_slices-covers from to t fits =
    let span = saturating_span from to in
    let splits = splits_of span in
    let step = span / splits in
    elim (Bool-cases (leb_ℤ to from || ltb span day_ms)) [
      | inl short ↦ rw short (covering_one t (from, to))
      | inr long ↦ elim (Bool-cases (leb splits 1 || leb step 0)) [
        | inl single ↦ rw (long, single) (covering_one t (from, to))
        | inr several ↦
            rw (long, several)
              (let two = not_le splits 1 (neither _ _ several) in
                let less = not_leb_ℤ→lt to from (neither _ _ long) in
                let e : suc (splits - 1) ≡ splits = omega (arith, two) in
                let inside = mul-div-le span splits in
                subst
                  (λ k.
                    covering t (slice_loop from to splits step 0 k) ≡ once (covers t (from, to)))
                  e
                  (covering_loop from to splits step fits inside (omega (arith, less)) t 0
                      (splits - 1) (omega (arith, e))
                    ∙ ap (λ b. once (covers t (b, to)))
                        (bound_zero from to splits step fits inside (omega (arith, less)))))
      ]
    ]
