-- ===== src/Days/Bounds.antt =====
-- db/aggregate.rs: the full days of a span lie in it, from the start of a day to the start of a
-- day, under a calendar whose days are no longer than 24 hours.
use que_qiao_router.Base.{
  ℕ, ◌≡◌, inl, inr, Option, some, arith, >>=-eq-some, eq_of_some, Bool-cases, ap, subst,
  if◌then◌else◌,
}
use que_qiao_router.Base.Int.{
  ℤ, ◌≤ℤ◌, ◌<ℤ◌, leb_ℤ, eqb_ℤ, suc_ℤ, leb_ℤ→le, le→leb_ℤ, eqb_ℤ→eq, lt-suc_ℤ, ◌+ℤ◌, parts-+ℤ, ℤ_eq,
  not_leb_ℤ→lt, lt→not_leb_ℤ,
}
use que_qiao_router.Days.{Calendar, local_day_ms, next_local_day, full_day_bounds}

abbrev pub day_ms : ℕ
day_ms = 86400000

-- Days as chrono has them, where no clock is put back: each instant is of the day that starts last
-- before it.
pub record IsCalendar (calendar : Calendar) : Type 0 where
  pub starts : (t d : ℤ) → local_day_ms calendar t ≡ some d → d ≤ℤ t
  pub start_own : (t d : ℤ) → local_day_ms calendar t ≡ some d → local_day_ms calendar d ≡ some d
  pub ordered :
      (t u d e : ℤ)
      → local_day_ms calendar t ≡ some d
      → local_day_ms calendar u ≡ some e
      → t ≤ℤ u
      → d ≤ℤ e
  -- A `Duration` of a day is 24 hours.
  pub next :
      (d e : ℤ) → next_local_day calendar d ≡ some e → local_day_ms calendar (d +ℤ day_ms) ≡ some e
  -- No day is longer.
  pub short : (t d : ℤ) → local_day_ms calendar t ≡ some d → t <ℤ d +ℤ day_ms

-- The start of a day.
abbrev pub IsStart : Calendar → ℤ → Type 0
IsStart calendar d = local_day_ms calendar d ≡ some d

module _ (calendar : Calendar) (laws : IsCalendar calendar) where
  open laws use {starts, start_own, ordered, next, short}

  next-IsStart : (d e : ℤ) → next_local_day calendar d ≡ some e → IsStart calendar e
  next-IsStart d e h = start_own (d +ℤ day_ms) e (next d e h)

  own : (t u d : ℤ) → local_day_ms calendar t ≡ some d → u ≡ t → local_day_ms calendar u ≡ some d
  own t u d h e = rw e h

  next_later :
      (t d e : ℤ) → local_day_ms calendar t ≡ some d → next_local_day calendar d ≡ some e → d <ℤ e
  next_later t d e h k =
      let n = next d e k in
      let le = ordered d (d +ℤ day_ms) d e (start_own t d h) n (omega (arith, parts-+ℤ d day_ms)) in
      elim (Bool-cases (leb_ℤ e d)) [
        | inl same ↦
            let eq = ℤ_eq e d (leb_ℤ→le e d same) le in
            absurd (omega (arith, short (d +ℤ day_ms) d (rw n (ap some eq))))
        | inr later ↦ not_leb_ℤ→lt e d later
      ]

  -- A day ends before the next one begins.
  pub before_next :
      (t d e : ℤ) → local_day_ms calendar t ≡ some d → next_local_day calendar d ≡ some e → t <ℤ e
  before_next t d e h k = elim (Bool-cases (leb_ℤ e t)) [
    | inl late ↦
        let back = ordered e t e d (next-IsStart d e k) h (leb_ℤ→le e t late) in
        absurd (omega (arith, next_later t d e h k, back))
    | inr early ↦ not_leb_ℤ→lt e t early
  ]

  -- An instant is before the start of a day just when its day is.
  pub start_iff :
      (s t d : ℤ) → IsStart calendar s → local_day_ms calendar t ≡ some d → leb_ℤ s d ≡ leb_ℤ s t
  start_iff s t d hs ht = elim (Bool-cases (leb_ℤ s t)) [
    | inl le ↦ rw le (le→leb_ℤ s d (ordered s t s d hs ht (leb_ℤ→le s t le)))
    | inr gt ↦
        let lt = not_leb_ℤ→lt s t gt in rw gt (lt→not_leb_ℤ s d (omega (arith, lt, starts t d ht)))
  ]

  pub record FullDays (from to first_full full_end : ℤ) : Type 0 where
    pub first_start : IsStart calendar first_full
    pub end_start : IsStart calendar full_end
    pub from_le : from ≤ℤ first_full
    pub end_le : full_end ≤ℤ suc_ℤ to

  abbrev first_day : ℤ → ℤ → Option ℤ
  first_day from from_day =
      if eqb_ℤ from from_day then some from_day else next_local_day calendar from_day

  le_of_lt : (a b : ℤ) → a <ℤ b → a ≤ℤ b
  le_of_lt a b h = omega arith

  first_day-IsStart :
      (from from_day first_full : ℤ)
      → local_day_ms calendar from ≡ some from_day
      → first_day from from_day ≡ some first_full
      → IsStart calendar first_full × (from ≤ℤ first_full)
  first_day-IsStart from from_day first_full h k = elim (Bool-cases (eqb_ℤ from from_day)) [
    | inl same ↦
        let e = eq_of_some (rw same at k) in
        subst (λ x. IsStart calendar x × (from ≤ℤ x)) e
          (start_own from from_day h, rw (eqb_ℤ→eq from from_day same) (omega arith))
    | inr other ↦
        let n = rw other at k in
        (
          next-IsStart from_day first_full n,
          le_of_lt from first_full (before_next from from_day first_full h n),
        )
  ]

  end_day :
      (to to_day to_day_end : ℤ)
      → local_day_ms calendar to ≡ some to_day
      → next_local_day calendar to_day ≡ some to_day_end
      → let full_end = if leb_ℤ to_day_end (suc_ℤ to) then to_day_end else to_day in
        IsStart calendar full_end × (full_end ≤ℤ suc_ℤ to)
  end_day to to_day to_day_end h k = elim (Bool-cases (leb_ℤ to_day_end (suc_ℤ to))) [
    | inl whole ↦ rw whole (next-IsStart to_day to_day_end k, leb_ℤ→le to_day_end (suc_ℤ to) whole)
    | inr cut ↦ rw cut (
      start_own to to_day h,
      le_of_lt to_day (suc_ℤ to) ((lt-suc_ℤ to_day to).0 (starts to to_day h)),
    )
  ]

  -- The full days of a span begin and end at the start of a day, no earlier than the span and no
  -- later than its end.
  pub full_day_bounds-FullDays :
      (from to first_full full_end : ℤ)
      → full_day_bounds calendar from to ≡ some (first_full, full_end)
      → FullDays from to first_full full_end
  unfolding full_day_bounds
  full_day_bounds-FullDays from to first_full full_end h =
      let a = >>=-eq-some (local_day_ms calendar from) _ h in
      let b = >>=-eq-some (first_day from a.0) _ a.2 in
      let c = >>=-eq-some (local_day_ms calendar to) _ b.2 in
      let d = >>=-eq-some (next_local_day calendar c.0) _ c.2 in
      let first = first_day-IsStart from a.0 b.0 a.1 b.1 in
      let last = end_day to c.0 d.0 c.1 d.1 in
      let e = eq_of_some d.2 in
      subst (λ p. FullDays from to p.0 p.1) e
        (record { first_start = first.0; end_start = last.0; from_le = first.1; end_le = last.1 })
