-- ===== src/Slices.antt =====
-- handlers/analysis_api/shards.rs: a span of time is cut into at most four slices that are queried
-- each for itself. Instants are i64 milliseconds.
pub mod Cover
mod Tests
use que_qiao_router.Base.{
  ℕ, zero, suc, ◌+◌, ◌-◌, ◌*◌, ◌^◌, ◌%◌, min, max, Bool, true, false, ◌||◌, List, [], ◌∷◌,
  if◌then◌else◌, ltb, leb, ◌==◌,
}
use que_qiao_router.Base.Int.{ℤ, pos, pos_part, neg_part, ◌+ℤ◌, leb_ℤ, ltb_ℤ, pred_ℤ}
use Prim.Native.Nat.{◌/◌}

abbrev pub day_ms : ℕ
day_ms = 86400000

abbrev pub max_i64 : ℕ
max_i64 = 2 ^ 63 - 1

-- `to.saturating_sub(from)`, where it is not negative.
abbrev pub saturating_span : ℤ → ℤ → ℕ
saturating_span from to =
    min max_i64 ((pos_part to + neg_part from) - (pos_part from + neg_part to))

-- `a.saturating_add(n)` for an n that is not negative.
abbrev pub saturating_add : ℤ → ℕ → ℤ
saturating_add a n = if ltb_ℤ (a +ℤ n) (pos (2 ^ 63)) then a +ℤ n else pos max_i64

abbrev pub saturating_mul : ℕ → ℕ → ℕ
saturating_mul a b = min max_i64 (a * b)

abbrev pub one_if_rest : ℕ → ℕ
one_if_rest r = if r == 0 then 0 else 1

-- A slice for each day begun, and one to four of them.
abbrev pub splits_of : ℕ → ℕ
splits_of span = min 4 (max 1 (span / day_ms + one_if_rest (span % day_ms)))

module _ (from to : ℤ) (splits step : ℕ) where
  abbrev pub slice_start : ℕ → ℤ
  slice_start i = if i == 0 then from else saturating_add from (saturating_mul i step)

  abbrev pub slice_end : ℕ → ℤ
  slice_end i =
      if i == (splits - 1) then to else pred_ℤ (saturating_add from (saturating_mul (suc i) step))

  -- The rounds of the loop from `i` on.
  unfoldable pub slice_loop : ℕ → ℕ → List (ℤ × ℤ)
  slice_loop i zero = []
  slice_loop i (suc left) = (slice_start i, slice_end i) ∷ slice_loop (suc i) left

unfoldable pub range_slices : ℤ → ℤ → List (ℤ × ℤ)
unfolding slice_loop
range_slices from to =
    let span = saturating_span from to in
    let splits = splits_of span in
    let step = span / splits in
    if leb_ℤ to from || ltb span day_ms
    then (from, to) ∷ []
    else if leb splits 1 || leb step 0
    then (from, to) ∷ []
    else slice_loop from to splits step 0 splits
