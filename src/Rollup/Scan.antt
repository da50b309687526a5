-- ===== src/Rollup/Scan.antt =====
-- db/aggregate.rs: the scan of new rows in batches counts each of them once, under its local day.
use que_qiao_router.Base.{◌+◌, ap, Bool, false, Option, none, some, List, [], ◌∷◌, arith}
use que_qiao_router.Base.Int.{ℤ, ℤ_test}
use que_qiao_router.Base.Keyed.{set}
use que_qiao_router.Days.{Calendar, local_day_ms}
use que_qiao_router.Rollup.{
  FloatSums, Row, Sums, Delta, observe, observe_on, observe_at, scan_row, scan_rows, acc_of,
}
use que_qiao_router.Rollup.Totals.{
  Count, contribution, ◌≈◌, when, when_≈, sums_total, sums_total-set, value-acc_of, value-observe,
  on_day, row_weight, rows_total,
}

module _ (floats : FloatSums) (calendar : Calendar) where
  set-observe :
      (c : Count) (p : ℤ → Bool) (day : ℤ) (r : Row floats) (sums : Sums floats)
      → sums_total floats c p (set ℤ_test day (observe floats r (acc_of floats day sums)) sums)
        ≈ sums_total floats c p sums + when (p day) (contribution floats c r)
  set-observe c p day r sums =
      let a = acc_of floats day sums in
      let s = sums_total-set floats c p day (observe floats r a) sums in
      let o = when_≈ (p day) _ _ _ (value-observe floats c r a) in
      let v = ap (when (p day)) (value-acc_of floats c day sums) in omega (arith, s, o, v)

  observe_on-total :
      (c : Count) (p : ℤ → Bool) (o : Option ℤ) (r : Row floats) (delta : Delta floats)
      → sums_total floats c p (observe_on floats calendar o r delta).days
        ≈ sums_total floats c p delta.days
          + when (elim o [ none ↦ false | some day ↦ p day ]) (contribution floats c r)
  observe_on-total c p none r delta = omega arith
  observe_on-total c p (some day) r delta = set-observe c p day r delta.days

  observe_at-total :
      (c : Count) (p : ℤ → Bool) (o : Option ℤ) (r : Row floats) (delta : Delta floats)
      → sums_total floats c p (observe_at floats calendar o r delta).days
        ≈ sums_total floats c p delta.days
          + when (on_day floats calendar p o) (contribution floats c r)
  observe_at-total c p none r delta = omega arith
  observe_at-total c p (some t) r delta = observe_on-total c p (local_day_ms calendar t) r _

  scan_row-total :
      (c : Count) (p : ℤ → Bool) (r : Row floats) (delta : Delta floats)
      → sums_total floats c p (scan_row floats calendar r delta).days
        ≈ sums_total floats c p delta.days + row_weight floats calendar c p r
  unfolding scan_row
  scan_row-total c p r delta = observe_at-total c p r.time_ms r _

  -- The scanned rows are added to what the delta has.
  pub scan_rows-total :
      (c : Count) (p : ℤ → Bool) (rows : List (Row floats)) (delta : Delta floats)
      → sums_total floats c p (scan_rows floats calendar rows delta).days
        ≈ sums_total floats c p delta.days + rows_total floats calendar c p rows
  unfolding scan_rows
  scan_rows-total c p [] delta = omega arith
  scan_rows-total c p (r ∷ rows) delta =
      let one = scan_row-total c p r delta in
      let rest = scan_rows-total c p rows (scan_row floats calendar r delta) in
      omega (arith, one, rest)
