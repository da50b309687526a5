-- ===== src/Rollup/Size.antt =====
-- db/aggregate.rs: the sums by day hold no more rows than were scanned, so that their count of rows
-- does not overflow, and each day of a scan has at least one.
use que_qiao_router.Base.{
  ℕ, suc, ◌+◌, ◌%◌, ◌^◌, ◌≤◌, ◌<◌, ◌≡◌, refl, inl, inr, true, Option, none, some, List, [], ◌∷◌,
  arith, All, length, Bool-cases,
}
use que_qiao_router.Base.Int.{ℤ, ℤ_test, eqb_ℤ}
use que_qiao_router.Base.Keyed.{get, set}
use que_qiao_router.Days.{Calendar, local_day_ms}
use que_qiao_router.Rollup.{
  FloatSums, Row, Acc, Sums, Delta, observe, observe_on, observe_at, scan_row, scan_rows, acc_of,
  latency, ttft, count_row,
}
use que_qiao_router.Rollup.Totals.{rows_all, weight_of, sums_total, sums_total-set, value-acc_of}
use que_qiao_router.Rollup.Keys.{Unique, set-Unique}

module _ (floats : FloatSums) where
  -- The count of rows of all days together.
  abbrev pub size : Sums floats → ℕ
  size = sums_total floats rows_all (λ _. true)

  measured_rows :
      (l t : Option (FloatSums.F floats)) (a : Acc floats)
      → Acc.rows_all (ttft floats t (latency floats l a)) ≡ a.rows_all
  measured_rows none none a = refl
  measured_rows none (some v) a = refl
  measured_rows (some v) none a = refl
  measured_rows (some v) (some w) a = refl

  observe_rows :
      (r : Row floats) (a : Acc floats)
      → Acc.rows_all (observe floats r a) ≡ (a.rows_all + 1) % 2 ^ 64
  unfolding observe
  observe_rows r a = measured_rows r.latency_ms r.ttft_ms (count_row floats r a)

  pub get-size :
      (day : ℤ) (sums : Sums floats) → weight_of floats rows_all (get ℤ_test day sums) ≤ size sums
  unfolding get
  get-size day [] = omega arith
  get-size day (e ∷ sums) = elim (Bool-cases (eqb_ℤ e.0 day)) [
    | inl found ↦ rw found (omega arith)
    | inr other ↦ rw other (omega (arith, get-size day sums))
  ]

  acc_of-size : (day : ℤ) (sums : Sums floats) → Acc.rows_all (acc_of floats day sums) ≤ size sums
  acc_of-size day sums =
      let v = value-acc_of floats rows_all day sums in
      let g = get-size day sums in omega (arith, v, g)

  pub set-size :
      (day : ℤ) (a : Acc floats) (sums : Sums floats)
      → size (set ℤ_test day a sums) + Acc.rows_all (acc_of floats day sums)
        ≡ size sums + a.rows_all
  set-size day a sums =
      let s = sums_total-set floats rows_all (λ _. true) day a sums in
      let v = value-acc_of floats rows_all day sums in omega (arith, s, v)

  -- A day that stands in the map has a row.
  abbrev pub HasRow : ℤ × Acc floats → Type 0
  HasRow e = 1 ≤ e.1.rows_all

  pub set-HasRow :
      (day : ℤ) (a : Acc floats) (sums : Sums floats)
      → 1 ≤ a.rows_all
      → All HasRow sums
      → All HasRow (set ℤ_test day a sums)
  unfolding set
  set-HasRow day a [] h hs = (h, tt)
  set-HasRow day a (e ∷ sums) h hs = elim (Bool-cases (eqb_ℤ e.0 day)) [
    | inl found ↦ rw found (h, hs.1)
    | inr other ↦ rw other (hs.0, set-HasRow day a sums h hs.1)
  ]

  -- What holds of the days of a delta of at most `n` rows.
  pub record IsDelta (n : ℕ) (days : Sums floats) : Type 0 where
    pub one_each : Unique days
    pub rows : All HasRow days
    pub small : size days ≤ n

  module _ (calendar : Calendar) where
    observe_on-IsDelta :
        (n : ℕ) (o : Option ℤ) (r : Row floats) (delta : Delta floats)
        → suc n < 2 ^ 64
        → IsDelta n delta.days
        → IsDelta (suc n) (observe_on floats calendar o r delta).days
    observe_on-IsDelta n none r delta h d = record {
      one_each = d.one_each;
      rows = d.rows;
      small = omega (arith, d.small);
    }
    observe_on-IsDelta n (some day) r delta h d =
        let a = acc_of floats day delta.days in
        let s = set-size day (observe floats r a) delta.days in
        let k = acc_of-size day delta.days in
        let o = observe_rows r a in
        record {
          one_each = set-Unique day (observe floats r a) delta.days d.one_each;
          rows =
              set-HasRow day (observe floats r a) delta.days (omega (arith, o, k, d.small)) d.rows;
          small = omega (arith, s, k, o, d.small);
        }

    observe_at-IsDelta :
        (n : ℕ) (o : Option ℤ) (r : Row floats) (delta : Delta floats)
        → suc n < 2 ^ 64
        → IsDelta n delta.days
        → IsDelta (suc n) (observe_at floats calendar o r delta).days
    observe_at-IsDelta n none r delta h d = observe_on-IsDelta n none r delta h d
    observe_at-IsDelta n (some t) r delta h d =
        observe_on-IsDelta n (local_day_ms calendar t) r _ h d

    pub scan_rows-IsDelta :
        (n : ℕ) (rows : List (Row floats)) (delta : Delta floats)
        → n + length rows < 2 ^ 64
        → IsDelta n delta.days
        → IsDelta (n + length rows) (scan_rows floats calendar rows delta).days
    unfolding scan_rows scan_row
    scan_rows-IsDelta n [] delta h d = record {
      one_each = d.one_each;
      rows = d.rows;
      small = omega (arith, d.small);
    }
    scan_rows-IsDelta n (r ∷ rows) delta h d =
        let one = observe_at-IsDelta n r.time_ms r _ (omega arith) d in
        let rest =
          scan_rows-IsDelta (suc n) rows (scan_row floats calendar r delta) (omega arith) one in
        record { one_each = rest.one_each; rows = rest.rows; small = omega (arith, rest.small) }
