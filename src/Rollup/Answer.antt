-- ===== src/Rollup/Answer.antt =====
-- handlers/analysis_api/rollup.rs: the answer of the analysis for the active shard.
use que_qiao_router.Base.{
  ◌≡◌, refl, inl, inr, true, Option, some, List, [], ◌∷◌, arith, All, Bool-cases, Option-cases,
}
use que_qiao_router.Base.Int.{ℤ, ltb_ℤ, pred_ℤ, ltb_ℤ→lt}
use que_qiao_router.Base.Merging.{keep}
use que_qiao_router.Days.{Calendar, full_day_bounds, correction_windows}
use que_qiao_router.Days.Bounds.{IsCalendar, FullDays, full_day_bounds-FullDays}
use que_qiao_router.Rollup.{FloatSums, Row, default_acc}
use que_qiao_router.Rollup.Totals.{◌≈◌}
use que_qiao_router.Rollup.Update.{Store, last_id_of_state}
use que_qiao_router.Rollup.Current.{Counts, upto}
use que_qiao_router.Rollup.Analyse.{
  Metrics, merge_metrics, metrics_from_acc, active_caught_up, read_range, sum_days, scan_summary,
  add_scans, from_days, analyse_active, within, default_metrics,
}
use que_qiao_router.Rollup.Metrics.{Metric, count_of, metric, metric-metrics_from_acc, window_total}
use que_qiao_router.Rollup.Spans.{windows-total, span-total}
use que_qiao_router.Rollup.Summary.{
  IsSum, Dated, InOrder, scan_summary-total, add_scans-total, days-total, caught_up-Settled,
}

module _ (floats : FloatSums) (select : List (Row floats) → Option (Metrics floats))
    (answers : (rows : List (Row floats)) → (m : Metrics floats) × (select rows ≡ some m))
    (engine : IsSum floats select) where
  -- An answer whose counts are those of the rows of a window.
  abbrev pub SumsWindow : Option (Metrics floats) → List (Row floats) → ℤ × ℤ → Type 0
  SumsWindow answer table window =
      (m : Metrics floats) × (answer ≡ some m)
      × ((k : Metric) → metric floats k m ≈ window_total floats k window table)

  scan_answers :
      (table : List (Row floats)) (window : ℤ × ℤ)
      → (m : Metrics floats) × (scan_summary floats select table window ≡ some m)
  unfolding scan_summary
  scan_answers table window =
      let row = answers (keep (λ r. within floats window r.time_ms) table) in
      (merge_metrics floats (default_metrics floats) row.0, rw row.1 refl)

  scan_summary-SumsWindow :
      (table : List (Row floats)) (window : ℤ × ℤ)
      → SumsWindow (scan_summary floats select table window) table window
  scan_summary-SumsWindow table window =
      let scan = scan_answers table window in
      (scan.0, scan.1, λ k. scan_summary-total floats select engine k table window scan.0 scan.1)

  add_scans_answers :
      (table : List (Row floats)) (windows : List (ℤ × ℤ)) (m : Metrics floats)
      → (n : Metrics floats) × (add_scans floats select table windows m ≡ some n)
  unfolding add_scans
  add_scans_answers table [] m = (m, refl)
  add_scans_answers table (w ∷ windows) m =
      let scan = scan_answers table w in
      let rest = add_scans_answers table windows (merge_metrics floats m scan.0) in
      (rest.0, rw scan.1 rest.1)

  module _ (calendar : Calendar) (laws : IsCalendar calendar) (store : Store floats)
      (table : List (Row floats)) (dated : All (λ r. Dated floats calendar r.time_ms) table)
      (ordered : InOrder floats store.active_state table)
      (counts : Counts floats calendar store.day_agg
        (keep (upto floats calendar (last_id_of_state floats store.active_state)) table)) where
    from_days-SumsWindow :
        (from to first_full full_end : ℤ)
        → FullDays calendar laws from to first_full full_end
        → ltb_ℤ first_full full_end ≡ true
        → active_caught_up floats store table (pred_ℤ full_end) ≡ true
        → SumsWindow
            (from_days floats select calendar store table from to (first_full, full_end))
            table
            (from, to)
    unfolding active_caught_up
    from_days-SumsWindow from to first_full full_end f less caught =
        let days =
          sum_days floats (read_range floats store.day_agg first_full full_end)
            (default_acc floats) in
        let windows = correction_windows from to first_full full_end in
        let sum = add_scans_answers table windows (metrics_from_acc floats days) in
        let settled =
          caught_up-Settled floats calendar laws first_full full_end store.active_state table
            ordered caught in
        let lt = ltb_ℤ→lt first_full full_end less in
        (
          sum.0,
          sum.1,
          λ k. omega (
            arith,
            add_scans-total floats select engine k table windows _ sum.0 sum.1,
            metric-metrics_from_acc floats k days,
            days-total floats calendar laws first_full full_end (count_of k) store table dated
                f.first_start f.end_start settled counts,
            windows-total floats from to first_full full_end f.from_le lt f.end_le k table,
            span-total floats from to first_full full_end f.from_le lt f.end_le k table,
          ),
        )

    -- The analysis answers, and each count of its summary is, in 64 bits, that of the rows of the
    -- span, whether it comes from the sums of the days or from a scan.
    pub analyse_active-SumsWindow :
        (from to : ℤ)
        → SumsWindow (analyse_active floats select calendar store table from to) table (from, to)
    unfolding analyse_active
    analyse_active-SumsWindow from to = elim (Option-cases (full_day_bounds calendar from to)) [
      | inl no_days ↦ rw no_days (scan_summary-SumsWindow table (from, to))
      | inr ((first_full, full_end), e) ↦
          let f = full_day_bounds-FullDays calendar laws from to first_full full_end e in
          elim (Bool-cases (ltb_ℤ first_full full_end)) [
            | inr no_full ↦ rw (e, no_full) (scan_summary-SumsWindow table (from, to))
            | inl full ↦ elim (Bool-cases (active_caught_up floats store table (pred_ℤ full_end))) [
              | inr behind ↦ rw (e, full, behind) (scan_summary-SumsWindow table (from, to))
              | inl caught ↦
                  rw (e, full, caught)
                    (from_days-SumsWindow from to first_full full_end f full caught)
            ]
          ]
    ]
