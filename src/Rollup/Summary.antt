-- ===== src/Rollup/Summary.antt =====
-- handlers/analysis_api/rollup.rs: the summary of the active shard from the sums of its days counts
-- what a scan of the whole span counts.
use que_qiao_router.Base.{
  ℕ, ◌+◌, ◌<◌, ◌≡◌, refl, sym, ap, inl, inr, Bool, true, false, ◌&&◌, Option, none, some, List, [],
  ◌∷◌, arith, All, length, Bool-cases, ltb, ==_iff, ltb→lt, >>=-eq-some, eq_of_some,
}
use que_qiao_router.Base.Int.{
  ℤ, leb_ℤ, pred_ℤ, ◌≤ℤ◌, ◌<ℤ◌, leb_ℤ→le, leb-pred_ℤ, le→not_ltb_ℤ, parts-pred_ℤ, ltb_not_ℤ,
}
use que_qiao_router.Base.Merging.{keep, All-imply}
use que_qiao_router.Days.{Calendar, local_day_ms}
use que_qiao_router.Days.Bounds.{IsCalendar, IsStart, start_iff}
use que_qiao_router.Rollup.{FloatSums, Row, default_acc}
use que_qiao_router.Rollup.Totals.{
  Count, total, value, contribution, ◌≈◌, when, row_weight, on_day, value-default,
}
use que_qiao_router.Rollup.Update.{Store, ActiveState, last_id_of_state}
use que_qiao_router.Rollup.Current.{Counts, upto}
use que_qiao_router.Rollup.Analyse.{
  Metrics, merge_metrics, default_metrics, within, at_most, caught_up, in_days, read_range,
  sum_days, scan_summary, add_scans,
}
use que_qiao_router.Rollup.Metrics.{
  Metric, count_of, metric, metric-merge_metrics, metric-default_metrics, window_total, total-keep,
  total_cong, value-sum_days,
}
use que_qiao_router.Rollup.Spans.{mid}

module _ (floats : FloatSums) where
  -- The engine's sums over the rows that a query selects, in 64 bits.
  abbrev pub IsSum : (List (Row floats) → Option (Metrics floats)) → Type 0
  IsSum select =
      (rows : List (Row floats)) (m : Metrics floats)
      → select rows ≡ some m
      → (k : Metric) → metric floats k m ≈ total (contribution floats (count_of k)) rows

  abbrev pub Dated : Calendar → Option ℤ → Type 0
  Dated calendar none = Unit
  Dated calendar (some t) = (d : ℤ) × (local_day_ms calendar t ≡ some d)

  abbrev pub Later : ℤ → Option ℤ → Type 0
  Later latest none = Unit
  Later latest (some t) = latest <ℤ t

  -- No row that is not counted yet is as early as the latest that is.
  abbrev pub InOrder : Option ActiveState → List (Row floats) → Type 0
  InOrder none table = Unit
  InOrder (some state) table =
      All (λ r. state.last_id < r.id → Later state.max_time_ms r.time_ms) table

  module _ (select : List (Row floats) → Option (Metrics floats)) (engine : IsSum select) where
    pub scan_summary-total :
        (k : Metric) (table : List (Row floats)) (window : ℤ × ℤ) (m : Metrics floats)
        → scan_summary floats select table window ≡ some m
        → metric floats k m ≈ window_total floats k window table
    unfolding scan_summary
    scan_summary-total k table window m h =
        let rows = keep (λ r. within floats window r.time_ms) table in
        let row = >>=-eq-some (select rows) _ h in
        let e = ap (metric floats k) (eq_of_some row.2) in
        omega (
          arith,
          e,
          metric-merge_metrics floats k (default_metrics floats) row.0,
          metric-default_metrics floats k,
          engine rows row.0 row.1 k,
          total-keep floats (contribution floats (count_of k)) (λ r. within floats window r.time_ms)
              table,
        )

    pub add_scans-total :
        (k : Metric) (table : List (Row floats)) (windows : List (ℤ × ℤ)) (m n : Metrics floats)
        → add_scans floats select table windows m ≡ some n
        → metric floats k n ≈ metric floats k m + total (λ w. window_total floats k w table) windows
    unfolding add_scans
    add_scans-total k table [] m n h =
        let e = ap (metric floats k) (eq_of_some h) in omega (arith, e)
    add_scans-total k table (w ∷ windows) m n h =
        let scan = >>=-eq-some (scan_summary floats select table w) _ h in
        omega (
          arith,
          scan_summary-total k table w scan.0 scan.1,
          metric-merge_metrics floats k m scan.0,
          add_scans-total k table windows (merge_metrics floats m scan.0) n scan.2,
        )

  keep_none_of :
      (p : Row floats → Bool) (rows : List (Row floats))
      → length (keep p rows) ≡ 0
      → All (λ r. p r ≡ false) rows
  unfolding keep
  keep_none_of p [] h = tt
  keep_none_of p (r ∷ rows) h = elim (Bool-cases (p r)) [
    | inl yes_p ↦ absurd (omega (arith, rw (yes_p, keep) at h))
    | inr no_p ↦ (no_p, keep_none_of p rows (rw no_p at h))
  ]

  and_false : (b : Bool) → (b && false) ≡ false
  and_false true = refl
  and_false false = refl

  All-both :
      (P Q : Row floats → Type 0) (rows : List (Row floats))
      → All P rows
      → All Q rows
      → All (λ r. P r × Q r) rows
  All-both P Q [] h k = tt
  All-both P Q (r ∷ rows) h k = ((h.0, k.0), All-both P Q rows h.1 k.1)

  module _ (calendar : Calendar) (laws : IsCalendar calendar) (first_full full_end : ℤ) where
    -- The rows of the full days are counted.
    abbrev Settled : Option ActiveState → List (Row floats) → Type 0
    Settled state table =
        All
          (λ r.
            ltb (last_id_of_state floats state) r.id ≡ true
            → mid floats first_full full_end r.time_ms ≡ false)
          table

    not_mid :
        (o : Option ℤ) (latest : ℤ)
        → pred_ℤ full_end ≤ℤ latest
        → Later latest o
        → mid floats first_full full_end o ≡ false
    not_mid none latest h l = refl
    not_mid (some t) latest h l =
        rw (le→not_ltb_ℤ t full_end (omega (arith, h, l, parts-pred_ℤ full_end))) (and_false _)

    not_early :
        (o : Option ℤ)
        → at_most floats (pred_ℤ full_end) o ≡ false
        → mid floats first_full full_end o ≡ false
    not_early none h = refl
    not_early (some t) h = rw (sym (leb-pred_ℤ t full_end), h) (and_false _)

    pub caught_up-Settled :
        (state : Option ActiveState) (table : List (Row floats))
        → InOrder state table
        → caught_up floats state table (pred_ℤ full_end) ≡ true
        → Settled state table
    caught_up-Settled none table o h = absurd (cc)
    caught_up-Settled (some state) table o h =
        elim (Bool-cases (leb_ℤ (pred_ℤ full_end) state.max_time_ms)) [
          | inl early ↦
              All-imply _ _
                (λ r l new.
                  not_mid r.time_ms state.max_time_ms
                    (leb_ℤ→le (pred_ℤ full_end) state.max_time_ms early) (l (ltb→lt _ _ new)))
                table o
          | inr late ↦
              let none_pending = keep_none_of _ table ((==_iff _ _).0 (rw late at h)) in
              All-imply _ _ (λ r l new. not_early r.time_ms (rw new at l)) table none_pending
        ]

    on_day-mid :
        (o : Option ℤ)
        → Dated calendar o
        → IsStart calendar first_full
        → IsStart calendar full_end
        → on_day floats calendar (in_days floats first_full full_end) o
          ≡ mid floats first_full full_end o
    on_day-mid none d hs he = refl
    on_day-mid (some t) d hs he =
        rw
          (
            on_day,
            d.1,
            start_iff calendar laws first_full t d.0 hs d.1,
            ltb_not_ℤ d.0 full_end,
            start_iff calendar laws full_end t d.0 he d.1,
            ltb_not_ℤ t full_end,
          )
          refl

    row-mid :
        (c : Count) (last : ℕ) (r : Row floats)
        → Dated calendar r.time_ms
        → IsStart calendar first_full
        → IsStart calendar full_end
        → (ltb last r.id ≡ true → mid floats first_full full_end r.time_ms ≡ false)
        → when
            (upto floats calendar last r)
            (row_weight floats calendar c (in_days floats first_full full_end) r)
          ≡ when (mid floats first_full full_end r.time_ms) (contribution floats c r)
    row-mid c last r d hs he settled = elim (Bool-cases (ltb last r.id)) [
      | inl new ↦ rw (new, settled new) refl
      | inr counted ↦
          rw counted (ap (λ b. when b (contribution floats c r)) (on_day-mid r.time_ms d hs he))
    ]

    pub days-total :
        (c : Count) (store : Store floats) (table : List (Row floats))
        → All (λ r. Dated calendar r.time_ms) table
        → IsStart calendar first_full
        → IsStart calendar full_end
        → Settled store.active_state table
        → Counts floats calendar store.day_agg
            (keep (upto floats calendar (last_id_of_state floats store.active_state)) table)
        → value floats c (
            sum_days floats
              (read_range floats store.day_agg first_full full_end)
              (default_acc floats))
          ≈ total
              (λ r. when (mid floats first_full full_end r.time_ms) (contribution floats c r))
              table
    unfolding read_range
    days-total c store table d hs he settled counts =
        let last = last_id_of_state floats store.active_state in
        let p = in_days floats first_full full_end in
        let same =
          All-imply _ _ (λ r h. row-mid c last r h.0 hs he h.1) table
            (All-both _ _ table d settled) in
        omega (
          arith,
          value-sum_days floats c p store.day_agg (default_acc floats),
          value-default floats c,
          counts.totals c p,
          total-keep floats (row_weight floats calendar c p) (upto floats calendar last) table,
          total_cong floats _ _ table same,
        )
