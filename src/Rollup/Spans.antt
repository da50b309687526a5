-- ===== src/Rollup/Spans.antt =====
-- handlers/analysis_api/rollup.rs: the full days and the windows beside them cover each instant of a
-- span once, so that the summary of the active shard counts the rows of the span.
use que_qiao_router.Base.{
  ℕ, ◌+◌, ◌≡◌, refl, sym, inl, inr, Bool, false, ◌&&◌, Option, none, some, List, [], ◌∷◌, ◌++◌,
  arith, Bool-cases,
}
use que_qiao_router.Base.Int.{
  ℤ, leb_ℤ, ltb_ℤ, pred_ℤ, suc_ℤ, ◌≤ℤ◌, ◌<ℤ◌, leb-pred_ℤ, parts-suc_ℤ, leb_ℤ→le, le→leb_ℤ,
  not_leb_ℤ→lt, lt→not_leb_ℤ, lt→ltb_ℤ, le→not_ltb_ℤ, not_ltb_ℤ→le,
}
use que_qiao_router.Days.{correction_windows, windows_before, windows_after}
use que_qiao_router.Rollup.{FloatSums, Row}
use que_qiao_router.Rollup.Totals.{total, total-append, contribution, when}
use que_qiao_router.Rollup.Analyse.{within}
use que_qiao_router.Rollup.Metrics.{Metric, count_of, window_total, every_row, total_zero}

module _ (floats : FloatSums) where
  -- An instant from the start of the first full day to the end of the last.
  abbrev pub mid : ℤ → ℤ → Option ℤ → Bool
  mid first_full full_end none = false
  mid first_full full_end (some t) = leb_ℤ first_full t && ltb_ℤ t full_end

  module _ (from to first_full full_end : ℤ) (start : from ≤ℤ first_full)
      (less : first_full <ℤ full_end) (stop : full_end ≤ℤ suc_ℤ to) where
    cover_some :
        (t : ℤ) (n : ℕ)
        → when (leb_ℤ from t && leb_ℤ t to) n
          ≡ when (leb_ℤ from t && ltb_ℤ t first_full) n
            + when (leb_ℤ first_full t && ltb_ℤ t full_end) n
            + when (leb_ℤ full_end t && leb_ℤ t to) n
    cover_some t n = elim (Bool-cases (leb_ℤ first_full t)) [
      | inr early ↦
          let lt = not_leb_ℤ→lt first_full t early in
          rw
            (
              early,
              lt→ltb_ℤ t first_full lt,
              lt→not_leb_ℤ full_end t (omega arith),
              le→leb_ℤ t to (omega (arith, parts-suc_ℤ to)),
            )
            (omega arith)
      | inl ge ↦
          let le = leb_ℤ→le first_full t ge in
          elim (Bool-cases (leb_ℤ full_end t)) [
            | inr within_days ↦
                let lt = not_leb_ℤ→lt full_end t within_days in
                rw
                  (
                    ge,
                    within_days,
                    le→not_ltb_ℤ t first_full le,
                    lt→ltb_ℤ t full_end lt,
                    le→leb_ℤ from t (omega arith),
                    le→leb_ℤ t to (omega (arith, parts-suc_ℤ to)),
                  )
                  (omega arith)
            | inl late ↦
                let le_end = leb_ℤ→le full_end t late in
                rw
                  (
                    ge,
                    late,
                    le→not_ltb_ℤ t first_full le,
                    le→not_ltb_ℤ t full_end le_end,
                    le→leb_ℤ from t (omega arith),
                  )
                  (omega arith)
          ]
    ]

    cover :
        (o : Option ℤ) (n : ℕ)
        → when (within floats (from, to) o) n
          ≡ when (within floats (from, pred_ℤ first_full) o) n
            + when (mid first_full full_end o) n
            + when (within floats (full_end, to) o) n
    cover none n = omega arith
    cover (some t) n = rw (leb-pred_ℤ t first_full) (cover_some t n)

    pub span-total :
        (k : Metric) (table : List (Row floats))
        → window_total floats k (from, to) table
          ≡ window_total floats k (from, pred_ℤ first_full) table
            + total
                (λ r. when (mid first_full full_end r.time_ms) (contribution floats (count_of k) r))
                table
            + window_total floats k (full_end, to) table
    span-total k [] = omega arith
    span-total k (r ∷ table) =
        omega (arith, cover r.time_ms (contribution floats (count_of k) r), span-total k table)

    abbrev pub windows_total : Metric → List (ℤ × ℤ) → List (Row floats) → ℕ
    windows_total k windows table = total (λ w. window_total floats k w table) windows

    -- A window that would be empty is not scanned.
    before_none :
        (o : Option ℤ) (n : ℕ)
        → ltb_ℤ from first_full ≡ false
        → when (within floats (from, pred_ℤ first_full) o) n ≡ 0
    before_none none n h = refl
    before_none (some t) n h = rw (leb-pred_ℤ t first_full) (elim (Bool-cases (leb_ℤ from t)) [
      | inl ge ↦
          let le = leb_ℤ→le from t ge in
          rw (ge, le→not_ltb_ℤ t first_full (omega (arith, le, not_ltb_ℤ→le from first_full h)))
            refl
      | inr lt ↦ rw lt refl
    ])

    after_none :
        (o : Option ℤ) (n : ℕ)
        → leb_ℤ full_end to ≡ false
        → when (within floats (full_end, to) o) n ≡ 0
    after_none none n h = refl
    after_none (some t) n h = elim (Bool-cases (leb_ℤ full_end t)) [
      | inl ge ↦
          let le = leb_ℤ→le full_end t ge in
          rw (ge, lt→not_leb_ℤ t to (omega (arith, le, not_leb_ℤ→lt full_end to h))) refl
      | inr lt ↦ rw lt refl
    ]

    windows_total-append :
        (k : Metric) (table : List (Row floats)) (v w : List (ℤ × ℤ))
        → windows_total k (v ++ w) table ≡ windows_total k v table + windows_total k w table
    windows_total-append k table v w = total-append (λ x. window_total floats k x table) v w

    before-total :
        (k : Metric) (table : List (Row floats))
        → windows_total k (windows_before from first_full) table
          ≡ window_total floats k (from, pred_ℤ first_full) table
    before-total k table = elim (Bool-cases (ltb_ℤ from first_full)) [
      | inl scanned ↦ rw scanned (omega arith)
      | inr none_there ↦
          let z =
            total_zero floats _ table
              (every_row floats table (λ r. before_none r.time_ms _ none_there)) in
          rw none_there (sym z)
    ]

    after-total :
        (k : Metric) (table : List (Row floats))
        → windows_total k (windows_after to full_end) table
          ≡ window_total floats k (full_end, to) table
    after-total k table = elim (Bool-cases (leb_ℤ full_end to)) [
      | inl scanned ↦ rw scanned (omega arith)
      | inr none_there ↦
          let z =
            total_zero floats _ table
              (every_row floats table (λ r. after_none r.time_ms _ none_there)) in
          rw none_there (sym z)
    ]

    pub windows-total :
        (k : Metric) (table : List (Row floats))
        → windows_total k (correction_windows from to first_full full_end) table
          ≡ window_total floats k (from, pred_ℤ first_full) table
            + window_total floats k (full_end, to) table
    unfolding correction_windows
    windows-total k table = omega (
      arith,
      windows_total-append k table (windows_before from first_full) (windows_after to full_end),
      before-total k table,
      after-total k table,
    )
