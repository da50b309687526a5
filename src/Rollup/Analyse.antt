-- ===== src/Rollup/Analyse.antt =====
-- handlers/analysis_api/rollup.rs: the summary of a span of time for the active shard, from the sums
-- of its full days and queries of what is left at its ends. The database of the sums
-- answers; where it does not, the source scans as it does when the sums are behind.
use que_qiao_router.Base.{
  ℕ, Bool, true, false, ◌&&◌, Option, none, some, List, [], ◌∷◌, if◌then◌else◌, ltb, ◌==◌, length,
  ◌>>=◌,
}
use que_qiao_router.Base.Int.{ℤ, leb_ℤ, ltb_ℤ, pred_ℤ}
use que_qiao_router.Base.Merging.{keep}
use que_qiao_router.Days.{Calendar, full_day_bounds, correction_windows}
use que_qiao_router.Rollup.{FloatSums, Row, Acc, Sums, default_acc, add, add_i64}
use que_qiao_router.Rollup.Update.{Store, ActiveState}

module _ (floats : FloatSums) where
  open floats use {F}

  pub record Metrics : Type 0 where
    pub requests : ℕ
    pub success : ℕ
    pub errors : ℕ
    pub prompt_tokens : ℕ
    pub completion_tokens : ℕ
    pub total_tokens : ℕ
    pub latency_sum : F
    pub latency_count : ℕ
    pub latency_max : F
    pub ttft_sum : F
    pub ttft_count : ℕ

  -- `Metrics::add`.
  unfoldable pub merge_metrics : Metrics → Metrics → Metrics
  merge_metrics a b = record {
    requests = add_i64 a.requests b.requests;
    success = add_i64 a.success b.success;
    errors = add_i64 a.errors b.errors;
    prompt_tokens = add_i64 a.prompt_tokens b.prompt_tokens;
    completion_tokens = add_i64 a.completion_tokens b.completion_tokens;
    total_tokens = add_i64 a.total_tokens b.total_tokens;
    latency_sum = floats.add a.latency_sum b.latency_sum;
    latency_count = add_i64 a.latency_count b.latency_count;
    latency_max = floats.max a.latency_max b.latency_max;
    ttft_sum = floats.add a.ttft_sum b.ttft_sum;
    ttft_count = add_i64 a.ttft_count b.ttft_count;
  }

  abbrev pub metrics_from_acc : Acc floats → Metrics
  metrics_from_acc acc = record {
    requests = acc.counted;
    success = acc.success;
    errors = acc.errors;
    prompt_tokens = acc.prompt_tokens;
    completion_tokens = acc.completion_tokens;
    total_tokens = acc.total_tokens;
    latency_sum = acc.latency_sum;
    latency_count = acc.latency_count;
    latency_max = acc.latency_max;
    ttft_sum = acc.ttft_sum;
    ttft_count = acc.ttft_count;
  }

  abbrev pub default_metrics : Metrics
  default_metrics = metrics_from_acc (default_acc floats)

  -- `TimeMs >= ? AND TimeMs <= ?`, which a NULL is not.
  abbrev pub within : ℤ × ℤ → Option ℤ → Bool
  within window none = false
  within window (some t) = leb_ℤ window.0 t && leb_ℤ t window.1

  abbrev pub at_most : ℤ → Option ℤ → Bool
  at_most needed none = false
  at_most needed (some t) = leb_ℤ t needed

  -- Rows that are not counted yet and that a summary up to `needed` is about.
  abbrev pub pending : ℕ → ℤ → List (Row floats) → List (Row floats)
  pending last needed table = keep (λ r. ltb last r.id && at_most needed r.time_ms) table

  abbrev pub caught_up : Option ActiveState → List (Row floats) → ℤ → Bool
  caught_up none table needed = false
  caught_up (some state) table needed =
      if leb_ℤ needed state.max_time_ms
      then true
      else length (pending state.last_id needed table) == 0

  unfoldable pub active_caught_up : Store floats → List (Row floats) → ℤ → Bool
  active_caught_up store table needed = caught_up store.active_state table needed

  -- `SELECT … FROM day_agg WHERE day_ms >= ? AND day_ms < ?`.
  abbrev pub in_days : ℤ → ℤ → ℤ → Bool
  in_days first_full full_end day = leb_ℤ first_full day && ltb_ℤ day full_end

  unfoldable pub read_range : Sums floats → ℤ → ℤ → Sums floats
  read_range sums first_full full_end = keep (λ e. in_days first_full full_end e.0) sums

  unfoldable pub sum_days : Sums floats → Acc floats → Acc floats
  sum_days [] acc = acc
  sum_days (e ∷ days) acc = sum_days days (add floats acc e.1)

  -- What the engine answers to `summary_sql` over the rows that the query selects.
  module _ (select_summary : List (Row floats) → Option Metrics) where
    -- The summary of `scan_shard`.
    unfoldable pub scan_summary : List (Row floats) → ℤ × ℤ → Option Metrics
    scan_summary table window =
        select_summary (keep (λ r. within window r.time_ms) table) >>= λ row.
        some (merge_metrics default_metrics row)

    unfoldable pub add_scans : List (Row floats) → List (ℤ × ℤ) → Metrics → Option Metrics
    unfolding scan_summary
    add_scans table [] metrics = some metrics
    add_scans table (window ∷ windows) metrics =
        scan_summary table window >>= λ scan. add_scans table windows (merge_metrics metrics scan)

    module _ (calendar : Calendar) where
      -- From the sums of the full days and the scans of the windows beside them.
      abbrev pub from_days : Store floats → List (Row floats) → ℤ → ℤ → ℤ × ℤ → Option Metrics
      from_days store table from to days =
          add_scans table (correction_windows from to days.0 days.1) (
            metrics_from_acc
              (sum_days (read_range store.day_agg days.0 days.1) (default_acc floats)))

      abbrev pub with_days :
          Store floats → List (Row floats) → ℤ → ℤ → Option (ℤ × ℤ) → Option Metrics
      with_days store table from to none = scan_summary table (from, to)
      with_days store table from to (some days) =
          if ltb_ℤ days.0 days.1 && active_caught_up store table (pred_ℤ days.1)
          then from_days store table from to days
          else scan_summary table (from, to)

      -- The part of `analyse` for the active shard, as far as it is the summary.
      unfoldable pub analyse_active : Store floats → List (Row floats) → ℤ → ℤ → Option Metrics
      analyse_active store table from to =
          with_days store table from to (full_day_bounds calendar from to)
