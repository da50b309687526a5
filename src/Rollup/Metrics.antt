-- ===== src/Rollup/Metrics.antt =====
-- handlers/analysis_api: the counts of a summary, and what the rows of a window add to them.
use que_qiao_router.Base.{ℕ, ◌+◌, ◌≡◌, refl, inl, inr, Bool, List, [], ◌∷◌, arith, All, Bool-cases}
use que_qiao_router.Base.Int.{ℤ}
use que_qiao_router.Base.Merging.{keep}
use que_qiao_router.Rollup.{FloatSums, Row, Acc, Sums, add}
use que_qiao_router.Rollup.Totals.{
  Count, counted, success, errors, prompt_tokens, completion_tokens, total_tokens, latency_count,
  ttft_count, total, value, contribution, ◌≈◌, when, sums_total, value-add,
}
use que_qiao_router.Rollup.Analyse.{
  Metrics, merge_metrics, metrics_from_acc, default_metrics, within, sum_days,
}

-- The counts of `Metrics`, without the number of rows.
pub data Metric : Type 0 where
  requests : Metric
  successes : Metric
  failures : Metric
  prompts : Metric
  completions : Metric
  tokens : Metric
  latencies : Metric
  ttfts : Metric

abbrev pub count_of : Metric → Count
count_of requests = counted
count_of successes = success
count_of failures = errors
count_of prompts = prompt_tokens
count_of completions = completion_tokens
count_of tokens = total_tokens
count_of latencies = latency_count
count_of ttfts = ttft_count

module _ (floats : FloatSums) where
  abbrev pub metric : Metric → Metrics floats → ℕ
  metric requests m = m.requests
  metric successes m = m.success
  metric failures m = m.errors
  metric prompts m = m.prompt_tokens
  metric completions m = m.completion_tokens
  metric tokens m = m.total_tokens
  metric latencies m = m.latency_count
  metric ttfts m = m.ttft_count

  pub metric-merge_metrics :
      (k : Metric) (a b : Metrics floats)
      → metric k (merge_metrics floats a b) ≈ metric k a + metric k b
  unfolding merge_metrics
  metric-merge_metrics k a b = ground arith

  pub metric-metrics_from_acc :
      (k : Metric) (a : Acc floats)
      → metric k (metrics_from_acc floats a) ≡ value floats (count_of k) a
  metric-metrics_from_acc k a = ground arith

  pub metric-default_metrics : (k : Metric) → metric k (default_metrics floats) ≡ 0
  metric-default_metrics k = ground arith

  -- What the rows of a window add to a count.
  abbrev pub window_total : Metric → ℤ × ℤ → List (Row floats) → ℕ
  window_total k window table =
      total (λ r. when (within floats window r.time_ms) (contribution floats (count_of k) r)) table

  pub total-keep :
      (f : Row floats → ℕ) (p : Row floats → Bool) (rows : List (Row floats))
      → total f (keep p rows) ≡ total (λ r. when (p r) (f r)) rows
  unfolding keep
  total-keep f p [] = refl
  total-keep f p (r ∷ rows) = elim (Bool-cases (p r)) [
    | inl yes_p ↦ rw (yes_p, total-keep f p rows) refl
    | inr no_p ↦ rw no_p (omega (arith, total-keep f p rows))
  ]

  pub value-sum_days :
      (c : Count) (p : ℤ → Bool) (days : Sums floats) (acc : Acc floats)
      → value floats c (sum_days floats (keep (λ e. p e.0) days) acc)
        ≈ value floats c acc + sums_total floats c p days
  unfolding keep sum_days
  value-sum_days c p [] acc = omega arith
  value-sum_days c p (e ∷ days) acc = elim (Bool-cases (p e.0)) [
    | inl yes_p ↦
        let v = value-add floats c acc e.1 in
        let rest = value-sum_days c p days (add floats acc e.1) in
        rw (yes_p, sum_days) (omega (arith, v, rest))
    | inr no_p ↦ rw no_p (omega (arith, value-sum_days c p days acc))
  ]

  pub every_row :
      {P : Row floats → Type 0} (rows : List (Row floats)) → ((r : Row floats) → P r) → All P rows
  every_row [] h = tt
  every_row (r ∷ rows) h = (h r, every_row rows h)

  pub total_zero :
      (f : Row floats → ℕ) (rows : List (Row floats)) → All (λ r. f r ≡ 0) rows → total f rows ≡ 0
  total_zero f [] h = refl
  total_zero f (r ∷ rows) h = omega (arith, h.0, total_zero f rows h.1)

  pub total_cong :
      (f g : Row floats → ℕ) (rows : List (Row floats))
      → All (λ r. f r ≡ g r) rows
      → total f rows ≡ total g rows
  total_cong f g [] h = refl
  total_cong f g (r ∷ rows) h = omega (arith, h.0, total_cong f g rows h.1)
