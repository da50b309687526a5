-- ===== src/Rollup/Tests.antt =====
-- The sums by day of the active shard (db/aggregate.rs) on small tables.
use que_qiao_router.Base.{
  ℕ, ◌≡◌, refl, ap, inr, true, Option, none, some, List, [], ◌∷◌, ◌++◌, arith, All, eq_of_some,
  length, ◌>>=◌,
}
use que_qiao_router.Base.Int.{ℤ, pos, cmp_ℤ}
use que_qiao_router.Base.Merging.{keep}
use que_qiao_router.Base.Sorting.{sort_by}
use que_qiao_router.Base.Keyed.{get, set}
use que_qiao_router.Days.{local_day_ms}
use que_qiao_router.Days.Utc.{utc, utc-IsCalendar}
use que_qiao_router.Rollup.{
  FloatSums, Row, Acc, default_acc, observe, add, scan_row, scan_rows, scan_after, scan_loop,
  select_after, new_delta,
}
use que_qiao_router.Rollup.Totals.{
  rows_all, total, value, contribution, ◌≈◌, sums_total, value-observe, value-default,
}
use que_qiao_router.Rollup.Update.{Store, ActiveState, max_record_id, time_of_id, ensure_active}
use que_qiao_router.Rollup.Batches.{after, scan_after-scan_rows}
use que_qiao_router.Rollup.Current.{Counts, ensure_active-Counts}
use que_qiao_router.Rollup.Analyse.{
  Metrics, metrics_from_acc, pending, active_caught_up, analyse_active,
}
use que_qiao_router.Rollup.Metrics.{Metric, count_of, metric, metric-metrics_from_acc}
use que_qiao_router.Rollup.Summary.{IsSum, Dated, InOrder}
use que_qiao_router.Rollup.Answer.{SumsWindow, analyse_active-SumsWindow}
use que_qiao_router.Rollup.History.{History, IsKept, History-IsKept}

abbrev no_floats : FloatSums
no_floats = record { F = Unit; zero = tt; add = λ a b. tt; max = λ a b. tt }

abbrev row : ℕ → ℕ → Row no_floats
row id t = record {
  id = id;
  time_ms = some (pos t);
  status = some (pos 200);
  prompt_tokens = some 3;
  completion_tokens = none;
  total_tokens = some 5;
  latency_ms = some tt;
  ttft_ms = none;
}

abbrev identity : ℤ × ℤ
identity = (pos 1, pos 2)

abbrev empty_store : Store no_floats
empty_store = record { day_agg = []; active_state = none }

-- A row of each of two days.
abbrev table : List (Row no_floats)
table = row 1 10 ∷ row 2 86400010 ∷ []

abbrev counted_rows : Option (Store no_floats) → Option ℕ
counted_rows o = o >>= λ s. some (sums_total no_floats rows_all (λ _. true) s.day_agg)

two_counted : counted_rows (ensure_active no_floats utc identity table table empty_store) ≡ some 2
unfolding ensure_active max_record_id scan_after scan_loop select_after sort_by keep scan_rows
    scan_row local_day_ms set cmp_ℤ get add observe
two_counted = refl

abbrev run_twice : List (Row no_floats) → Option ℕ
run_twice later = counted_rows (
    ensure_active no_floats utc identity (row 1 10 ∷ []) later empty_store >>= λ s.
    ensure_active no_floats utc identity later later s)

-- A row that comes between the query of the largest id and the scan is counted, and not named by the
-- state. The next run takes the table for a new one, and counts all its rows anew.
counted_anew : run_twice table ≡ some 2
unfolding ensure_active max_record_id scan_after scan_loop select_after sort_by keep scan_rows
    scan_row local_day_ms time_of_id set cmp_ℤ get add observe
counted_anew = refl

-- Unless the row has the time of the one that the state names: then it is counted twice.
counted_twice : run_twice (row 1 10 ∷ row 2 10 ∷ []) ≡ some 3
unfolding ensure_active max_record_id scan_after scan_loop select_after sort_by keep scan_rows
    scan_row local_day_ms time_of_id set cmp_ℤ get add observe
counted_twice = refl

-- A row of the day before that comes late is not counted, and the sums count as caught up.
abbrev late_state : ActiveState
late_state = record {
  last_id = 2;
  max_time_ms = pos 86400010;
  last_time_ms = pos 86400010;
  identity = identity;
}

late_row :
    (active_caught_up no_floats
        (record { day_agg = []; active_state = some late_state })
        (table ++ row 3 20 ∷ [])
        (pos 86399999)
      ≡ true)
    × (length (pending no_floats 2 (pos 86399999) (table ++ row 3 20 ∷ [])) ≡ 1)
unfolding active_caught_up keep
late_row = (refl, refl)

-- The engine's sums, computed row by row.
abbrev accumulate : List (Row no_floats) → Acc no_floats
accumulate [] = default_acc no_floats
accumulate (r ∷ rows) = observe no_floats r (accumulate rows)

abbrev select : List (Row no_floats) → Option (Metrics no_floats)
select rows = some (metrics_from_acc no_floats (accumulate rows))

accumulated :
    (k : Metric) (rows : List (Row no_floats))
    → value no_floats (count_of k) (accumulate rows)
      ≈ total (contribution no_floats (count_of k)) rows
accumulated k [] = omega (arith, value-default no_floats (count_of k))
accumulated k (r ∷ rows) =
    omega (arith, value-observe no_floats (count_of k) r (accumulate rows), accumulated k rows)

select-IsSum : IsSum no_floats select
select-IsSum rows m h k =
    let e = ap (metric no_floats k) (eq_of_some h) in
    omega (arith, e, metric-metrics_from_acc no_floats k (accumulate rows), accumulated k rows)

-- The sums of the table after a run.
fresh_History : History no_floats utc identity [] empty_store
fresh_History = History.fresh

first_row : History no_floats utc identity (row 1 10 ∷ []) empty_store
unfolding max_record_id
first_row = History.inserted fresh_History (row 1 10) (omega arith)

both_rows : History no_floats utc identity table empty_store
unfolding max_record_id
both_rows = History.inserted first_row (row 2 86400010) (omega arith)

-- What a run leaves.
abbrev day_acc : ℕ → ℕ → Acc no_floats
day_acc id t =
    add no_floats (default_acc no_floats) (observe no_floats (row id t) (default_acc no_floats))

abbrev filled_store : Store no_floats
filled_store = record {
  day_agg = (pos 0, day_acc 1 10) ∷ (pos 86400000, day_acc 2 86400010) ∷ [];
  active_state = some late_state;
}

filled : ensure_active no_floats utc identity table table empty_store ≡ some filled_store
unfolding ensure_active max_record_id scan_after scan_loop select_after sort_by keep scan_rows
    scan_row local_day_ms set cmp_ℤ get add observe
filled = refl

filled_History : History no_floats utc identity table filled_store
filled_History = History.ensured both_rows filled_store filled

kept : IsKept no_floats utc identity table filled_store
kept = History-IsKept no_floats utc identity filled_History (omega arith)

History-IsKept_example : IsKept no_floats utc identity table filled_store
History-IsKept_example = History-IsKept no_floats utc identity filled_History (omega arith)

ensure_active-Counts_example :
    (s : Store no_floats) × (ensure_active no_floats utc identity table table filled_store ≡ some s)
    × Counts no_floats utc s.day_agg table
ensure_active-Counts_example =
    ensure_active-Counts no_floats utc identity table kept.ascending (omega arith) filled_store
      kept.ids (inr kept.counts)

scan_after-scan_rows_example :
    scan_after no_floats utc table 1
    ≡ some (scan_rows no_floats utc (keep (after no_floats 1) table) (new_delta no_floats utc 1))
scan_after-scan_rows_example =
    scan_after-scan_rows no_floats utc table 1 ((omega arith, tt), (tt, tt))

abbrev select_answers :
    (rows : List (Row no_floats)) → (m : Metrics no_floats) × (select rows ≡ some m)
select_answers rows = (metrics_from_acc no_floats (accumulate rows), refl)

rows_have_days : All (λ r. Dated no_floats utc r.time_ms) table
unfolding local_day_ms
rows_have_days = ((pos 0, refl), ((pos 86400000, refl), tt))

ordered_rows : InOrder no_floats (some late_state) table
ordered_rows = ((λ h. absurd (omega arith)), ((λ h. absurd (omega arith)), tt))

-- The two days are full, and counted.
caught_up_there : active_caught_up no_floats filled_store table (pos 172799999) ≡ true
unfolding active_caught_up keep
caught_up_there = refl

analyse_active-SumsWindow_example :
    SumsWindow no_floats select select_answers select-IsSum
      (analyse_active no_floats select utc filled_store table (pos 0) (pos 172799999))
      table
      (pos 0, pos 172799999)
analyse_active-SumsWindow_example =
    analyse_active-SumsWindow no_floats select select_answers select-IsSum utc utc-IsCalendar
      filled_store table rows_have_days ordered_rows kept.counts (pos 0) (pos 172799999)
