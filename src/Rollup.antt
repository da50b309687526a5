-- ===== src/Rollup.antt =====
-- db/aggregate.rs and handlers/analysis_api/rollup.rs: the sums by day of the active shard, kept in a
-- database of their own, and the summary of a span of time that is read from them. The table of the
-- audit records is the list of its rows, and of the sums those of the days (`day_agg`) are modelled.
-- A count in i64 is its 64 bits, and its sums wrap around.
pub mod Totals
pub mod Update
pub mod Scan
pub mod Keys
pub mod Size
pub mod Apply
pub mod Batches
pub mod Current
pub mod Analyse
pub mod Metrics
pub mod Spans
pub mod Summary
pub mod Answer
pub mod Named
pub mod History
mod Tests
use que_qiao_router.Base.{
  ℕ, zero, suc, ◌+◌, ◌-◌, ◌%◌, ◌^◌, max, Bool, true, false, not, ◌&&◌, ◌||◌, Option, none, some,
  List, [], ◌∷◌, ◌++◌, map, if◌then◌else◌, ltb, leb, ◌==◌, length, take, or_else, ◌>>=◌,
}
use que_qiao_router.Base.Int.{ℤ, pos, leb_ℤ, ltb_ℤ, eqb_ℤ, max_ℤ, ℤ_test, cmp_ℤ, pred_ℤ}
use que_qiao_router.Base.Order.{Ordering}
use que_qiao_router.Base.Sorting.{sort_by}
use que_qiao_router.Base.Merging.{keep}
use que_qiao_router.Base.Keyed.{get, set, delete}
use que_qiao_router.Days.{Calendar, local_day_ms, full_day_bounds, correction_windows}
use Prim.Native.Nat.{compare}

-- The operations on f64 that the sums use.
pub record FloatSums : Type 1 where
  pub F : Type 0
  pub zero : F
  pub add : F → F → F
  pub max : F → F → F

abbrev pub add_i64 : ℕ → ℕ → ℕ
add_i64 a b = (a + b) % 2 ^ 64

module _ (floats : FloatSums) where
  open floats use {F}

  -- The columns of a record that the sums read; ids are positive.
  pub record Row : Type 0 where
    pub id : ℕ
    pub time_ms : Option ℤ
    pub status : Option ℤ
    pub prompt_tokens : Option ℕ
    pub completion_tokens : Option ℕ
    pub total_tokens : Option ℕ
    pub latency_ms : Option F
    pub ttft_ms : Option F

  pub record Acc : Type 0 where
    pub rows_all : ℕ
    pub counted : ℕ
    pub success : ℕ
    pub errors : ℕ
    pub prompt_tokens : ℕ
    pub completion_tokens : ℕ
    pub total_tokens : ℕ
    pub latency_sum : F
    pub latency_count : ℕ
    pub latency_max : F
    pub ttft_sum : F
    pub ttft_count : ℕ

  abbrev pub default_acc : Acc
  default_acc = record {
    rows_all = 0;
    counted = 0;
    success = 0;
    errors = 0;
    prompt_tokens = 0;
    completion_tokens = 0;
    total_tokens = 0;
    latency_sum = floats.zero;
    latency_count = 0;
    latency_max = floats.zero;
    ttft_sum = floats.zero;
    ttft_count = 0;
  }

  unfoldable pub add : Acc → Acc → Acc
  add a b = record {
    rows_all = add_i64 a.rows_all b.rows_all;
    counted = add_i64 a.counted b.counted;
    success = add_i64 a.success b.success;
    errors = add_i64 a.errors b.errors;
    prompt_tokens = add_i64 a.prompt_tokens b.prompt_tokens;
    completion_tokens = add_i64 a.completion_tokens b.completion_tokens;
    total_tokens = add_i64 a.total_tokens b.total_tokens;
    latency_sum = floats.add a.latency_sum b.latency_sum;
    latency_count = add_i64 a.latency_count b.latency_count;
    latency_max = floats.max a.latency_max b.latency_max;
    ttft_sum = floats.add a.ttft_sum b.ttft_sum;
    ttft_count = add_i64 a.ttft_count b.ttft_count;
  }

  abbrev pub is_counted : Option ℤ → Bool
  is_counted none = false
  is_counted (some s) = leb_ℤ (pos 200) s

  abbrev pub is_error : Option ℤ → Bool
  is_error none = false
  is_error (some s) = leb_ℤ (pos 400) s

  abbrev pub is_served : Option ℤ → Bool
  is_served none = false
  is_served (some s) = leb_ℤ (pos 200) s && ltb_ℤ s (pos 400)

  abbrev pub count_if : Bool → ℕ → ℕ
  count_if b n = if b then add_i64 n 1 else n

  -- The part of `observe` for an optional measure.
  abbrev pub latency : Option F → Acc → Acc
  latency none acc = acc
  latency (some v) acc = record acc {
    latency_sum = floats.add acc.latency_sum v;
    latency_count = add_i64 acc.latency_count 1;
    latency_max = floats.max acc.latency_max v;
  }

  abbrev pub ttft : Option F → Acc → Acc
  ttft none acc = acc
  ttft (some v) acc = record acc {
    ttft_sum = floats.add acc.ttft_sum v;
    ttft_count = add_i64 acc.ttft_count 1;
  }

  -- The counts of `observe` that every row has.
  abbrev pub count_row : Row → Acc → Acc
  count_row r acc = record acc {
    rows_all = add_i64 acc.rows_all 1;
    counted = count_if (is_counted r.status) acc.counted;
    success = count_if (is_served r.status) acc.success;
    errors = count_if (is_error r.status) acc.errors;
    prompt_tokens = add_i64 acc.prompt_tokens (or_else r.prompt_tokens 0);
    completion_tokens = add_i64 acc.completion_tokens (or_else r.completion_tokens 0);
    total_tokens = add_i64 acc.total_tokens (or_else r.total_tokens 0);
  }

  unfoldable pub observe : Row → Acc → Acc
  observe r acc = ttft r.ttft_ms (latency r.latency_ms (count_row r acc))

  -- A table or map of sums by day; a day has one entry.
  abbrev pub Sums : Type 0
  Sums = List (ℤ × Acc)

  pub record Delta : Type 0 where
    pub max_time_ms : ℤ
    pub last_time_ms : ℤ
    pub days : Sums
    pub max_id : ℕ
    pub scanned : ℕ

  abbrev pub acc_of : ℤ → Sums → Acc
  acc_of day sums = or_else (get ℤ_test day sums) default_acc

  module _ (calendar : Calendar) where
    -- A row of no local day counts to none.
    abbrev pub observe_on : Option ℤ → Row → Delta → Delta
    observe_on none r delta = delta
    observe_on (some day) r delta = record delta {
      days = set ℤ_test day (observe r (acc_of day delta.days)) delta.days;
    }

    abbrev pub observe_at : Option ℤ → Row → Delta → Delta
    observe_at none r delta = delta
    observe_at (some t) r delta =
        observe_on (local_day_ms calendar t) r
          (record delta { max_time_ms = max_ℤ delta.max_time_ms t })

    unfoldable pub scan_row : Row → Delta → Delta
    scan_row r delta = observe_at r.time_ms r (record delta {
      max_id = max delta.max_id r.id;
      scanned = delta.scanned + 1;
      last_time_ms = or_else r.time_ms (pos 0);
    })

    unfoldable pub scan_rows : List Row → Delta → Delta
    scan_rows [] delta = delta
    scan_rows (r ∷ rs) delta = scan_rows rs (scan_row r delta)

    abbrev pub build_batch : ℕ
    build_batch = 5000

    abbrev pub by_id : Row → Row → Ordering
    by_id a b = compare a.id b.id

    -- `SELECT … FROM records WHERE id > ? ORDER BY id LIMIT ?`.
    unfoldable pub select_after : ℕ → ℕ → List Row → List Row
    select_after limit cursor table = take limit (sort_by by_id (keep (λ r. ltb cursor r.id) table))

    abbrev pub last_id_of : ℕ → List Row → ℕ
    last_id_of cursor [] = cursor
    last_id_of cursor (r ∷ rs) = last_id_of r.id rs

    -- The loop of `scan_after`, on fuel; none is a loop that has not come to its end.
    unfoldable pub scan_loop : ℕ → ℕ → ℕ → List Row → Delta → Option Delta
    scan_loop zero batch cursor table delta = none
    scan_loop (suc fuel) batch cursor table delta =
        let rows = select_after batch cursor table in
        let next = scan_loop fuel batch (last_id_of cursor rows) table (scan_rows rows delta) in
        if length rows == 0
        then some delta
        else if ltb (length rows) batch
        then some (scan_rows rows delta)
        else next

    abbrev pub new_delta : ℕ → Delta
    new_delta last_id = record {
      max_time_ms = pos 0;
      last_time_ms = pos 0;
      days = [];
      max_id = last_id;
      scanned = 0;
    }

    unfoldable pub scan_after : List Row → ℕ → Option Delta
    scan_after table last_id =
        scan_loop (suc (length table)) build_batch last_id table (new_delta last_id)
