-- ===== src/Rollup/Update.antt =====
-- db/aggregate.rs: the sums of the active shard are brought up to date with its table. The rows of a
-- table are those of the one shard; the sums by dimension, the histograms and the distinct values,
-- which `apply_deltas` treats alike, are left out.
use que_qiao_router.Base.{
  ℕ, ◌^◌, max, Bool, false, not, ◌&&◌, ◌||◌, Option, none, some, List, [], ◌∷◌, map, if◌then◌else◌,
  ltb, ◌==◌, length, or_else, ◌>>=◌,
}
use que_qiao_router.Base.Int.{ℤ, pos, eqb_ℤ, max_ℤ, ℤ_test, cmp_ℤ}
use que_qiao_router.Base.Sorting.{sort_by}
use que_qiao_router.Base.Keyed.{get, set, delete}
use que_qiao_router.Days.{Calendar}
use que_qiao_router.Rollup.{FloatSums, Row, Acc, Sums, Delta, acc_of, add, scan_after}

-- `n > 0`.
abbrev pub positive_i64 : ℕ → Bool
positive_i64 n = ltb 0 n && ltb n (2 ^ 63)

pub record ActiveState : Type 0 where
  pub last_id : ℕ
  pub max_time_ms : ℤ
  pub last_time_ms : ℤ
  pub identity : ℤ × ℤ

module _ (floats : FloatSums) where
  -- The database of the sums, as far as it is about the active shard.
  pub record Store : Type 0 where
    pub day_agg : Sums floats
    pub active_state : Option ActiveState

  abbrev pub keys : Sums floats → List ℤ
  keys sums = map (λ e. e.0) sums

  abbrev pub added : Option (Acc floats) → Acc floats → Acc floats
  added none acc = acc
  added (some more) acc = add floats acc more

  -- The row of a day is deleted and written anew, with what the delta adds to it.
  unfoldable pub apply_day : Delta floats → ℤ → Sums floats → Sums floats
  apply_day delta day table =
      let acc = added (get ℤ_test day delta.days) (acc_of floats day table) in
      if positive_i64 acc.rows_all then set ℤ_test day acc table else delete ℤ_test day table

  unfoldable pub apply_days : Delta floats → List ℤ → Sums floats → Sums floats
  unfolding apply_day
  apply_days delta [] table = table
  apply_days delta (day ∷ days) table = apply_days delta days (apply_day delta day table)

  -- The transaction of `apply_deltas`, in the order of the days. The days of the other maps of a delta
  -- are among these, since every row that enters one of them enters `days`.
  unfoldable pub apply_deltas : Delta floats → ActiveState → Store → Store
  unfolding apply_days
  apply_deltas delta state store = record {
    day_agg = apply_days delta (sort_by cmp_ℤ (keys delta.days)) store.day_agg;
    active_state = some state;
  }

  unfoldable pub max_record_id : List (Row floats) → ℕ
  max_record_id [] = 0
  max_record_id (r ∷ rs) = max r.id (max_record_id rs)

  -- `SELECT TimeMs FROM records WHERE id = ?`, its first row.
  unfoldable pub time_of_id : ℕ → List (Row floats) → Option ℤ
  time_of_id id [] = none
  time_of_id id (r ∷ rs) = let later = time_of_id id rs in if r.id == id then r.time_ms else later

  abbrev pub same_identity : ℤ × ℤ → ℤ × ℤ → Bool
  same_identity a b = eqb_ℤ a.0 b.0 && eqb_ℤ a.1 b.1

  -- The row of the cursor has another time: the table is a new one in the file of the old one.
  abbrev pub cursor_moved : ActiveState → List (Row floats) → Bool
  cursor_moved state table =
      ltb 0 state.last_id
      && (not (eqb_ℤ state.last_time_ms (pos 0))
          && not (eqb_ℤ (or_else (time_of_id state.last_id table) (pos 0)) state.last_time_ms))

  abbrev pub rotated : Option ActiveState → ℤ × ℤ → List (Row floats) → Bool
  rotated none identity table = false
  rotated (some state) identity table =
      not (same_identity state.identity identity) || cursor_moved state table

  abbrev pub stale : Store → Bool
  stale store = elim store.active_state [ none ↦ ltb 0 (length store.day_agg) | some _ ↦ false ]

  abbrev pub last_id_of_state : Option ActiveState → ℕ
  last_id_of_state none = 0
  last_id_of_state (some state) = state.last_id

  abbrev pub max_time_of_state : Option ActiveState → ℤ
  max_time_of_state none = pos 0
  max_time_of_state (some state) = state.max_time_ms

  module _ (calendar : Calendar) where
    -- The scan and the transaction; `max_id` is what the table had before the scan.
    unfoldable pub update : ℤ × ℤ → ℕ → ℕ → ℤ → List (Row floats) → Store → Option Store
    unfolding apply_deltas
    update identity max_id last_id max_time table store =
        if max_id == last_id
        then some store
        else (scan_after floats calendar table last_id >>= λ delta. some (
            apply_deltas delta
              (record {
                last_id = max_id;
                max_time_ms = max_ℤ max_time delta.max_time_ms;
                last_time_ms = delta.last_time_ms;
                identity = identity;
              })
              store))

    -- `clear_shard` leaves the state as it is.
    abbrev pub must_clear : ℤ × ℤ → ℕ → List (Row floats) → Store → Bool
    must_clear identity max_id table store =
        rotated store.active_state identity table
        || stale store
        || ltb max_id (last_id_of_state store.active_state)

    -- The table may have got more rows (`later`) between the first queries and the scan.
    unfoldable pub ensure_active :
        ℤ × ℤ → List (Row floats) → List (Row floats) → Store → Option Store
    unfolding update
    ensure_active identity table later store =
        let max_id = max_record_id table in
        if must_clear identity max_id table store
        then update identity max_id 0 (pos 0) later (record store { day_agg = [] })
        else update identity max_id (last_id_of_state store.active_state)
            (max_time_of_state store.active_state) later store
