-- ===== src/Rollup/Current.antt =====
-- db/aggregate.rs: once `ensure_active` is through, the sums count every row of the table.
use que_qiao_router.Base.{
  ℕ, ◌+◌, ◌^◌, ◌≤◌, ◌<◌, ◌≡◌, refl, sym, subst, inl, inr, ◌⊎◌, Bool, true, false, not, some, List,
  [], ◌∷◌, arith, All, length, if◌then◌else◌, Bool-cases, ltb, ◌==◌, ==_iff,
}
use que_qiao_router.Base.Int.{ℤ, pos, max_ℤ, cmp_ℤ}
use que_qiao_router.Base.Sorting.{sort_by}
use que_qiao_router.Base.Merging.{keep, keep-All, keep_none, All-imply}
use que_qiao_router.Days.{Calendar}
use que_qiao_router.Rollup.{FloatSums, Row, Sums, Delta, scan_rows, new_delta}
use que_qiao_router.Rollup.Totals.{Count, rows_all, total, ◌≈◌, sums_total, rows_total, row_weight}
use que_qiao_router.Rollup.Size.{size, IsDelta, scan_rows-IsDelta}
use que_qiao_router.Rollup.Scan.{scan_rows-total}
use que_qiao_router.Rollup.Apply.{apply_delta-total}
use que_qiao_router.Rollup.Batches.{Ascending, after, scan_after-scan_rows}
use que_qiao_router.Rollup.Update.{
  Store, update, ensure_active, must_clear, max_record_id, last_id_of_state, max_time_of_state,
  apply_deltas, keys, apply_days,
}

module _ (floats : FloatSums) (calendar : Calendar) where
  -- The rows that are counted already.
  abbrev pub upto : ℕ → Row floats → Bool
  upto last r = not (ltb last r.id)

  total-split :
      (f : Row floats → ℕ) (p : Row floats → Bool) (rows : List (Row floats))
      → total f rows ≡ total f (keep (λ r. not (p r)) rows) + total f (keep p rows)
  unfolding keep
  total-split f p [] = omega arith
  total-split f p (r ∷ rows) = elim (Bool-cases (p r)) [
    | inl yes_p ↦ rw yes_p (omega (arith, total-split f p rows))
    | inr no_p ↦ rw no_p (omega (arith, total-split f p rows))
  ]

  length-split :
      (p : Row floats → Bool) (rows : List (Row floats))
      → length rows ≡ length (keep (λ r. not (p r)) rows) + length (keep p rows)
  unfolding keep
  length-split p [] = omega arith
  length-split p (r ∷ rows) = elim (Bool-cases (p r)) [
    | inl yes_p ↦ rw yes_p (omega (arith, length-split p rows))
    | inr no_p ↦ rw no_p (omega (arith, length-split p rows))
  ]

  -- The sums count the rows `counted`, and none else.
  pub record Counts (sums : Sums floats) (counted : List (Row floats)) : Type 0 where
    pub totals :
        (c : Count) (p : ℤ → Bool)
        → sums_total floats c p sums ≈ rows_total floats calendar c p counted
    pub small : size floats sums ≤ length counted

  Counts-none : Counts [] []
  Counts-none = record { totals = λ c p. refl; small = omega arith }

  abbrev pub scanned_delta : ℕ → List (Row floats) → Delta floats
  scanned_delta last table =
      scan_rows floats calendar (keep (after floats last) table) (new_delta floats calendar last)

  -- A delta of the rows after an id, added to sums of the rows up to it.
  pub Counts-apply :
      (last : ℕ) (table : List (Row floats)) (sums : Sums floats)
      → length table < 2 ^ 63
      → Counts sums (keep (upto last) table)
      → let delta = scanned_delta last table in
        Counts (apply_days floats delta (sort_by cmp_ℤ (keys floats delta.days)) sums) table
  Counts-apply last table sums h c =
      let rows = keep (after floats last) table in
      let delta = scanned_delta last table in
      let n = 0 + length rows in
      let l = length-split (after floats last) table in
      let fresh : IsDelta floats 0 [] = record { one_each = tt; rows = tt; small = omega arith } in
      let d =
        scan_rows-IsDelta floats calendar 0 rows (new_delta floats calendar last) (omega (arith, l))
          fresh in
      let a = λ (k : Count) (p : ℤ → Bool).
        apply_delta-total floats k p n delta sums d (omega (arith, l, c.small)) in
      record {
        totals = λ k p. omega (
          arith,
          (a k p).0,
          c.totals k p,
          scan_rows-total floats calendar k p rows (new_delta floats calendar last),
          total-split (row_weight floats calendar k p) (after floats last) table,
        );
        small = omega (arith, (a rows_all (λ _. true)).1, l, c.small);
      }

  pub max-All : (table : List (Row floats)) → All (λ r. r.id ≤ max_record_id floats table) table
  unfolding max_record_id
  max-All [] = tt
  max-All (r ∷ table) = (omega arith, All-imply _ _ (λ s h. omega (arith, h)) table (max-All table))

  upto_of_le : (last : ℕ) (r : Row floats) → r.id ≤ last → upto last r ≡ true
  upto_of_le last r h = ground arith

  pub not_upto_of_lt : (last : ℕ) (r : Row floats) → last < r.id → upto last r ≡ false
  not_upto_of_lt last r h = ground arith

  pub keep_all :
      (last : ℕ) (table : List (Row floats))
      → max_record_id floats table ≤ last
      → keep (upto last) table ≡ table
  keep_all last table h =
      keep-All (upto last) table
        (All-imply _ _ (λ r k. upto_of_le last r (omega (arith, k, h))) table (max-All table))

  keep_zero : (table : List (Row floats)) → All (λ r. 1 ≤ r.id) table → keep (upto 0) table ≡ []
  keep_zero table h = keep_none (upto 0) table (All-imply _ _ (λ r k. not_upto_of_lt 0 r k) table h)

  module _ (identity : ℤ × ℤ) (table : List (Row floats)) (ascending : Ascending floats table)
      (fits : length table < 2 ^ 63) where
    -- The sums and the state that `update` leaves.
    abbrev pub updated : ℕ → ℤ → Store floats → Store floats
    updated last max_time store =
        let top = max_record_id floats table in
        let delta = scanned_delta last table in
        if top == last then store else record {
          day_agg = apply_days floats delta (sort_by cmp_ℤ (keys floats delta.days)) store.day_agg;
          active_state = some (record {
            last_id = top;
            max_time_ms = max_ℤ max_time delta.max_time_ms;
            last_time_ms = delta.last_time_ms;
            identity = identity;
          });
        }

    pub update-updated :
        (last : ℕ) (max_time : ℤ) (store : Store floats)
        → update floats calendar identity (max_record_id floats table) last max_time table store
          ≡ some (updated last max_time store)
    unfolding update apply_deltas
    update-updated last max_time store = elim (Bool-cases (max_record_id floats table == last)) [
      | inl same ↦ rw same refl
      | inr more ↦ rw (more, scan_after-scan_rows floats calendar table last ascending) refl
    ]

    pub updated-Counts :
        (last : ℕ) (max_time : ℤ) (store : Store floats)
        → Counts store.day_agg (keep (upto last) table)
        → Counts (Store.day_agg (updated last max_time store)) table
    updated-Counts last max_time store c = elim (Bool-cases (max_record_id floats table == last)) [
      | inl same ↦
          let e = (==_iff (max_record_id floats table) last).0 same in
          rw same (subst (Counts store.day_agg) (keep_all last table (omega (arith, e))) c)
      | inr more ↦ rw more (Counts-apply last table store.day_agg fits c)
    ]

    -- The sums so far are those of the rows up to the state's id, or of another table.
    abbrev pub Accounted : Store floats → Type 0
    Accounted store =
        (must_clear floats calendar identity (max_record_id floats table) table store ≡ true)
        ⊎ Counts store.day_agg (keep (upto (last_id_of_state floats store.active_state)) table)

    counted_before :
        (store : Store floats)
        → must_clear floats calendar identity (max_record_id floats table) table store ≡ false
        → Accounted store
        → Counts store.day_agg (keep (upto (last_id_of_state floats store.active_state)) table)
    counted_before store kept (inl clear) = absurd (cc)
    counted_before store kept (inr c) = c

    -- With a table that does not change meanwhile, `ensure_active` succeeds, and then the sums count
    -- every row of the table: those that were counted already and the new ones, or, where the state
    -- is of another table, all of them anew.
    pub ensure_active-Counts :
        (store : Store floats)
        → All (λ r. 1 ≤ r.id) table
        → Accounted store
        → (s : Store floats) × (ensure_active floats calendar identity table table store ≡ some s)
          × Counts s.day_agg table
    unfolding ensure_active
    ensure_active-Counts store ids b =
        let top = max_record_id floats table in
        let empty = record store { day_agg = [] } in
        let last = last_id_of_state floats store.active_state in
        let max_time = max_time_of_state floats store.active_state in
        elim (Bool-cases (must_clear floats calendar identity top table store)) [
          | inl clear ↦ (
            updated 0 (pos 0) empty,
            rw clear (update-updated 0 (pos 0) empty),
            updated-Counts 0 (pos 0) empty
                (subst (Counts []) (sym (keep_zero table ids)) Counts-none),
          )
          | inr kept ↦ (
            updated last max_time store,
            rw kept (update-updated last max_time store),
            updated-Counts last max_time store (counted_before store kept b),
          )
        ]
