-- ===== src/Rollup/History.antt =====
-- db/aggregate.rs: over any history of new records and runs of `ensure_active` the sums count the rows
-- up to the id that the state names.
use que_qiao_router.Base.{
  ℕ, ◌^◌, ◌≤◌, ◌<◌, ◌≡◌, refl, sym, ap, ◌∙◌, subst, inl, inr, false, none, some, List, [], ◌∷◌,
  ◌++◌, arith, All, All-append, length, length-append, append_nil, Bool-cases, if_false, ◌==◌,
  eq_of_some,
}
use que_qiao_router.Base.Int.{ℤ, pos, cmp_ℤ}
use que_qiao_router.Base.Sorting.{sort_by}
use que_qiao_router.Base.Merging.{keep, keep-append}
use que_qiao_router.Days.{Calendar}
use que_qiao_router.Rollup.{FloatSums, Row, new_delta}
use que_qiao_router.Rollup.Batches.{Ascending, after}
use que_qiao_router.Rollup.Update.{
  Store, ensure_active, must_clear, max_record_id, last_id_of_state, max_time_of_state, apply_days,
  keys,
}
use que_qiao_router.Rollup.Current.{
  Counts, upto, scanned_delta, updated, update-updated, max-All, not_upto_of_lt, keep_all,
  Counts-apply,
}
use que_qiao_router.Rollup.Named.{
  Names, scan_rows_time, less_of_other, last_time_max, not_clear, names_le, append-Names,
}

module _ (floats : FloatSums) (calendar : Calendar) (identity : ℤ × ℤ) where
  -- What happens to the table and the sums: a record of a new id, and a run that meets no new one.
  pub data History : List (Row floats) → Store floats → Type 1 where
    fresh : History [] (record { day_agg = []; active_state = none })
    inserted :
        {table : List (Row floats)} {store : Store floats}
        → History table store
        → (r : Row floats) → max_record_id floats table < r.id
        → History (table ++ r ∷ []) store
    ensured :
        {table : List (Row floats)} {store : Store floats}
        → History table store
        → (next : Store floats)
        → ensure_active floats calendar identity table table store ≡ some next
        → History table next

  pub record IsKept (table : List (Row floats)) (store : Store floats) : Type 0 where
    pub ascending : Ascending floats table
    pub ids : All (λ r. 1 ≤ r.id) table
    pub names : Names floats calendar identity store.active_state store.day_agg table
    pub counts :
        Counts floats calendar store.day_agg
          (keep (upto floats calendar (last_id_of_state floats store.active_state)) table)

  kept-must_clear :
      (table : List (Row floats)) (store : Store floats)
      → IsKept table store
      → must_clear floats calendar identity (max_record_id floats table) table store ≡ false
  kept-must_clear table store k =
      not_clear floats calendar identity table store.day_agg store.active_state k.names

  updated-IsKept :
      (table : List (Row floats)) (store : Store floats) (fits : length table < 2 ^ 63)
      (k : IsKept table store)
      → IsKept table (
          updated floats calendar identity table k.ascending fits
            (last_id_of_state floats store.active_state)
            (max_time_of_state floats store.active_state)
            store)
  updated-IsKept table store fits k =
      let last = last_id_of_state floats store.active_state in
      let top = max_record_id floats table in
      elim (Bool-cases (top == last)) [
        | inl same ↦ rw same k
        | inr more ↦
            let c = Counts-apply floats calendar last table store.day_agg fits k.counts in
            let le =
              names_le floats calendar identity store.active_state store.day_agg table k.names in
            let delta = scanned_delta floats calendar last table in
            rw more (record {
              ascending = k.ascending;
              ids = k.ids;
              names = (
                refl,
                omega arith,
                scan_rows_time floats calendar identity (keep (after floats last) table)
                      (new_delta floats calendar last)
                    ∙ last_time_max floats calendar identity last table (pos 0) k.ascending
                        (less_of_other floats calendar identity top last more le),
              );
              counts =
                  subst
                    (Counts floats calendar (
                      apply_days floats delta (sort_by cmp_ℤ (keys floats delta.days))
                        store.day_agg))
                    (sym (keep_all floats calendar top table (omega arith))) c;
            })
      ]

  ensured-IsKept :
      (table : List (Row floats)) (store : Store floats)
      → length table < 2 ^ 63
      → IsKept table store
      → (next : Store floats) → ensure_active floats calendar identity table table store ≡ some next
      → IsKept table next
  unfolding ensure_active
  ensured-IsKept table store fits k next e =
      let last = last_id_of_state floats store.active_state in
      let max_time = max_time_of_state floats store.active_state in
      let u = update-updated floats calendar identity table k.ascending fits last max_time store in
      let n = rw (kept-must_clear table store k, u) at e in
      subst (IsKept table) (eq_of_some n) (updated-IsKept table store fits k)

  append-Ascending :
      (table : List (Row floats)) (r : Row floats)
      → Ascending floats table
      → {n : ℕ} → All (λ s. s.id ≤ n) table
      → n < r.id
      → Ascending floats (table ++ r ∷ [])
  append-Ascending [] r a h new = (tt, tt)
  append-Ascending (s ∷ table) r a h new = (
    All-append _ table (r ∷ []) a.0 (omega (arith, h.0), tt),
    append-Ascending table r a.1 h.1 new,
  )

  append-upto :
      (last : ℕ) (table : List (Row floats)) (r : Row floats)
      → last < r.id
      → keep (upto floats calendar last) (table ++ r ∷ []) ≡ keep (upto floats calendar last) table
  unfolding keep
  append-upto last table r h =
      keep-append (upto floats calendar last) table (r ∷ [])
      ∙ ap (λ rs. keep (upto floats calendar last) table ++ rs)
          (if_false _ _ (not_upto_of_lt floats calendar last r h))
      ∙ append_nil _

  inserted-IsKept :
      (table : List (Row floats)) (store : Store floats) (r : Row floats)
      → max_record_id floats table < r.id
      → IsKept table store
      → IsKept (table ++ r ∷ []) store
  inserted-IsKept table store r new k = record {
    ascending = append-Ascending table r k.ascending (max-All floats calendar table) new;
    ids = All-append _ table (r ∷ []) k.ids (omega arith, tt);
    names =
        append-Names floats calendar identity store.active_state store.day_agg table r new k.names;
    counts =
        subst (Counts floats calendar store.day_agg)
          (sym (
            append-upto (last_id_of_state floats store.active_state) table r (
              omega (
                arith,
                names_le floats calendar identity store.active_state store.day_agg table k.names,
              ))))
          k.counts;
  }

  -- Whatever has happened, the sums count the rows up to the state's id.
  pub History-IsKept :
      {table : List (Row floats)} {store : Store floats}
      → History table store
      → length table < 2 ^ 63
      → IsKept table store
  unfolding keep
  History-IsKept fresh h = record {
    ascending = tt;
    ids = tt;
    names = refl;
    counts = record { totals = λ c p. refl; small = omega arith };
  }
  History-IsKept (inserted {table} {store} past r new) h =
      inserted-IsKept table store r new
        (History-IsKept past (omega (arith, length-append table (r ∷ []))))
  History-IsKept (ensured {table} {store} past next e) h =
      ensured-IsKept table store h (History-IsKept past h) next e
