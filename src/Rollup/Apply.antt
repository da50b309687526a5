-- ===== src/Rollup/Apply.antt =====
-- db/aggregate.rs: the transaction adds the delta of each day to the sums of that day.
use que_qiao_router.Base.{
  ℕ, ◌+◌, ◌^◌, ◌≤◌, ◌<◌, ◌≡◌, refl, ap, inl, inr, Bool, true, some, List, [], ◌∷◌, arith, All,
  Bool-cases, Option-cases, lt→ltb,
}
use que_qiao_router.Base.Int.{ℤ, ℤ_test, eqb_ℤ, cmp_ℤ, eqb_ℤ-refl}
use que_qiao_router.Base.Keyed.{get, set}
use que_qiao_router.Base.Sorting.{sort_by, sort_by-All}
use que_qiao_router.Base.Merging.{All-imply}
use que_qiao_router.Rollup.{FloatSums, Acc, Sums, Delta, add, acc_of}
use que_qiao_router.Rollup.Totals.{
  Count, rows_all, total, value, ◌≈◌, when, when_≈, sums_total, sums_total-set, value-acc_of,
  value-add,
}
use que_qiao_router.Rollup.Keys.{weight_at, total-sorted_keys}
use que_qiao_router.Rollup.Size.{size, get-size, set-size, HasRow, IsDelta}
use que_qiao_router.Rollup.Update.{positive_i64, keys, apply_day, apply_days}

module _ (floats : FloatSums) where
  -- What the delta adds to a count, where `p` selects the day.
  abbrev gain : Count → (ℤ → Bool) → Delta floats → ℤ → ℕ
  gain c p delta day =
      weight_at (λ d v. when (p d) (value floats c v)) day (get ℤ_test day delta.days)

  abbrev row_gain : Delta floats → ℤ → ℕ
  row_gain delta day = weight_at (λ d v. value floats rows_all v) day (get ℤ_test day delta.days)

  positive : (n : ℕ) → 1 ≤ n → n < 2 ^ 63 → positive_i64 n ≡ true
  positive n h k = rw (lt→ltb 0 n h, lt→ltb n (2 ^ 63) k) refl

  add_rows :
      (a b : Acc floats)
      → a.rows_all + b.rows_all < 2 ^ 64
      → Acc.rows_all (add floats a b) ≡ a.rows_all + b.rows_all
  unfolding add
  add_rows a b h = omega arith

  -- The row of the day is written.
  apply_day-set :
      (delta : Delta floats) (day : ℤ) (a : Acc floats) (table : Sums floats)
      → get ℤ_test day delta.days ≡ some a
      → 1 ≤ a.rows_all
      → size floats table + a.rows_all < 2 ^ 63
      → apply_day floats delta day table
        ≡ set ℤ_test day (add floats (acc_of floats day table) a) table
  unfolding apply_day
  apply_day-set delta day a table g h k =
      let v = value-acc_of floats rows_all day table in
      let s = get-size floats day table in
      let r = add_rows (acc_of floats day table) a (omega arith) in
      let sum = add floats (acc_of floats day table) a in
      rw (g, positive sum.rows_all (omega (arith, r)) (omega (arith, r, v, s))) refl

  apply_day-total :
      (c : Count) (p : ℤ → Bool) (delta : Delta floats) (day : ℤ) (table : Sums floats)
      → 1 ≤ row_gain delta day
      → size floats table + row_gain delta day < 2 ^ 63
      → (sums_total floats c p (apply_day floats delta day table)
          ≈ sums_total floats c p table + gain c p delta day)
        × (size floats (apply_day floats delta day table) ≤ size floats table + row_gain delta day)
  apply_day-total c p delta day table h k = elim (Option-cases (get ℤ_test day delta.days)) [
    | inl none_e ↦
        let z = ap (λ o. weight_at (λ d v. value floats rows_all v) day o) none_e in
        absurd (omega (arith, z))
    | inr (a, e) ↦
        let g = ap (λ o. weight_at (λ d v. when (p d) (value floats c v)) day o) e in
        let z = ap (λ o. weight_at (λ d v. value floats rows_all v) day o) e in
        let old = acc_of floats day table in
        let r =
          add_rows old a
            (omega (arith, z, value-acc_of floats rows_all day table, get-size floats day table)) in
        let s = sums_total-set floats c p day (add floats old a) table in
        let v = ap (when (p day)) (value-acc_of floats c day table) in
        let w = when_≈ (p day) _ _ _ (value-add floats c old a) in
        rw (apply_day-set delta day a table e (omega (arith, z)) (omega (arith, z))) (
          omega (arith, s, v, w, g),
          omega (arith, z, r, set-size floats day (add floats old a) table),
        )
  ]

  abbrev gains : Count → (ℤ → Bool) → Delta floats → List ℤ → ℕ
  gains c p delta days = total (gain c p delta) days

  pub apply_days-total :
      (c : Count) (p : ℤ → Bool) (delta : Delta floats) (days : List ℤ) (table : Sums floats)
      → All (λ day. 1 ≤ row_gain delta day) days
      → size floats table + total (row_gain delta) days < 2 ^ 63
      → (sums_total floats c p (apply_days floats delta days table)
          ≈ sums_total floats c p table + gains c p delta days)
        × (size floats (apply_days floats delta days table)
            ≤ size floats table + total (row_gain delta) days)
  unfolding apply_days
  apply_days-total c p delta [] table h k = (omega arith, omega arith)
  apply_days-total c p delta (day ∷ days) table h k =
      let one = apply_day-total c p delta day table h.0 (omega arith) in
      let rest =
        apply_days-total c p delta days (apply_day floats delta day table) h.1
          (omega (arith, one.1)) in
      (omega (arith, one.0, rest.0), omega (arith, one.1, rest.1))

  -- Each day of a delta is looked up to an entry that has a row.
  entries-HasRow :
      (sums : Sums floats)
      → All (HasRow floats) sums
      → All (λ e. 1 ≤ weight_at (λ d v. value floats rows_all v) e.0 (get ℤ_test e.0 sums)) sums
  unfolding get
  entries-HasRow [] h = tt
  entries-HasRow (e ∷ sums) h = (
    rw (eqb_ℤ-refl e.0) h.0,
    All-imply _ _
        (λ f k. elim (Bool-cases (eqb_ℤ e.0 f.0)) [
          | inl found ↦ rw found h.0
          | inr other ↦ rw other k
        ])
        sums (entries-HasRow sums h.1),
  )

  All-keys :
      (P : ℤ → Type 0) (sums : Sums floats) → All (λ e. P e.0) sums → All P (keys floats sums)
  All-keys P [] h = tt
  All-keys P (e ∷ sums) h = (h.0, All-keys P sums h.1)

  -- With all the days of a delta, every count of the table grows by that of the delta.
  pub apply_delta-total :
      (c : Count) (p : ℤ → Bool) (n : ℕ) (delta : Delta floats) (table : Sums floats)
      → IsDelta floats n delta.days
      → size floats table + n < 2 ^ 63
      → let days = sort_by cmp_ℤ (keys floats delta.days) in
        (sums_total floats c p (apply_days floats delta days table)
          ≈ sums_total floats c p table + sums_total floats c p delta.days)
        × (size floats (apply_days floats delta days table) ≤ size floats table + n)
  apply_delta-total c p n delta table d h =
      let days = sort_by cmp_ℤ (keys floats delta.days) in
      let g = total-sorted_keys (λ d v. when (p d) (value floats c v)) delta.days d.one_each in
      let z = total-sorted_keys (λ d v. value floats rows_all v) delta.days d.one_each in
      let k =
        sort_by-All cmp_ℤ (λ day. 1 ≤ row_gain delta day) (keys floats delta.days)
          (All-keys _ delta.days (entries-HasRow delta.days d.rows)) in
      let r = apply_days-total c p delta days table k (omega (arith, z, d.small)) in
      (omega (arith, r.0, g), omega (arith, r.1, z, d.small))
