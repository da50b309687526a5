-- ===== src/Rollup/Batches.antt =====
-- db/aggregate.rs: the scan in batches comes to an end, and scans the rows after the cursor, each
-- once and in the order of their ids.
use que_qiao_router.Base.{
  ℕ, zero, suc, ◌+◌, ◌≤◌, ◌<◌, ◌≡◌, refl, sym, ap, ◌∙◌, inl, inr, Bool, true, false, some, List, [],
  ◌∷◌, ◌++◌, arith, All, length, take, drop, Bool-cases, ltb, ◌==◌, ltb→lt, lt→ltb, ==_iff,
}
use que_qiao_router.Base.Sorting.{IsSortedBy, is_gt}
use que_qiao_router.Base.Merging.{keep, keep-All, All-imply, All-keep, keep_kept, sort_by_sorted}
use que_qiao_router.Days.{Calendar}
use que_qiao_router.Rollup.{
  FloatSums, Row, Delta, scan_rows, by_id, select_after, last_id_of, scan_loop, scan_after,
  new_delta,
}

module _ (floats : FloatSums) where
  abbrev pub Before : Row floats → Row floats → Type 0
  Before a b = a.id < b.id

  -- The rows in the order of their ids, each id once.
  abbrev pub Ascending : List (Row floats) → Type 0
  Ascending = IsSortedBy Before

  abbrev pub after : ℕ → Row floats → Bool
  after cursor r = ltb cursor r.id

  not_ltb : (a b : ℕ) → b ≤ a → ltb a b ≡ false
  not_ltb a b h = ground arith

  le_of_not_ltb : (a b : ℕ) → ltb a b ≡ false → b ≤ a
  le_of_not_ltb a b h = ground arith

  empty_of_length : (rows : List (Row floats)) → length rows ≡ 0 → rows ≡ []
  empty_of_length [] h = refl
  empty_of_length (r ∷ rows) h = absurd (omega arith)

  keep-Ascending :
      (p : Row floats → Bool) (rows : List (Row floats)) → Ascending rows → Ascending (keep p rows)
  unfolding keep
  keep-Ascending p [] h = tt
  keep-Ascending p (r ∷ rows) h = elim (Bool-cases (p r)) [
    | inl yes_p ↦ rw yes_p (All-keep (Before r) p rows h.0, keep-Ascending p rows h.1)
    | inr no_p ↦ rw no_p (keep-Ascending p rows h.1)
  ]

  pub length-keep :
      (p : Row floats → Bool) (rows : List (Row floats)) → length (keep p rows) ≤ length rows
  unfolding keep
  length-keep p [] = omega arith
  length-keep p (r ∷ rows) = elim (Bool-cases (p r)) [
    | inl yes_p ↦ rw yes_p (omega (arith, length-keep p rows))
    | inr no_p ↦ rw no_p (omega (arith, length-keep p rows))
  ]

  keep_kept_more :
      (p q : Row floats → Bool) (rows : List (Row floats))
      → ((r : Row floats) → q r ≡ true → p r ≡ true)
      → keep q (keep p rows) ≡ keep q rows
  unfolding keep
  keep_kept_more p q [] h = refl
  keep_kept_more p q (r ∷ rows) h = elim (Bool-cases (p r)) [
    | inl yes_p ↦ rw (yes_p, keep, keep_kept_more p q rows h) refl
    | inr no_p ↦ elim (Bool-cases (q r)) [
      | inl yes_q ↦ absurd (cc (h r yes_q))
      | inr no_q ↦ rw (no_p, no_q) (keep_kept_more p q rows h)
    ]
  ]

  module _ (calendar : Calendar) where
    Ascending-sorted :
        (rows : List (Row floats))
        → Ascending rows
        → IsSortedBy (λ a b. is_gt (by_id floats calendar a b) ≡ false) rows
    Ascending-sorted [] h = tt
    Ascending-sorted (r ∷ rows) h =
        (All-imply _ _ (λ s k. ground arith) rows h.0, Ascending-sorted rows h.1)

    last_id_of-le :
        (cursor : ℕ) (n : ℕ) (rows : List (Row floats))
        → Ascending rows
        → All (λ r. cursor < r.id) rows
        → cursor ≤ last_id_of floats calendar cursor (take n rows)
    last_id_of-le cursor zero rows h k = omega arith
    last_id_of-le cursor (suc n) [] h k = omega arith
    last_id_of-le cursor (suc n) (r ∷ rows) h k =
        omega (arith, last_id_of-le r.id n rows h.1 h.0, k.0)

    -- After the last of the first `n` rows come the others.
    keep-drop :
        (cursor : ℕ) (n : ℕ) (rows : List (Row floats))
        → Ascending rows
        → All (λ r. cursor < r.id) rows
        → keep (after (last_id_of floats calendar cursor (take n rows))) rows ≡ drop n rows
    unfolding keep
    keep-drop cursor zero rows h k =
        keep-All _ rows (All-imply _ _ (λ r l. lt→ltb cursor r.id l) rows k)
    keep-drop cursor (suc n) [] h k = refl
    keep-drop cursor (suc n) (r ∷ rows) h k =
        rw
          (not_ltb (last_id_of floats calendar r.id (take n rows)) r.id
            (last_id_of-le r.id n rows h.1 h.0))
          (keep-drop r.id n rows h.1 h.0)

    select_after-take :
        (batch cursor : ℕ) (table : List (Row floats))
        → Ascending table
        → select_after floats calendar batch cursor table ≡ take batch (keep (after cursor) table)
    unfolding select_after
    select_after-take batch cursor table h = ap (take batch) (
        sort_by_sorted (by_id floats calendar) (λ a b c h k. ground arith) (λ a b h. ground arith)
          (keep (after cursor) table)
          (Ascending-sorted (keep (after cursor) table) (keep-Ascending (after cursor) table h)))

    scan_rows-append :
        (xs ys : List (Row floats)) (delta : Delta floats)
        → scan_rows floats calendar (xs ++ ys) delta
          ≡ scan_rows floats calendar ys (scan_rows floats calendar xs delta)
    unfolding scan_rows
    scan_rows-append [] ys delta = refl
    scan_rows-append (x ∷ xs) ys delta = scan_rows-append xs ys _

    take-drop : (n : ℕ) (rows : List (Row floats)) → take n rows ++ drop n rows ≡ rows
    take-drop zero rows = refl
    take-drop (suc n) [] = refl
    take-drop (suc n) (r ∷ rows) = ap (◌∷◌ r) (take-drop n rows)

    take_short : (n : ℕ) (rows : List (Row floats)) → length (take n rows) < n → take n rows ≡ rows
    take_short zero rows h = absurd (omega arith)
    take_short (suc n) [] h = refl
    take_short (suc n) (r ∷ rows) h = ap (◌∷◌ r) (take_short n rows (omega arith))

    length-drop :
        (n : ℕ) (rows : List (Row floats))
        → length (drop n rows) + length (take n rows) ≡ length rows
    length-drop zero rows = omega arith
    length-drop (suc n) [] = omega arith
    length-drop (suc n) (r ∷ rows) = omega (arith, length-drop n rows)

    module _ (batch cursor : ℕ) (table : List (Row floats)) (ascending : Ascending table) where
      abbrev new_rows : List (Row floats)
      new_rows = keep (after cursor) table

      abbrev last_scanned : ℕ
      last_scanned = last_id_of floats calendar cursor (take batch new_rows)

      new-above : All (λ r. cursor < r.id) new_rows
      new-above =
          All-imply _ _ (λ r l. ltb→lt cursor r.id l) new_rows (keep_kept (after cursor) table)

      -- After a batch the rows that are left are those after its last.
      next_rows : keep (after last_scanned) table ≡ drop batch new_rows
      next_rows =
          let sorted = keep-Ascending (after cursor) table ascending in
          let le = last_id_of-le cursor batch new_rows sorted new-above in
          sym (
            keep_kept_more (after cursor) (after last_scanned) table
              (λ r l. lt→ltb cursor r.id (omega (arith, le, ltb→lt last_scanned r.id l))))
          ∙ keep-drop cursor batch new_rows sorted new-above

      scan_next :
          (delta : Delta floats)
          → scan_rows floats calendar
              (keep (after last_scanned) table)
              (scan_rows floats calendar (take batch new_rows) delta)
            ≡ scan_rows floats calendar new_rows delta
      scan_next delta =
          ap
            (λ rs.
              scan_rows floats calendar rs (scan_rows floats calendar (take batch new_rows) delta))
            next_rows
          ∙ sym (scan_rows-append (take batch new_rows) (drop batch new_rows) delta)
          ∙ ap (λ rs. scan_rows floats calendar rs delta) (take-drop batch new_rows)

      no_rows : 1 ≤ batch → length (take batch new_rows) ≡ 0 → new_rows ≡ []
      no_rows b e =
          let same = take_short batch new_rows (omega (arith, e)) in
          empty_of_length new_rows (sym (ap length same) ∙ e)

    pub scan_loop-scan_rows :
        (fuel batch cursor : ℕ) (table : List (Row floats)) (delta : Delta floats)
        → Ascending table
        → 1 ≤ batch
        → length (keep (after cursor) table) < fuel
        → scan_loop floats calendar fuel batch cursor table delta
          ≡ some (scan_rows floats calendar (keep (after cursor) table) delta)
    unfolding scan_loop scan_rows
    scan_loop-scan_rows zero batch cursor table delta h b k = absurd (omega arith)
    scan_loop-scan_rows (suc fuel) batch cursor table delta h b k =
        let rows = keep (after cursor) table in
        let batch_rows = take batch rows in
        let last = last_id_of floats calendar cursor batch_rows in
        let after_batch = scan_rows floats calendar batch_rows delta in
        rw (select_after-take batch cursor table h) (elim (Bool-cases (length batch_rows == 0)) [
          | inl empty ↦
              let e = no_rows batch cursor table h b ((==_iff _ _).0 empty) in
              rw empty (ap (λ rs. some (scan_rows floats calendar rs delta)) (sym e))
          | inr some_rows ↦ elim (Bool-cases (ltb (length batch_rows) batch)) [
            | inl short ↦ rw (some_rows, short, take_short batch rows (ltb→lt _ _ short)) refl
            | inr full ↦
                let shorter = length-drop batch rows in
                let rest = ap length (next_rows batch cursor table h) in
                rw (some_rows, full)
                  (scan_loop-scan_rows fuel batch last table after_batch h b
                      (omega (arith, shorter, rest, le_of_not_ltb _ _ full))
                    ∙ ap some (scan_next batch cursor table h delta))
          ]
        ])

    -- The scan after an id ends, and scans the rows of a greater id in their order.
    pub scan_after-scan_rows :
        (table : List (Row floats)) (last_id : ℕ)
        → Ascending table
        → scan_after floats calendar table last_id
          ≡ some (
              scan_rows floats calendar
                (keep (after last_id) table)
                (new_delta floats calendar last_id))
    unfolding scan_after
    scan_after-scan_rows table last_id h =
        scan_loop-scan_rows (suc (length table)) 5000 last_id table _ h (omega arith)
          (omega (arith, length-keep (after last_id) table))
