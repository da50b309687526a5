-- ===== src/Rollup/Named.antt =====
-- db/aggregate.rs: the state names the last row that was scanned, and while it does the sums are not
-- taken for those of another table.
use que_qiao_router.Base.{
  ℕ, ◌≤◌, ◌<◌, ◌≡◌, refl, sym, ap, ◌∙◌, subst, inl, inr, Bool, true, false, not, ◌&&◌, Option, none,
  some, List, [], ◌∷◌, ◌++◌, arith, All, max, if◌then◌else◌, Bool-cases, ltb, ◌==◌, ==_iff, or_else,
  lt→ltb, ltb→lt,
}
use que_qiao_router.Base.Int.{ℤ, pos, eqb_ℤ, eqb_ℤ-refl}
use que_qiao_router.Base.Merging.{keep}
use que_qiao_router.Days.{Calendar, local_day_ms}
use que_qiao_router.Rollup.{
  FloatSums, Row, Sums, Delta, scan_row, scan_rows, observe_at, observe_on,
}
use que_qiao_router.Rollup.Batches.{Ascending, Before, after}
use que_qiao_router.Rollup.Update.{
  ActiveState, must_clear, max_record_id, last_id_of_state, time_of_id, cursor_moved, same_identity,
}

module _ (floats : FloatSums) (calendar : Calendar) (identity : ℤ × ℤ) where
  -- The state names a row of the table, or there is none yet.
  abbrev pub Names : Option ActiveState → Sums floats → List (Row floats) → Type 0
  Names none sums table = sums ≡ []
  Names (some state) sums table =
      (state.identity ≡ identity)
      × (state.last_id ≤ max_record_id floats table)
      × (state.last_time_ms ≡ or_else (time_of_id floats state.last_id table) (pos 0))

  abbrev last_time_of : List (Row floats) → ℤ → ℤ
  last_time_of [] t = t
  last_time_of (r ∷ rows) t = last_time_of rows (or_else r.time_ms (pos 0))

  observe_at_time :
      (o : Option ℤ) (r : Row floats) (delta : Delta floats)
      → Delta.last_time_ms (observe_at floats calendar o r delta) ≡ delta.last_time_ms
  observe_at_time none r delta = refl
  observe_at_time (some t) r delta = day (local_day_ms calendar t) _
    where
      day :
          (o : Option ℤ) (delta : Delta floats)
          → Delta.last_time_ms (observe_on floats calendar o r delta) ≡ delta.last_time_ms
      day none delta = refl
      day (some d) delta = refl

  pub scan_rows_time :
      (rows : List (Row floats)) (delta : Delta floats)
      → Delta.last_time_ms (scan_rows floats calendar rows delta)
        ≡ last_time_of rows delta.last_time_ms
  unfolding scan_rows scan_row
  scan_rows_time [] delta = refl
  scan_rows_time (r ∷ rows) delta =
      scan_rows_time rows _ ∙ ap (last_time_of rows) (observe_at_time r.time_ms r _)

  no_more :
      (r : Row floats) (table : List (Row floats))
      → All (Before floats r) table
      → max_record_id floats table ≤ r.id
      → table ≡ []
  unfolding max_record_id
  no_more r [] h k = refl
  no_more r (s ∷ table) h k = absurd (omega (arith, h.0))

  other_id_sym : (a b : ℕ) → a < b → (b == a) ≡ false
  other_id_sym a b h = ground arith

  other_id : (a b : ℕ) → a < b → (a == b) ≡ false
  other_id a b h = ground arith

  max_below :
      (r : Row floats) (table : List (Row floats))
      → r.id < max_record_id floats table
      → max_record_id floats (r ∷ table) ≡ max_record_id floats table
  unfolding max_record_id
  max_below r table h = omega (arith, h)

  time_below :
      (r : Row floats) (table : List (Row floats))
      → r.id < max_record_id floats table
      → time_of_id floats (max_record_id floats table) (r ∷ table)
        ≡ time_of_id floats (max_record_id floats table) table
  unfolding time_of_id
  time_below r table h = rw (other_id r.id (max_record_id floats table) h) refl

  le_of_not_less : (a b : ℕ) → ltb a b ≡ false → b ≤ a
  le_of_not_less a b h = ground arith

  pub less_of_other : (a b : ℕ) → (a == b) ≡ false → b ≤ a → b < a
  less_of_other a b h k = ground arith

  not_less : (a b : ℕ) → b ≤ a → ltb a b ≡ false
  not_less a b h = ground arith

  -- The last row after an id is that of the largest id.
  pub last_time_max :
      (last : ℕ) (table : List (Row floats)) (t : ℤ)
      → Ascending floats table
      → last < max_record_id floats table
      → last_time_of (keep (after floats last) table) t
        ≡ or_else (time_of_id floats (max_record_id floats table) table) (pos 0)
  unfolding keep max_record_id time_of_id
  last_time_max last [] t a h = absurd (omega arith)
  last_time_max last (r ∷ table) t a h =
      let top = max_record_id floats table in
      elim (Bool-cases (ltb r.id top)) [
        | inl below ↦
            let lt = ltb→lt r.id top below in
            let e = max_below r table lt in
            let rest =
              ap (λ o. or_else o (pos 0)) (sym (time_below r table lt))
              ∙ ap (λ m. or_else (time_of_id floats m (r ∷ table)) (pos 0)) (sym e) in
            elim (Bool-cases (ltb last r.id)) [
              | inl new ↦ rw new (
                  last_time_max last table (or_else r.time_ms (pos 0)) a.1 (omega (arith, e))
                  ∙ rest)
              | inr old ↦ rw old (last_time_max last table t a.1 (omega (arith, e)) ∙ rest)
            ]
        | inr above ↦
            let none_left = no_more r table a.0 (le_of_not_less r.id top above) in
            let e : max r.id 0 ≡ r.id = omega arith in
            let z : max_record_id floats [] ≡ 0 = refl in
            let l : last < r.id = omega (arith, le_of_not_less r.id top above) in
            rw (none_left, e, (==_iff r.id r.id).1 refl, lt→ltb last r.id l) refl
      ]

  same_identity-eq : (a b : ℤ × ℤ) → a ≡ b → same_identity floats a b ≡ true
  same_identity-eq a b e =
      subst (λ x. same_identity floats a x ≡ true) e (rw (eqb_ℤ-refl a.0, eqb_ℤ-refl a.1) refl)

  and_and_false : (a b : Bool) → (a && (b && false)) ≡ false
  and_and_false true true = refl
  and_and_false true false = refl
  and_and_false false b = refl

  unmoved :
      (state : ActiveState) (table : List (Row floats))
      → state.last_time_ms ≡ or_else (time_of_id floats state.last_id table) (pos 0)
      → cursor_moved floats state table ≡ false
  unmoved state table e =
      let t = or_else (time_of_id floats state.last_id table) (pos 0) in
      let m : eqb_ℤ t state.last_time_ms ≡ true =
        subst (λ x. eqb_ℤ x state.last_time_ms ≡ true) e (eqb_ℤ-refl state.last_time_ms) in
      ap (λ b. ltb 0 state.last_id && (not (eqb_ℤ state.last_time_ms (pos 0)) && not b)) m
      ∙ and_and_false (ltb 0 state.last_id) (not (eqb_ℤ state.last_time_ms (pos 0)))

  pub not_clear :
      (table : List (Row floats)) (sums : Sums floats) (state : Option ActiveState)
      → Names state sums table
      → must_clear floats calendar identity
          (max_record_id floats table)
          table
          (record { day_agg = sums; active_state = state })
        ≡ false
  not_clear table sums none n = rw n (not_less (max_record_id floats table) 0 (omega arith))
  not_clear table sums (some state) n =
      rw
        (
          same_identity-eq state.identity identity n.0,
          unmoved state table n.2,
          not_less (max_record_id floats table) state.last_id n.1,
        )
        refl

  pub names_le :
      (state : Option ActiveState) (sums : Sums floats) (table : List (Row floats))
      → Names state sums table
      → last_id_of_state floats state ≤ max_record_id floats table
  names_le none sums table n = omega arith
  names_le (some state) sums table n = n.1

  max_append :
      (table : List (Row floats)) (r : Row floats)
      → max_record_id floats (table ++ r ∷ []) ≡ max (max_record_id floats table) r.id
  unfolding max_record_id
  max_append [] r = omega arith
  max_append (s ∷ table) r = omega (arith, max_append table r)

  time_append :
      (id : ℕ) (table : List (Row floats)) (r : Row floats)
      → id < r.id
      → time_of_id floats id (table ++ r ∷ []) ≡ time_of_id floats id table
  unfolding time_of_id
  time_append id [] r h = rw (other_id_sym id r.id h) refl
  time_append id (s ∷ table) r h =
      ap (λ o. if s.id == id then s.time_ms else o) (time_append id table r h)

  pub append-Names :
      (state : Option ActiveState) (sums : Sums floats) (table : List (Row floats)) (r : Row floats)
      → max_record_id floats table < r.id
      → Names state sums table
      → Names state sums (table ++ r ∷ [])
  append-Names none sums table r h n = n
  append-Names (some state) sums table r h n = (
    n.0,
    omega (arith, n.1, max_append table r),
    n.2
        ∙ ap (λ o. or_else o (pos 0))
            (sym (time_append state.last_id table r (omega (arith, n.1)))),
  )
