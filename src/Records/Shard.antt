-- ===== src/Records/Shard.antt =====
-- db/records_query.rs: the query of one shard answers the newest of its rows below the cursor, in
-- the order of all shards together.
use que_qiao_router.Base.{
  ℕ, ◌+◌, zero, suc, ◌≡◌, refl, sym, ap, ◌∙◌, inl, inr, Bool, true, false, ◌&&◌, ◌||◌, Option, none,
  some, List, [], ◌∷◌, ◌++◌, take, All, Bool-cases, Option-cases, if_true, if_false,
}
use que_qiao_router.Base.Int.{ℤ, cmp_ℤ}
use que_qiao_router.Base.Order.{
  Ordering, reverse, is_lt, is_eq, Lawful, cmp_refl, not_gt_trans, gt_not_gt, Lawful-backwards,
  Lawful-pair, Lawful-text, Lawful-ℤ, cmp_pair, cmp_text,
}
use que_qiao_router.Base.Sorting.{is_gt, then_with, insert_by, sort_by, IsSortedBy}
use que_qiao_router.Base.Merging.{keep, sort_by-sorted, top}
use que_qiao_router.Records.{
  Text, CursorKey, TableRow, Entry, cmp_null, cmp_time_id, cursor_condition, newer_row, to_entry,
  collect, newer, retained, query_shard,
}

null_flip : (t u : Option ℤ) → cmp_null u t ≡ reverse (cmp_null t u)
null_flip none none = refl
null_flip none (some _) = refl
null_flip (some _) none = refl
null_flip (some t) (some u) = Lawful-ℤ.flip t u

null_eq : (t u : Option ℤ) → cmp_null t u ≡ Ordering.eq → t ≡ u
null_eq none none h = refl
null_eq none (some _) h = absurd (cc)
null_eq (some _) none h = absurd (cc)
null_eq (some t) (some u) h = ap some (Lawful-ℤ.eq t u h)

null_trans :
    (t u v : Option ℤ)
    → cmp_null t u ≡ Ordering.lt
    → cmp_null u v ≡ Ordering.lt
    → cmp_null t v ≡ Ordering.lt
null_trans none none v h k = absurd (cc)
null_trans none (some _) none h k = absurd (cc)
null_trans none (some _) (some _) h k = refl
null_trans (some _) none v h k = absurd (cc)
null_trans (some t) (some u) none h k = absurd (cc)
null_trans (some t) (some u) (some v) h k = Lawful-ℤ.trans t u v h k

Lawful-null : Lawful cmp_null
Lawful-null = record { flip = null_flip; eq = null_eq; trans = null_trans }

pub Lawful-row : Lawful (λ (a b : Option ℤ × ℤ). cmp_pair cmp_null cmp_ℤ b a)
Lawful-row = Lawful-backwards (Lawful-pair Lawful-null Lawful-ℤ)

pub Lawful-key : Lawful (λ (a b : (ℤ × ℤ) × Text). cmp_pair cmp_time_id cmp_text b a)
Lawful-key = Lawful-backwards (Lawful-pair (Lawful-pair Lawful-ℤ Lawful-ℤ) Lawful-text)

then_with-eq_right : (o : Ordering) → then_with o Ordering.eq ≡ o
then_with-eq_right Ordering.lt = refl
then_with-eq_right Ordering.eq = refl
then_with-eq_right Ordering.gt = refl

take_nil {ℓ} : {A : Type ℓ} (n : ℕ) → take {A = A} n [] ≡ []
take_nil zero = refl
take_nil (suc n) = refl

lt_or_eq : (o p : Ordering) → (is_lt o || (is_eq o && is_lt p)) ≡ is_lt (then_with o p)
lt_or_eq Ordering.lt p = refl
lt_or_eq Ordering.eq p = refl
lt_or_eq Ordering.gt p = refl

module _ {V : Type 0} where
  abbrev pub key : Entry V → (ℤ × ℤ) × Text
  key e = ((e.time_ms, e.id), e.shard)

  pub newer_trans :
      (a b c : Entry V)
      → is_gt (newer a b) ≡ false
      → is_gt (newer b c) ≡ false
      → is_gt (newer a c) ≡ false
  newer_trans a b c = not_gt_trans Lawful-key (key a) (key b) (key c)

  pub newer_total : (a b : Entry V) → is_gt (newer a b) ≡ true → is_gt (newer b a) ≡ false
  newer_total a b = gt_not_gt Lawful-key (key a) (key b)

  abbrev row_key : TableRow V → Option ℤ × ℤ
  row_key r = (r.time_ms, r.id)

  abbrev NotAfterRow : TableRow V → TableRow V → Type 0
  NotAfterRow a b = is_gt (newer_row a b) ≡ false

  rows_sorted : (rows : List (TableRow V)) → IsSortedBy NotAfterRow (sort_by newer_row rows)
  rows_sorted =
      sort_by-sorted newer_row
        (λ a b c. not_gt_trans Lawful-row (row_key a) (row_key b) (row_key c))
        (λ a b. gt_not_gt Lawful-row (row_key a) (row_key b))

  abbrev entry_at : Text → ℤ → TableRow V → Entry V
  entry_at shard t r = record { time_ms = t; id = r.id; shard = shard; item = r.item }

  -- After a row without a time there are only such rows.
  collect_nulls :
      (shard : Text) (r : TableRow V) (rows : List (TableRow V))
      → r.time_ms ≡ none
      → All (NotAfterRow r) rows
      → collect shard rows ≡ []
  unfolding collect
  collect_nulls shard r [] e h = refl
  collect_nulls shard r (q ∷ rows) e h = elim (Option-cases q.time_ms) [
    | inl f ↦ rw f (collect_nulls shard r rows e h.1)
    | inr (t, f) ↦
        let first : is_gt (newer_row r q) ≡ true = rw (e, f) refl in absurd (cc (first, h.0))
  ]

  collect-take :
      (shard : Text) (n : ℕ) (rows : List (TableRow V))
      → IsSortedBy NotAfterRow rows
      → collect shard (take n rows) ≡ take n (collect shard rows)
  unfolding collect
  collect-take shard zero rows s = refl
  collect-take shard (suc n) [] s = refl
  collect-take shard (suc n) (r ∷ rows) s = elim (Option-cases r.time_ms) [
    | inl e ↦
        let no_more = collect_nulls shard r rows e s.0 in
        rw (e, collect-take shard n rows s.1, no_more) (take_nil n)
    | inr (t, e) ↦ rw e (ap (◌∷◌ (entry_at shard t r)) (collect-take shard n rows s.1))
  ]

  same_order :
      (shard : Text) (r q : TableRow V) (t u : ℤ)
      → r.time_ms ≡ some t
      → q.time_ms ≡ some u
      → newer (entry_at shard t r) (entry_at shard u q) ≡ newer_row r q
  same_order shard r q t u e f = rw (e, f, cmp_refl Lawful-text shard) (then_with-eq_right _)

  collect-insert_by :
      (shard : Text) (r : TableRow V) (t : ℤ) (rows : List (TableRow V))
      → r.time_ms ≡ some t
      → IsSortedBy NotAfterRow rows
      → collect shard (insert_by newer_row r rows)
        ≡ insert_by newer (entry_at shard t r) (collect shard rows)
  unfolding collect insert_by
  collect-insert_by shard r t [] e s = rw e refl
  collect-insert_by shard r t (q ∷ rows) e s = elim (Option-cases q.time_ms) [
    | inl f ↦
        let first : is_gt (newer_row r q) ≡ false = rw (e, f) refl in
        rw (first, e, f, collect_nulls shard q rows f s.0) refl
    | inr (u, f) ↦
        let same = ap is_gt (same_order shard r q t u e f) in
        elim (Bool-cases (is_gt (newer_row r q))) [
          | inl after ↦
              rw (after, f)
                (ap (◌∷◌ (entry_at shard u q)) (collect-insert_by shard r t rows e s.1)
                  ∙ sym (if_true _ _ (same ∙ after)))
          | inr before ↦ rw (before, e, f) (sym (if_false _ _ (same ∙ before)))
        ]
  ]

  collect-insert_null :
      (shard : Text) (r : TableRow V) (rows : List (TableRow V))
      → r.time_ms ≡ none
      → collect shard (insert_by newer_row r rows) ≡ collect shard rows
  unfolding collect insert_by
  collect-insert_null shard r [] e = rw e refl
  collect-insert_null shard r (q ∷ rows) e = elim (Bool-cases (is_gt (newer_row r q))) [
    | inl after ↦
        rw after
          (ap (λ l. to_entry shard q.time_ms q.id q.item ++ l) (collect-insert_null shard r rows e))
    | inr before ↦ rw (before, e) refl
  ]

  collect-sort_by :
      (shard : Text) (rows : List (TableRow V))
      → collect shard (sort_by newer_row rows) ≡ sort_by newer (collect shard rows)
  unfolding collect sort_by
  collect-sort_by shard [] = refl
  collect-sort_by shard (r ∷ rows) = elim (Option-cases r.time_ms) [
    | inl e ↦
        collect-insert_null shard r (sort_by newer_row rows) e ∙ rw e (collect-sort_by shard rows)
    | inr (t, e) ↦
        collect-insert_by shard r t (sort_by newer_row rows) e (rows_sorted rows)
        ∙ rw e (ap (insert_by newer (entry_at shard t r)) (collect-sort_by shard rows))
  ]

  condition-retained :
      (shard : Text) (cursor : Option CursorKey) (t : ℤ) (r : TableRow V)
      → cursor_condition shard cursor (some t) r.id ≡ retained cursor (entry_at shard t r)
  condition-retained shard none t r = refl
  condition-retained shard (some c) t r = elim (Option-cases c.shard) [
    | inl e ↦ rw e refl
    | inr (s, e) ↦ rw e (lt_or_eq (cmp_time_id (t, r.id) (c.time_ms, c.id)) (cmp_text shard s))
  ]

  module _ (matches : TableRow V → Bool) where
    -- The rows of a shard that the filter lets through.
    abbrev pub matching : Text → List (TableRow V) → List (Entry V)
    matching shard rows = collect shard (keep matches rows)

    abbrev passes : Text → Option CursorKey → TableRow V → Bool
    passes shard cursor r = matches r && cursor_condition shard cursor r.time_ms r.id

    collect-keep :
        (shard : Text) (cursor : Option CursorKey) (rows : List (TableRow V))
        → collect shard (keep (passes shard cursor) rows)
          ≡ keep (retained cursor) (matching shard rows)
    unfolding collect keep
    collect-keep shard cursor [] = refl
    collect-keep shard cursor (r ∷ rows) = elim (Bool-cases (matches r)) [
      | inr out ↦ rw out (collect-keep shard cursor rows)
      | inl in_ ↦ elim (Option-cases r.time_ms) [
        | inl e ↦ elim (Bool-cases (cursor_condition shard cursor none r.id)) [
          | inl yes_ ↦ rw (in_, e, yes_) (collect-keep shard cursor rows)
          | inr no_ ↦ rw (in_, e, no_) (collect-keep shard cursor rows)
        ]
        | inr (t, e) ↦
            let same = condition-retained shard cursor t r in
            elim (Bool-cases (cursor_condition shard cursor (some t) r.id)) [
              | inl yes_ ↦
                  rw (in_, e, yes_)
                    (ap (◌∷◌ (entry_at shard t r)) (collect-keep shard cursor rows)
                      ∙ sym (if_true _ _ (sym same ∙ yes_)))
              | inr no_ ↦
                  rw (in_, e, no_)
                    (collect-keep shard cursor rows ∙ sym (if_false _ _ (sym same ∙ no_)))
            ]
      ]
    ]

    pub query_shard-top :
        (cursor : Option CursorKey) (limit : ℕ) (shard : Text) (rows : List (TableRow V))
        → query_shard matches cursor limit shard rows
          ≡ top newer (limit + 1) (keep (retained cursor) (matching shard rows))
    unfolding query_shard
    query_shard-top cursor limit shard rows =
        let kept = keep (passes shard cursor) rows in
        collect-take shard (limit + 1) (sort_by newer_row kept) (rows_sorted kept)
        ∙ ap (take (limit + 1))
            (collect-sort_by shard kept ∙ ap (sort_by newer) (collect-keep shard cursor rows))
