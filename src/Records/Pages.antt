-- ===== src/Records/Pages.antt =====
-- db/records_query.rs: a client that follows the cursors sees each row once, and all of them.
use que_qiao_router.Base.{
  ℕ, zero, suc, ◌<◌, ◌≤◌, ◌≡◌, refl, sym, ap, subst, ◌∙◌, inl, inr, Bool, true, false, Option, none,
  some, List, [], ◌∷◌, ◌++◌, ltb, ltb→lt, length, take, drop, All, Bool-cases, arith, ◌>>=◌,
  append_assoc,
}
use que_qiao_router.Base.Int.{ℤ, pos, negsuc}
use que_qiao_router.Base.Decimal.{InI64}
use que_qiao_router.Base.Order.{Ordering, is_lt, reverse, cmp_refl}
use que_qiao_router.Base.Sorting.{IsSortedBy}
use que_qiao_router.Base.Merging.{keep, keep-All}
use que_qiao_router.Records.{
  Text, CursorKey, parse_cursor, format_cursor, TableRow, Entry, Shard, Answer, newer, below,
  retained, clamp_limit, last, query_records_multi,
}
use que_qiao_router.Records.Cursor.{IsShardName, parse_cursor-format_cursor}
use que_qiao_router.Records.Shard.{key, Lawful-key}
use que_qiao_router.Records.Page.{
  Tables, readable, counts, sorted_entries, page_of, take_short, query_records_multi-page_of,
}

abbrev turn_page :
    {V : Type 0} → Answer V → (Option Text → Option (List (Entry V))) → Option (List (Entry V))
turn_page a more = elim a.next_cursor [
  | none ↦ some a.items
  | some t ↦ more (some t) >>= λ later. some (a.items ++ later)
]

-- All pages from a cursor on, at most `fuel` of them, none if there are more.
unfoldable pub walk :
    {V : Type 0}
    → ℕ
    → (TableRow V → Bool)
    → Option ℤ
    → List (Shard V)
    → Option Text
    → Option (List (Entry V))
walk zero matches asked shards cursor = none
walk (suc fuel) matches asked shards cursor =
    query_records_multi matches asked cursor shards >>= λ a.
    turn_page a (walk fuel matches asked shards)

-- A row that a cursor can point at.
pub record IsWritable {V : Type 0} (e : Entry V) : Type 0 where
  pub time : InI64 e.time_ms
  pub number : InI64 e.id
  pub name : IsShardName e.shard

clamp_pos : (asked : Option ℤ) → 0 < clamp_limit asked
clamp_pos none = omega arith
clamp_pos (some (pos zero)) = omega arith
clamp_pos (some (pos (suc n))) = omega arith
clamp_pos (some (negsuc n)) = omega arith

module _ {V : Type 0} where
  abbrev pub Before : Entry V → Entry V → Type 0
  Before a b = newer a b ≡ Ordering.lt

  All_mid {κ} :
      (P : Entry V → Type κ) (xs ys : List (Entry V)) (e : Entry V) → All P (xs ++ e ∷ ys) → P e
  All_mid P [] ys e h = h.0
  All_mid P (x ∷ xs) ys e h = All_mid P xs ys e h.1

  not_below :
      (c e : Entry V) (k : CursorKey)
      → k ≡ record { time_ms = c.time_ms; id = c.id; shard = some c.shard }
      → is_lt (newer c e) ≡ below k e
  not_below c e k h = rw h refl

  module _ (c : Entry V) where
    abbrev at : CursorKey
    at = record { time_ms = c.time_ms; id = c.id; shard = some c.shard }

    passed : (e : Entry V) → Before e c → below at e ≡ false
    passed e h = ap is_lt (Lawful-key.flip (key e) (key c) ∙ ap reverse h)

    itself : below at c ≡ false
    itself = ap is_lt (cmp_refl Lawful-key (key c))

    -- What is below an entry of a list in order is what follows it.
    keep-below :
        (xs ys : List (Entry V))
        → IsSortedBy Before (xs ++ c ∷ ys)
        → keep (below at) (xs ++ c ∷ ys) ≡ ys
    unfolding keep
    keep-below [] ys s = rw itself (keep-All (below at) ys (later ys s.0))
      where
        later : (zs : List (Entry V)) → All (Before c) zs → All (λ e. below at e ≡ true) zs
        later [] h = tt
        later (z ∷ zs) h = (ap is_lt h.0, later zs h.1)
    keep-below (x ∷ xs) ys s = rw (passed x (All_mid (Before x) xs ys c s.0)) (keep-below xs ys s.1)

  last_split :
      (x : Entry V) (xs : List (Entry V))
      → (front : List (Entry V)) × (e : Entry V) × (x ∷ xs ≡ front ++ e ∷ [])
        × (last (x ∷ xs) ≡ some e)
  last_split x [] = ([], x, refl, refl)
  last_split x (y ∷ ys) = let r = last_split y ys in (x ∷ r.0, r.1, ap (◌∷◌ x) r.2, r.3)

  take-drop : (n : ℕ) (xs : List (Entry V)) → xs ≡ take n xs ++ drop n xs
  take-drop zero xs = refl
  take-drop (suc n) [] = refl
  take-drop (suc n) (x ∷ xs) = ap (◌∷◌ x) (take-drop n xs)

  length-drop_le : (n : ℕ) (xs : List (Entry V)) → length (drop n xs) ≤ length xs
  length-drop_le zero xs = omega arith
  length-drop_le (suc n) [] = omega arith
  length-drop_le (suc n) (x ∷ xs) = omega (arith, length-drop_le n xs)

  length-drop :
      (n : ℕ) (xs : List (Entry V)) → 0 < n → n < length xs → length (drop n xs) < length xs
  length-drop zero xs h k = absurd (omega arith)
  length-drop (suc n) [] h k = absurd (omega arith)
  length-drop (suc n) (x ∷ xs) h k = omega (arith, length-drop_le n xs)

  -- A page that is followed by another one ends in an entry.
  page_end :
      (n : ℕ) (xs : List (Entry V))
      → 0 < n
      → n < length xs
      → (front : List (Entry V)) × (e : Entry V) × (take n xs ≡ front ++ e ∷ [])
        × (last (take n xs) ≡ some e)
  page_end zero xs h k = absurd (omega arith)
  page_end (suc n) [] h k = absurd (omega arith)
  page_end (suc n) (x ∷ xs) h k = last_split x (take n xs)

  module _ (matches : TableRow V → Bool) (asked : Option ℤ) (tables : Tables V)
      (strict : IsSortedBy Before (sorted_entries matches tables))
      (writable : All IsWritable (sorted_entries matches tables)) where
    walk_from :
        (fuel : ℕ) (done rest : List (Entry V)) (cursor : Option Text)
        → sorted_entries matches tables ≡ done ++ rest
        → keep (retained (cursor >>= parse_cursor)) (sorted_entries matches tables) ≡ rest
        → length rest < fuel
        → walk fuel matches asked (readable tables) cursor ≡ some rest
    unfolding walk
    walk_from zero done rest cursor split_ here h = absurd (omega arith)
    walk_from (suc fuel) done rest cursor split_ here h =
        let limit = clamp_limit asked in
        let all = sorted_entries matches tables in
        let q =
          query_records_multi-page_of matches asked cursor tables
          ∙ ap (λ l. some (page_of limit (counts matches tables) l)) here in
        elim (Bool-cases (ltb limit (length rest))) [
          | inr short ↦ rw (q, short) (ap some (take_short limit rest short))
          | inl long ↦
              let more = ltb→lt limit (length rest) long in
              let (front, e, ends, last_is) = page_end limit rest (clamp_pos asked) more in
              let ys = drop limit rest in
              let t = format_cursor e.time_ms e.id (some e.shard) in
              let cut : all ≡ (done ++ front) ++ e ∷ ys =
                split_
                ∙ ap (λ l. done ++ l)
                    (take-drop limit rest ∙ ap (λ l. l ++ ys) ends ∙ append_assoc front (e ∷ []) ys)
                ∙ sym (append_assoc done front (e ∷ ys)) in
              let w =
                All_mid IsWritable (done ++ front) ys e (subst (All IsWritable) cut writable) in
              let read =
                parse_cursor-format_cursor e.time_ms e.id (some e.shard) w.time w.number w.name in
              let next_rest : keep (retained (some t >>= parse_cursor)) all ≡ ys =
                ap (λ c. keep (retained c) all) read
                ∙ ap (keep (below (at e))) cut
                ∙ keep-below e (done ++ front) ys (subst (IsSortedBy Before) cut strict) in
              let rest_of =
                walk_from fuel ((done ++ front) ++ e ∷ []) ys (some t)
                  (cut ∙ sym (append_assoc (done ++ front) (e ∷ []) ys)) next_rest
                  (omega (arith, length-drop limit rest (clamp_pos asked) more)) in
              rw (q, long, last_is, rest_of) (ap some (sym (take-drop limit rest)))
        ]

  -- Following the cursors from the first page on ends, and what the pages hold together is every
  -- row that the filter lets through, once each and the newest first, if the rows below each other
  -- differ and can be pointed at.
  pub walk-sorted_entries :
      (matches : TableRow V → Bool) (asked : Option ℤ) (tables : Tables V)
      → IsSortedBy Before (sorted_entries matches tables)
      → All IsWritable (sorted_entries matches tables)
      → walk (suc (length (sorted_entries matches tables))) matches asked (readable tables) none
        ≡ some (sorted_entries matches tables)
  walk-sorted_entries matches asked tables strict writable =
      let all = sorted_entries matches tables in
      walk_from matches asked tables strict writable (suc (length all)) [] all none refl
        (keep-All (λ e. true) all (trues all)) (omega arith)
    where
      trues : (xs : List (Entry V)) → All (λ e. ◌≡◌ {A = Bool} true true) xs
      trues [] = tt
      trues (x ∷ xs) = (refl, trues xs)
