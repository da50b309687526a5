-- ===== src/Records/Page.antt =====
-- db/records_query.rs: a page of the query over all shards is a page of one sorted list.
use que_qiao_router.Base.{
  ℕ, zero, suc, ◌+◌, ◌≡◌, refl, sym, ap, ◌∙◌, inl, inr, min, Bool, true, false, Option, none, some,
  List, [], ◌∷◌, ◌++◌, if◌then◌else◌, ltb, length, take, concat, map, All, All-append, Bool-cases,
  if_true, if_false, arith, ◌>>=◌,
}
use que_qiao_router.Base.Int.{ℤ}
use que_qiao_router.Base.Sorting.{sort_by, sort_by-All}
use que_qiao_router.Base.Merging.{
  keep, keep-append, keep-All, keep_kept, keep-sort_by, All-take, take-take, top, top-concat,
}
use que_qiao_router.Records.{
  Text, CursorKey, parse_cursor, TableRow, Entry, Shard, Answer, newer, retained, count_all,
  query_all, clamp_limit, count_cap, last, cursor_text, to_page, query_records_multi,
}
use que_qiao_router.Records.Shard.{newer_trans, newer_total, matching, query_shard-top}

-- Shards whose databases answer, with their tables.
abbrev pub Tables : Type 0 → Type 0
Tables V = List (Text × List (TableRow V))

module _ {V : Type 0} where
  abbrev pub readable : Tables V → List (Shard V)
  readable [] = []
  readable ((id, rows) ∷ tables) = (id, some rows) ∷ readable tables

  -- A page of a list that is in order: its first entries, and a cursor at the last of them if there
  -- are more.
  abbrev pub page_of : ℕ → ℕ → List (Entry V) → Answer V
  page_of limit total_sum rest = record {
    items = take limit rest;
    next_cursor = if ltb limit (length rest) then cursor_text (last (take limit rest)) else none;
    total = min total_sum count_cap;
    total_exact = ltb total_sum count_cap;
  }

  module _ (matches : TableRow V → Bool) where
    abbrev pub all_entries : Tables V → List (List (Entry V))
    all_entries [] = []
    all_entries ((id, rows) ∷ tables) = matching matches id rows ∷ all_entries tables

    -- All rows that the filter lets through, the newest first.
    abbrev pub sorted_entries : Tables V → List (Entry V)
    sorted_entries tables = sort_by newer (concat (all_entries tables))

    -- The counts that are summed up.
    abbrev pub counts : Tables V → ℕ
    counts [] = 0
    counts ((id, rows) ∷ tables) = min (length (keep matches rows)) count_cap + counts tables

    count_all-readable :
        (tables : Tables V) → count_all matches (readable tables) ≡ some (counts tables)
    unfolding count_all
    count_all-readable [] = refl
    count_all-readable ((id, rows) ∷ tables) = rw (count_all-readable tables) refl

    abbrev kept_entries : Option CursorKey → Tables V → List (List (Entry V))
    kept_entries cursor tables = map (keep (retained cursor)) (all_entries tables)

    query_all-readable :
        (cursor : Option CursorKey) (limit : ℕ) (tables : Tables V)
        → query_all matches cursor limit (readable tables)
          ≡ some (concat (map (top newer (limit + 1)) (kept_entries cursor tables)))
    unfolding query_all
    query_all-readable cursor limit [] = refl
    query_all-readable cursor limit ((id, rows) ∷ tables) =
        rw (query_all-readable cursor limit tables, query_shard-top matches cursor limit id rows)
          refl

  -- `retain` finds nothing to remove.
  kept_tops :
      (p : Entry V → Bool) (k : ℕ) (xss : List (List (Entry V)))
      → keep p (concat (map (top newer k) (map (keep p) xss)))
        ≡ concat (map (top newer k) (map (keep p) xss))
  kept_tops p k xss = keep-All p _ (all xss)
    where
      all :
          (yss : List (List (Entry V)))
          → All (λ e. p e ≡ true) (concat (map (top newer k) (map (keep p) yss)))
      all [] = tt
      all (ys ∷ yss) =
          All-append (λ e. p e ≡ true) (top newer k (keep p ys)) _
            (All-take (λ e. p e ≡ true) k (sort_by newer (keep p ys))
              (sort_by-All newer (λ e. p e ≡ true) (keep p ys) (keep_kept p ys)))
            (all yss)

  concat_kept :
      (p : Entry V → Bool) (xss : List (List (Entry V)))
      → concat (map (keep p) xss) ≡ keep p (concat xss)
  unfolding keep
  concat_kept p [] = refl
  concat_kept p (xs ∷ xss) =
      ap (λ l. keep p xs ++ l) (concat_kept p xss) ∙ sym (keep-append p xs (concat xss))

  pub take_short : (n : ℕ) (xs : List (Entry V)) → ltb n (length xs) ≡ false → take n xs ≡ xs
  take_short zero [] h = refl
  take_short zero (x ∷ xs) h = absurd (ground arith)
  take_short (suc n) [] h = refl
  take_short (suc n) (x ∷ xs) h = ap (◌∷◌ x) (take_short n xs (ground arith))

  longer_take : (n : ℕ) (xs : List (Entry V)) → ltb n (length (take (suc n) xs)) ≡ ltb n (length xs)
  longer_take zero [] = refl
  longer_take zero (x ∷ xs) = ground arith
  longer_take (suc n) [] = refl
  longer_take (suc n) (x ∷ xs) = ground (arith, longer_take n xs)

  -- A page is made of the first entries, and of whether there are more.
  to_page-page_of :
      (limit total_sum : ℕ) (rows rest : List (Entry V))
      → top newer (limit + 1) rows ≡ take (limit + 1) rest
      → to_page limit total_sum rows ≡ page_of limit total_sum rest
  unfolding to_page
  to_page-page_of limit total_sum rows rest h =
      let sorted = sort_by newer rows in
      let next : limit + 1 ≡ suc limit = omega arith in
      let firsts = ap (λ k. take k sorted) (sym next) ∙ h ∙ ap (λ k. take k rest) next in
      let more =
        sym (longer_take limit sorted)
        ∙ ap (λ (l : List (Entry V)). ltb limit (length l)) firsts
        ∙ longer_take limit rest in
      let same =
        sym (take-take limit (suc limit) sorted (omega arith))
        ∙ ap (take limit) firsts
        ∙ take-take limit (suc limit) rest (omega arith) in
      let page : (if ltb limit (length sorted) then take limit sorted else sorted)
          ≡ take limit rest =
        elim (Bool-cases (ltb limit (length sorted))) [
          | inl long ↦ if_true _ _ long ∙ same
          | inr short ↦ if_false _ _ short ∙ sym (take_short limit sorted short) ∙ same
        ] in
      λ i. record {
        items = page i;
        next_cursor = if more i then cursor_text (last (page i)) else none;
        total = min total_sum count_cap;
        total_exact = ltb total_sum count_cap;
      }

  -- The query over shards that all answer returns the page of one list, in which the rows of all
  -- shards that the filter lets through are in order, from the cursor on.
  pub query_records_multi-page_of :
      (matches : TableRow V → Bool) (asked : Option ℤ) (cursor_param : Option Text)
      (tables : Tables V)
      → query_records_multi matches asked cursor_param (readable tables)
        ≡ some (
            page_of
              (clamp_limit asked)
              (counts matches tables)
              (keep (retained (cursor_param >>= parse_cursor)) (sorted_entries matches tables)))
  unfolding query_records_multi
  query_records_multi-page_of matches asked cursor_param tables =
      let limit = clamp_limit asked in
      let cursor = cursor_param >>= parse_cursor in
      let p = retained cursor in
      let xss = kept_entries matches cursor tables in
      let rest = keep p (sorted_entries matches tables) in
      let firsts : top newer (limit + 1) (concat (map (top newer (limit + 1)) xss))
          ≡ take (limit + 1) rest =
        top-concat newer newer_trans newer_total (limit + 1) (limit + 1) xss (omega arith)
        ∙ ap (top newer (limit + 1)) (concat_kept p (all_entries matches tables))
        ∙ ap (take (limit + 1)) (
            sym (
              keep-sort_by newer newer_trans newer_total p
                (concat (all_entries matches tables)))) in
      rw (count_all-readable matches tables, query_all-readable matches cursor limit tables)
        (ap some (
          ap (to_page limit (counts matches tables))
            (kept_tops p (limit + 1) (all_entries matches tables))
          ∙ to_page-page_of limit (counts matches tables) _ rest firsts))
