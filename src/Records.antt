-- ===== src/Records.antt =====
-- db/records_query.rs: the cursor of a list of records and the query over several shards. A table is
-- the list of its rows, and a SELECT keeps, sorts and cuts it; the filter that `build_filters`
-- writes is an argument. A shard whose database fails has no table.
pub mod Cursor
pub mod Shard
pub mod Page
pub mod Distinct
pub mod Pages
mod Tests
use que_qiao_router.Base.{
  ℕ, zero, suc, ◌+◌, min, Bool, true, false, not, ◌&&◌, ◌||◌, Option, none, some, List, [], ◌∷◌,
  ◌++◌, if◌then◌else◌, ltb, length, take, concat, map, ◌>>=◌,
}
use que_qiao_router.Base.Int.{ℤ, pos, negsuc, cmp_ℤ}
use que_qiao_router.Base.Order.{Ordering, reverse, is_lt, is_eq, cmp_pair, cmp_text}
use que_qiao_router.Base.Sorting.{sort_by}
use que_qiao_router.Base.Merging.{keep}
use que_qiao_router.Base.Decimal.{show_i64, parse_i64, split}

abbrev pub Text : Type 0
Text = List ℕ

pub record CursorKey : Type 0 where
  pub time_ms : ℤ
  pub id : ℤ
  pub shard : Option Text

abbrev cursor_of : ℤ → ℤ → List Text → Option CursorKey
cursor_of t i [] = some (record { time_ms = t; id = i; shard = none })
cursor_of t i ([] ∷ _) = none
cursor_of t i ((c ∷ s) ∷ []) = some (record { time_ms = t; id = i; shard = some (c ∷ s) })
cursor_of t i ((c ∷ s) ∷ _ ∷ _) = none

abbrev cursor_parts : List Text → Option CursorKey
cursor_parts (t ∷ i ∷ rest) = parse_i64 t >>= λ time. parse_i64 i >>= λ id. cursor_of time id rest
cursor_parts _ = none

unfoldable pub parse_cursor : Text → Option CursorKey
parse_cursor s = cursor_parts (split b':' s)

abbrev shard_suffix : Option Text → Text
shard_suffix none = []
shard_suffix (some s) = b':' ∷ s

unfoldable pub format_cursor : ℤ → ℤ → Option Text → Text
format_cursor t i shard = show_i64 t ++ (b':' ∷ (show_i64 i ++ shard_suffix shard))

-- A row of the table `records`: TimeMs may be NULL, and `item` is what `row_to_item` makes of it.
pub record TableRow (V : Type 0) : Type 0 where
  pub time_ms : Option ℤ
  pub id : ℤ
  pub item : V

-- A row of the answer, with the shard that it comes from.
pub record Entry (V : Type 0) : Type 0 where
  pub time_ms : ℤ
  pub id : ℤ
  pub shard : Text
  pub item : V

abbrev pub Shard : Type 0 → Type 0
Shard V = Text × Option (List (TableRow V))

pub record Answer (V : Type 0) : Type 0 where
  pub items : List (Entry V)
  pub next_cursor : Option Text
  pub total : ℕ
  pub total_exact : Bool

abbrev pub cmp_time_id : ℤ × ℤ → ℤ × ℤ → Ordering
cmp_time_id = cmp_pair cmp_ℤ cmp_ℤ

-- NULL comes before all numbers.
abbrev pub cmp_null : Option ℤ → Option ℤ → Ordering
cmp_null none none = Ordering.eq
cmp_null none (some _) = Ordering.lt
cmp_null (some _) none = Ordering.gt
cmp_null (some t) (some u) = cmp_ℤ t u

-- `(TimeMs, id) < (?, ?) OR ((TimeMs, id) = (?, ?) AND ? = 1)`, the part after OR where the cursor
-- names a shard. A row value with a NULL in it is neither.
abbrev pub after_cursor : Text → CursorKey → Option ℤ → ℤ → Bool
after_cursor shard_id c none id = false
after_cursor shard_id c (some t) id =
    let o = cmp_time_id (t, id) (c.time_ms, c.id) in
    elim c.shard [ none ↦ is_lt o | some s ↦ is_lt o || (is_eq o && is_lt (cmp_text shard_id s)) ]

abbrev pub cursor_condition : Text → Option CursorKey → Option ℤ → ℤ → Bool
cursor_condition shard_id none t id = true
cursor_condition shard_id (some c) t id = after_cursor shard_id c t id

-- The page size that the parameters ask for.
abbrev pub clamp_limit : Option ℤ → ℕ
clamp_limit none = 50
clamp_limit (some (pos zero)) = 1
clamp_limit (some (pos (suc n))) = min (suc n) 500
clamp_limit (some (negsuc n)) = 1

abbrev pub count_cap : ℕ
count_cap = 10000

module _ {V : Type 0} where
  -- ORDER BY TimeMs DESC, id DESC.
  abbrev pub newer_row : TableRow V → TableRow V → Ordering
  newer_row a b = cmp_pair cmp_null cmp_ℤ (b.time_ms, b.id) (a.time_ms, a.id)

  abbrev pub to_entry : Text → Option ℤ → ℤ → V → List (Entry V)
  to_entry shard none id item = []
  to_entry shard (some t) id item = record { time_ms = t; id = id; shard = shard; item = item } ∷ []

  -- The rows that have a time.
  unfoldable pub collect : Text → List (TableRow V) → List (Entry V)
  collect shard [] = []
  collect shard (r ∷ rs) = to_entry shard r.time_ms r.id r.item ++ collect shard rs

  abbrev pub cmp_entry : Entry V → Entry V → Ordering
  cmp_entry a b =
      cmp_pair cmp_time_id cmp_text ((a.time_ms, a.id), a.shard) ((b.time_ms, b.id), b.shard)

  abbrev pub newer : Entry V → Entry V → Ordering
  newer a b = cmp_entry b a

  -- What `retain` keeps after a cursor.
  abbrev pub below : CursorKey → Entry V → Bool
  below c e =
      let o = cmp_time_id (e.time_ms, e.id) (c.time_ms, c.id) in
      elim c.shard [
        | none ↦ is_lt o
        | some s ↦
            is_lt
              (cmp_pair cmp_time_id cmp_text ((e.time_ms, e.id), e.shard) ((c.time_ms, c.id), s))
      ]

  abbrev pub retained : Option CursorKey → Entry V → Bool
  retained none e = true
  retained (some c) e = below c e

  module _ (matches : TableRow V → Bool) where
    unfoldable pub query_shard : Option CursorKey → ℕ → Text → List (TableRow V) → List (Entry V)
    query_shard cursor limit shard_id table = collect shard_id (
        take (limit + 1) (
          sort_by newer_row
            (keep (λ r. matches r && cursor_condition shard_id cursor r.time_ms r.id) table)))

    -- The count of each shard is taken up to a bound, and the sum does not overflow.
    unfoldable pub count_all : List (Shard V) → Option ℕ
    count_all [] = some 0
    count_all ((_, table) ∷ shards) = table >>= λ rows.
        count_all shards >>= λ n. some (min (length (keep matches rows)) count_cap + n)

    unfoldable pub query_all : Option CursorKey → ℕ → List (Shard V) → Option (List (Entry V))
    query_all cursor limit [] = some []
    query_all cursor limit ((id, table) ∷ shards) = table >>= λ rows.
        query_all cursor limit shards >>= λ later. some (query_shard cursor limit id rows ++ later)

  abbrev pub last : List (Entry V) → Option (Entry V)
  last [] = none
  last (e ∷ []) = some e
  last (e ∷ f ∷ es) = last (f ∷ es)

  abbrev pub cursor_text : Option (Entry V) → Option Text
  cursor_text none = none
  cursor_text (some e) = some (format_cursor e.time_ms e.id (some e.shard))

  -- The rows of all shards to a page, and the cursor for the next one.
  unfoldable pub to_page : ℕ → ℕ → List (Entry V) → Answer V
  to_page limit total_sum rows =
      let sorted = sort_by newer rows in
      let has_more = ltb limit (length sorted) in
      let page = if has_more then take limit sorted else sorted in
      record {
        items = page;
        next_cursor = if has_more then cursor_text (last page) else none;
        total = min total_sum count_cap;
        total_exact = ltb total_sum count_cap;
      }

  unfoldable pub query_records_multi :
      (TableRow V → Bool) → Option ℤ → Option Text → List (Shard V) → Option (Answer V)
  unfolding count_all query_all to_page
  query_records_multi matches asked cursor_param shards =
      let limit = clamp_limit asked in
      let cursor = cursor_param >>= parse_cursor in
      count_all matches shards >>= λ total_sum. query_all matches cursor limit shards >>= λ rows.
      some (to_page limit total_sum (keep (retained cursor) rows))
