-- ===== src/Records/Tests.antt =====
-- The pages of db/records_query.rs on small tables, and the theorems at such inputs.
use que_qiao_router.Base.{
  ℕ, ◌≡◌, refl, suc, length, true, Option, none, some, [], ◌∷◌, arith, ◌>>=◌,
}
use que_qiao_router.Base.Int.{ℤ, pos, negsuc}
use que_qiao_router.Base.Merging.{keep}
use que_qiao_router.Records.{
  Text, TableRow, parse_cursor, format_cursor, clamp_limit, query_records_multi, retained,
}
use que_qiao_router.Records.Cursor.{parse_cursor-format_cursor}
use que_qiao_router.Records.Page.{
  Tables, readable, page_of, counts, sorted_entries, query_records_multi-page_of,
}
use que_qiao_router.Records.Pages.{walk}
use que_qiao_router.Records.Distinct.{IsTable, walk-readable}

-- "ab" and "cd".
abbrev first_shard : Text
first_shard = b'a' ∷ b'b' ∷ []

abbrev second_shard : Text
second_shard = b'c' ∷ b'd' ∷ []

abbrev row : Option ℤ → ℕ → TableRow ℕ
row t n = record { time_ms = t; id = pos n; item = n }

-- Two shards, with rows of one time in both and a row without a time.
abbrev tables : Tables ℕ
tables =
    (first_shard, row (some (pos 5)) 1 ∷ row none 2 ∷ row (some (negsuc 2)) 3 ∷ [])
    ∷ (second_shard, row (some (pos 5)) 1 ∷ [])
    ∷ []

abbrev one_page : Option ℤ
one_page = some (pos 1)

parse_cursor-format_cursor_example :
    parse_cursor (format_cursor (negsuc 11) (pos 7) (some first_shard))
    ≡ some (record { time_ms = negsuc 11; id = pos 7; shard = some first_shard })
parse_cursor-format_cursor_example =
    parse_cursor-format_cursor (negsuc 11) (pos 7) (some first_shard) (omega arith) (omega arith)
      (refl, (refl, tt))

query_records_multi-page_of_example :
    query_records_multi (λ r. true) one_page (some (b'x' ∷ [])) (readable tables)
    ≡ some (
        page_of
          (clamp_limit one_page)
          (counts (λ r. true) tables)
          (keep (retained (some (b'x' ∷ []) >>= parse_cursor)) (sorted_entries (λ r. true) tables)))
query_records_multi-page_of_example =
    query_records_multi-page_of (λ r. true) one_page (some (b'x' ∷ [])) tables

first-IsTable :
    IsTable first_shard (row (some (pos 5)) 1 ∷ row none 2 ∷ row (some (negsuc 2)) 3 ∷ [])
first-IsTable = record {
  named = (refl, (refl, tt));
  fits = ((omega arith, omega arith), ((omega arith, tt), ((omega arith, omega arith), tt)));
  ids = ((λ e. cc e, ((λ e. cc e), tt)), (((λ e. cc e), tt), (tt, tt)));
}

different : first_shard ≡ second_shard → ⊥
different e = ground (arith, e)

second-IsTable : IsTable second_shard (row (some (pos 5)) 1 ∷ [])
second-IsTable = record {
  named = (refl, (refl, tt));
  fits = ((omega arith, omega arith), tt);
  ids = (tt, tt);
}

walk-readable_example :
    walk
      (suc (length (sorted_entries (λ r. true) tables)))
      (λ r. true)
      one_page
      (readable tables)
      none
    ≡ some (sorted_entries (λ r. true) tables)
walk-readable_example =
    walk-readable (λ r. true) one_page tables
      (first-IsTable, (different, tt), (second-IsTable, tt, tt))
