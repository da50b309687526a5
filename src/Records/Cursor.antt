-- ===== src/Records/Cursor.antt =====
-- db/records_query.rs: the text of a cursor.
use que_qiao_router.Base.{◌≡◌, refl, Option, none, some, [], ◌∷◌, ◌++◌, append_nil}
use que_qiao_router.Base.Int.{ℤ}
use que_qiao_router.Base.Decimal.{
  InI64, IsFree, parse-show_i64, show_i64-IsFree, split-free, split-part, show_i64,
}
use que_qiao_router.Records.{Text, parse_cursor, format_cursor}

-- A name of a shard that stands in a cursor: not empty, and without a colon.
abbrev pub IsShardName : Text → Type 0
IsShardName [] = ⊥
IsShardName (c ∷ s) = IsFree b':' (c ∷ s)

abbrev pub IsShard : Option Text → Type 0
IsShard none = Unit {0}
IsShard (some s) = IsShardName s

-- A cursor is read as it was written, with a shard or without.
pub parse_cursor-format_cursor :
    (t i : ℤ) (shard : Option Text)
    → InI64 t
    → InI64 i
    → IsShard shard
    → parse_cursor (format_cursor t i shard) ≡ some (record { time_ms = t; id = i; shard = shard })
unfolding parse_cursor format_cursor
parse_cursor-format_cursor t i (some []) ht hi hs = absurd hs
parse_cursor-format_cursor t i (some (c ∷ s)) ht hi hs =
    rw
      (
        split-part b':' (show_i64 t) (show_i64 i ++ (b':' ∷ (c ∷ s))) (show_i64-IsFree t),
        split-part b':' (show_i64 i) (c ∷ s) (show_i64-IsFree i),
        split-free b':' (c ∷ s) hs,
        parse-show_i64 t ht,
        parse-show_i64 i hi,
      )
      refl
parse_cursor-format_cursor t i none ht hi hs =
    rw
      (
        append_nil (show_i64 i),
        split-part b':' (show_i64 t) (show_i64 i) (show_i64-IsFree t),
        split-free b':' (show_i64 i) (show_i64-IsFree i),
        parse-show_i64 t ht,
        parse-show_i64 i hi,
      )
      refl
