-- ===== src/Records/Distinct.antt =====
-- db/records_query.rs: where the rows of a table have different numbers and the shards different
-- names, no two rows of the answer stand at the same place.
use que_qiao_router.Base.{
  suc, length, ◌≡◌, ◌≢◌, refl, sym, ap, subst, ◌∙◌, inl, inr, Bool, false, Option, none, some, List,
  [], ◌∷◌, ◌++◌, concat, All, All-append, Bool-cases, Option-cases,
}
use que_qiao_router.Base.Int.{ℤ}
use que_qiao_router.Base.Decimal.{InI64}
use que_qiao_router.Base.Order.{Ordering, Ordering-cases}
use que_qiao_router.Base.Sorting.{is_gt, insert_by, insert_by-All, sort_by, IsSortedBy, sort_by-All}
use que_qiao_router.Base.Merging.{keep, All-keep, All-imply, sort_by-sorted}
use que_qiao_router.Records.{Text, TableRow, Entry, collect, newer}
use que_qiao_router.Records.Cursor.{IsShardName}
use que_qiao_router.Records.Shard.{key, Lawful-key, newer_trans, newer_total, matching}
use que_qiao_router.Records.Page.{Tables, readable, all_entries, sorted_entries}
use que_qiao_router.Records.Pages.{IsWritable, Before, walk, walk-sorted_entries}

abbrev InRange : Option ℤ → Type 0
InRange none = Unit {0}
InRange (some t) = InI64 t

-- A table of an audit database: the numbers fit their columns and `id` is its primary key.
pub record IsTable {V : Type 0} (name : Text) (rows : List (TableRow V)) : Type 0 where
  pub named : IsShardName name
  pub fits : All (λ r. InI64 r.id × InRange r.time_ms) rows
  pub ids : IsSortedBy (λ a b. a.id ≢ b.id) rows

module _ {ℓ κ} {A : Type ℓ} (R : A → A → Type κ) (swap : (a b : A) → R a b → R b a) where
  -- What holds of any two elements holds in any order.
  insert_by-Pairs :
      (cmp : A → A → Ordering) (x : A) (xs : List A)
      → All (R x) xs
      → IsSortedBy R xs
      → IsSortedBy R (insert_by cmp x xs)
  unfolding insert_by
  insert_by-Pairs cmp x [] h s = (tt, tt)
  insert_by-Pairs cmp x (y ∷ ys) h s = elim (Bool-cases (is_gt (cmp x y))) [
    | inl after ↦
        rw after (insert_by-All cmp (R y) x ys (swap x y h.0) s.0, insert_by-Pairs cmp x ys h.1 s.1)
    | inr before ↦ rw before (h, s)
  ]

  sort_by-Pairs :
      (cmp : A → A → Ordering) (xs : List A) → IsSortedBy R xs → IsSortedBy R (sort_by cmp xs)
  unfolding sort_by
  sort_by-Pairs cmp [] s = tt
  sort_by-Pairs cmp (x ∷ xs) s =
      insert_by-Pairs cmp x (sort_by cmp xs) (sort_by-All cmp (R x) xs s.0)
        (sort_by-Pairs cmp xs s.1)

module _ {ℓ κ} {A : Type ℓ} (R : A → A → Type κ) where
  Pairs-keep : (p : A → Bool) (xs : List A) → IsSortedBy R xs → IsSortedBy R (keep p xs)
  unfolding keep
  Pairs-keep p [] s = tt
  Pairs-keep p (x ∷ xs) s = elim (Bool-cases (p x)) [
    | inl yes_ ↦ rw yes_ (All-keep (R x) p xs s.0, Pairs-keep p xs s.1)
    | inr no_ ↦ rw no_ (Pairs-keep p xs s.1)
  ]

  Pairs-append :
      (xs ys : List A)
      → IsSortedBy R xs
      → IsSortedBy R ys
      → All (λ x. All (R x) ys) xs
      → IsSortedBy R (xs ++ ys)
  Pairs-append [] ys s t h = t
  Pairs-append (x ∷ xs) ys s t h = (All-append (R x) xs ys s.0 h.0, Pairs-append xs ys s.1 t h.1)

module _ {V : Type 0} where
  abbrev Apart : Entry V → Entry V → Type 0
  Apart a b = key a ≢ key b

  collect-All :
      (P : Entry V → Type 0) (Q : TableRow V → Type 0) (shard : Text)
      → ((r : TableRow V) (t : ℤ)
          → Q r
          → r.time_ms ≡ some t
          → P (record { time_ms = t; id = r.id; shard = shard; item = r.item }))
      → (rows : List (TableRow V)) → All Q rows
      → All P (collect shard rows)
  unfolding collect
  collect-All P Q shard f [] h = tt
  collect-All P Q shard f (r ∷ rows) h = elim (Option-cases r.time_ms) [
    | inl e ↦ rw e (collect-All P Q shard f rows h.1)
    | inr (t, e) ↦ rw e (f r t h.0 e, collect-All P Q shard f rows h.1)
  ]

  collect-Apart :
      (shard : Text) (rows : List (TableRow V))
      → IsSortedBy (λ a b. a.id ≢ b.id) rows
      → IsSortedBy Apart (collect shard rows)
  unfolding collect
  collect-Apart shard [] s = tt
  collect-Apart shard (r ∷ rows) s = elim (Option-cases r.time_ms) [
    | inl e ↦ rw e (collect-Apart shard rows s.1)
    | inr (t, e) ↦ rw e (
      collect-All (Apart (record { time_ms = t; id = r.id; shard = shard; item = r.item }))
          (λ q. r.id ≢ q.id) shard (λ q u h _ same. h (ap (λ (k : (ℤ × ℤ) × Text). k.0.1) same))
          rows s.0,
      collect-Apart shard rows s.1,
    )
  ]

  module _ (matches : TableRow V → Bool) where
    entry_named :
        (name : Text) (rows : List (TableRow V))
        → All (λ e. e.shard ≡ name) (matching matches name rows)
    entry_named name rows =
        collect-All (λ e. e.shard ≡ name) (λ r. Unit {0}) name (λ r t _ _. refl) (keep matches rows)
          (units (keep matches rows))
      where
        units : (xs : List (TableRow V)) → All (λ r. Unit {0}) xs
        units [] = tt
        units (x ∷ xs) = (tt, units xs)

    abbrev pub AreTables : Tables V → Type 0
    AreTables [] = Unit
    AreTables ((name, rows) ∷ tables) =
        IsTable name rows × All (λ t. name ≢ t.0) tables × AreTables tables

    others_named :
        (name : Text) (tables : Tables V)
        → All (λ t. name ≢ t.0) tables
        → All (λ e. name ≢ e.shard) (concat (all_entries matches tables))
    others_named name [] h = tt
    others_named name ((other, rows) ∷ tables) h =
        All-append (λ e. name ≢ e.shard) (matching matches other rows) _
          (All-imply (λ e. e.shard ≡ other) (λ e. name ≢ e.shard) (λ e is same. h.0 (same ∙ is))
            (matching matches other rows) (entry_named other rows))
          (others_named name tables h.1)

    entries-Apart :
        (tables : Tables V)
        → AreTables tables
        → IsSortedBy Apart (concat (all_entries matches tables))
    entries-Apart [] h = tt
    entries-Apart ((name, rows) ∷ tables) h =
        let rest = concat (all_entries matches tables) in
        Pairs-append Apart (matching matches name rows) rest
          (collect-Apart name (keep matches rows)
            (Pairs-keep (λ a b. a.id ≢ b.id) matches rows h.0.ids))
          (entries-Apart tables h.2)
          (All-imply (λ e. e.shard ≡ name) (λ e. All (Apart e) rest)
            (λ e is.
              All-imply (λ f. name ≢ f.shard) (Apart e)
                (λ f apart same. apart (sym is ∙ ap (λ (k : (ℤ × ℤ) × Text). k.1) same)) rest
                (others_named name tables h.1))
            (matching matches name rows) (entry_named name rows))

    -- Entries in order that stand at different places stand strictly in order.
    before : (a b : Entry V) → is_gt (newer a b) ≡ false → Apart a b → Before a b
    before a b h apart = elim (Ordering-cases (newer a b)) [
      | inl lt ↦ lt
      | inr (inl eq) ↦ absurd (apart (Lawful-key.eq (key a) (key b) eq))
      | inr (inr gt) ↦ absurd (cc)
    ]

    All-before :
        (a : Entry V) (xs : List (Entry V))
        → All (λ b. is_gt (newer a b) ≡ false) xs
        → All (Apart a) xs
        → All (Before a) xs
    All-before a [] h k = tt
    All-before a (b ∷ xs) h k = (before a b h.0 k.0, All-before a xs h.1 k.1)

    strictly :
        (xs : List (Entry V))
        → IsSortedBy (λ a b. is_gt (newer a b) ≡ false) xs
        → IsSortedBy Apart xs
        → IsSortedBy Before xs
    strictly [] h k = tt
    strictly (x ∷ xs) h k = (All-before x xs h.0 k.0, strictly xs h.1 k.1)

    entries-IsWritable :
        (tables : Tables V)
        → AreTables tables
        → All IsWritable (concat (all_entries matches tables))
    entries-IsWritable [] h = tt
    entries-IsWritable ((name, rows) ∷ tables) h =
        All-append IsWritable (matching matches name rows) _
          (collect-All IsWritable (λ r. InI64 r.id × InRange r.time_ms) name
            (λ r t q e. record { time = subst InRange e q.1; number = q.0; name = h.0.named })
            (keep matches rows)
            (All-keep (λ r. InI64 r.id × InRange r.time_ms) matches rows h.0.fits))
          (entries-IsWritable tables h.2)

    -- Whatever the filter and the page size, a client that starts without a cursor and follows the
    -- cursors comes to an end, within a page for each row and one more, and what it has read in all
    -- is every row of every shard that has a time and that the filter lets through, once each and
    -- the newest first, if the shards are tables of audit databases with different names.
    pub walk-readable :
        (asked : Option ℤ) (tables : Tables V)
        → AreTables tables
        → walk (suc (length (sorted_entries matches tables))) matches asked (readable tables) none
          ≡ some (sorted_entries matches tables)
    walk-readable asked tables h =
        let entries = concat (all_entries matches tables) in
        walk-sorted_entries matches asked tables
          (strictly (sort_by newer entries) (sort_by-sorted newer newer_trans newer_total entries) (
            sort_by-Pairs Apart (λ a b apart e. apart (sym e)) newer entries
              (entries-Apart tables h)))
          (sort_by-All newer IsWritable entries (entries-IsWritable tables h))
