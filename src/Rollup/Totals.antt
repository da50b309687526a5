-- ===== src/Rollup/Totals.antt =====
-- db/aggregate.rs: the counts of the sums by day, and what each row adds to them.
use que_qiao_router.Base.{
  ℕ, ◌+◌, ◌%◌, ◌^◌, ◌≡◌, refl, inl, inr, Bool, true, false, Option, none, some, List, [], ◌∷◌, ◌++◌,
  arith, if◌then◌else◌, or_else, Bool-cases,
}
use que_qiao_router.Base.Int.{ℤ, ℤ_test, eqb_ℤ, eqb_ℤ→eq}
use que_qiao_router.Base.Keyed.{get, set}
use que_qiao_router.Days.{Calendar, local_day_ms}
use que_qiao_router.Rollup.{
  FloatSums, Row, Acc, Sums, is_counted, is_served, is_error, count_if, latency, ttft, observe, add,
  acc_of, count_row, default_acc,
}

abbrev pub total {ℓ} : {A : Type ℓ} → (A → ℕ) → List A → ℕ
total f [] = 0
total f (x ∷ xs) = f x + total f xs

pub total-append {ℓ} :
    {A : Type ℓ} (f : A → ℕ) (xs ys : List A) → total f (xs ++ ys) ≡ total f xs + total f ys
total-append f [] ys = omega arith
total-append f (x ∷ xs) ys = omega (arith, total-append f xs ys)

-- The counts in i64 of `Acc`.
pub data Count : Type 0 where
  rows_all : Count
  counted : Count
  success : Count
  errors : Count
  prompt_tokens : Count
  completion_tokens : Count
  total_tokens : Count
  latency_count : Count
  ttft_count : Count

-- Equal in 64 bits.
infix 50 ◌≈◌
abbrev pub ◌≈◌ : ℕ → ℕ → Type 0
a ≈ b = a % 2 ^ 64 ≡ b % 2 ^ 64

abbrev pub when : Bool → ℕ → ℕ
when b n = if b then n else 0

pub when_≈ : (b : Bool) (m n k : ℕ) → m ≈ n + k → when b m ≈ when b n + when b k
when_≈ true m n k h = h
when_≈ false m n k h = omega arith

abbrev one_if_some {ℓ} : {A : Type ℓ} → Option A → ℕ
one_if_some none = 0
one_if_some (some _) = 1

module _ (floats : FloatSums) where
  abbrev pub value : Count → Acc floats → ℕ
  value rows_all a = a.rows_all
  value counted a = a.counted
  value success a = a.success
  value errors a = a.errors
  value prompt_tokens a = a.prompt_tokens
  value completion_tokens a = a.completion_tokens
  value total_tokens a = a.total_tokens
  value latency_count a = a.latency_count
  value ttft_count a = a.ttft_count

  -- What a row adds to a count, as the columns of `summary_sql` have it.
  abbrev pub contribution : Count → Row floats → ℕ
  contribution rows_all r = 1
  contribution counted r = when (is_counted floats r.status) 1
  contribution success r = when (is_served floats r.status) 1
  contribution errors r = when (is_error floats r.status) 1
  contribution prompt_tokens r = or_else r.prompt_tokens 0
  contribution completion_tokens r = or_else r.completion_tokens 0
  contribution total_tokens r = or_else r.total_tokens 0
  contribution latency_count r = one_if_some r.latency_ms
  contribution ttft_count r = one_if_some r.ttft_ms

  pub value-add : (c : Count) (a b : Acc floats) → value c (add floats a b) ≈ value c a + value c b
  unfolding add
  value-add rows_all a b = omega arith
  value-add counted a b = omega arith
  value-add success a b = omega arith
  value-add errors a b = omega arith
  value-add prompt_tokens a b = omega arith
  value-add completion_tokens a b = omega arith
  value-add total_tokens a b = omega arith
  value-add latency_count a b = omega arith
  value-add ttft_count a b = omega arith

  count_if_value : (b : Bool) (n : ℕ) → count_if floats b n ≈ n + when b 1
  count_if_value true n = omega arith
  count_if_value false n = omega arith

  module _ (l t : Option (FloatSums.F floats)) where
    abbrev measured : Count → ℕ
    measured latency_count = one_if_some l
    measured ttft_count = one_if_some t
    measured _ = 0

  value-ttft :
      (l t : Option (FloatSums.F floats)) (c : Count) (a : Acc floats)
      → value c (ttft floats t (latency floats l a)) ≈ value c a + measured l t c
  value-ttft none none c a = ground arith
  value-ttft none (some v) c a = ground arith
  value-ttft (some v) none c a = ground arith
  value-ttft (some v) (some w) c a = ground arith

  value-count_row :
      (c : Count) (r : Row floats) (a : Acc floats)
      → value c (count_row floats r a) + measured r.latency_ms r.ttft_ms c
        ≈ value c a + contribution c r
  value-count_row rows_all r a = omega arith
  value-count_row counted r a = ground arith
  value-count_row success r a = ground arith
  value-count_row errors r a = ground arith
  value-count_row prompt_tokens r a = omega arith
  value-count_row completion_tokens r a = omega arith
  value-count_row total_tokens r a = omega arith
  value-count_row latency_count r a = omega arith
  value-count_row ttft_count r a = omega arith

  pub value-observe :
      (c : Count) (r : Row floats) (a : Acc floats)
      → value c (observe floats r a) ≈ value c a + contribution c r
  unfolding observe
  value-observe c r a =
      let m = value-ttft r.latency_ms r.ttft_ms c (count_row floats r a) in
      let k = value-count_row c r a in omega (arith, m, k)

  -- The first entry of a day, weighed; a day of no entry weighs nothing.
  abbrev pub weight_of : Count → Option (Acc floats) → ℕ
  weight_of c none = 0
  weight_of c (some a) = value c a

  -- A count over the days that `p` selects.
  abbrev pub sums_total : Count → (ℤ → Bool) → Sums floats → ℕ
  sums_total c p sums = total (λ e. when (p e.0) (value c e.1)) sums

  pub sums_total-set :
      (c : Count) (p : ℤ → Bool) (day : ℤ) (a : Acc floats) (sums : Sums floats)
      → sums_total c p (set ℤ_test day a sums) + when (p day) (weight_of c (get ℤ_test day sums))
        ≡ sums_total c p sums + when (p day) (value c a)
  unfolding get set
  sums_total-set c p day a [] = ground arith
  sums_total-set c p day a (e ∷ sums) = elim (Bool-cases (eqb_ℤ e.0 day)) [
    | inl found ↦ rw (found, eqb_ℤ→eq e.0 day found) (omega arith)
    | inr other ↦ rw other (omega (arith, sums_total-set c p day a sums))
  ]

  pub value-default : (c : Count) → value c (default_acc floats) ≡ 0
  value-default c = ground arith

  value-or_else :
      (c : Count) (o : Option (Acc floats))
      → value c (or_else o (default_acc floats)) ≡ weight_of c o
  value-or_else c none = ground arith
  value-or_else c (some a) = refl

  pub value-acc_of :
      (c : Count) (day : ℤ) (sums : Sums floats)
      → value c (acc_of floats day sums) ≡ weight_of c (get ℤ_test day sums)
  value-acc_of c day sums = value-or_else c (get ℤ_test day sums)

  module _ (calendar : Calendar) where
    -- The row has a local day, and `p` selects it.
    abbrev pub on_day : (ℤ → Bool) → Option ℤ → Bool
    on_day p none = false
    on_day p (some t) = elim (local_day_ms calendar t) [ none ↦ false | some day ↦ p day ]

    abbrev pub row_weight : Count → (ℤ → Bool) → Row floats → ℕ
    row_weight c p r = when (on_day p r.time_ms) (contribution c r)

    -- What the rows of the days that `p` selects add to a count.
    abbrev pub rows_total : Count → (ℤ → Bool) → List (Row floats) → ℕ
    rows_total c p rows = total (row_weight c p) rows
