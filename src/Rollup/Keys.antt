-- ===== src/Rollup/Keys.antt =====
-- db/aggregate.rs: a map by day has each day once, so that going through its days is going through
-- its entries, in any order.
use Prim.Native.Nat.{ℕ, ◌+◌}
use native.Mathlib.Nat.{ℕ_set}
use mathlib.Core.Path.{ap₂}
use mathlib.Core.Logic.{∥∥₁_elim}
use mathlib.Core.List.{Perm, Permᴰ}
use que_qiao_router.Base.{
  ◌≡◌, refl, sym, ap, ◌∙◌, inl, inr, false, Option, none, some, List, [], ◌∷◌, map, arith, All,
  Bool-cases,
}
use que_qiao_router.Base.Int.{ℤ, ℤ_test, eqb_ℤ, eqb_ℤ→eq, eqb_ℤ-refl, cmp_ℤ}
use que_qiao_router.Base.Keyed.{get, set}
use que_qiao_router.Base.Sorting.{IsSortedBy, sort_by, sort_by-perm}
use que_qiao_router.Rollup.Totals.{total}

module _ {V : Type 0} where
  abbrev pub Apart : ℤ × V → ℤ × V → Type 0
  Apart e f = eqb_ℤ e.0 f.0 ≡ false

  -- No day twice.
  abbrev pub Unique : List (ℤ × V) → Type 0
  Unique = IsSortedBy Apart

  All-set :
      (e : ℤ × V) (day : ℤ) (v : V) (sums : List (ℤ × V))
      → eqb_ℤ e.0 day ≡ false
      → All (Apart e) sums
      → All (Apart e) (set ℤ_test day v sums)
  unfolding set
  All-set e day v [] apart h = (apart, tt)
  All-set e day v (f ∷ sums) apart h = elim (Bool-cases (eqb_ℤ f.0 day)) [
    | inl found ↦ rw found (apart, h.1)
    | inr other ↦ rw other (h.0, All-set e day v sums apart h.1)
  ]

  pub set-Unique :
      (day : ℤ) (v : V) (sums : List (ℤ × V)) → Unique sums → Unique (set ℤ_test day v sums)
  unfolding set
  set-Unique day v [] u = (tt, tt)
  set-Unique day v (f ∷ sums) u = elim (Bool-cases (eqb_ℤ f.0 day)) [
    | inl found ↦ rw (found, sym (eqb_ℤ→eq f.0 day found)) u
    | inr other ↦ rw other (All-set f day v sums other u.0, set-Unique day v sums u.1)
  ]

  module _ (w : ℤ → V → ℕ) where
    abbrev pub weight_at : ℤ → Option V → ℕ
    weight_at day none = 0
    weight_at day (some v) = w day v

    total-agree :
        (e : ℤ × V) (sums rest : List (ℤ × V))
        → All (Apart e) rest
        → total (λ f. weight_at f.0 (get ℤ_test f.0 (e ∷ sums))) rest
          ≡ total (λ f. weight_at f.0 (get ℤ_test f.0 sums)) rest
    unfolding get
    total-agree e sums [] h = refl
    total-agree e sums (f ∷ rest) h = rw h.0 (ap (◌+◌ _) (total-agree e sums rest h.1))

    -- Each entry is what its day is looked up to.
    pub total-entries :
        (sums : List (ℤ × V))
        → Unique sums
        → total (λ f. weight_at f.0 (get ℤ_test f.0 sums)) sums ≡ total (λ f. w f.0 f.1) sums
    unfolding get
    total-entries [] u = refl
    total-entries (e ∷ sums) u =
        rw (eqb_ℤ-refl e.0)
          (ap (◌+◌ (w e.0 e.1)) (total-agree e sums sums u.0 ∙ total-entries sums u.1))

    total-keys :
        (f : ℤ → ℕ) (sums : List (ℤ × V)) → total f (map (λ e. e.0) sums) ≡ total (λ e. f e.0) sums
    total-keys f [] = refl
    total-keys f (e ∷ sums) = ap (◌+◌ (f e.0)) (total-keys f sums)

total-permᴰ {ℓ} : {A : Type ℓ} (f : A → ℕ) {xs ys : List A} → Permᴰ xs ys → total f xs ≡ total f ys
total-permᴰ f Permᴰ.nil = refl
total-permᴰ f (Permᴰ.cons e p) = ap₂ ◌+◌ (ap f e) (total-permᴰ f p)
total-permᴰ f (Permᴰ.swap e g) = let p = ap f e in let q = ap f g in omega (arith, p, q)
total-permᴰ f (Permᴰ.trans p q) = total-permᴰ f p ∙ total-permᴰ f q

pub total-perm {ℓ} :
    {A : Type ℓ} (f : A → ℕ) {xs ys : List A} → Perm xs ys → total f xs ≡ total f ys
total-perm f p = ∥∥₁_elim p (ℕ_set _ _) (λ d. total-permᴰ f d)

-- The days in ascending order, each with what it is looked up to.
pub total-sorted_keys :
    {V : Type 0} (w : ℤ → V → ℕ) (sums : List (ℤ × V))
    → Unique sums
    → total (λ day. weight_at w day (get ℤ_test day sums)) (sort_by cmp_ℤ (map (λ e. e.0) sums))
      ≡ total (λ f. w f.0 f.1) sums
total-sorted_keys w sums u =
    total-perm _ (sort_by-perm cmp_ℤ (map (λ e. e.0) sums))
    ∙ total-keys w _ sums
    ∙ total-entries w sums u
