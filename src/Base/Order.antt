-- ===== src/Base/Order.antt =====
-- Comparisons that are total orders, and the lexicographic ones made of them.
use Prim.Native.Nat.{ℕ, compare}
pub use Prim.Native.Nat.{Ordering}
use mathlib.Core.Path.{◌≡◌, refl, sym, ap, ◌∙◌, subst}
use mathlib.Core.Logic.{◌⊎◌, inl, inr}
use mathlib.Core.Bool.{Bool, true, false}
use mathlib.Core.List.{List, [], ◌∷◌}
use native.Mathlib.Omega.{arith}
use que_qiao_router.Base.Int.{cmp_ℤ}
use que_qiao_router.Base.Sorting.{is_gt, then_with}

abbrev pub reverse : Ordering → Ordering
reverse Ordering.lt = Ordering.gt
reverse Ordering.eq = Ordering.eq
reverse Ordering.gt = Ordering.lt

abbrev pub is_lt : Ordering → Bool
is_lt Ordering.lt = true
is_lt _ = false

abbrev pub is_eq : Ordering → Bool
is_eq Ordering.eq = true
is_eq _ = false

pub record Lawful {ℓ} {A : Type ℓ} (cmp : A → A → Ordering) : Type ℓ where
  pub flip : (a b : A) → cmp b a ≡ reverse (cmp a b)
  pub eq : (a b : A) → cmp a b ≡ Ordering.eq → a ≡ b
  pub trans : (a b c : A) → cmp a b ≡ Ordering.lt → cmp b c ≡ Ordering.lt → cmp a c ≡ Ordering.lt

reverse_fixed : (o : Ordering) → o ≡ reverse o → o ≡ Ordering.eq
reverse_fixed Ordering.lt h = absurd (cc)
reverse_fixed Ordering.eq h = refl
reverse_fixed Ordering.gt h = absurd (cc)

pub cmp_refl {ℓ} :
    {A : Type ℓ} {cmp : A → A → Ordering} → Lawful cmp → (a : A) → cmp a a ≡ Ordering.eq
cmp_refl {cmp} w a = reverse_fixed (cmp a a) (w.flip a a)

pub Ordering-cases : (o : Ordering) → (o ≡ Ordering.lt) ⊎ ((o ≡ Ordering.eq) ⊎ (o ≡ Ordering.gt))
Ordering-cases Ordering.lt = inl refl
Ordering-cases Ordering.eq = inr (inl refl)
Ordering-cases Ordering.gt = inr (inr refl)

reverse_gt : (o : Ordering) → o ≡ Ordering.gt → reverse o ≡ Ordering.lt
reverse_gt o e = rw e

module _ {ℓ} {A : Type ℓ} {cmp : A → A → Ordering} (w : Lawful cmp) where
  -- What is not before is equal or after.
  pub not_gt_trans :
      (a b c : A) → is_gt (cmp a b) ≡ false → is_gt (cmp b c) ≡ false → is_gt (cmp a c) ≡ false
  not_gt_trans a b c h k = elim (Ordering-cases (cmp a b)) [
    | inl ab ↦ elim (Ordering-cases (cmp b c)) [
      | inl bc ↦ ap is_gt (w.trans a b c ab bc)
      | inr (inl bc) ↦ subst (λ x. is_gt (cmp a x) ≡ false) (w.eq b c bc) h
      | inr (inr bc) ↦ absurd (cc)
    ]
    | inr (inl ab) ↦ subst (λ x. is_gt (cmp x c) ≡ false) (sym (w.eq a b ab)) k
    | inr (inr ab) ↦ absurd (cc)
  ]

  pub gt_not_gt : (a b : A) → is_gt (cmp a b) ≡ true → is_gt (cmp b a) ≡ false
  gt_not_gt a b h = elim (Ordering-cases (cmp a b)) [
    | inl ab ↦ absurd (cc)
    | inr (inl ab) ↦ absurd (cc)
    | inr (inr ab) ↦ ap is_gt (w.flip a b ∙ reverse_gt (cmp a b) ab)
  ]

  -- A total order read backwards.
  pub Lawful-backwards : Lawful (λ a b. cmp b a)
  Lawful-backwards = record {
    flip = λ a b. w.flip b a;
    eq = λ a b e. sym (w.eq b a e);
    trans = λ a b c h k. w.trans c b a k h;
  }

abbrev pub cmp_pair {ℓ κ} :
    {A : Type ℓ} {B : Type κ} → (A → A → Ordering) → (B → B → Ordering) → A × B → A × B → Ordering
cmp_pair c d p q = then_with (c p.0 q.0) (d p.1 q.1)

then_with-flip : (o p : Ordering) → then_with (reverse o) (reverse p) ≡ reverse (then_with o p)
then_with-flip Ordering.lt p = refl
then_with-flip Ordering.eq p = refl
then_with-flip Ordering.gt p = refl

then_with-eq :
    (o p : Ordering) → then_with o p ≡ Ordering.eq → (o ≡ Ordering.eq) × (p ≡ Ordering.eq)
then_with-eq Ordering.lt p h = absurd (cc)
then_with-eq Ordering.eq p h = (refl, h)
then_with-eq Ordering.gt p h = absurd (cc)

then_with-lt :
    (o p : Ordering)
    → then_with o p ≡ Ordering.lt
    → (o ≡ Ordering.lt) ⊎ ((o ≡ Ordering.eq) × (p ≡ Ordering.lt))
then_with-lt Ordering.lt p h = inl refl
then_with-lt Ordering.eq p h = inr (refl, h)
then_with-lt Ordering.gt p h = absurd (cc)

-- The same orders for the parts, lexicographically.
module _ {ℓ κ} {A : Type ℓ} {B : Type κ} {c : A → A → Ordering} {d : B → B → Ordering}
    (v : Lawful c) (w : Lawful d) where
  lex_trans :
      (x y z : A) (o p q : Ordering)
      → (o ≡ Ordering.lt → p ≡ Ordering.lt → q ≡ Ordering.lt)
      → then_with (c x y) o ≡ Ordering.lt
      → then_with (c y z) p ≡ Ordering.lt
      → then_with (c x z) q ≡ Ordering.lt
  lex_trans x y z o p q later h k = elim (then_with-lt (c x y) o h) [
    | inl xy ↦ elim (then_with-lt (c y z) p k) [
      | inl yz ↦ rw (v.trans x y z xy yz)
      | inr yz ↦ rw (← v.eq y z yz.0, xy)
    ]
    | inr xy ↦ elim (then_with-lt (c y z) p k) [
      | inl yz ↦ rw (v.eq x y xy.0, yz)
      | inr yz ↦
          let same = subst (λ t. c x t ≡ Ordering.eq) (v.eq y z yz.0) xy.0 in
          rw same (later xy.1 yz.1)
    ]
  ]

  pub Lawful-pair : Lawful (cmp_pair c d)
  Lawful-pair = record {
    flip = λ p q. rw (v.flip p.0 q.0, w.flip p.1 q.1) (then_with-flip (c p.0 q.0) (d p.1 q.1));
    eq = λ p q e.
        let parts = then_with-eq (c p.0 q.0) (d p.1 q.1) e in
        λ i. (v.eq p.0 q.0 parts.0 i, w.eq p.1 q.1 parts.1 i);
    trans =
        λ p q r. lex_trans p.0 q.0 r.0 (d p.1 q.1) (d q.1 r.1) (d p.1 r.1) (w.trans p.1 q.1 r.1);
  }

-- Texts are compared byte by byte.
abbrev pub cmp_text : List ℕ → List ℕ → Ordering
cmp_text [] [] = Ordering.eq
cmp_text [] (_ ∷ _) = Ordering.lt
cmp_text (_ ∷ _) [] = Ordering.gt
cmp_text (a ∷ s) (b ∷ t) = then_with (compare a b) (cmp_text s t)

Lawful-ℕ : Lawful compare
Lawful-ℕ = record {
  flip = λ a b. ground arith;
  eq = λ a b h. ground arith;
  trans = λ a b c h k. ground arith;
}

text_flip : (s t : List ℕ) → cmp_text t s ≡ reverse (cmp_text s t)
text_flip [] [] = refl
text_flip [] (_ ∷ _) = refl
text_flip (_ ∷ _) [] = refl
text_flip (a ∷ s) (b ∷ t) =
    rw (Lawful-ℕ.flip a b, text_flip s t) (then_with-flip (compare a b) (cmp_text s t))

text_eq : (s t : List ℕ) → cmp_text s t ≡ Ordering.eq → s ≡ t
text_eq [] [] h = refl
text_eq [] (_ ∷ _) h = absurd (cc)
text_eq (_ ∷ _) [] h = absurd (cc)
text_eq (a ∷ s) (b ∷ t) h =
    let parts = then_with-eq (compare a b) (cmp_text s t) h in
    λ i. Lawful-ℕ.eq a b parts.0 i ∷ text_eq s t parts.1 i

text_trans :
    (s t u : List ℕ)
    → cmp_text s t ≡ Ordering.lt
    → cmp_text t u ≡ Ordering.lt
    → cmp_text s u ≡ Ordering.lt
text_trans [] [] u h k = absurd (cc)
text_trans [] (b ∷ t) [] h k = absurd (cc)
text_trans [] (b ∷ t) (c ∷ u) h k = refl
text_trans (a ∷ s) [] u h k = absurd (cc)
text_trans (a ∷ s) (b ∷ t) [] h k = absurd (cc)
text_trans (a ∷ s) (b ∷ t) (c ∷ u) h k =
    lex_trans Lawful-ℕ Lawful-ℕ a b c (cmp_text s t) (cmp_text t u) (cmp_text s u)
      (text_trans s t u) h k

pub Lawful-text : Lawful cmp_text
Lawful-text = record { flip = text_flip; eq = text_eq; trans = text_trans }

pub Lawful-ℤ : Lawful cmp_ℤ
unfolding cmp_ℤ
Lawful-ℤ = record {
  flip = λ a b. ground arith;
  eq = λ a b h. ground arith;
  trans = λ a b c h k. ground arith;
}
