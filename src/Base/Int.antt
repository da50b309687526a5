-- ===== src/Base/Int.antt =====
-- Signed integers, as far as the program uses them: `negsuc n` is -(n + 1).
use Prim.Native.Nat.{ℕ, zero, suc, ◌+◌, ◌-◌, ◌≤◌, ◌<◌, compare, Ordering}
use mathlib.Core.Path.{◌≡◌, refl, ap, subst}
use mathlib.Core.Logic.{◌↔◌, inl, inr}
use native.Mathlib.Omega.{arith}
use que_qiao_router.Base.Tests.{leb, ltb, leb→le, le→leb, if◌then◌else◌, Bool-cases}
use que_qiao_router.Base.Keyed.{KeyTest}
use mathlib.Core.Bool.{Bool, true, false, not, ◌&&◌}

pub data ℤ : Type 0 where
  pos : ℕ → ℤ
  negsuc : ℕ → ℤ

abbrev pub pos_part : ℤ → ℕ
pos_part (pos n) = n
pos_part (negsuc n) = 0

-- `a <= 0`.
abbrev pub le_zero : ℤ → Bool
le_zero (pos zero) = true
le_zero (pos (suc n)) = false
le_zero (negsuc n) = true

abbrev pub neg_part : ℤ → ℕ
neg_part (pos n) = 0
neg_part (negsuc n) = suc n

infix 50 ◌≤ℤ◌
abbrev pub ◌≤ℤ◌ : ℤ → ℤ → Type 0
a ≤ℤ b = pos_part a + neg_part b ≤ pos_part b + neg_part a

-- `i64::cmp`.
unfoldable pub cmp_ℤ : ℤ → ℤ → Ordering
cmp_ℤ a b = compare (pos_part a + neg_part b) (pos_part b + neg_part a)

-- `<=`, `<` and `max` on i64.
abbrev pub leb_ℤ : ℤ → ℤ → Bool
leb_ℤ a b = leb (pos_part a + neg_part b) (pos_part b + neg_part a)

abbrev pub ltb_ℤ : ℤ → ℤ → Bool
ltb_ℤ a b = ltb (pos_part a + neg_part b) (pos_part b + neg_part a)

infix 50 ◌<ℤ◌
abbrev pub ◌<ℤ◌ : ℤ → ℤ → Type 0
a <ℤ b = pos_part a + neg_part b < pos_part b + neg_part a

abbrev pub max_ℤ : ℤ → ℤ → ℤ
max_ℤ a b = if ltb_ℤ a b then b else a

-- `a + 1` and `a - 1`, away from the limits of i64.
abbrev pub suc_ℤ : ℤ → ℤ
suc_ℤ (pos n) = pos (suc n)
suc_ℤ (negsuc zero) = pos 0
suc_ℤ (negsuc (suc n)) = negsuc n

abbrev pub pred_ℤ : ℤ → ℤ
pred_ℤ (pos zero) = negsuc 0
pred_ℤ (pos (suc n)) = pos n
pred_ℤ (negsuc n) = negsuc (suc n)

pub leb_ℤ→le : (a b : ℤ) → leb_ℤ a b ≡ true → a ≤ℤ b
leb_ℤ→le a b h = leb→le _ _ h

pub not_leb_ℤ→lt : (a b : ℤ) → leb_ℤ a b ≡ false → b <ℤ a
not_leb_ℤ→lt a b h = ground arith

pub lt→not_leb_ℤ : (a b : ℤ) → b <ℤ a → leb_ℤ a b ≡ false
lt→not_leb_ℤ a b h = ground arith

pub le→leb_ℤ : (a b : ℤ) → a ≤ℤ b → leb_ℤ a b ≡ true
le→leb_ℤ a b h = le→leb _ _ h

pub lt-pred_ℤ : (a b : ℤ) → (a ≤ℤ pred_ℤ b) ↔ (a <ℤ b)
lt-pred_ℤ a (pos zero) = (λ h. omega arith, λ h. omega arith)
lt-pred_ℤ a (pos (suc n)) = (λ h. omega arith, λ h. omega arith)
lt-pred_ℤ a (negsuc n) = (λ h. omega arith, λ h. omega arith)

pub lt-suc_ℤ : (a b : ℤ) → (a ≤ℤ b) ↔ (a <ℤ suc_ℤ b)
lt-suc_ℤ a (pos n) = (λ h. omega arith, λ h. omega arith)
lt-suc_ℤ a (negsuc zero) = (λ h. omega arith, λ h. omega arith)
lt-suc_ℤ a (negsuc (suc n)) = (λ h. omega arith, λ h. omega arith)

pub ℤ_eq : (a b : ℤ) → a ≤ℤ b → b ≤ℤ a → a ≡ b
ℤ_eq (pos n) (pos m) h k = ap pos (omega arith)
ℤ_eq (pos n) (negsuc m) h k = absurd (omega arith)
ℤ_eq (negsuc n) (pos m) h k = absurd (omega arith)
ℤ_eq (negsuc n) (negsuc m) h k = ap negsuc (omega arith)

abbrev pub eqb_ℤ : ℤ → ℤ → Bool
eqb_ℤ a b = leb_ℤ a b && leb_ℤ b a

leb_ℤ-refl : (a : ℤ) → leb_ℤ a a ≡ true
leb_ℤ-refl a = le→leb_ℤ a a (omega arith)

pub eqb_ℤ-refl : (a : ℤ) → eqb_ℤ a a ≡ true
eqb_ℤ-refl a = rw (leb_ℤ-refl a) refl

pub eqb_ℤ→eq : (a b : ℤ) → eqb_ℤ a b ≡ true → a ≡ b
eqb_ℤ→eq a b h = elim (Bool-cases (leb_ℤ a b)) [
  | inl le ↦ ℤ_eq a b (leb_ℤ→le a b le) (leb_ℤ→le b a (rw le at h))
  | inr gt ↦ absurd (cc (rw gt at h))
]

abbrev pub ℤ_test : KeyTest ℤ
ℤ_test = record {
  same = eqb_ℤ;
  sound = λ a b. (eqb_ℤ→eq a b, λ e. subst (λ x. eqb_ℤ a x ≡ true) e (eqb_ℤ-refl a));
}

infixl 65 ◌+ℤ◌
-- An integer and a natural number.
abbrev pub ◌+ℤ◌ : ℤ → ℕ → ℤ
pos n +ℤ k = pos (n + k)
negsuc n +ℤ k = if ltb n k then pos (k - suc n) else negsuc (n - k)

pub parts-+ℤ : (a : ℤ) (k : ℕ) → pos_part (a +ℤ k) + neg_part a ≡ pos_part a + k + neg_part (a +ℤ k)
parts-+ℤ (pos n) k = omega arith
parts-+ℤ (negsuc n) k = ground arith

pub parts-suc_ℤ : (a : ℤ) → pos_part (suc_ℤ a) + neg_part a ≡ pos_part a + neg_part (suc_ℤ a) + 1
parts-suc_ℤ (pos n) = omega arith
parts-suc_ℤ (negsuc zero) = omega arith
parts-suc_ℤ (negsuc (suc n)) = omega arith

pub parts-pred_ℤ : (a : ℤ) → pos_part (pred_ℤ a) + neg_part a + 1 ≡ pos_part a + neg_part (pred_ℤ a)
parts-pred_ℤ (pos zero) = omega arith
parts-pred_ℤ (pos (suc n)) = omega arith
parts-pred_ℤ (negsuc n) = omega arith

pub leb-pred_ℤ : (a b : ℤ) → leb_ℤ a (pred_ℤ b) ≡ ltb_ℤ a b
leb-pred_ℤ a b = let p = parts-pred_ℤ b in ground arith

pub lt→ltb_ℤ : (a b : ℤ) → a <ℤ b → ltb_ℤ a b ≡ true
lt→ltb_ℤ a b h = ground arith

pub le→not_ltb_ℤ : (a b : ℤ) → b ≤ℤ a → ltb_ℤ a b ≡ false
le→not_ltb_ℤ a b h = ground arith

pub not_ltb_ℤ→le : (a b : ℤ) → ltb_ℤ a b ≡ false → b ≤ℤ a
not_ltb_ℤ→le a b h = ground arith

pub ltb_not_ℤ : (a b : ℤ) → ltb_ℤ a b ≡ not (leb_ℤ b a)
ltb_not_ℤ a b = ground arith

pub ltb_ℤ→lt : (a b : ℤ) → ltb_ℤ a b ≡ true → a <ℤ b
ltb_ℤ→lt a b h = ground arith
