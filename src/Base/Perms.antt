-- ===== src/Base/Perms.antt =====
-- A proposition that holds of every element holds after a permutation.
use mathlib.Core.Path.{sym, subst}
use mathlib.Core.Logic.{∥∥₁_elim}
use mathlib.Core.HLevel.{×_prop}
use mathlib.Core.List.{List, [], ◌∷◌, Perm, Permᴰ}
use que_qiao_router.Base.Lists.{All}

module _ {ℓ κ} {A : Type ℓ} (P : A → Type κ) (prop : (a : A) → IsProp (P a)) where
  All-prop : (xs : List A) → IsProp (All P xs)
  All-prop [] = hlevel
  All-prop (x ∷ xs) = ×_prop (prop x) (All-prop xs)

  All-perm_of : {xs ys : List A} → Permᴰ xs ys → All P ys → All P xs
  All-perm_of Permᴰ.nil h = h
  All-perm_of (Permᴰ.cons e p) h = (subst P (sym e) h.0, All-perm_of p h.1)
  All-perm_of (Permᴰ.swap e f) h = (subst P (sym e) h.1.0, (subst P (sym f) h.0, h.1.1))
  All-perm_of (Permᴰ.trans p q) h = All-perm_of p (All-perm_of q h)

  pub All-perm : {xs ys : List A} → Perm xs ys → All P ys → All P xs
  All-perm {xs} p h = ∥∥₁_elim p (All-prop xs) (λ d. All-perm_of d h)
