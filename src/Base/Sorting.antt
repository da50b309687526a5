-- ===== src/Base/Sorting.antt =====
-- The standard library's stable `sort_by`, by insertion: elements that compare equal keep their
-- order.
use Prim.Native.Nat.{Ordering}
use mathlib.Core.Path.{◌≡◌}
use mathlib.Core.Logic.{inl, inr}
use mathlib.Core.Bool.{Bool, true, false}
use mathlib.Core.List.{List, [], ◌∷◌, map, Perm}
use mathlib.Core.List.Perm
use que_qiao_router.Base.Tests.{if◌then◌else◌, Bool-cases}
use que_qiao_router.Base.Lists.{All}

abbrev pub is_gt : Ordering → Bool
is_gt Ordering.gt = true
is_gt _ = false

abbrev pub then_with : Ordering → Ordering → Ordering
then_with Ordering.lt o = Ordering.lt
then_with Ordering.eq o = o
then_with Ordering.gt o = Ordering.gt

module _ {ℓ} {A : Type ℓ} (cmp : A → A → Ordering) where
  unfoldable pub insert_by : A → List A → List A
  insert_by x [] = x ∷ []
  insert_by x (y ∷ ys) = if is_gt (cmp x y) then y ∷ insert_by x ys else x ∷ y ∷ ys

  unfoldable pub sort_by : List A → List A
  unfolding insert_by
  sort_by [] = []
  sort_by (x ∷ xs) = insert_by x (sort_by xs)

  insert_by-perm : (x : A) (xs : List A) → Perm (insert_by x xs) (x ∷ xs)
  unfolding insert_by
  insert_by-perm x [] = Perm.refl (x ∷ [])
  insert_by-perm x (y ∷ ys) = elim (Bool-cases (is_gt (cmp x y))) [
    | inl after ↦ rw after (Perm.trans (Perm.cons y (insert_by-perm x ys)) (Perm.swap x y ys))
    | inr before ↦ rw before (Perm.refl (x ∷ y ∷ ys))
  ]

  pub sort_by-perm : (xs : List A) → Perm (sort_by xs) xs
  unfolding sort_by
  sort_by-perm [] = Perm.refl []
  sort_by-perm (x ∷ xs) = Perm.trans (insert_by-perm x (sort_by xs)) (Perm.cons x (sort_by-perm xs))

-- Each element is related to all that follow it.
abbrev pub IsSortedBy {ℓ κ} : {A : Type ℓ} → (A → A → Type κ) → List A → Type κ
IsSortedBy R [] = Unit
IsSortedBy R (x ∷ xs) = All (R x) xs × IsSortedBy R xs

module _ {ℓ κ} {A : Type ℓ} (cmp : A → A → Ordering) (R : A → A → Type κ)
    (trans : (a b c : A) → R a b → R b c → R a c)
    (keep : (a b : A) → is_gt (cmp a b) ≡ false → R a b)
    (swap : (a b : A) → is_gt (cmp a b) ≡ true → R b a) where
  All-trans : (a b : A) (xs : List A) → R a b → All (R b) xs → All (R a) xs
  All-trans a b [] r h = tt
  All-trans a b (x ∷ xs) r h = (trans a b x r h.0, All-trans a b xs r h.1)

  All-insert_by : (a x : A) (xs : List A) → R a x → All (R a) xs → All (R a) (insert_by cmp x xs)
  unfolding insert_by
  All-insert_by a x [] r h = (r, tt)
  All-insert_by a x (y ∷ ys) r h = elim (Bool-cases (is_gt (cmp x y))) [
    | inl after ↦ rw after (h.0, All-insert_by a x ys r h.1)
    | inr before ↦ rw before (r, h)
  ]

  insert_by-IsSortedBy : (x : A) (xs : List A) → IsSortedBy R xs → IsSortedBy R (insert_by cmp x xs)
  unfolding insert_by
  insert_by-IsSortedBy x [] s = (tt, tt)
  insert_by-IsSortedBy x (y ∷ ys) s = elim (Bool-cases (is_gt (cmp x y))) [
    | inl after ↦
        rw after (All-insert_by y x ys (swap x y after) s.0, insert_by-IsSortedBy x ys s.1)
    | inr before ↦ rw before ((keep x y before, All-trans x y ys (keep x y before) s.0), s)
  ]

  pub sort_by-IsSortedBy : (xs : List A) → IsSortedBy R (sort_by cmp xs)
  unfolding sort_by
  sort_by-IsSortedBy [] = tt
  sort_by-IsSortedBy (x ∷ xs) = insert_by-IsSortedBy x (sort_by cmp xs) (sort_by-IsSortedBy xs)

module _ {ℓ κ} {A : Type ℓ} (cmp : A → A → Ordering) (P : A → Type κ) where
  pub insert_by-All : (x : A) (xs : List A) → P x → All P xs → All P (insert_by cmp x xs)
  unfolding insert_by
  insert_by-All x [] p h = (p, tt)
  insert_by-All x (y ∷ ys) p h = elim (Bool-cases (is_gt (cmp x y))) [
    | inl after ↦ rw after (h.0, insert_by-All x ys p h.1)
    | inr before ↦ rw before (p, h)
  ]

  pub sort_by-All : (xs : List A) → All P xs → All P (sort_by cmp xs)
  unfolding sort_by
  sort_by-All [] h = tt
  sort_by-All (x ∷ xs) h = insert_by-All x (sort_by cmp xs) h.0 (sort_by-All xs h.1)

module _ {ℓ κ μ ν ξ} {A : Type ℓ} {B : Type κ} (P : A → Type μ) (R : A → A → Type ν)
    (S : B → B → Type ξ) (f : A → B) (carry : (a b : A) → P a → P b → R a b → S (f a) (f b)) where
  All-carry : (a : A) (xs : List A) → P a → All P xs → All (R a) xs → All (S (f a)) (map f xs)
  All-carry a [] p h r = tt
  All-carry a (x ∷ xs) p h r = (carry a x p h.0 r.0, All-carry a xs p h.1 r.1)

  pub IsSortedBy-map : (xs : List A) → All P xs → IsSortedBy R xs → IsSortedBy S (map f xs)
  IsSortedBy-map [] h s = tt
  IsSortedBy-map (x ∷ xs) h s = (All-carry x xs h.0 h.1 s.0, IsSortedBy-map xs h.1 s.1)
