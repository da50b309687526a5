-- ===== src/Base/Merging.antt =====
-- Sorting a list in parts, sorting and selecting, and the first elements of a sorted list.
use Prim.Native.Nat.{ℕ, zero, suc, ◌≤◌, Ordering}
use mathlib.Core.Path.{◌≡◌, refl, sym, ap, ◌∙◌}
use mathlib.Core.Logic.{inl, inr}
use mathlib.Core.Bool.{Bool, true, false}
use mathlib.Core.List.{List, [], ◌∷◌, ◌++◌, map}
use native.Mathlib.Omega.{arith}
use que_qiao_router.Base.Tests.{if◌then◌else◌, Bool-cases, if_true}
use que_qiao_router.Base.Lists.{take, concat, All}
use que_qiao_router.Base.Sorting.{is_gt, insert_by, sort_by, IsSortedBy, sort_by-IsSortedBy}

module _ {ℓ} {A : Type ℓ} where
  -- `retain`.
  unfoldable pub keep : (A → Bool) → List A → List A
  keep p [] = []
  keep p (x ∷ xs) = let rest = keep p xs in if p x then x ∷ rest else rest

  module _ (cmp : A → A → Ordering) where
    unfoldable pub merge : List A → List A → List A
    merge [] ys = ys
    merge (x ∷ xs) [] = x ∷ xs
    merge (x ∷ xs) (y ∷ ys) =
        let right = merge (x ∷ xs) ys in
        let left = merge xs (y ∷ ys) in if is_gt (cmp x y) then y ∷ right else x ∷ left

    -- Sorted and cut to enough of the first elements.
    abbrev pub top : ℕ → List A → List A
    top k xs = take k (sort_by cmp xs)

    merge_nil : (xs : List A) → merge xs [] ≡ xs
    unfolding merge
    merge_nil [] = refl
    merge_nil (x ∷ xs) = refl

    -- The first elements of a merge come from as many first elements of each part.
    pub take-merge_left :
        (j k : ℕ) (xs ys : List A) → j ≤ k → take j (merge (take k xs) ys) ≡ take j (merge xs ys)
    unfolding merge
    take-merge_left zero k xs ys h = refl
    take-merge_left (suc j) zero xs ys h = absurd (omega arith)
    take-merge_left (suc j) (suc k) [] ys h = refl
    take-merge_left (suc j) (suc k) (x ∷ xs) [] h = ap (◌∷◌ x) (
        ap (take j) (sym (merge_nil (take k xs)))
        ∙ take-merge_left j k xs [] (omega arith)
        ∙ ap (take j) (merge_nil xs))
    take-merge_left (suc j) (suc k) (x ∷ xs) (y ∷ ys) h = elim (Bool-cases (is_gt (cmp x y))) [
      | inl after ↦ rw after (ap (◌∷◌ y) (take-merge_left j (suc k) (x ∷ xs) ys (omega arith)))
      | inr before ↦ rw before (ap (◌∷◌ x) (take-merge_left j k xs (y ∷ ys) (omega arith)))
    ]

    pub take-merge_right :
        (j k : ℕ) (xs ys : List A) → j ≤ k → take j (merge xs (take k ys)) ≡ take j (merge xs ys)
    unfolding merge
    take-merge_right zero k xs ys h = refl
    take-merge_right (suc j) zero xs ys h = absurd (omega arith)
    take-merge_right (suc j) (suc k) xs [] h = refl
    take-merge_right (suc j) (suc k) [] (y ∷ ys) h =
        ap (◌∷◌ y) (take-merge_right j k [] ys (omega arith))
    take-merge_right (suc j) (suc k) (x ∷ xs) (y ∷ ys) h = elim (Bool-cases (is_gt (cmp x y))) [
      | inl after ↦ rw after (ap (◌∷◌ y) (take-merge_right j k (x ∷ xs) ys (omega arith)))
      | inr before ↦ rw before (ap (◌∷◌ x) (take-merge_right j (suc k) xs (y ∷ ys) (omega arith)))
    ]

  pub keep-append : (p : A → Bool) (xs ys : List A) → keep p (xs ++ ys) ≡ keep p xs ++ keep p ys
  unfolding keep
  keep-append p [] ys = refl
  keep-append p (x ∷ xs) ys = elim (Bool-cases (p x)) [
    | inl yes_ ↦ rw yes_ (ap (◌∷◌ x) (keep-append p xs ys))
    | inr no_ ↦ rw no_ (keep-append p xs ys)
  ]

  pub keep-All : (p : A → Bool) (xs : List A) → All (λ x. p x ≡ true) xs → keep p xs ≡ xs
  unfolding keep
  keep-All p [] h = refl
  keep-All p (x ∷ xs) h = rw h.0 (ap (◌∷◌ x) (keep-All p xs h.1))

  pub keep_none : (p : A → Bool) (xs : List A) → All (λ x. p x ≡ false) xs → keep p xs ≡ []
  unfolding keep
  keep_none p [] h = refl
  keep_none p (x ∷ xs) h = rw h.0 (keep_none p xs h.1)

  pub keep_kept : (p : A → Bool) (xs : List A) → All (λ x. p x ≡ true) (keep p xs)
  unfolding keep
  keep_kept p [] = tt
  keep_kept p (x ∷ xs) = elim (Bool-cases (p x)) [
    | inl yes_ ↦ rw (if_true _ _ yes_) (yes_, keep_kept p xs)
    | inr no_ ↦ rw no_ (keep_kept p xs)
  ]

  pub All-keep {κ} : (P : A → Type κ) (p : A → Bool) (xs : List A) → All P xs → All P (keep p xs)
  unfolding keep
  All-keep P p [] h = tt
  All-keep P p (x ∷ xs) h = elim (Bool-cases (p x)) [
    | inl yes_ ↦ rw yes_ (h.0, All-keep P p xs h.1)
    | inr no_ ↦ rw no_ (All-keep P p xs h.1)
  ]

  pub All-imply {κ μ} :
      (P : A → Type κ) (Q : A → Type μ)
      → ((x : A) → P x → Q x)
      → (xs : List A) → All P xs
      → All Q xs
  All-imply P Q f [] h = tt
  All-imply P Q f (x ∷ xs) h = (f x h.0, All-imply P Q f xs h.1)

  pub take-take : (j k : ℕ) (xs : List A) → j ≤ k → take j (take k xs) ≡ take j xs
  take-take zero k xs h = refl
  take-take (suc j) zero xs h = absurd (omega arith)
  take-take (suc j) (suc k) [] h = refl
  take-take (suc j) (suc k) (x ∷ xs) h = ap (◌∷◌ x) (take-take j k xs (omega arith))

  pub All-take {κ} : (P : A → Type κ) (k : ℕ) (xs : List A) → All P xs → All P (take k xs)
  All-take P zero xs h = tt
  All-take P (suc k) [] h = tt
  All-take P (suc k) (x ∷ xs) h = (h.0, All-take P k xs h.1)

module _ {ℓ} {A : Type ℓ} (cmp : A → A → Ordering)
    (trans : (a b c : A)
      → is_gt (cmp a b) ≡ false
      → is_gt (cmp b c) ≡ false
      → is_gt (cmp a c) ≡ false)
    (total : (a b : A) → is_gt (cmp a b) ≡ true → is_gt (cmp b a) ≡ false) where
  abbrev pub NotAfter : A → A → Type 0
  NotAfter a b = is_gt (cmp a b) ≡ false

  pub sort_by-sorted : (xs : List A) → IsSortedBy NotAfter (sort_by cmp xs)
  sort_by-sorted = sort_by-IsSortedBy cmp NotAfter trans (λ a b h. h) total

  insert_by_first : (x : A) (xs : List A) → All (NotAfter x) xs → insert_by cmp x xs ≡ x ∷ xs
  unfolding insert_by
  insert_by_first x [] h = refl
  insert_by_first x (y ∷ ys) h = rw h.0

  pub sort_by_sorted : (xs : List A) → IsSortedBy NotAfter xs → sort_by cmp xs ≡ xs
  unfolding sort_by
  sort_by_sorted [] s = refl
  sort_by_sorted (x ∷ xs) s = rw (sort_by_sorted xs s.1) (insert_by_first x xs s.0)

  pub take-IsSorted :
      (k : ℕ) (xs : List A) → IsSortedBy NotAfter xs → IsSortedBy NotAfter (take k xs)
  take-IsSorted zero xs s = tt
  take-IsSorted (suc k) [] s = tt
  take-IsSorted (suc k) (x ∷ xs) s = (All-take (NotAfter x) k xs s.0, take-IsSorted k xs s.1)

  insert_by-merge :
      (x : A) (xs ys : List A)
      → insert_by cmp x (merge cmp xs ys) ≡ merge cmp (insert_by cmp x xs) ys
  unfolding insert_by merge
  insert_by-merge x [] [] = refl
  insert_by-merge x [] (y ∷ ys) = elim (Bool-cases (is_gt (cmp x y))) [
    | inl after ↦ rw after (ap (◌∷◌ y) (insert_by-merge x [] ys))
    | inr before ↦ rw before refl
  ]
  insert_by-merge x (a ∷ xs) [] = elim (Bool-cases (is_gt (cmp x a))) [
    | inl after ↦ rw after refl
    | inr before ↦ rw before refl
  ]
  insert_by-merge x (a ∷ xs) (y ∷ ys) = ground (
    arith,
    insert_by-merge x (a ∷ xs) ys,
    insert_by-merge x xs (y ∷ ys),
    trans x y a,
    trans x a y,
    total a y,
  )

  pub sort_by-append :
      (xs ys : List A) → sort_by cmp (xs ++ ys) ≡ merge cmp (sort_by cmp xs) (sort_by cmp ys)
  unfolding sort_by merge
  sort_by-append [] ys = refl
  sort_by-append (x ∷ xs) ys =
      ap (insert_by cmp x) (sort_by-append xs ys)
      ∙ insert_by-merge x (sort_by cmp xs) (sort_by cmp ys)

  sort_by-top : (k : ℕ) (xs : List A) → sort_by cmp (top cmp k xs) ≡ top cmp k xs
  sort_by-top k xs =
      sort_by_sorted (top cmp k xs) (take-IsSorted k (sort_by cmp xs) (sort_by-sorted xs))

  -- The first of several lists together come from the first of each.
  pub top-concat :
      (k m : ℕ) (xss : List (List A))
      → k ≤ m
      → top cmp k (concat (map (top cmp m) xss)) ≡ top cmp k (concat xss)
  top-concat k m [] h = refl
  top-concat k m (xs ∷ xss) h =
      let here = sort_by cmp xs in
      let tops = sort_by cmp (concat (map (top cmp m) xss)) in
      ap (take k) (
        sort_by-append (top cmp m xs) (concat (map (top cmp m) xss))
        ∙ ap (λ l. merge cmp l tops) (sort_by-top m xs))
      ∙ take-merge_left cmp k m here tops h
      ∙ sym (take-merge_right cmp k k here tops (omega arith))
      ∙ ap (λ l. take k (merge cmp here l)) (top-concat k m xss h)
      ∙ take-merge_right cmp k k here (sort_by cmp (concat xss)) (omega arith)
      ∙ ap (take k) (sym (sort_by-append xs (concat xss)))

  insert_by-keep :
      (p : A → Bool) (x : A) (xs : List A)
      → IsSortedBy NotAfter xs
      → p x ≡ true
      → keep p (insert_by cmp x xs) ≡ insert_by cmp x (keep p xs)
  unfolding keep insert_by
  insert_by-keep p x [] s h = rw h refl
  insert_by-keep p x (y ∷ ys) s h = elim (Bool-cases (is_gt (cmp x y))) [
    | inl after ↦ ground (arith, insert_by-keep p x ys s.1 h)
    | inr before ↦
        let later = All-imply (NotAfter y) (NotAfter x) (λ z. trans x y z before) ys s.0 in
        rw (before, h)
          (sym (
            insert_by_first x (keep p (y ∷ ys)) (All-keep (NotAfter x) p (y ∷ ys) (before, later))))
  ]

  insert_by-drop :
      (p : A → Bool) (x : A) (xs : List A) → p x ≡ false → keep p (insert_by cmp x xs) ≡ keep p xs
  unfolding keep insert_by
  insert_by-drop p x [] h = rw h refl
  insert_by-drop p x (y ∷ ys) h = ground (arith, insert_by-drop p x ys h)

  pub keep-sort_by :
      (p : A → Bool) (xs : List A) → keep p (sort_by cmp xs) ≡ sort_by cmp (keep p xs)
  unfolding keep sort_by
  keep-sort_by p [] = refl
  keep-sort_by p (x ∷ xs) = elim (Bool-cases (p x)) [
    | inl yes_ ↦
        insert_by-keep p x (sort_by cmp xs) (sort_by-sorted xs) yes_
        ∙ rw yes_ (ap (insert_by cmp x) (keep-sort_by p xs))
    | inr no_ ↦ insert_by-drop p x (sort_by cmp xs) no_ ∙ rw no_ (keep-sort_by p xs)
  ]
