-- ===== src/Base/Keyed.antt =====
-- A hash map as an association list, for keys of any type that are compared by a test.
use Prim.Native.Nat.{suc, ◌+◌, ◌<◌, ◌≤◌}
use mathlib.Core.Path.{◌≡◌, refl, sym, ap, subst}
use mathlib.Core.Logic.{◌↔◌, inl, inr}
use mathlib.Core.Bool.{Bool, true, false}
use mathlib.Core.Option.{Option, none, some}
use mathlib.Core.List.{List, [], ◌∷◌}
use native.Mathlib.Omega.{arith}
use que_qiao_router.Base.Tests.{if◌then◌else◌, Bool-cases, if_true, if_false}
use que_qiao_router.Base.Lists.{length}

pub record KeyTest (K : Type 0) : Type 0 where
  pub same : K → K → Bool
  pub sound : (a b : K) → (same a b ≡ true) ↔ (a ≡ b)

module _ {K : Type 0} (test : KeyTest K) where
  open test use {same, sound}

  same_self : (key : K) → same key key ≡ true
  same_self key = (sound key key).1 refl

  -- A key that is one of two different ones is not the other.
  same_apart : (a key other : K) → same a key ≡ true → same key other ≡ false → same a other ≡ false
  same_apart a key other h apart = subst (λ x. same x other ≡ false) (sym ((sound a key).0 h)) apart

module _ {K V : Type 0} (test : KeyTest K) where
  open test use {same}

  unfoldable pub get : K → List (K × V) → Option V
  get key [] = none
  get key (entry ∷ rest) =
      let later = get key rest in if same entry.0 key then some entry.1 else later

  unfoldable pub set : K → V → List (K × V) → List (K × V)
  set key value [] = (key, value) ∷ []
  set key value (entry ∷ rest) =
      let later = set key value rest in
      if same entry.0 key then (key, value) ∷ rest else entry ∷ later

  unfoldable pub delete : K → List (K × V) → List (K × V)
  delete key [] = []
  delete key (entry ∷ rest) =
      let later = delete key rest in if same entry.0 key then later else entry ∷ later

  unfoldable pub has : K → List (K × V) → Bool
  has key [] = false
  has key (entry ∷ rest) = let later = has key rest in if same entry.0 key then true else later

  pub get-set_self :
      (key : K) (value : V) (m : List (K × V)) → get key (set key value m) ≡ some value
  unfolding get set
  get-set_self key value [] = if_true _ _ (same_self test key)
  get-set_self key value (entry ∷ rest) = elim (Bool-cases (same entry.0 key)) [
    | inl found ↦ rw (found, get, same_self test key)
    | inr other ↦ rw (other, get, other) (get-set_self key value rest)
  ]

  pub get-set_ne :
      (key other : K) (value : V) (m : List (K × V))
      → same key other ≡ false
      → get other (set key value m) ≡ get other m
  unfolding get set
  get-set_ne key other value [] apart = if_false _ _ apart
  get-set_ne key other value (entry ∷ rest) apart = elim (Bool-cases (same entry.0 key)) [
    | inl found ↦ rw (found, get, apart, same_apart test entry.0 key other found apart)
    | inr out ↦
        rw (out, get)
          (ap (λ o. if same entry.0 other then some entry.1 else o)
            (get-set_ne key other value rest apart))
  ]

  pub get-delete_self : (key : K) (m : List (K × V)) → get key (delete key m) ≡ none
  unfolding get delete
  get-delete_self key [] = refl
  get-delete_self key (entry ∷ rest) = elim (Bool-cases (same entry.0 key)) [
    | inl found ↦ rw found (get-delete_self key rest)
    | inr out ↦ rw (out, get, out) (get-delete_self key rest)
  ]

  pub get-delete_ne :
      (key other : K) (m : List (K × V))
      → same key other ≡ false
      → get other (delete key m) ≡ get other m
  unfolding get delete
  get-delete_ne key other [] apart = refl
  get-delete_ne key other (entry ∷ rest) apart = elim (Bool-cases (same entry.0 key)) [
    | inl found ↦
        rw (found, get, same_apart test entry.0 key other found apart)
          (get-delete_ne key other rest apart)
    | inr out ↦
        rw (out, get)
          (ap (λ o. if same entry.0 other then some entry.1 else o)
            (get-delete_ne key other rest apart))
  ]

  pub length-set-has :
      (key : K) (value : V) (m : List (K × V))
      → has key m ≡ true
      → length (set key value m) ≡ length m
  unfolding has set
  length-set-has key value [] h = absurd (cc)
  length-set-has key value (entry ∷ rest) h = elim (Bool-cases (same entry.0 key)) [
    | inl found ↦ rw found refl
    | inr out ↦ rw out (ap suc (length-set-has key value rest (rw (has, out) at h)))
  ]

  pub length-set :
      (key : K) (value : V) (m : List (K × V)) → length (set key value m) ≤ length m + 1
  unfolding set
  length-set key value [] = omega arith
  length-set key value (entry ∷ rest) = elim (Bool-cases (same entry.0 key)) [
    | inl found ↦ rw found (omega arith)
    | inr out ↦ rw out (omega (arith, length-set key value rest))
  ]

  length-delete : (key : K) (m : List (K × V)) → length (delete key m) ≤ length m
  unfolding delete
  length-delete key [] = omega arith
  length-delete key (entry ∷ rest) = elim (Bool-cases (same entry.0 key)) [
    | inl found ↦ rw found (omega (arith, length-delete key rest))
    | inr out ↦ rw out (omega (arith, length-delete key rest))
  ]

  pub length-delete-has :
      (key : K) (m : List (K × V)) → has key m ≡ true → length (delete key m) < length m
  unfolding has delete
  length-delete-has key [] h = absurd (cc)
  length-delete-has key (entry ∷ rest) h = elim (Bool-cases (same entry.0 key)) [
    | inl found ↦ rw found (omega (arith, length-delete key rest))
    | inr out ↦ rw out (omega (arith, length-delete-has key rest (rw (has, out) at h)))
  ]
