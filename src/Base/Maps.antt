-- ===== src/Base/Maps.antt =====
-- A hash map with text keys as an association list, in the order of insertion.
use Prim.Native.String.{String}
use mathlib.Core.Path.{◌≡◌, ap, refl}
use mathlib.Core.Bool.{false}
use mathlib.Core.Option.{Option, none, some}
use mathlib.Core.List.{List, [], ◌∷◌}
use native.Mathlib.Omega.{arith}
use text.Mathlib.Text.{◌==◌}
use text.Mathlib.TextEquality.{eq_iff}
use text.Mathlib.TextPositions.{eq_refl}
use mathlib.Core.Path.{subst}
use mathlib.Core.Logic.{inl, inr}
use que_qiao_router.Base.Tests.{if◌then◌else◌, Bool-cases, if_true, if_false}

module _ {ℓ} {V : Type ℓ} where
  unfoldable pub lookup : String → List (String × V) → Option V
  lookup name [] = none
  lookup name (entry ∷ rest) =
      let later = lookup name rest in if entry.0 == name then some entry.1 else later

  -- An existing key keeps its place.
  unfoldable pub insert : String → V → List (String × V) → List (String × V)
  insert name value [] = (name, value) ∷ []
  insert name value (entry ∷ rest) =
      let later = insert name value rest in
      if entry.0 == name then (name, value) ∷ rest else entry ∷ later

  pub lookup-insert_self :
      (name : String) (value : V) (entries : List (String × V))
      → lookup name (insert name value entries) ≡ some value
  unfolding lookup insert
  lookup-insert_self name value [] = if_true _ _ (eq_refl name)
  lookup-insert_self name value (entry ∷ rest) = elim (Bool-cases (entry.0 == name)) [
    | inl found ↦ rw (found, lookup, eq_refl name)
    | inr other ↦ rw (other, lookup, other) (lookup-insert_self name value rest)
  ]

  pub lookup-insert_ne :
      (name key : String) (value : V) (entries : List (String × V))
      → (name == key) ≡ false
      → lookup key (insert name value entries) ≡ lookup key entries
  unfolding lookup insert
  lookup-insert_ne name key value [] apart = if_false _ _ apart
  lookup-insert_ne name key value (entry ∷ rest) apart = elim (Bool-cases (entry.0 == name)) [
    | inl found ↦
        let not_key : (entry.0 == key) ≡ false = rw ((eq_iff entry.0 name).0 found) apart in
        rw (found, lookup, apart, not_key)
    | inr other ↦
        rw (other, lookup)
          (ap (λ o. if entry.0 == key then some entry.1 else o)
            (lookup-insert_ne name key value rest apart))
  ]

-- `Map::remove`, where each key stands once.
module _ {ℓ} {V : Type ℓ} where
  unfoldable pub remove : String → List (String × V) → List (String × V)
  remove name [] = []
  remove name (entry ∷ rest) =
      let later = remove name rest in if entry.0 == name then later else entry ∷ later

  pub lookup-remove_self :
      (name : String) (entries : List (String × V)) → lookup name (remove name entries) ≡ none
  unfolding lookup remove
  lookup-remove_self name [] = refl
  lookup-remove_self name (entry ∷ rest) = elim (Bool-cases (entry.0 == name)) [
    | inl found ↦ rw (if_true _ _ found) (lookup-remove_self name rest)
    | inr other ↦ rw (other, lookup, other) (lookup-remove_self name rest)
  ]

  pub lookup-remove_ne :
      (name key : String) (entries : List (String × V))
      → (name == key) ≡ false
      → lookup key (remove name entries) ≡ lookup key entries
  unfolding lookup remove
  lookup-remove_ne name key [] apart = refl
  lookup-remove_ne name key (entry ∷ rest) apart = elim (Bool-cases (entry.0 == name)) [
    | inl found ↦
        let not_key : (entry.0 == key) ≡ false = rw ((eq_iff entry.0 name).0 found) apart in
        rw (if_true _ _ found, if_false _ _ not_key) (lookup-remove_ne name key rest apart)
    | inr other ↦
        rw (other, lookup)
          (ap (λ o. if entry.0 == key then some entry.1 else o)
            (lookup-remove_ne name key rest apart))
  ]

-- What holds of every value of a map holds after a write of such a value, and of what is read.
module _ {ℓ κ} {V : Type ℓ} (P : V → Type κ) where
  abbrev pub AllValues : List (String × V) → Type κ
  AllValues [] = Unit
  AllValues ((k, v) ∷ m) = P v × AllValues m

  pub AllValues-insert :
      (k : String) (v : V) (m : List (String × V)) → P v → AllValues m → AllValues (insert k v m)
  unfolding insert
  AllValues-insert k v [] p h = (p, tt)
  AllValues-insert k v ((j, w) ∷ m) p (q, h) = elim (Bool-cases (j == k)) [
    | inl same ↦ rw same (p, h)
    | inr other ↦ rw other (q, AllValues-insert k v m p h)
  ]

  pub AllValues-lookup :
      (k : String) (v : V) (m : List (String × V)) → AllValues m → lookup k m ≡ some v → P v
  unfolding lookup
  AllValues-lookup k v [] h e = absurd (cc)
  AllValues-lookup k v ((j, w) ∷ m) (q, h) e = elim (Bool-cases (j == k)) [
    | inl same ↦ let e' : w ≡ v = ground arith in subst P e' q
    | inr other ↦ AllValues-lookup k v m h (rw other at e)
  ]
