-- ===== src/Base/Decimal.antt =====
-- Decimal texts of `i64`, as `Display` writes and `FromStr` reads them, and texts split at a byte.
use Prim.Native.Nat.{ℕ, zero, suc, ◌+◌, ◌-◌, ◌*◌, ◌/◌, ◌%◌, ◌≤◌, ◌<◌}
use mathlib.Core.Path.{◌≡◌, refl, ◌∙◌}
use mathlib.Core.Logic.{inl, inr}
use mathlib.Core.Bool.{Bool, true, false, ◌&&◌}
use mathlib.Core.Option.{Option, none, some}
use mathlib.Core.List.{List, [], ◌∷◌, ◌++◌}
use native.Mathlib.Omega.{arith}
use que_qiao_router.Base.Tests.{ltb, leb, ◌==◌, if◌then◌else◌, Bool-cases, le→leb}
use que_qiao_router.Base.Lists.{All, All-append, ◌>>=◌}
use que_qiao_router.Base.Int.{ℤ, pos, negsuc}

abbrev is_digit : ℕ → Bool
is_digit c = leb b'0' c && leb c b'9'

-- The value of the digits after those that have the value `acc`.
unfoldable read_digits : ℕ → List ℕ → Option ℕ
read_digits acc [] = some acc
read_digits acc (c ∷ s) =
    let rest = read_digits (acc * 10 + (c - b'0')) s in if is_digit c then rest else none

unfoldable read_nat : List ℕ → Option ℕ
unfolding read_digits
read_nat [] = none
read_nat (c ∷ s) = read_digits 0 (c ∷ s)

abbrev pub at_most : ℕ → ℕ → Option ℕ
at_most bound n = if leb n bound then some n else none

abbrev pub negative : ℕ → ℤ
negative zero = pos 0
negative (suc n) = negsuc n

abbrev pub i64_max : ℕ
i64_max = 9223372036854775807

-- `str::parse::<i64>`: a sign, digits, and no value out of range.
unfoldable pub parse_i64 : List ℕ → Option ℤ
unfolding read_nat
parse_i64 [] = none
parse_i64 (c ∷ s) =
    if c == b'-'
    then (read_nat s >>= at_most (i64_max + 1) >>= λ n. some (negative n))
    else if c == b'+'
    then (read_nat s >>= at_most i64_max >>= λ n. some (pos n))
    else (read_nat (c ∷ s) >>= at_most i64_max >>= λ n. some (pos n))

unfoldable show_digits : ℕ → ℕ → List ℕ
show_digits zero n = []
show_digits (suc fuel) n =
    let front = show_digits fuel (n / 10) in
    if ltb n 10 then (b'0' + n) ∷ [] else front ++ (b'0' + n % 10) ∷ []

unfoldable pub show_nat : ℕ → List ℕ
unfolding show_digits
show_nat n = show_digits (suc n) n

unfoldable pub show_i64 : ℤ → List ℕ
unfolding show_nat
show_i64 (pos n) = show_nat n
show_i64 (negsuc n) = b'-' ∷ show_nat (suc n)

abbrev pub InI64 : ℤ → Type 0
InI64 (pos n) = n ≤ i64_max
InI64 (negsuc n) = n ≤ i64_max

read_digits-append :
    (acc : ℕ) (s t : List ℕ)
    → read_digits acc (s ++ t) ≡ (read_digits acc s >>= λ a. read_digits a t)
unfolding read_digits
read_digits-append acc [] t = refl
read_digits-append acc (c ∷ s) t = elim (Bool-cases (is_digit c)) [
  | inl yes_ ↦ rw yes_ (read_digits-append (acc * 10 + (c - b'0')) s t)
  | inr no_ ↦ rw no_ refl
]

read-show_digits : (fuel n : ℕ) → n < fuel → read_digits 0 (show_digits fuel n) ≡ some n
unfolding read_digits show_digits
read-show_digits zero n h = absurd (omega arith)
read-show_digits (suc fuel) n h = elim (Bool-cases (ltb n 10)) [
  | inl small ↦ rw small (ground arith)
  | inr big ↦
      rw
        (
          big,
          read_digits-append 0 (show_digits fuel (n / 10)) ((b'0' + n % 10) ∷ []),
          read-show_digits fuel (n / 10) (ground arith),
        )
        (ground arith)
]

IsDigit : ℕ → Type 0
IsDigit c = is_digit c ≡ true

show_digits-IsDigit : (fuel n : ℕ) → All IsDigit (show_digits fuel n)
unfolding show_digits IsDigit
show_digits-IsDigit zero n = tt
show_digits-IsDigit (suc fuel) n = elim (Bool-cases (ltb n 10)) [
  | inl small ↦ rw small (ground arith, tt)
  | inr big ↦ rw big (
      All-append IsDigit (show_digits fuel (n / 10)) _ (show_digits-IsDigit fuel (n / 10))
        (ground arith, tt))
]

read_nat_more : (s : List ℕ) (c : ℕ) → read_nat (s ++ c ∷ []) ≡ read_digits 0 (s ++ c ∷ [])
unfolding read_nat
read_nat_more [] c = refl
read_nat_more (d ∷ s) c = refl

read-show_nat : (n : ℕ) → read_nat (show_nat n) ≡ some n
unfolding show_nat
read-show_nat n = last_digit ∙ read-show_digits (suc n) n (omega arith)
  where
    last_digit : read_nat (show_digits (suc n) n) ≡ read_digits 0 (show_digits (suc n) n)
    last_digit = elim (Bool-cases (ltb n 10)) [
      | inl small ↦ rw (show_digits, small) (read_nat_more [] (b'0' + n))
      | inr big ↦ rw (show_digits, big) (read_nat_more (show_digits n (n / 10)) (b'0' + n % 10))
    ]

parse_digits :
    (s : List ℕ) (n : ℕ)
    → All IsDigit s
    → read_nat s ≡ some n
    → n ≤ i64_max
    → parse_i64 s ≡ some (pos n)
unfolding parse_i64 IsDigit
parse_digits [] n d h b = absurd (cc)
parse_digits (c ∷ s) n d h b =
    let not_minus : (c == b'-') ≡ false = ground (arith, d.0) in
    let not_plus : (c == b'+') ≡ false = ground (arith, d.0) in
    rw (not_minus, not_plus, h, le→leb _ _ b) refl

parse_minus :
    (s : List ℕ) (n : ℕ)
    → read_nat s ≡ some (suc n)
    → n ≤ i64_max
    → parse_i64 (b'-' ∷ s) ≡ some (negsuc n)
unfolding parse_i64
parse_minus s n h b = rw (h, le→leb (suc n) (i64_max + 1) (omega (arith, b))) refl

pub parse-show_i64 : (z : ℤ) → InI64 z → parse_i64 (show_i64 z) ≡ some z
unfolding show_i64
parse-show_i64 (pos n) h =
    parse_digits (show_nat n) n (show_digits-IsDigit (suc n) n) (read-show_nat n) h
parse-show_i64 (negsuc n) h = parse_minus (show_nat (suc n)) n (read-show_nat (suc n)) h

-- The part before the first `sep` joined to what was before it.
abbrev pub extend : ℕ → List (List ℕ) → List (List ℕ)
extend c [] = (c ∷ []) ∷ []
extend c (part ∷ parts) = (c ∷ part) ∷ parts

-- `str::split(sep)`.
unfoldable pub split : ℕ → List ℕ → List (List ℕ)
split sep [] = [] ∷ []
split sep (c ∷ s) = let rest = split sep s in if c == sep then [] ∷ rest else extend c rest

abbrev pub IsFree : ℕ → List ℕ → Type 0
IsFree sep = All (λ c. (c == sep) ≡ false)

pub split-free : (sep : ℕ) (s : List ℕ) → IsFree sep s → split sep s ≡ s ∷ []
unfolding split
split-free sep [] h = refl
split-free sep (c ∷ s) h = rw (h.0, split-free sep s h.1) refl

pub split-part :
    (sep : ℕ) (s t : List ℕ) → IsFree sep s → split sep (s ++ sep ∷ t) ≡ s ∷ split sep t
unfolding split
split-part sep [] t h = ground arith
split-part sep (c ∷ s) t h = rw (h.0, split-part sep s t h.1) refl

digits-IsFree : (s : List ℕ) → All IsDigit s → IsFree b':' s
unfolding IsDigit
digits-IsFree [] h = tt
digits-IsFree (c ∷ s) h = (ground (arith, h.0), digits-IsFree s h.1)

pub show_i64-IsFree : (z : ℤ) → IsFree b':' (show_i64 z)
unfolding show_i64 show_nat
show_i64-IsFree (pos n) = digits-IsFree (show_digits (suc n) n) (show_digits-IsDigit (suc n) n)
show_i64-IsFree (negsuc n) =
    (refl, digits-IsFree (show_nat (suc n)) (show_digits-IsDigit (suc (suc n)) (suc n)))
