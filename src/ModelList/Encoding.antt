-- ===== src/ModelList/Encoding.antt =====
-- handlers/model_handler.rs: the encoding of the upstream keys.
use Prim.Native.Nat.{◌/◌}
use que_qiao_router.Base.{
  ℕ, zero, suc, ◌+◌, ◌*◌, ◌<◌, ◌≡◌, refl, sym, ap, ◌∙◌, Option, none, some, List, [], ◌∷◌, ◌++◌,
  length, arith, All, append_assoc,
}
use que_qiao_router.ModelList.{le_bytes, u64_max, encode_key, encode_keys, encode_effective_keys}

head_of : List ℕ → ℕ
head_of [] = 0
head_of (x ∷ xs) = x

tail_of : {A : Type 0} → List A → List A
tail_of [] = []
tail_of (x ∷ xs) = xs

cons_head : {x y : ℕ} {xs ys : List ℕ} → x ∷ xs ≡ y ∷ ys → x ≡ y
unfolding head_of
cons_head e = ap head_of e

cons_tail : {x y : ℕ} {xs ys : List ℕ} → x ∷ xs ≡ y ∷ ys → xs ≡ ys
unfolding tail_of
cons_tail e = ap tail_of e

-- Two texts that begin with parts of one length have the same parts and rests.
append_split : (a b x y : List ℕ) → length a ≡ length b → a ++ x ≡ b ++ y → (a ≡ b) × (x ≡ y)
append_split [] [] x y h e = (refl, e)
append_split [] (c ∷ b) x y h e = absurd (omega (arith, h))
append_split (c ∷ a) [] x y h e = absurd (omega (arith, h))
append_split (c ∷ a) (d ∷ b) x y h e =
    let r = append_split a b x y (omega (arith, h)) (cons_tail e) in (cc (cons_head e, r.0), r.1)

length-le_bytes : (w n : ℕ) → length (le_bytes w n) ≡ w
unfolding le_bytes
length-le_bytes zero n = refl
length-le_bytes (suc w) n = ap suc (length-le_bytes w (n / 256))

-- 256 ^ w.
range : ℕ → ℕ
range zero = 1
range (suc w) = 256 * range w

le_bytes_injective : (w n k : ℕ) → n < range w → k < range w → le_bytes w n ≡ le_bytes w k → n ≡ k
unfolding le_bytes range
le_bytes_injective zero n k h h' e = omega arith
le_bytes_injective (suc w) n k h h' e =
    let high = le_bytes_injective w (n / 256) (k / 256) (omega arith) (omega arith) (cons_tail e) in
    omega (arith, cons_head e, high)

-- A key is shorter than the mark of a missing key.
abbrev pub IsShort : Option (List ℕ) → Type 0
IsShort none = Unit
IsShort (some key) = length key < u64_max

u64_injective : (n k : ℕ) → n < u64_max + 1 → k < u64_max + 1 → le_bytes 8 n ≡ le_bytes 8 k → n ≡ k
unfolding range
u64_injective n k h h' e = le_bytes_injective 8 n k h h' e

-- What a key begins with, and what follows.
encode_key_split :
    (key key' : Option (List ℕ)) (x y : List ℕ)
    → IsShort key
    → IsShort key'
    → encode_key key ++ x ≡ encode_key key' ++ y
    → (key ≡ key') × (x ≡ y)
unfolding encode_key
encode_key_split none none x y h h' e =
    (refl, (append_split (le_bytes 8 u64_max) (le_bytes 8 u64_max) x y refl e).1)
encode_key_split none (some b) x y h h' e =
    let r =
      append_split (le_bytes 8 u64_max) (le_bytes 8 (length b)) x (b ++ y)
        (length-le_bytes 8 u64_max ∙ sym (length-le_bytes 8 (length b)))
        (e ∙ append_assoc (le_bytes 8 (length b)) b y) in
    absurd
      (omega (arith, h', u64_injective u64_max (length b) (omega arith) (omega (arith, h')) r.0))
encode_key_split (some a) none x y h h' e =
    let r =
      append_split (le_bytes 8 (length a)) (le_bytes 8 u64_max) (a ++ x) y
        (length-le_bytes 8 (length a) ∙ sym (length-le_bytes 8 u64_max))
        (sym (append_assoc (le_bytes 8 (length a)) a x) ∙ e) in
    absurd (omega (arith, h, u64_injective (length a) u64_max (omega (arith, h)) (omega arith) r.0))
encode_key_split (some a) (some b) x y h h' e =
    let r =
      append_split (le_bytes 8 (length a)) (le_bytes 8 (length b)) (a ++ x) (b ++ y)
        (length-le_bytes 8 (length a) ∙ sym (length-le_bytes 8 (length b)))
        (sym (append_assoc (le_bytes 8 (length a)) a x)
          ∙ e
          ∙ append_assoc (le_bytes 8 (length b)) b y) in
    let same = u64_injective (length a) (length b) (omega (arith, h)) (omega (arith, h')) r.0 in
    let q = append_split a b x y same r.1 in (ap some q.0, q.1)

encode_keys_injective :
    (keys keys' : List (Option (List ℕ)))
    → All IsShort keys
    → All IsShort keys'
    → length keys ≡ length keys'
    → encode_keys keys ≡ encode_keys keys'
    → keys ≡ keys'
unfolding encode_keys
encode_keys_injective [] [] h h' n e = refl
encode_keys_injective [] (k ∷ keys') h h' n e = absurd (omega (arith, n))
encode_keys_injective (k ∷ keys) [] h h' n e = absurd (omega (arith, n))
encode_keys_injective (k ∷ keys) (k' ∷ keys') h h' n e =
    let r = encode_key_split k k' (encode_keys keys) (encode_keys keys') h.0 h'.0 e in
    cc (r.0, encode_keys_injective keys keys' h.1 h'.1 (omega (arith, n)) r.1)

-- Different lists of effective keys have different encodings, a missing key and an empty one told
-- apart too, where each key and the number of keys are below u64::MAX: so two callers share an
-- entry of the cache, of one generation, only with the same keys or at a collision of the digest.
pub encode_effective_keys-injective :
    (keys keys' : List (Option (List ℕ)))
    → All IsShort keys
    → All IsShort keys'
    → length keys < u64_max
    → length keys' < u64_max
    → encode_effective_keys keys ≡ encode_effective_keys keys'
    → keys ≡ keys'
unfolding encode_effective_keys
encode_effective_keys-injective keys keys' h h' n n' e =
    let r =
      append_split (le_bytes 8 (length keys)) (le_bytes 8 (length keys')) (encode_keys keys)
        (encode_keys keys')
        (length-le_bytes 8 (length keys) ∙ sym (length-le_bytes 8 (length keys'))) e in
    encode_keys_injective keys keys' h h'
      (u64_injective (length keys) (length keys') (omega arith) (omega arith) r.0) r.1
