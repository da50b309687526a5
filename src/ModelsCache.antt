-- ===== src/ModelsCache.antt =====
-- services/models_cache.rs: the cache of model lists and the slots of its refreshes. Each call of a
-- map locks it for that call alone; an operation here is one run without another between its calls.
-- The first element of a map's iterator is an argument, since the order is the library's. Instants
-- and durations are nanoseconds.
pub mod Capacity
pub mod Freshness
pub mod Slots
pub mod Singleflight
mod Tests
use que_qiao_router.Base.{
  ℕ, ◌+◌, ◌-◌, ◌≡◌, ◌↔◌, refl, ap, ◌∙◌, String, Bool, true, false, not, ◌&&◌, Option, none, some,
  List, [], ◌∷◌, ◌==◌, str_eq, eq_iff, eq_refl, ==_iff, if◌then◌else◌, leb, ltb, length, map, arith,
  Bool-cases,
}
use que_qiao_router.Base.Keyed.{KeyTest, get, set, delete, has}

-- The credential is its digest, a text here.
pub record CacheKey : Type 0 where
  pub generation : ℕ
  pub credential : String

abbrev pub same_key : CacheKey → CacheKey → Bool
same_key a b = a.generation == b.generation && str_eq a.credential b.credential

key : ℕ → String → CacheKey
key g c = record { generation = g; credential = c }

same_key-eq : (a b : CacheKey) → same_key a b ≡ true → a ≡ b
unfolding key
same_key-eq a b h =
    let g : a.generation ≡ b.generation = ground (arith, eq_iff a.credential b.credential) in
    let c : a.credential ≡ b.credential = ground (arith, eq_iff a.credential b.credential) in
    ap (λ x. key x a.credential) g ∙ ap (key b.generation) c

same_key_self : (a : CacheKey) → same_key a a ≡ true
same_key_self a = ground (arith, eq_refl a.credential)

pub same_key_sound : (a b : CacheKey) → (same_key a b ≡ true) ↔ (a ≡ b)
same_key_sound a b = (same_key-eq a b, λ e. rw (← e) (same_key_self a))

abbrev pub key_test : KeyTest CacheKey
key_test = record { same = same_key; sound = same_key_sound }

abbrev pub capacity : ℕ
capacity = 1024

-- The salted digest of a credential, or of the mark that stands for none; `digest` is SHA-256.
unfoldable pub fingerprint : (String → List ℕ → String) → String → Option (List ℕ) → String
fingerprint digest salt (some credential) = digest salt credential
fingerprint digest salt none = digest salt (
    0 ∷ b'N' ∷ b'O' ∷ b'_' ∷ b'C' ∷ b'R' ∷ b'E' ∷ b'D' ∷ b'E' ∷ b'N' ∷ b'T' ∷ b'I' ∷ b'A' ∷ b'L'
    ∷ [])

pub record Entry (V : Type 0) : Type 0 where
  pub value : V
  pub stored_at : ℕ
  pub ttl : ℕ

pub data CacheOutcome (V : Type 0) : Type 0 where
  fresh : V → CacheOutcome V
  empty : CacheOutcome V

-- The `Inflight` objects are numbered in the order of their creation, with the flag of each.
pub record ModelsCache (V : Type 0) : Type 0 where
  pub entries : List (CacheKey × Entry V)
  pub inflight : List (CacheKey × ℕ)
  pub created : ℕ
  pub done : ℕ → Bool

module _ {V : Type 0} where
  abbrev pub new_cache : ModelsCache V
  new_cache = record { entries = []; inflight = []; created = 0; done = λ _. false }

  unfoldable pub is_fresh : ℕ → Entry V → Bool
  is_fresh now e = ltb (now - e.stored_at) e.ttl

  abbrev pub outcome_of : ℕ → Option (Entry V) → CacheOutcome V
  outcome_of now none = empty
  outcome_of now (some e) = if is_fresh now e then fresh e.value else empty

  unfoldable pub lookup : ℕ → CacheKey → ModelsCache V → CacheOutcome V
  unfolding is_fresh
  lookup now key c = outcome_of now (get key_test key c.entries)

  abbrev pub value_of : Option (Entry V) → Option V
  value_of none = none
  value_of (some e) = some e.value

  unfoldable pub previous_value : CacheKey → ModelsCache V → Option V
  previous_value key c = value_of (get key_test key c.entries)

  -- Without the entry that is evicted, if there is one to evict.
  abbrev pub evict : Option CacheKey → List (CacheKey × Entry V) → List (CacheKey × Entry V)
  evict none entries = entries
  evict (some victim) entries = delete key_test victim entries

  unfoldable pub make_room :
      (List (CacheKey × Entry V) → Option CacheKey)
      → CacheKey
      → List (CacheKey × Entry V)
      → List (CacheKey × Entry V)
  make_room first key entries =
      if leb capacity (length entries) && not (has key_test key entries)
      then evict (first entries) entries
      else entries

  unfoldable pub insert :
      (List (CacheKey × Entry V) → Option CacheKey)
      → ℕ
      → CacheKey
      → V
      → ℕ
      → ModelsCache V
      → ModelsCache V
  unfolding make_room
  insert first now key value ttl c = record c {
    entries =
        set key_test key (record { value = value; stored_at = now; ttl = ttl })
          (make_room first key c.entries);
  }

  -- Whether the caller leads the refresh, and the object of the refresh.
  abbrev pub enter : CacheKey → Option ℕ → ModelsCache V → (Bool × ℕ) × ModelsCache V
  enter key (some slot) c = ((false, slot), record c { created = c.created + 1 })
  enter key none c = (
    (true, c.created),
    record c { created = c.created + 1; inflight = set key_test key c.created c.inflight },
  )

  unfoldable pub begin_refresh : CacheKey → ModelsCache V → (Bool × ℕ) × ModelsCache V
  begin_refresh key c = enter key (get key_test key c.inflight) c

  unfoldable pub complete_refresh : CacheKey → ℕ → ModelsCache V → ModelsCache V
  complete_refresh key slot c = if c.done slot then c else record c {
    done = λ i. if i == slot then true else c.done i;
    inflight = delete key_test key c.inflight;
  }

  unfoldable pub len : ModelsCache V → ℕ
  len c = length c.entries

  unfoldable pub is_empty : ModelsCache V → Bool
  unfolding len
  is_empty c = len c == 0
