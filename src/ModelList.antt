-- ===== src/ModelList.antt =====
-- handlers/model_handler.rs: the list of models that the gateway offers, put together from the
-- upstreams and kept in the cache. What an upstream answers is an argument; of a model's JSON the
-- identifier is read, and the rest is opaque.
pub mod Encoding
pub mod Aggregate
pub mod Routable
pub mod Refresh
mod Tests
use Prim.Native.Nat.{◌/◌}
use que_qiao_router.Base.{
  ℕ, zero, suc, ◌+◌, ◌-◌, ◌^◌, ◌%◌, String, Bool, true, false, not, ◌&&◌, ◌||◌, Option, none, some,
  List, [], ◌∷◌, ◌++◌, ◌==◌, str_eq, if◌then◌else◌, or_else, length, map,
}
use que_qiao_router.Config.{ClientConfig, matches_model}
use que_qiao_router.ModelsCache.{
  CacheKey, CacheOutcome, fresh, empty, Entry, ModelsCache, fingerprint, lookup, previous_value,
  insert,
}

-- `Option::filter(|key| !key.is_empty())`.
abbrev pub not_blank : Option String → Option String
not_blank none = none
not_blank (some key) = if str_eq key "" then none else some key

abbrev pub first_of : Option String → Option String → Option String
first_of (some a) o = some a
first_of none o = o

unfoldable pub resolve_upstream_api_keys : List ClientConfig → Option String → List (Option String)
resolve_upstream_api_keys clients credential =
    map (λ c. first_of credential (not_blank c.api_key)) clients

-- The lowest bytes of a number, the least significant first; `u64::to_le_bytes` at 8.
unfoldable pub le_bytes : ℕ → ℕ → List ℕ
le_bytes zero n = []
le_bytes (suc w) n = n % 256 ∷ le_bytes w (n / 256)

abbrev pub u64_max : ℕ
u64_max = 18446744073709551615

-- One key, as its bytes.
unfoldable pub encode_key : Option (List ℕ) → List ℕ
unfolding le_bytes
encode_key (some key) = le_bytes 8 (length key) ++ key
encode_key none = le_bytes 8 u64_max

unfoldable pub encode_keys : List (Option (List ℕ)) → List ℕ
unfolding encode_key
encode_keys [] = []
encode_keys (key ∷ keys) = encode_key key ++ encode_keys keys

unfoldable pub encode_effective_keys : List (Option (List ℕ)) → List ℕ
unfolding encode_keys le_bytes
encode_effective_keys keys = le_bytes 8 (length keys) ++ encode_keys keys

unfoldable pub make_key :
    (String → List ℕ → String) → String → ℕ → List (Option (List ℕ)) → CacheKey
unfolding fingerprint encode_effective_keys
make_key digest salt generation keys = record {
  generation = generation;
  credential = fingerprint digest salt (some (encode_effective_keys keys));
}

pub record Model : Type 0 where
  pub id : Option String
  pub json : String

-- The answer of an upstream: its `data` if that is an array, and the whole read as a model.
pub record Listing : Type 0 where
  pub data_array : Option (List Model)
  pub whole : Model

abbrev pub model_matches_filter : String → ClientConfig → Bool
model_matches_filter id client = matches_model client id

abbrev pub offered : ClientConfig → Model → Bool
offered client m = elim m.id [ none ↦ false | some id ↦ model_matches_filter id client ]

unfoldable pub keep_offered : ClientConfig → List Model → List Model
keep_offered client [] = []
keep_offered client (m ∷ ms) =
    let rest = keep_offered client ms in if offered client m then m ∷ rest else rest

unfoldable pub models_of : ClientConfig → Listing → List Model
unfolding keep_offered
models_of client l = elim l.data_array [
  | some data_ ↦ keep_offered client data_
  | none ↦ keep_offered client (l.whole ∷ [])
]

-- The models of all upstreams that answered, each with its client, and whether there is one.
unfoldable pub collect : List (ClientConfig × Option Listing) → List Model × Bool
unfolding models_of
collect [] = ([], false)
collect ((client, none) ∷ results) = collect results
collect ((client, some l) ∷ results) = (models_of client l ++ (collect results).0, true)

abbrev pub seen : String → List String → Bool
seen id [] = false
seen id (x ∷ xs) = str_eq x id || seen id xs

-- Models whose identifier is new, and all identifiers seen.
unfoldable pub unique : List Model → List String → List Model × List String
unique [] ids = ([], ids)
unique (m ∷ ms) ids = elim m.id [
  | none ↦ let r = unique ms ids in (m ∷ r.0, r.1)
  | some id ↦
      let kept = unique ms (id ∷ ids) in
      let skipped = unique ms ids in if seen id ids then skipped else (m ∷ kept.0, kept.1)
]

-- A model for each alias of a client that is not listed yet; `alias_json` writes it.
unfoldable pub add_aliases :
    (String → String → String)
    → ClientConfig
    → List (String × String)
    → List String
    → List Model × List String
add_aliases alias_json client [] ids = ([], ids)
add_aliases alias_json client ((alias, target) ∷ rewrites) ids =
    let kept = add_aliases alias_json client rewrites (alias ∷ ids) in
    let skipped = add_aliases alias_json client rewrites ids in
    if seen alias ids
    then skipped
    else (record { id = some alias; json = alias_json alias client.name } ∷ kept.0, kept.1)

unfoldable pub aliases :
    (String → String → String) → List ClientConfig → List String → List Model × List String
unfolding add_aliases
aliases alias_json [] ids = ([], ids)
aliases alias_json (client ∷ clients) ids =
    let r = add_aliases alias_json client (or_else client.model_rewrite []) ids in
    let later = aliases alias_json clients r.1 in (r.0 ++ later.0, later.1)

-- `aggregate_models`, once the upstreams have answered.
unfoldable pub aggregate_models :
    (String → String → String) → List (ClientConfig × Option Listing) → List Model × Bool
unfolding collect unique aliases
aggregate_models alias_json results =
    let found = collect results in
    let listed = unique found.0 [] in
    let added = aliases alias_json (map (λ r. r.0) results) listed.1 in
    (listed.0 ++ added.0, found.1)

-- 30 s.
abbrev pub stale_retry_ttl : ℕ
stale_retry_ttl = 30000000000

module _ (first : List (CacheKey × Entry (List Model)) → Option CacheKey) where
  -- The task of a leader, from the answers of the upstreams on; none is its error.
  unfoldable pub refresh :
      ℕ
      → CacheKey
      → ℕ
      → List Model × Bool
      → ModelsCache (List Model)
      → Option (List Model) × ModelsCache (List Model)
  refresh now key ttl (models, true) c = (some models, insert first now key models ttl c)
  refresh now key ttl (models, false) c = elim (previous_value key c) [
    | some previous ↦ (some previous, insert first now key previous stale_retry_ttl c)
    | none ↦ (none, c)
  ]

-- What a follower answers when it has waited.
unfoldable pub follow : ℕ → CacheKey → ModelsCache (List Model) → Option (List Model)
follow now key c = elim (lookup now key c) [
  | fresh models ↦ some models
  | empty ↦ previous_value key c
]
