-- ===== src/ModelsCache/Capacity.antt =====
-- services/models_cache.rs: the number of entries.
use que_qiao_router.Base.{◌≡◌, ◌≢◌, true, Option, some, List, []}
use que_qiao_router.Base.Keyed.{has}
use que_qiao_router.ModelsCache.{CacheKey, key_test, Entry, ModelsCache}

module _ {V : Type 0} where
  -- The iterator of a map that is not empty has a first element, a key of the map.
  abbrev pub IsFirst : (List (CacheKey × Entry V) → Option CacheKey) → Type 0
  IsFirst first =
      (entries : List (CacheKey × Entry V))
      → entries ≢ []
      → (key : CacheKey) × (first entries ≡ some key) × (has key_test key entries ≡ true)
