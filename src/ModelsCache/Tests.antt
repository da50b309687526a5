-- ===== src/ModelsCache/Tests.antt =====
-- Small runs of services/models_cache.rs, and the theorems at such runs.
use que_qiao_router.Base.{ℕ, false, Option, none, some, List, [], ◌∷◌}
use que_qiao_router.ModelsCache.{CacheKey, Entry, ModelsCache}
use que_qiao_router.ModelsCache.Slots.{Leases}

abbrev key : ℕ → CacheKey
key generation = record { generation = generation; credential = "digest" }

-- The first entry in the order of insertion.
abbrev oldest : List (CacheKey × Entry ℕ) → Option CacheKey
oldest [] = none
oldest (e ∷ entries) = some e.0

-- One leader of generation 1.
abbrev refreshing : ModelsCache ℕ
refreshing = record { entries = []; inflight = (key 1, 0) ∷ []; created = 1; done = λ _. false }

abbrev leases : Leases
leases = (key 1, 0) ∷ []
