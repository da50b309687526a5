-- ===== src/ModelsCache/Singleflight.antt =====
-- services/models_cache.rs: one refresh at a time for each key.
use mathlib.Core.List.{Memᴰ}
use que_qiao_router.Base.{ℕ, ◌≡◌, ◌∙◌, sym, Bool, false, not, ◌||◌, eq_of_some}
use que_qiao_router.ModelsCache.{CacheKey, same_key, ModelsCache}
use que_qiao_router.ModelsCache.Slots.{Leases, Reached, Reached-Agrees}

module _ {V : Type 0} where
  -- The lease is of another key, or over.
  abbrev pub is_over : ModelsCache V → CacheKey → CacheKey × ℕ → Bool
  is_over c key p = not (same_key key p.0) || c.done p.1

  -- One refresh at a time: two leaders of one key that have not completed are the same.
  pub leaders_exclusive :
      (c : ModelsCache V) (leases : Leases) (key : CacheKey) (slot other : ℕ)
      → Reached c leases
      → Memᴰ (key, slot) leases
      → Memᴰ (key, other) leases
      → c.done slot ≡ false
      → c.done other ≡ false
      → slot ≡ other
  leaders_exclusive c leases key slot other r m m' d d' =
      let a = Reached-Agrees r in eq_of_some (sym (a.held key slot m d) ∙ a.held key other m' d')
