-- ===== src/ModelsCache/Freshness.antt =====
-- services/models_cache.rs: what a lookup finds after an insert.
use que_qiao_router.Base.{
  ℕ, ◌-◌, ◌≡◌, ◌⊎◌, ◌∙◌, refl, ap, inl, inr, not, ◌&&◌, Option, none, some, List, leb, ltb, length,
  if◌then◌else◌, Bool-cases, if_true, if_false, subst,
}
use que_qiao_router.Base.Keyed.{
  get, delete, has, get-set_self, get-set_ne, get-delete_self, get-delete_ne,
}
use que_qiao_router.ModelsCache.{
  CacheKey, same_key, same_key_sound, key_test, capacity, Entry, fresh, empty, ModelsCache,
  is_fresh, outcome_of, lookup, value_of, previous_value, evict, make_room, insert,
}

module _ {V : Type 0} where
  evict-get :
      (victim : Option CacheKey) (other : CacheKey) (entries : List (CacheKey × Entry V))
      → (get key_test other (evict victim entries) ≡ get key_test other entries)
        ⊎ (get key_test other (evict victim entries) ≡ none)
  evict-get none other entries = inl refl
  evict-get (some victim) other entries = elim (Bool-cases (same_key victim other)) [
    | inl same ↦ inr (
        subst (λ k. get key_test k (delete key_test victim entries) ≡ none)
          ((same_key_sound victim other).0 same) (get-delete_self key_test victim entries))
    | inr apart ↦ inl (get-delete_ne key_test victim other entries apart)
  ]

  make_room-get :
      (first : List (CacheKey × Entry V) → Option CacheKey) (key other : CacheKey)
      (entries : List (CacheKey × Entry V))
      → (get key_test other (make_room first key entries) ≡ get key_test other entries)
        ⊎ (get key_test other (make_room first key entries) ≡ none)
  unfolding make_room
  make_room-get first key other entries =
      elim (Bool-cases (leb capacity (length entries) && not (has key_test key entries))) [
        | inl full ↦ rw (if_true _ _ full) (evict-get (first entries) other entries)
        | inr room ↦ inl (ap (get key_test other) (if_false _ _ room))
      ]

  -- After an insert the value is found under its key for less than the given time, and not from
  -- then on, and it is what a failed refresh falls back to; under every other key, of another
  -- generation or credential, a lookup finds what it found before or, after an eviction, nothing.
  pub lookup-insert :
      (first : List (CacheKey × Entry V) → Option CacheKey) (now later : ℕ) (key other : CacheKey)
      (value : V) (ttl : ℕ) (c : ModelsCache V)
      → let after = insert first now key value ttl c in
        (lookup later key after ≡ (if ltb (later - now) ttl then fresh value else empty))
        × (previous_value key after ≡ some value)
        × ((key ≡ other)
            ⊎ (lookup later other after ≡ lookup later other c)
            ⊎ (lookup later other after ≡ empty))
  unfolding insert lookup previous_value is_fresh
  lookup-insert first now later key other value ttl c =
      let e : Entry V = record { value = value; stored_at = now; ttl = ttl } in
      let room = make_room first key c.entries in
      (
        ap (outcome_of later) (get-set_self key_test key e room),
        ap value_of (get-set_self key_test key e room),
        elim (Bool-cases (same_key key other)) [
          | inl same ↦ inl ((same_key_sound key other).0 same)
          | inr apart ↦
              let moved = get-set_ne key_test key other e room apart in
              inr (elim (make_room-get first key other c.entries) [
                | inl same ↦ inl (ap (outcome_of later) (moved ∙ same))
                | inr gone ↦ inr (ap (outcome_of later) (moved ∙ gone))
              ])
        ],
      )
