-- ===== src/ModelList/Refresh.antt =====
-- handlers/model_handler.rs: the answers of a leader and of its followers.
use que_qiao_router.Base.{
  ℕ, ◌-◌, ◌≡◌, refl, inl, inr, true, false, Option, none, some, List, ltb, if◌then◌else◌,
  Bool-cases, Option-cases,
}
use que_qiao_router.Base.Keyed.{get}
use que_qiao_router.ModelsCache.{
  CacheKey, key_test, fresh, empty, Entry, ModelsCache, lookup, previous_value, insert,
}
use que_qiao_router.ModelsCache.Freshness.{lookup-insert}
use que_qiao_router.ModelList.{Model, stale_retry_ttl, refresh, follow}

abbrev Models : Type 0
Models = List Model

follow-insert :
    (first : List (CacheKey × Entry Models) → Option CacheKey) (now later : ℕ) (key : CacheKey)
    (models : Models) (ttl : ℕ) (c : ModelsCache Models)
    → follow later key (insert first now key models ttl c) ≡ some models
unfolding follow
follow-insert first now later key models ttl c =
    let l = lookup-insert first now later key key models ttl c in
    elim (Bool-cases (ltb (later - now) ttl)) [
      | inl soon ↦ rw (follow, l.0, soon) refl
      | inr late ↦ rw (follow, l.0, late) l.1
    ]

-- Where nothing was ever stored there is nothing fresh.
follow_missing :
    (later : ℕ) (key : CacheKey) (c : ModelsCache Models)
    → previous_value key c ≡ none
    → follow later key c ≡ none
unfolding follow lookup previous_value
follow_missing later key c h = elim (Option-cases (get key_test key c.entries)) [
  | inl e ↦ rw (follow, lookup, e) h
  | inr (entry, e) ↦ absurd (cc (rw e at h))
]

-- What a refresh that no upstream answered leads to, with the previous list.
abbrev pub FallsBack :
    ℕ
    → ℕ
    → CacheKey
    → ModelsCache (List Model)
    → Option (List Model)
    → Option (List Model) × ModelsCache (List Model)
    → Type 0
FallsBack now later key c none r = r ≡ (none, c)
FallsBack now later key c (some previous) r =
    (r.0 ≡ some previous)
    × (lookup later key r.1 ≡ (if ltb (later - now) stale_retry_ttl then fresh previous else empty))

falls_back :
    (first : List (CacheKey × Entry Models) → Option CacheKey) (now later : ℕ) (key : CacheKey)
    (ttl : ℕ) (models : Models) (c : ModelsCache Models)
    → let failed = refresh first now key ttl (models, false) c in
      FallsBack now later key c (previous_value key c) failed
      × (follow later key failed.1 ≡ failed.0)
unfolding refresh
falls_back first now later key ttl models c = elim (Option-cases (previous_value key c)) [
  | inl e ↦ rw (refresh, e) (refl, follow_missing later key c e)
  | inr (previous, e) ↦
      rw (refresh, e)
        (
          (refl, (lookup-insert first now later key key previous stale_retry_ttl c).0),
          follow-insert first now later key previous stale_retry_ttl c,
        )
]

-- What a leader's task leads to, by what the upstreams answered: a list, which it answers and which
-- is fresh for the configured time; or no answer at all, and then the previous list, which is fresh
-- for another 30 s, or without one an error and an unchanged cache. In each case a follower that
-- looks at the cache later, however late, answers what the leader answers, if no other write comes
-- between.
pub refresh-follow :
    (first : List (CacheKey × Entry (List Model)) → Option CacheKey) (now later : ℕ)
    (key : CacheKey) (ttl : ℕ) (models : List Model) (c : ModelsCache (List Model))
    → let done = refresh first now key ttl (models, true) c in
      let failed = refresh first now key ttl (models, false) c in
      (done.0 ≡ some models)
      × (lookup later key done.1 ≡ (if ltb (later - now) ttl then fresh models else empty))
      × (follow later key done.1 ≡ done.0)
      × FallsBack now later key c (previous_value key c) failed
      × (follow later key failed.1 ≡ failed.0)
unfolding refresh
refresh-follow first now later key ttl models c =
    let back = falls_back first now later key ttl models c in
    (
      refl,
      (lookup-insert first now later key key models ttl c).0,
      follow-insert first now later key models ttl c,
      back.0,
      back.1,
    )
