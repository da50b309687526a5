-- ===== src/ModelsCache/Slots.antt =====
-- services/models_cache.rs: the slots of the refreshes under way. The leaders are recorded with their
-- slots; only they complete, as their guards do, any number of times.
use mathlib.Core.List.{Memᴰ}
use que_qiao_router.Base.{
  ℕ, ◌+◌, ◌<◌, ◌≡◌, ◌∙◌, refl, sym, ap, subst, inl, inr, Bool, true, false, Option, none, some,
  List, [], ◌∷◌, arith, if◌then◌else◌, Bool-cases, if_true, if_false, eq_of_some, ◌==◌, ==_iff,
}
use que_qiao_router.Base.Keyed.{
  get, set, delete, get-set_self, get-set_ne, get-delete_self, get-delete_ne,
}
use que_qiao_router.ModelsCache.{
  CacheKey, same_key, same_key_sound, key_test, ModelsCache, new_cache, begin_refresh,
  complete_refresh, enter,
}

-- The slots that were handed to leaders, with their keys.
abbrev pub Leases : Type 0
Leases = List (CacheKey × ℕ)

key_of : {p q : CacheKey × ℕ} → p ≡ q → p.0 ≡ q.0
key_of e = ap (λ (p : CacheKey × ℕ). p.0) e

slot_of : {p q : CacheKey × ℕ} → p ≡ q → p.1 ≡ q.1
slot_of e = ap (λ (p : CacheKey × ℕ). p.1) e

module _ {V : Type 0} where
  -- A caller begins a refresh, and leads it if the key was free.
  abbrev pub led : CacheKey → (Bool × ℕ) × ModelsCache V → Leases → Leases
  led key ((true, slot), c) leases = (key, slot) ∷ leases
  led key ((false, slot), c) leases = leases

  -- The caches that callers can reach, with the leases they hold or held.
  pub data Reached : ModelsCache V → Leases → Type 0 where
    started : Reached new_cache []
    begins :
        {c : ModelsCache V} {leases : Leases} (key : CacheKey)
        → Reached c leases
        → Reached (begin_refresh key c).1 (led key (begin_refresh key c) leases)
    completes :
        {c : ModelsCache V} {leases : Leases} (key : CacheKey) (slot : ℕ)
        → Memᴰ (key, slot) leases
        → Reached c leases
        → Reached (complete_refresh key slot c) leases

  -- A lease is over, or its slot is the one that the map has for its key; and the slots of the map
  -- are such leases.
  pub record Agrees (c : ModelsCache V) (leases : Leases) : Type 0 where
    pub held :
        (key : CacheKey) (slot : ℕ)
        → Memᴰ (key, slot) leases
        → c.done slot ≡ false
        → get key_test key c.inflight ≡ some slot
    pub leased :
        (key : CacheKey) (slot : ℕ)
        → get key_test key c.inflight ≡ some slot
        → Memᴰ (key, slot) leases × (c.done slot ≡ false)
    pub old : (key : CacheKey) (slot : ℕ) → Memᴰ (key, slot) leases → slot < c.created
    pub new : (slot : ℕ) → c.done slot ≡ true → slot < c.created
    pub own :
        (key other : CacheKey) (slot : ℕ)
        → Memᴰ (key, slot) leases
        → Memᴰ (other, slot) leases
        → key ≡ other

  Agrees-new : Agrees new_cache []
  unfolding get
  Agrees-new = record {
    held = λ key slot m. elim m [ ];
    leased = λ key slot e. absurd (cc e);
    old = λ key slot m. elim m [ ];
    new = λ slot e. absurd (cc e);
    own = λ key other slot m. elim m [ ];
  }

  joined :
      {c : ModelsCache V} {leases : Leases}
      → Agrees c leases
      → Agrees (record c { created = c.created + 1 }) leases
  joined a = record {
    held = a.held;
    leased = a.leased;
    old = λ key slot m. omega (arith, a.old key slot m);
    new = λ slot e. omega (arith, a.new slot e);
    own = a.own;
  }

  module _ {c : ModelsCache V} {leases : Leases} (a : Agrees c leases) (key : CacheKey)
      (free : get key_test key c.inflight ≡ none) where
    unborn : c.done c.created ≡ false
    unborn = elim (Bool-cases (c.done c.created)) [
      | inl over ↦ absurd (omega (arith, a.new c.created over))
      | inr open_ ↦ open_
    ]

    led_held :
        (k : CacheKey) (slot : ℕ)
        → Memᴰ (k, slot) ((key, c.created) ∷ leases)
        → c.done slot ≡ false
        → get key_test k (set key_test key c.created c.inflight) ≡ some slot
    led_held k slot (Memᴰ.head e) d =
        subst (λ x. get key_test x (set key_test key c.created c.inflight) ≡ some slot)
          (sym (key_of e))
          (get-set_self key_test key c.created c.inflight ∙ ap some (sym (slot_of e)))
    led_held k slot (Memᴰ.tail m) d = elim (Bool-cases (same_key key k)) [
      | inl same ↦
          let here = a.held k slot m d in absurd (cc (here, free, (same_key_sound key k).0 same))
      | inr apart ↦ get-set_ne key_test key k c.created c.inflight apart ∙ a.held k slot m d
    ]

    led_leased :
        (k : CacheKey) (slot : ℕ)
        → get key_test k (set key_test key c.created c.inflight) ≡ some slot
        → Memᴰ (k, slot) ((key, c.created) ∷ leases) × (c.done slot ≡ false)
    led_leased k slot e = elim (Bool-cases (same_key key k)) [
      | inl same ↦
          let k_is : key ≡ k = (same_key_sound key k).0 same in
          let slot_is : c.created ≡ slot = eq_of_some (
            sym (get-set_self key_test key c.created c.inflight)
            ∙ ap (λ x. get key_test x (set key_test key c.created c.inflight)) k_is
            ∙ e) in
          (
            Memᴰ.head (sym (ap (λ x. (x, c.created)) k_is ∙ ap (λ i. (k, i)) slot_is)),
            subst (λ i. c.done i ≡ false) slot_is unborn,
          )
      | inr apart ↦
          let r =
            a.leased k slot (sym (get-set_ne key_test key k c.created c.inflight apart) ∙ e) in
          (Memᴰ.tail r.0, r.1)
    ]

    led_old :
        (k : CacheKey) (slot : ℕ)
        → Memᴰ (k, slot) ((key, c.created) ∷ leases)
        → slot < c.created + 1
    led_old k slot (Memᴰ.head e) = omega (arith, slot_of e)
    led_old k slot (Memᴰ.tail m) = omega (arith, a.old k slot m)

    led_own :
        (k k' : CacheKey) (slot : ℕ)
        → Memᴰ (k, slot) ((key, c.created) ∷ leases)
        → Memᴰ (k', slot) ((key, c.created) ∷ leases)
        → k ≡ k'
    led_own k k' slot (Memᴰ.head e) (Memᴰ.head e') = key_of e ∙ sym (key_of e')
    led_own k k' slot (Memᴰ.head e) (Memᴰ.tail m) =
        absurd (omega (arith, slot_of e, a.old k' slot m))
    led_own k k' slot (Memᴰ.tail m) (Memᴰ.head e) =
        absurd (omega (arith, slot_of e, a.old k slot m))
    led_own k k' slot (Memᴰ.tail m) (Memᴰ.tail m') = a.own k k' slot m m'

    lead : Agrees (enter key none c).1 ((key, c.created) ∷ leases)
    lead = record {
      held = led_held;
      leased = led_leased;
      old = led_old;
      new = λ slot e. omega (arith, a.new slot e);
      own = led_own;
    }

  Agrees-entered :
      {c : ModelsCache V} {leases : Leases} (key : CacheKey) (o : Option ℕ)
      → get key_test key c.inflight ≡ o
      → Agrees c leases
      → Agrees (enter key o c).1 (led key (enter key o c) leases)
  Agrees-entered key none e a = lead a key e
  Agrees-entered key (some slot) e a = joined a

  module _ {c : ModelsCache V} {leases : Leases} (a : Agrees c leases) (key : CacheKey) (slot : ℕ)
      (mine : Memᴰ (key, slot) leases) (running : c.done slot ≡ false) where
    flagged : ℕ → Bool
    flagged i = if i == slot then true else c.done i

    over_held :
        (k : CacheKey) (i : ℕ)
        → Memᴰ (k, i) leases
        → flagged i ≡ false
        → get key_test k (delete key_test key c.inflight) ≡ some i
    unfolding flagged
    over_held k i m d =
        let other : (i == slot) ≡ false = ground arith in
        let here = a.held k i m (sym (if_false _ _ other) ∙ d) in
        elim (Bool-cases (same_key key k)) [
          | inl same ↦
              let mine_here : get key_test k c.inflight ≡ some slot =
                ap (λ x. get key_test x c.inflight) (sym ((same_key_sound key k).0 same))
                ∙ a.held key slot mine running in
              let slot_is : i ≡ slot = eq_of_some (sym here ∙ mine_here) in
              absurd (cc (other, (==_iff i slot).1 slot_is))
          | inr apart ↦ get-delete_ne key_test key k c.inflight apart ∙ here
        ]

    over_leased :
        (k : CacheKey) (i : ℕ)
        → get key_test k (delete key_test key c.inflight) ≡ some i
        → Memᴰ (k, i) leases × (flagged i ≡ false)
    unfolding flagged
    over_leased k i e = elim (Bool-cases (same_key key k)) [
      | inl same ↦
          let gone = get-delete_self key_test key c.inflight in
          absurd (cc (gone, e, (same_key_sound key k).0 same))
      | inr apart ↦
          let r = a.leased k i (sym (get-delete_ne key_test key k c.inflight apart) ∙ e) in
          (
            r.0,
            elim (Bool-cases (i == slot)) [
              | inl same ↦
                  let mine' =
                    subst (λ x. Memᴰ (key, x) leases) (sym ((==_iff i slot).0 same)) mine in
                  absurd (cc (apart, (same_key_sound key k).1 (a.own key k i mine' r.0)))
              | inr other ↦ if_false _ _ other ∙ r.1
            ],
          )
    ]

    over_new : (i : ℕ) → flagged i ≡ true → i < c.created
    unfolding flagged
    over_new i e = elim (Bool-cases (i == slot)) [
      | inl same ↦ omega (arith, (==_iff i slot).0 same, a.old key slot mine)
      | inr other ↦ a.new i (sym (if_false _ _ other) ∙ e)
    ]

    over : Agrees (record c { done = flagged; inflight = delete key_test key c.inflight }) leases
    over = record {
      held = over_held;
      leased = over_leased;
      old = a.old;
      new = over_new;
      own = a.own;
    }

  Agrees-completed :
      {c : ModelsCache V} {leases : Leases} (key : CacheKey) (slot : ℕ)
      → Memᴰ (key, slot) leases
      → Agrees c leases
      → Agrees (complete_refresh key slot c) leases
  unfolding complete_refresh flagged
  Agrees-completed {c} {leases} key slot m a = elim (Bool-cases (c.done slot)) [
    | inl already ↦ subst (λ x. Agrees x leases) (sym (if_true _ _ already)) a
    | inr running ↦
        subst (λ x. Agrees x leases) (sym (if_false _ _ running)) (over a key slot m running)
  ]

  pub Reached-Agrees : {c : ModelsCache V} {leases : Leases} → Reached c leases → Agrees c leases
  unfolding begin_refresh
  Reached-Agrees started = Agrees-new
  Reached-Agrees (begins {c} key r) =
      Agrees-entered key (get key_test key c.inflight) refl (Reached-Agrees r)
  Reached-Agrees (completes key slot m r) = Agrees-completed key slot m (Reached-Agrees r)
