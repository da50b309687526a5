-- ===== src/CircuitBreaker/Invariant.antt =====
-- The invariant of the registry of services/circuit_breaker.rs, over every history of its calls.
use que_qiao_router.Base.{
  ℕ, ◌≤◌, ◌≡◌, subst, Bool, true, false, ◌⊎◌, inl, inr, Option, none, some, arith, str_eq, lookup,
  Bool-cases, Option-cases, AllValues, AllValues-insert, AllValues-lookup, sym, if_true, if_false,
  eq_of_some, >>=-eq-some, ◌-◌, ◌∙◌,
}
use que_qiao_router.Base.Floats.{Floats}
use que_qiao_router.Config.{ClientConfig, HealthCheckConfig}
use que_qiao_router.CircuitBreaker.{
  AttemptPermission, allowed, BackendState, RegistryState, u32_max, new_backend, entry, put,
  success_backend, count_failure, open_if, failure_backend, admit_open, admit, allow_backend, allow,
  cooldown_for_state, record_success, record_failure,
}

-- A closed backend has no probe under way and no backoff.
abbrev pub IsQuiet : Option ℕ → ℕ → Bool → Type 0
IsQuiet none level probe = (level ≡ 0) × (probe ≡ false)
IsQuiet (some _) level probe = Unit

pub record IsValid (b : BackendState) : Type 0 where
  pub quiet : IsQuiet b.opened_at b.backoff_level b.probe_in_flight
  pub failures_fit : b.consecutive_failures ≤ u32_max
  pub level_fits : b.backoff_level ≤ u32_max

pub new_backend-IsValid : (client : ClientConfig) → IsValid (new_backend client)
unfolding new_backend
new_backend-IsValid client = ground arith

success_backend-IsValid :
    (client : ClientConfig) (b : BackendState) → IsValid (success_backend client b)
unfolding success_backend new_backend
success_backend-IsValid client b = ground arith

count_failure-IsValid : (b : BackendState) → IsValid b → IsValid (count_failure b)
unfolding count_failure
count_failure-IsValid b v = ground arith

open_if-IsValid :
    (threshold now : ℕ) (b : BackendState) → IsValid b → IsValid (open_if threshold now b)
unfolding open_if
open_if-IsValid threshold now b v = ground arith

failure_backend-IsValid :
    (client : ClientConfig) (threshold now : ℕ) (b : BackendState)
    → IsValid b
    → IsValid (failure_backend client threshold now b)
unfolding failure_backend
failure_backend-IsValid client threshold now b v =
    elim (Bool-cases (str_eq b.base_url client.base_url)) [
      | inl same ↦ rw same (open_if-IsValid threshold now _ (count_failure-IsValid b v))
      | inr moved ↦ rw moved (
          open_if-IsValid threshold now _
            (count_failure-IsValid (new_backend client) (new_backend-IsValid client)))
    ]

admit_open-IsValid :
    (cooldown elapsed opened : ℕ) (b : BackendState)
    → b.opened_at ≡ some opened
    → IsValid b
    → IsValid (admit_open cooldown elapsed b).1
unfolding admit_open
admit_open-IsValid cooldown elapsed opened b e v = ground arith

abbrev pub IsValidRegistry : {F : Type 0} → RegistryState F → Type 0
IsValidRegistry s = AllValues IsValid s.backends

pub entry-IsValid :
    {F : Type 0} (client : ClientConfig) (s : RegistryState F)
    → IsValidRegistry s
    → IsValid (entry client s.backends)
unfolding entry
entry-IsValid client s v = elim (Option-cases (lookup client.name s.backends)) [
  | inl missing ↦ rw missing (new_backend-IsValid client)
  | inr (b, found) ↦ rw found (AllValues-lookup IsValid client.name b s.backends v found)
]

put-IsValid :
    {F : Type 0} (client : ClientConfig) (b : BackendState) (s : RegistryState F)
    → IsValid b
    → IsValidRegistry s
    → IsValidRegistry (put client b s)
unfolding put
put-IsValid client b s h v = AllValues-insert IsValid client.name b s.backends h v

module _ (fl : Floats) where
  open fl use {F}

  pub admit_of_closed :
      (c : HealthCheckConfig F) (now : ℕ) (b : BackendState)
      → b.opened_at ≡ none
      → admit fl c now b ≡ some (allowed, b)
  unfolding admit
  admit_of_closed c now b e = ground arith

  pub admit_of_panic :
      (c : HealthCheckConfig F) (now : ℕ) (b : BackendState) {opened : ℕ}
      → b.opened_at ≡ some opened
      → cooldown_for_state fl c b ≡ none
      → admit fl c now b ≡ none
  unfolding admit
  admit_of_panic c now b e d = ground arith

  pub allow_of_disabled :
      (client : ClientConfig) (now : ℕ) (s : RegistryState F)
      → s.config.enabled ≡ false
      → allow fl client now s ≡ some (allowed, s)
  unfolding allow
  allow_of_disabled client now s off = if_false _ _ off

  -- What `admit` answers, when it does.
  pub admit_cases :
      (c : HealthCheckConfig F) (now : ℕ) (b : BackendState) {r : AttemptPermission × BackendState}
      → admit fl c now b ≡ some r
      → ((b.opened_at ≡ none) × (r ≡ (allowed, b)))
        ⊎ ((t : ℕ) × (d : ℕ) × (b.opened_at ≡ some t)
            × (cooldown_for_state fl c b ≡ some d)
            × (r ≡ admit_open d (now - t) b))
  unfolding admit
  admit_cases c now b h = elim (Option-cases b.opened_at) [
    | inl closed ↦ inl (closed, ground arith)
    | inr (t, opened) ↦ elim (Option-cases (cooldown_for_state fl c b)) [
      | inl panic ↦ absurd (ground arith)
      | inr (d, ok) ↦ inr (t, d, opened, ok, ground arith)
    ]
  ]

  admit-IsValid :
      (c : HealthCheckConfig F) (now : ℕ) (b : BackendState) {r : AttemptPermission × BackendState}
      → IsValid b
      → admit fl c now b ≡ some r
      → IsValid r.1
  admit-IsValid c now b v h = elim (admit_cases c now b h) [
    | inl (_, e) ↦ rw e v
    | inr (t, d, opened, _, e) ↦ rw e (admit_open-IsValid d (now - t) t b opened v)
  ]

  allow_backend-IsValid :
      (c : HealthCheckConfig F) (client : ClientConfig) (now : ℕ) (b : BackendState)
      {r : AttemptPermission × BackendState}
      → IsValid b
      → allow_backend fl c client now b ≡ some r
      → IsValid r.1
  unfolding allow_backend
  allow_backend-IsValid c client now b v h = elim (Bool-cases (str_eq b.base_url client.base_url)) [
    | inl same ↦ admit-IsValid c now b v (rw same at h)
    | inr moved ↦
        subst (λ (r : AttemptPermission × BackendState). IsValid r.1)
          (eq_of_some (sym (if_false _ _ moved) ∙ h)) (new_backend-IsValid client)
  ]

  -- The registry after `allow`: unchanged if disabled, and else with one entry written.
  pub allow_cases :
      (client : ClientConfig) (now : ℕ) (s : RegistryState F)
      {r : AttemptPermission × RegistryState F}
      → allow fl client now s ≡ some r
      → ((s.config.enabled ≡ false) × (r ≡ (allowed, s)))
        ⊎ ((p : AttemptPermission × BackendState) × (s.config.enabled ≡ true)
            × (allow_backend fl s.config client now (entry client s.backends) ≡ some p)
            × (r ≡ (p.0, put client p.1 s)))
  unfolding allow
  allow_cases client now s h = elim (Bool-cases s.config.enabled) [
    | inl on ↦
        let (p, e, e') =
          >>=-eq-some (allow_backend fl s.config client now (entry client s.backends)) _
            (sym (if_true _ _ on) ∙ h) in
        inr (p, on, e, sym (eq_of_some e'))
    | inr off ↦ inl (off, sym (eq_of_some (sym (if_false _ _ off) ∙ h)))
  ]

  pub allow-IsValidRegistry :
      (client : ClientConfig) (now : ℕ) (s : RegistryState F)
      {r : AttemptPermission × RegistryState F}
      → IsValidRegistry s
      → allow fl client now s ≡ some r
      → IsValidRegistry r.1
  allow-IsValidRegistry client now s v h = elim (allow_cases client now s h) [
    | inl (_, e) ↦ rw e v
    | inr (p, _, admitted, e) ↦ rw e (
        put-IsValid client p.1 s
          (allow_backend-IsValid s.config client now _ (entry-IsValid client s v) admitted) v)
  ]

pub record_success-IsValidRegistry :
    {F : Type 0} (client : ClientConfig) (s : RegistryState F)
    → IsValidRegistry s
    → IsValidRegistry (record_success client s)
unfolding record_success
record_success-IsValidRegistry client s v = elim (Bool-cases s.config.enabled) [
  | inl on ↦ rw (if_true _ _ on) (put-IsValid client _ s (success_backend-IsValid client _) v)
  | inr off ↦ rw (if_false _ _ off) v
]

pub record_failure-IsValidRegistry :
    {F : Type 0} (client : ClientConfig) (now : ℕ) (s : RegistryState F)
    → IsValidRegistry s
    → IsValidRegistry (record_failure client now s)
unfolding record_failure
record_failure-IsValidRegistry client now s v = elim (Bool-cases s.config.enabled) [
  | inl on ↦ rw (if_true _ _ on) (
      put-IsValid client _ s
        (failure_backend-IsValid client s.config.failure_threshold now _ (entry-IsValid client s v))
        v)
  | inr off ↦ rw (if_false _ _ off) v
]
