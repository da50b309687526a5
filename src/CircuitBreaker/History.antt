-- ===== src/CircuitBreaker/History.antt =====
-- Histories of calls of the registry, of services/circuit_breaker.rs, in the order in which they
-- take the mutex.
use que_qiao_router.Base.{
  ℕ, ◌≤◌, ◌≡◌, Option, some, List, [], ◌∷◌, arith, ◌>>=◌, >>=-eq-some, subst, eq_of_some,
}
use que_qiao_router.Base.Floats.{Floats}
use que_qiao_router.Config.{ClientConfig, HealthCheckConfig}
use que_qiao_router.CircuitBreaker.{
  RegistryState, new_registry, configure, allow, record_success, record_failure,
}
use que_qiao_router.CircuitBreaker.Frame.{
  config-allow, config-record_success, config-record_failure,
}
use que_qiao_router.CircuitBreaker.Invariant.{
  IsValidRegistry, allow-IsValidRegistry, record_success-IsValidRegistry,
  record_failure-IsValidRegistry,
}

pub data Event (F : Type 0) : Type 0 where
  configures : HealthCheckConfig F → Event F
  asks : ClientConfig → ℕ → Event F
  succeeds : ClientConfig → Event F
  fails : ClientConfig → ℕ → Event F

module _ (fl : Floats) where
  open fl use {F}

  unfoldable pub step : Event F → RegistryState F → Option (RegistryState F)
  step (configures c) s = some (configure fl c s)
  step (asks client now) s = do r ← allow fl client now s; some r.1
  step (succeeds client) s = some (record_success client s)
  step (fails client now) s = some (record_failure client now s)

  unfoldable pub run : List (Event F) → RegistryState F → Option (RegistryState F)
  unfolding step
  run [] s = some s
  run (e ∷ es) s = do t ← step e s; run es t

  -- Every backend state is consistent, and the policy is normalised.
  pub record IsSound (s : RegistryState F) : Type 0 where
    pub valid : IsValidRegistry s
    pub threshold_pos : 1 ≤ s.config.failure_threshold
    pub cooldown_le_max : s.config.cooldown_seconds ≤ s.config.max_cooldown_seconds

  configure-IsSound :
      (c : HealthCheckConfig F) (s : RegistryState F)
      → IsValidRegistry s
      → IsSound (configure fl c s)
  unfolding configure
  configure-IsSound c s v = record {
    valid = v;
    threshold_pos = omega arith;
    cooldown_le_max = omega arith;
  }

  new_registry-IsSound : (c : HealthCheckConfig F) → IsSound (new_registry fl c)
  unfolding new_registry
  new_registry-IsSound c = record {
    valid = tt;
    threshold_pos = omega arith;
    cooldown_le_max = omega arith;
  }

  IsSound-kept :
      (s t : RegistryState F) → t.config ≡ s.config → IsValidRegistry t → IsSound s → IsSound t
  IsSound-kept s t e v h = record {
    valid = v;
    threshold_pos = rw e h.threshold_pos;
    cooldown_le_max = rw e h.cooldown_le_max;
  }

  step-IsSound :
      (e : Event F) (s : RegistryState F) {t : RegistryState F}
      → IsSound s
      → step e s ≡ some t
      → IsSound t
  unfolding step
  step-IsSound (configures c) s v h = subst IsSound (eq_of_some h) (configure-IsSound c s v.valid)
  step-IsSound (asks client now) s v h =
      let (r, e, e') = >>=-eq-some (allow fl client now s) _ h in
      subst IsSound (eq_of_some e') (
        IsSound-kept s r.1 (config-allow fl client now s e)
          (allow-IsValidRegistry fl client now s v.valid e) v)
  step-IsSound (succeeds client) s v h = subst IsSound (eq_of_some h) (
      IsSound-kept s _ (config-record_success client s)
        (record_success-IsValidRegistry client s v.valid) v)
  step-IsSound (fails client now) s v h = subst IsSound (eq_of_some h) (
      IsSound-kept s _ (config-record_failure client now s)
        (record_failure-IsValidRegistry client now s v.valid) v)

  run-IsSound :
      (es : List (Event F)) (s : RegistryState F) {t : RegistryState F}
      → IsSound s
      → run es s ≡ some t
      → IsSound t
  unfolding run
  run-IsSound [] s v h = subst IsSound (eq_of_some h) v
  run-IsSound (e ∷ es) s v h =
      let (u, first, rest) = >>=-eq-some (step e s) _ h in
      run-IsSound es u (step-IsSound e s v first) rest

  -- Whatever calls a new registry has seen, in whatever order, each backend that is not open has no
  -- probe under way and no backoff, no counter exceeds u32::MAX, the threshold is at least one, and
  -- the first cooldown is at most the longest.
  pub run-new_registry-IsSound :
      (c : HealthCheckConfig F) (es : List (Event F)) {t : RegistryState F}
      → run es (new_registry fl c) ≡ some t
      → IsSound t
  run-new_registry-IsSound c es h = run-IsSound es _ (new_registry-IsSound c) h
