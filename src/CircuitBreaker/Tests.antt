-- ===== src/CircuitBreaker/Tests.antt =====
-- Runs of services/circuit_breaker.rs on small inputs, with doubles in tenths, and the theorems at
-- such inputs.
use que_qiao_router.Base.{
  ℕ, ◌+◌, ◌-◌, ◌≡◌, ◌↔◌, ◌≤◌, ◌⊎◌, ◌<◌, refl, Bool, true, false, Option, none, some, [], ◌∷◌, arith,
  lookup, insert,
}
use que_qiao_router.Config.{HealthCheckConfig, default_health_check}
use que_qiao_router.Samples.{tenths, primary, policy}
use que_qiao_router.CircuitBreaker.{
  half_open, blocked, BackendState, RegistryState, new_registry, allow, record_success,
  record_failure, entry, cooldown_for_state, new_backend, put, success_backend, failure_backend,
  allow_backend,
}
use que_qiao_router.CircuitBreaker.History.{
  asks, fails, step, run, IsSound, run-new_registry-IsSound,
}
use que_qiao_router.CircuitBreaker.Probe.{half_open_exclusive}
use que_qiao_router.CircuitBreaker.Retry.{Answers, blocked_retry_after, failed_probe_reopens}
use que_qiao_router.CircuitBreaker.Recovery.{opened_iff_threshold}
use que_qiao_router.CircuitBreaker.Cooldown.{cooldown_for_state-bounds}

runs : Unit {0}
unfolding new_registry allow record_success record_failure entry cooldown_for_state put
    success_backend failure_backend allow_backend run new_backend default_health_check lookup insert
runs = tt

-- An open backend, two failures at 5 ns.
tripped : Option (RegistryState ℕ)
tripped = run tenths (fails primary 5 ∷ fails primary 5 ∷ []) (new_registry tenths policy)

abbrev open_backend : ℕ → Bool → BackendState
open_backend level probe = record {
  base_url = "https://primary.example.com/v1";
  consecutive_failures = 2;
  opened_at = some 5;
  backoff_level = level;
  probe_in_flight = probe;
}

abbrev registry : ℕ → Bool → RegistryState ℕ
registry level probe = record {
  config = policy;
  backends = ("primary", open_backend level probe) ∷ [];
}

tripped_lem : tripped ≡ some (registry 0 false)
unfolding tripped runs
tripped_lem = refl

run-new_registry-IsSound_example : IsSound tenths (registry 0 false)
unfolding tripped runs
run-new_registry-IsSound_example =
    run-new_registry-IsSound tenths policy (fails primary 5 ∷ fails primary 5 ∷ []) refl

opened_iff_threshold_example :
    ((entry primary (registry 0 false).backends).opened_at ≡ none) ↔ (2 < 2)
unfolding runs step
opened_iff_threshold_example =
    opened_iff_threshold tenths primary (5 ∷ 5 ∷ []) (new_registry tenths policy) (registry 0 false)
      refl (omega arith) (omega arith) refl refl

-- The 30 s are over at 30_000_000_005 ns.
half_open_exclusive_example :
    (wait : ℕ) × (v : RegistryState ℕ) × (allow tenths primary 30_000_000_009 (registry 0 true)
      ≡ some (blocked wait, v))
unfolding runs step
half_open_exclusive_example =
    half_open_exclusive tenths primary 30_000_000_005 30_000_000_009 (registry 0 false)
      (registry 0 true) (registry 0 true) (asks primary 30_000_000_007 ∷ []) refl ((λ _. refl), tt)
      refl

blocked_retry_after_example :
    ((10_000_000_005 < 10_000_000_005 + 20_000_000_000)
      × Answers tenths primary
          (registry 0 false)
          10_000_000_005
          (blocked (10_000_000_005 + 20_000_000_000 - 10_000_000_005)))
    ⊎ ((10_000_000_005 + 20_000_000_000 ≤ 10_000_000_005)
        × (Answers tenths primary (registry 0 false) 10_000_000_005 half_open
            ⊎ Answers tenths primary (registry 0 false) 10_000_000_005 (blocked 0)))
unfolding runs
blocked_retry_after_example =
    blocked_retry_after tenths primary 10_000_000_005 20_000_000_000 10_000_000_005
      (registry 0 false) (registry 0 false) refl (λ opened e. ground arith) (omega arith)
      (omega arith)

-- At 35 s the probe fails; the cooldown is 60 s from there.
failed_probe_reopens_example :
    Answers tenths primary
      (record_failure primary 35_000_000_000 (registry 0 true))
      36_000_000_000
      (blocked (35_000_000_000 + 60_000_000_000 - 36_000_000_000))
unfolding runs
failed_probe_reopens_example =
    failed_probe_reopens tenths primary 30_000_000_005 35_000_000_000 36_000_000_000 60_000_000_000
      (registry 0 false) (registry 0 true) refl refl (omega arith) (omega arith)

cooldown_for_state-bounds_example :
    (30_000_000_000 ≤ 60_000_000_000)
    × (60_000_000_000 ≤ 100_000_000_000)
    × (100_000_000_000 ≤ 100_000_000_000)
unfolding runs
cooldown_for_state-bounds_example =
    cooldown_for_state-bounds tenths policy (open_backend 1 false) (open_backend 5 false)
      (λ d p h e. ground arith) (omega arith) (omega arith) (omega arith) refl refl

-- 1e9 times 30 s is past the bound of `tenths`.
abbrev steep : HealthCheckConfig ℕ
steep = record policy { backoff_multiplier = 10_000_000_000 }
