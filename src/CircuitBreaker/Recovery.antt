-- ===== src/CircuitBreaker/Recovery.antt =====
-- Opening, cooling down and closing in services/circuit_breaker.rs.
use que_qiao_router.Base.{
  ℕ, ◌+◌, ◌≤◌, ◌<◌, ◌≡◌, ◌↔◌, refl, sym, ap, ◌∙◌, true, false, inl, inr, none, some, List, [], ◌∷◌,
  arith, str_eq, eq_refl, if_true, if_false, Bool-cases, eq_of_some, map, length, ltb, lookup,
}
use que_qiao_router.Base.Floats.{Floats}
use que_qiao_router.Config.{ClientConfig}
use que_qiao_router.CircuitBreaker.{
  allowed, BackendState, RegistryState, u32_max, entry, put, new_backend, allow, failure_backend,
  success_backend, record_failure, record_success,
}
use que_qiao_router.CircuitBreaker.Invariant.{admit_of_closed, allow_of_disabled}
use que_qiao_router.CircuitBreaker.Frame.{entry-put, config-record_failure}
use que_qiao_router.CircuitBreaker.History.{fails, run}
use que_qiao_router.CircuitBreaker.Opened.{allow_of_admit, config-put}

-- A backend of the client that is closed after `n` failures in a row.
record IsClosed (client : ClientConfig) (n : ℕ) (b : BackendState) : Type 0 where
  same_url : str_eq b.base_url client.base_url ≡ true
  closed : b.opened_at ≡ none
  no_probe : b.probe_in_flight ≡ false
  failures : b.consecutive_failures ≡ n

record HasTripped (client : ClientConfig) (b : BackendState) : Type 0 where
  same_url : str_eq b.base_url client.base_url ≡ true
  opened : ℕ
  is_open : b.opened_at ≡ some opened

module _ (client : ClientConfig) (threshold : ℕ) where
  fail_all : List ℕ → BackendState → BackendState
  fail_all [] b = b
  fail_all (now ∷ times) b = fail_all times (failure_backend client threshold now b)

  failure-IsClosed :
      (n now : ℕ) (b : BackendState)
      → threshold ≤ u32_max
      → n + 1 < threshold
      → IsClosed client n b
      → IsClosed client (n + 1) (failure_backend client threshold now b)
  unfolding failure_backend
  failure-IsClosed n now b fits h c = rw (if_true b (new_backend client) c.same_url) (ground arith)

  failure_trips :
      (n now : ℕ) (b : BackendState)
      → threshold ≤ u32_max
      → threshold ≤ n + 1
      → n < threshold
      → IsClosed client n b
      → HasTripped client (failure_backend client threshold now b)
  unfolding failure_backend
  failure_trips n now b fits h small c =
      rw (if_true b (new_backend client) c.same_url)
        (record { same_url = ground arith; opened = now; is_open = ground arith })

  failure-HasTripped :
      (now : ℕ) (b : BackendState)
      → HasTripped client b
      → HasTripped client (failure_backend client threshold now b)
  unfolding failure_backend
  failure-HasTripped now b t =
      rw (if_true b (new_backend client) t.same_url)
        (record { same_url = ground arith; opened = now; is_open = ground arith })

  fail_all-HasTripped :
      (times : List ℕ) (b : BackendState)
      → HasTripped client b
      → HasTripped client (fail_all times b)
  unfolding fail_all
  fail_all-HasTripped [] b t = t
  fail_all-HasTripped (now ∷ times) b t =
      fail_all-HasTripped times (failure_backend client threshold now b)
        (failure-HasTripped now b t)

  fail_all-IsClosed :
      (times : List ℕ) (n : ℕ) (b : BackendState)
      → threshold ≤ u32_max
      → n < threshold
      → IsClosed client n b
      → ((fail_all times b).opened_at ≡ none) ↔ (n + length times < threshold)
  unfolding fail_all
  fail_all-IsClosed [] n b fits h c = (λ _. omega arith, λ _. c.closed)
  fail_all-IsClosed (now ∷ times) n b fits h c = elim (Bool-cases (ltb (n + 1) threshold)) [
    | inl below ↦
        let (to, from) =
          fail_all-IsClosed times (n + 1) (failure_backend client threshold now b) fits
            (ground arith) (failure-IsClosed n now b fits (ground arith) c) in
        (λ e. omega (arith, to e), λ l. from (omega arith))
    | inr reached ↦
        let t =
          fail_all-HasTripped times (failure_backend client threshold now b)
            (failure_trips n now b fits (ground arith) h c) in
        (λ e. absurd (cc (t.is_open)), λ l. absurd (ground arith))
  ]

module _ (fl : Floats) where
  open fl use {F}

  entry-record_failure :
      (client : ClientConfig) (now : ℕ) (s : RegistryState F)
      → s.config.enabled ≡ true
      → entry client (record_failure client now s).backends
        ≡ failure_backend client s.config.failure_threshold now (entry client s.backends)
  unfolding record_failure
  entry-record_failure client now s on = rw (if_true _ _ on) (entry-put client _ s)

  entry-run_fails :
      (client : ClientConfig) (times : List ℕ) (s : RegistryState F) {t : RegistryState F}
      → s.config.enabled ≡ true
      → run fl (map (λ now. fails client now) times) s ≡ some t
      → entry client t.backends
        ≡ fail_all client s.config.failure_threshold times (entry client s.backends)
  unfolding run fail_all
  entry-run_fails client [] s on h =
      ap (λ (u : RegistryState F). entry client u.backends) (sym (eq_of_some h))
  entry-run_fails client (now ∷ times) s {t} on h =
      let u = record_failure client now s in
      let c : u.config ≡ s.config = config-record_failure client now s in
      let rest : entry client t.backends
          ≡ fail_all client u.config.failure_threshold times (entry client u.backends) =
        entry-run_fails client times u (rw c on) h in
      rest ∙ (rw (c, entry-record_failure client now s on))

  entry_of_missing :
      (client : ClientConfig) (s : RegistryState F)
      → lookup client.name s.backends ≡ none
      → entry client s.backends ≡ new_backend client
  unfolding entry
  entry_of_missing client s e = rw e

  -- A backend that the registry has not seen opens exactly when the failures in a row reach the
  -- threshold, provided that health checks are on and the threshold is a positive u32.
  pub opened_iff_threshold :
      (client : ClientConfig) (times : List ℕ) (s t : RegistryState F)
      → s.config.enabled ≡ true
      → 1 ≤ s.config.failure_threshold
      → s.config.failure_threshold ≤ u32_max
      → lookup client.name s.backends ≡ none
      → run fl (map (λ now. fails client now) times) s ≡ some t
      → ((entry client t.backends).opened_at ≡ none) ↔ (length times < s.config.failure_threshold)
  unfolding new_backend
  opened_iff_threshold client times s t on pos fits new h =
      let e = entry-run_fails client times s on h in
      let fresh : IsClosed client 0 (new_backend client) = record {
        same_url = eq_refl client.base_url;
        closed = refl;
        no_probe = refl;
        failures = refl;
      } in
      let (to, from) =
        fail_all-IsClosed client s.config.failure_threshold times 0 (new_backend client) fits
          (omega arith) fresh in
      let start : entry client s.backends ≡ new_backend client = entry_of_missing client s new in
      let same =
        ap (λ (b : BackendState). b.opened_at)
          (e ∙ ap (fail_all client s.config.failure_threshold times) start) in
      (λ x. omega (arith, to (sym same ∙ x)), λ l. same ∙ from (omega arith))

  success_backend_closed :
      (client : ClientConfig) (b : BackendState)
      → (str_eq (success_backend client b).base_url client.base_url ≡ true)
        × ((success_backend client b).opened_at ≡ none)
  unfolding success_backend new_backend
  success_backend_closed client b = ground (arith, eq_refl client.base_url)

  -- After a success the backend is open to everybody, whatever it was before.
  pub record_success_allows :
      (client : ClientConfig) (now : ℕ) (s : RegistryState F)
      → (t : RegistryState F) × (allow fl client now (record_success client s) ≡ some (allowed, t))
  unfolding record_success
  record_success_allows client now s = elim (Bool-cases s.config.enabled) [
    | inl on ↦
        let b = success_backend client (entry client s.backends) in
        let (same, closed) = success_backend_closed client (entry client s.backends) in
        rw (if_true _ _ on) (
          put client b (put client b s),
          allow_of_admit fl client (put client b s) b now (rw (config-put fl client b s) on)
              (entry-put client b s) same (admit_of_closed fl (put client b s).config now b closed),
        )
    | inr off ↦ rw (if_false _ _ off) (s, allow_of_disabled fl client now s off)
  ]
