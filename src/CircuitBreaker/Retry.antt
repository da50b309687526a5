-- ===== src/CircuitBreaker/Retry.antt =====
-- The waiting time that services/circuit_breaker.rs announces, and the failed probe.
use que_qiao_router.Base.{
  ℕ, ◌-◌, ◌+◌, ◌≤◌, ◌<◌, ◌≡◌, refl, sym, ap, ◌∙◌, true, false, inl, inr, ◌⊎◌, some, arith, str_eq,
  if_true, if_false, Bool-cases, eq_of_some, subst, ltb, ltb→lt,
}
use que_qiao_router.Base.Floats.{Floats}
use que_qiao_router.Config.{ClientConfig}
use que_qiao_router.CircuitBreaker.{
  AttemptPermission, half_open, blocked, BackendState, RegistryState, saturating_suc, entry, put,
  new_backend, admit_open, allow_backend, allow, cooldown_for_state, count_failure, open_if,
  failure_backend, record_failure,
}
use que_qiao_router.CircuitBreaker.Invariant.{admit_cases, allow_cases}
use que_qiao_router.CircuitBreaker.Opened.{
  IsOpen, allow-IsOpen, entry_of_lookup, config-put, lookup-put_self,
}
use que_qiao_router.CircuitBreaker.Probe.{Probing-half_open}

admit_open_blocked :
    (cooldown elapsed wait : ℕ) (b : BackendState)
    → (admit_open cooldown elapsed b).0 ≡ blocked wait
    → ((admit_open cooldown elapsed b).1 ≡ b) × (0 < wait → elapsed + wait ≡ cooldown)
unfolding admit_open
admit_open_blocked cooldown elapsed wait b h = ground arith

admit_open_early :
    (cooldown elapsed : ℕ) (b : BackendState)
    → elapsed < cooldown
    → (admit_open cooldown elapsed b).0 ≡ blocked (cooldown - elapsed)
unfolding admit_open
admit_open_early cooldown elapsed b h = ground arith

admit_open_late :
    (cooldown elapsed : ℕ) (b : BackendState)
    → cooldown ≤ elapsed
    → ((admit_open cooldown elapsed b).0 ≡ half_open)
      ⊎ ((admit_open cooldown elapsed b).0 ≡ blocked 0)
unfolding admit_open
admit_open_late cooldown elapsed b h = ground arith

module _ (fl : Floats) where
  open fl use {F}

  -- What a request is told at `later`.
  abbrev pub Answers : ClientConfig → RegistryState F → ℕ → AttemptPermission → Type 0
  Answers client s later p = (t : RegistryState F) × (allow fl client later s ≡ some (p, t))

  Answers-IsOpen :
      {client : ClientConfig} {s : RegistryState F} {b : BackendState} {opened cooldown : ℕ}
      (later : ℕ) (p : AttemptPermission)
      → IsOpen fl client s b opened cooldown
      → (admit_open cooldown (later - opened) b).0 ≡ p
      → Answers client s later p
  Answers-IsOpen {client} {s} {b} {opened} {cooldown} later p h e = (
    put client (admit_open cooldown (later - opened) b).1 s,
    allow-IsOpen fl later h
        ∙ ap
            (λ (q : AttemptPermission).
              some (q, put client (admit_open cooldown (later - opened) b).1 s))
            e,
  )

  IsOpen-put :
      (client : ClientConfig) (s : RegistryState F) (b : BackendState) (opened cooldown : ℕ)
      → s.config.enabled ≡ true
      → str_eq b.base_url client.base_url ≡ true
      → b.opened_at ≡ some opened
      → cooldown_for_state fl s.config b ≡ some cooldown
      → IsOpen fl client (put client b s) b opened cooldown
  IsOpen-put client s b opened cooldown on same o d = record {
    enabled = rw (config-put fl client b s) on;
    stored = lookup-put_self fl client b s;
    same_url = same;
    opened_at = o;
    cools = rw (config-put fl client b s) d;
  }

  -- A backend that answers blocked was open, and stays as it was.
  blocked_cases :
      (client : ClientConfig) (now wait : ℕ) (s : RegistryState F) {t : RegistryState F}
      → allow fl client now s ≡ some (blocked wait, t)
      → (b : BackendState) × (opened : ℕ) × (cooldown : ℕ) × (b ≡ entry client s.backends)
        × IsOpen fl client t b opened cooldown
        × (b.opened_at ≡ some opened)
        × (0 < wait → (now - opened) + wait ≡ cooldown)
  unfolding allow_backend
  blocked_cases client now wait s {t} h = elim (allow_cases fl client now s h) [
    | inl (_, e) ↦ absurd (cc (ap (λ (q : AttemptPermission × RegistryState F). q.0) e))
    | inr (p, on, admitted, e) ↦
        let b = entry client s.backends in
        let ans : p.0 ≡ blocked wait =
          sym (ap (λ (q : AttemptPermission × RegistryState F). q.0) e) in
        elim (Bool-cases (str_eq b.base_url client.base_url)) [
          | inr moved ↦ absurd (
              cc (
                ans,
                ap (λ (q : AttemptPermission × BackendState). q.0)
                    (eq_of_some (sym (if_false _ _ moved) ∙ admitted)),
              ))
          | inl same ↦ elim (admit_cases fl s.config now b (sym (if_true _ _ same) ∙ admitted)) [
            | inl (_, e1) ↦ absurd (cc (ans, ap (λ (q : AttemptPermission × BackendState). q.0) e1))
            | inr (opened, d, o, cools, e1) ↦
                let e2 : (admit_open d (now - opened) b).0 ≡ blocked wait =
                  sym (ap (λ (q : AttemptPermission × BackendState). q.0) e1) ∙ ans in
                let (kept, total) = admit_open_blocked d (now - opened) wait b e2 in
                (
                  b,
                  opened,
                  d,
                  refl,
                  subst (λ (u : RegistryState F). IsOpen fl client u b opened d)
                      (sym (
                        ap (λ (q : AttemptPermission × RegistryState F). q.1) e
                        ∙ ap (λ (c : BackendState). put client c s)
                            (ap (λ (q : AttemptPermission × BackendState). q.1) e1 ∙ kept)))
                      (IsOpen-put client s b opened d on same o cools),
                  o,
                  total,
                )
          ]
        ]
  ]

  -- The announced waiting time is exact. If a request is told to wait, for more than no time and
  -- with the backend not opened in the future, then without further calls every request before the
  -- time has passed is told to wait for the rest of it, and every request after it is no longer
  -- cooling down: it is let through as the probe, or waits for the probe that is under way.
  pub blocked_retry_after :
      (client : ClientConfig) (now wait later : ℕ) (s t : RegistryState F)
      → allow fl client now s ≡ some (blocked wait, t)
      → ((opened : ℕ) → (entry client s.backends).opened_at ≡ some opened → opened ≤ now)
      → 0 < wait
      → now ≤ later
      → ((later < now + wait) × Answers client t later (blocked (now + wait - later)))
        ⊎ ((now + wait ≤ later)
            × (Answers client t later half_open ⊎ Answers client t later (blocked 0)))
  blocked_retry_after client now wait later s t h past pos le =
      let (b, opened, d, same, is_open, o, total) = blocked_cases client now wait s h in
      let before : opened ≤ now = past opened (rw (← same) o) in
      let sum = total pos in
      elim (Bool-cases (ltb later (now + wait))) [
        | inl early ↦
            let lt = ltb→lt later (now + wait) early in
            inl (
              lt,
              Answers-IsOpen later (blocked (now + wait - later)) is_open
                  (admit_open_early d (later - opened) b (omega arith) ∙ ap blocked (omega arith)),
            )
        | inr late ↦
            let past_it : now + wait ≤ later = ground arith in
            inr (
              past_it,
              elim (admit_open_late d (later - opened) b (omega arith)) [
                | inl e ↦ inl (Answers-IsOpen later half_open is_open e)
                | inr e ↦ inr (Answers-IsOpen later (blocked 0) is_open e)
              ],
            )
      ]

  failure_of_probe :
      (client : ClientConfig) (threshold now opened : ℕ) (b : BackendState)
      → str_eq b.base_url client.base_url ≡ true
      → b.opened_at ≡ some opened
      → failure_backend client threshold now b ≡ record b {
        backoff_level = saturating_suc b.backoff_level;
        probe_in_flight = false;
        opened_at = some now;
      }
  unfolding failure_backend count_failure open_if
  failure_of_probe client threshold now opened b same o =
      rw (if_true b (new_backend client) same) (ground arith)

  record_failure_of_enabled :
      (client : ClientConfig) (now : ℕ) (s : RegistryState F) (b : BackendState)
      → s.config.enabled ≡ true
      → entry client s.backends ≡ b
      → record_failure client now s
        ≡ put client (failure_backend client s.config.failure_threshold now b) s
  unfolding record_failure
  record_failure_of_enabled client now s b on e = rw (if_true _ _ on, e)

  -- A probe that fails opens the backend again, for the cooldown of the next backoff level: until
  -- that has passed since the failure, every request is told to wait for the rest of it.
  pub failed_probe_reopens :
      (client : ClientConfig) (now failed later cooldown : ℕ) (s t : RegistryState F)
      → allow fl client now s ≡ some (half_open, t)
      → let b = entry client t.backends in
        cooldown_for_state fl t.config (record b {
          backoff_level = saturating_suc b.backoff_level;
          probe_in_flight = false;
          opened_at = some failed;
        })
          ≡ some cooldown
        → failed ≤ later
        → later < failed + cooldown
        → Answers client
            (record_failure client failed t)
            later
            (blocked (failed + cooldown - later))
  failed_probe_reopens client now failed later cooldown s t h cools le early =
      let p = Probing-half_open fl client now s h in
      let b = entry client t.backends in
      let b' : BackendState = record b {
        backoff_level = saturating_suc b.backoff_level;
        probe_in_flight = false;
        opened_at = some failed;
      } in
      let e0 : b ≡ p.state = entry_of_lookup fl client t p.is_open.stored in
      let on = p.is_open.enabled in
      let same : str_eq b.base_url client.base_url ≡ true = rw e0 p.is_open.same_url in
      let reopened =
        record_failure_of_enabled client failed t b on refl
        ∙ ap (λ (c : BackendState). put client c t)
            (failure_of_probe client t.config.failure_threshold failed p.opened b same
              (rw e0 p.is_open.opened_at)) in
      subst (λ (u : RegistryState F). Answers client u later (blocked (failed + cooldown - later)))
        (sym reopened)
        (Answers-IsOpen later (blocked (failed + cooldown - later))
          (IsOpen-put client t b' failed cooldown on same refl cools)
          (admit_open_early cooldown (later - failed) b' (omega arith) ∙ ap blocked (omega arith)))
