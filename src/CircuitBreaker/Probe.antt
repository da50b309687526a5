-- ===== src/CircuitBreaker/Probe.antt =====
-- The half-open probe of services/circuit_breaker.rs: one request at a time tries an open backend.
use que_qiao_router.Base.{
  ℕ, ◌-◌, ◌≡◌, refl, ap, sym, ◌∙◌, true, false, inl, inr, some, List, [], ◌∷◌, arith, str_eq,
  eq_iff, lookup, if_true, if_false, Bool-cases, >>=-eq-some, eq_of_some, All, subst, ltb,
}
use que_qiao_router.Base.Floats.{Floats}
use que_qiao_router.Config.{ClientConfig, HealthCheckConfig}
use que_qiao_router.CircuitBreaker.{
  AttemptPermission, half_open, blocked, BackendState, RegistryState, entry, put, admit_open,
  allow_backend, allow, cooldown_for_state,
}
use que_qiao_router.CircuitBreaker.Frame.{
  lookup-allow, lookup-record_success, lookup-record_failure, config-allow, config-record_success,
  config-record_failure,
}
use que_qiao_router.CircuitBreaker.Invariant.{admit_cases, allow_cases}
use que_qiao_router.CircuitBreaker.History.{Event, configures, asks, succeeds, fails, step, run}
use que_qiao_router.CircuitBreaker.Opened.{
  IsOpen, allow-IsOpen, IsOpen-renamed, config-put, lookup-put_self, lookup-put_renamed,
}

module _ (fl : Floats) where
  open fl use {F}

  -- A probe of the client's backend is under way.
  pub record Probing (client : ClientConfig) (s : RegistryState F) : Type 0 where
    pub state : BackendState
    pub opened : ℕ
    pub cooldown : ℕ
    pub is_open : IsOpen fl client s state opened cooldown
    pub probe : state.probe_in_flight ≡ true

  admit_open_probing :
      (cooldown elapsed : ℕ) (b : BackendState)
      → b.probe_in_flight ≡ true
      → (wait : ℕ) × (admit_open cooldown elapsed b ≡ (blocked wait, b))
  unfolding admit_open
  admit_open_probing cooldown elapsed b h = elim (Bool-cases (ltb elapsed cooldown)) [
    | inl early ↦ (cooldown - elapsed, if_true _ _ early)
    | inr late ↦ (0, if_false _ _ late ∙ if_true _ _ h)
  ]

  Probing-blocked :
      {client : ClientConfig} {s : RegistryState F} (now : ℕ) (p : Probing client s)
      → (wait : ℕ) × (allow fl client now s ≡ some (blocked wait, put client p.state s))
  Probing-blocked {client} {s} now p =
      let (wait, e) = admit_open_probing p.cooldown (now - p.opened) p.state p.probe in
      (
        wait,
        allow-IsOpen fl now p.is_open
            ∙ ap (λ (q : AttemptPermission × BackendState). some (q.0, put client q.1 s)) e,
      )

  Probing-kept :
      {client : ClientConfig} (s t : RegistryState F)
      → t.config ≡ s.config
      → lookup client.name t.backends ≡ lookup client.name s.backends
      → Probing client s
      → Probing client t
  Probing-kept s t c l p = record {
    state = p.state;
    opened = p.opened;
    cooldown = p.cooldown;
    is_open = record {
      enabled = rw c p.is_open.enabled;
      stored = l ∙ p.is_open.stored;
      same_url = p.is_open.same_url;
      opened_at = p.is_open.opened_at;
      cools = rw c p.is_open.cools;
    };
    probe = p.probe;
  }

  -- An event other than a change of policy or of the backend's address, or a report about it.
  abbrev pub IsAside : ClientConfig → Event F → Type 0
  IsAside client (configures c) = ⊥
  IsAside client (asks other now) =
      (str_eq other.name client.name ≡ true) → other.base_url ≡ client.base_url
  IsAside client (succeeds other) = str_eq other.name client.name ≡ false
  IsAside client (fails other now) = str_eq other.name client.name ≡ false

  Probing-renamed :
      {client other : ClientConfig} {s : RegistryState F}
      → other.name ≡ client.name
      → other.base_url ≡ client.base_url
      → Probing client s
      → Probing other s
  Probing-renamed n u p = record {
    state = p.state;
    opened = p.opened;
    cooldown = p.cooldown;
    is_open = IsOpen-renamed fl n u p.is_open;
    probe = p.probe;
  }

  Probing-asked :
      {client : ClientConfig} (other : ClientConfig) (now : ℕ) (s : RegistryState F)
      {t : RegistryState F}
      → IsAside client (asks other now)
      → Probing client s
      → step fl (asks other now) s ≡ some t
      → Probing client t
  unfolding step Probing-renamed lookup
  Probing-asked {client} other now s {t} aside p h =
      let (r, e, e') = >>=-eq-some (allow fl other now s) _ h in
      subst (Probing client) (eq_of_some e') (elim (Bool-cases (str_eq other.name client.name)) [
        | inl same ↦
            let n : other.name ≡ client.name = (eq_iff _ _).0 same in
            let q : Probing other s = Probing-renamed n (aside same) p in
            let (wait, b) = Probing-blocked now q in
            let e2 : r.1 ≡ put other q.state s =
              ap (λ (x : AttemptPermission × RegistryState F). x.1) (eq_of_some (sym e ∙ b)) in
            Probing-kept s r.1 (config-allow fl other now s e)
              (ap (λ (x : RegistryState F). lookup client.name x.backends) e2
                ∙ lookup-put_renamed fl other client p.state s n p.is_open.stored)
              p
        | inr apart ↦
            Probing-kept s r.1 (config-allow fl other now s e)
              (lookup-allow fl other now s client.name apart e) p
      ])

  Probing-step :
      {client : ClientConfig} (e : Event F) (s : RegistryState F) {t : RegistryState F}
      → IsAside client e
      → Probing client s
      → step fl e s ≡ some t
      → Probing client t
  unfolding step
  Probing-step (configures c) s aside p h = absurd aside
  Probing-step (asks other now) s aside p h = Probing-asked other now s aside p h
  Probing-step {client} (succeeds other) s aside p h = subst (Probing client) (eq_of_some h) (
      Probing-kept s _ (config-record_success other s)
        (lookup-record_success other s client.name aside) p)
  Probing-step {client} (fails other now) s aside p h = subst (Probing client) (eq_of_some h) (
      Probing-kept s _ (config-record_failure other now s)
        (lookup-record_failure other now s client.name aside) p)

  Probing-run :
      {client : ClientConfig} (es : List (Event F)) (s : RegistryState F) {t : RegistryState F}
      → All (IsAside client) es
      → Probing client s
      → run fl es s ≡ some t
      → Probing client t
  unfolding run
  Probing-run {client} [] s aside p h = subst (Probing client) (eq_of_some h) p
  Probing-run (e ∷ es) s aside p h =
      let (u, first, rest) = >>=-eq-some (step fl e s) _ h in
      Probing-run es u aside.1 (Probing-step e s aside.0 p first) rest

  admit_open_half_open :
      (cooldown elapsed : ℕ) (b : BackendState)
      → (admit_open cooldown elapsed b).0 ≡ half_open
      → (admit_open cooldown elapsed b).1 ≡ record b { probe_in_flight = true }
  unfolding admit_open
  admit_open_half_open cooldown elapsed b h = ground arith

  Probing-put :
      (client : ClientConfig) (s : RegistryState F) (b : BackendState) (opened cooldown : ℕ)
      → s.config.enabled ≡ true
      → str_eq b.base_url client.base_url ≡ true
      → b.opened_at ≡ some opened
      → cooldown_for_state fl s.config b ≡ some cooldown
      → Probing client (put client (record b { probe_in_flight = true }) s)
  unfolding cooldown_for_state
  Probing-put client s b opened cooldown on same o d = record {
    state = record b { probe_in_flight = true };
    opened = opened;
    cooldown = cooldown;
    is_open = record {
      enabled = rw (config-put fl client (record b { probe_in_flight = true }) s) on;
      stored = lookup-put_self fl client (record b { probe_in_flight = true }) s;
      same_url = same;
      opened_at = o;
      cools = rw (config-put fl client (record b { probe_in_flight = true }) s) d;
    };
    probe = refl;
  }

  -- A backend that answers half-open was open, and has its probe recorded.
  pub half_open_cases :
      (c : HealthCheckConfig F) (client : ClientConfig) (now : ℕ) (b : BackendState)
      (p : AttemptPermission × BackendState)
      → allow_backend fl c client now b ≡ some p
      → p.0 ≡ half_open
      → (opened : ℕ) × (cooldown : ℕ) × (str_eq b.base_url client.base_url ≡ true)
        × (b.opened_at ≡ some opened)
        × (cooldown_for_state fl c b ≡ some cooldown)
        × (p.1 ≡ record b { probe_in_flight = true })
  unfolding allow_backend
  half_open_cases c client now b p h half = elim (Bool-cases (str_eq b.base_url client.base_url)) [
    | inl same ↦ elim (admit_cases fl c now b (sym (if_true _ _ same) ∙ h)) [
      | inl (_, e) ↦ absurd (cc (ap (λ (q : AttemptPermission × BackendState). q.0) e))
      | inr (t, d, o, cools, e) ↦
          let e0 : (admit_open d (now - t) b).0 ≡ half_open =
            ap (λ (q : AttemptPermission × BackendState). q.0) (sym e) ∙ half in
          (
            t,
            d,
            same,
            o,
            cools,
            ap (λ (q : AttemptPermission × BackendState). q.1) e
                ∙ admit_open_half_open d (now - t) b e0,
          )
    ]
    | inr moved ↦ absurd (
        cc (
          ap (λ (q : AttemptPermission × BackendState). q.0)
            (eq_of_some (sym (if_false _ _ moved) ∙ h))))
  ]

  pub Probing-half_open :
      (client : ClientConfig) (now : ℕ) (s : RegistryState F) {t : RegistryState F}
      → allow fl client now s ≡ some (half_open, t)
      → Probing client t
  Probing-half_open client now s {t} h = elim (allow_cases fl client now s h) [
    | inl (_, e) ↦ absurd (cc (ap (λ (q : AttemptPermission × RegistryState F). q.0) e))
    | inr (p, on, admitted, e) ↦
        let (opened, d, same, o, cools, e1) =
          half_open_cases s.config client now (entry client s.backends) p admitted
            (sym (ap (λ (q : AttemptPermission × RegistryState F). q.0) e)) in
        subst (Probing client)
          (sym (
            ap (λ (q : AttemptPermission × RegistryState F). q.1) e
            ∙ ap (λ (b : BackendState). put client b s) e1))
          (Probing-put client s _ opened d on same o cools)
  ]

  -- While a probe is under way the backend is blocked for everybody else: after the answer
  -- half-open, and any further calls that do not reconfigure the registry or the backend's address
  -- and do not report on this backend, every request for the backend is answered blocked.
  pub half_open_exclusive :
      (client : ClientConfig) (now later : ℕ) (s t u : RegistryState F) (es : List (Event F))
      → allow fl client now s ≡ some (half_open, t)
      → All (IsAside client) es
      → run fl es t ≡ some u
      → (wait : ℕ) × (v : RegistryState F) × (allow fl client later u ≡ some (blocked wait, v))
  half_open_exclusive client now later s t u es h aside r =
      let p = Probing-run es t aside (Probing-half_open client now s h) r in
      let (wait, e) = Probing-blocked later p in (wait, _, e)
