-- ===== src/CircuitBreaker/Opened.antt =====
-- What services/circuit_breaker.rs answers to the client of an open backend.
use que_qiao_router.Base.{
  ℕ, ◌-◌, ◌≡◌, refl, sym, ◌∙◌, true, some, arith, str_eq, lookup, lookup-insert_self, if_true,
}
use que_qiao_router.Base.Floats.{Floats}
use que_qiao_router.Config.{ClientConfig, HealthCheckConfig}
use que_qiao_router.CircuitBreaker.{
  AttemptPermission, BackendState, RegistryState, entry, put, admit_open, admit, allow_backend,
  allow, cooldown_for_state,
}

module _ (fl : Floats) where
  open fl use {F}

  -- An enabled registry holds the state of the client's backend, open since a known instant.
  pub record IsOpen (client : ClientConfig) (s : RegistryState F) (b : BackendState)
      (opened cooldown : ℕ) : Type 0 where
    pub enabled : s.config.enabled ≡ true
    pub stored : lookup client.name s.backends ≡ some b
    pub same_url : str_eq b.base_url client.base_url ≡ true
    pub opened_at : b.opened_at ≡ some opened
    pub cools : cooldown_for_state fl s.config b ≡ some cooldown

  pub admit_of_opened :
      (c : HealthCheckConfig F) (now : ℕ) (b : BackendState) {opened cooldown : ℕ}
      → b.opened_at ≡ some opened
      → cooldown_for_state fl c b ≡ some cooldown
      → admit fl c now b ≡ some (admit_open cooldown (now - opened) b)
  unfolding admit
  admit_of_opened c now b e d = ground arith

  pub allow_of_admit :
      (client : ClientConfig) (s : RegistryState F) (b : BackendState) (now : ℕ)
      {r : AttemptPermission × BackendState}
      → s.config.enabled ≡ true
      → entry client s.backends ≡ b
      → str_eq b.base_url client.base_url ≡ true
      → admit fl s.config now b ≡ some r
      → allow fl client now s ≡ some (r.0, put client r.1 s)
  unfolding allow allow_backend
  allow_of_admit client s b now on e same h = rw (if_true _ _ on, e, if_true _ _ same, h)

  pub entry_of_lookup :
      (client : ClientConfig) (s : RegistryState F) {b : BackendState}
      → lookup client.name s.backends ≡ some b
      → entry client s.backends ≡ b
  unfolding entry
  entry_of_lookup client s e = rw e

  -- The answer to a client of an open backend.
  pub allow-IsOpen :
      {client : ClientConfig} {s : RegistryState F} {b : BackendState} {opened cooldown : ℕ}
      (now : ℕ)
      → IsOpen client s b opened cooldown
      → allow fl client now s
        ≡ some (
          (admit_open cooldown (now - opened) b).0,
          put client (admit_open cooldown (now - opened) b).1 s,
        )
  allow-IsOpen {client} {s} {b} now h =
      allow_of_admit client s b now h.enabled (entry_of_lookup client s h.stored) h.same_url
        (admit_of_opened s.config now b h.opened_at h.cools)

  -- The client's name and address under another entry of the configuration.
  pub IsOpen-renamed :
      {client other : ClientConfig} {s : RegistryState F} {b : BackendState} {opened cooldown : ℕ}
      → other.name ≡ client.name
      → other.base_url ≡ client.base_url
      → IsOpen client s b opened cooldown
      → IsOpen other s b opened cooldown
  IsOpen-renamed n u h = record {
    enabled = h.enabled;
    stored = rw n h.stored;
    same_url = rw u h.same_url;
    opened_at = h.opened_at;
    cools = h.cools;
  }

  pub config-put :
      (client : ClientConfig) (b : BackendState) (s : RegistryState F)
      → (put client b s).config ≡ s.config
  unfolding put
  config-put client b s = refl

  pub lookup-put_self :
      (client : ClientConfig) (b : BackendState) (s : RegistryState F)
      → lookup client.name (put client b s).backends ≡ some b
  unfolding put
  lookup-put_self client b s = lookup-insert_self client.name b s.backends

  pub lookup-put_renamed :
      (other client : ClientConfig) (b : BackendState) (s : RegistryState F)
      → other.name ≡ client.name
      → lookup client.name s.backends ≡ some b
      → lookup client.name (put other b s).backends ≡ lookup client.name s.backends
  lookup-put_renamed other client b s n h = rw (← n) (lookup-put_self other b s) ∙ sym h
