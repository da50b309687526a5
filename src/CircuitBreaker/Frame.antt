-- ===== src/CircuitBreaker/Frame.antt =====
-- What a call of the registry leaves alone: the policy, and every other backend's state.
use que_qiao_router.Base.{
  ℕ, ◌≡◌, ap, ◌∙◌, String, false, inl, inr, some, str_eq, lookup, lookup-insert_self,
  lookup-insert_ne, if_true, if_false, Bool-cases,
}
use que_qiao_router.Base.Floats.{Floats}
use que_qiao_router.Config.{ClientConfig}
use que_qiao_router.CircuitBreaker.{
  AttemptPermission, BackendState, RegistryState, entry, put, allow, record_success, record_failure,
}
use que_qiao_router.CircuitBreaker.Invariant.{allow_cases}

module _ {F : Type 0} where
  pub entry-put :
      (client : ClientConfig) (b : BackendState) (s : RegistryState F)
      → entry client (put client b s).backends ≡ b
  unfolding entry put
  entry-put client b s = rw (lookup-insert_self client.name b s.backends)

  pub lookup-put :
      (client : ClientConfig) (b : BackendState) (s : RegistryState F) (name : String)
      → str_eq client.name name ≡ false
      → lookup name (put client b s).backends ≡ lookup name s.backends
  unfolding put
  lookup-put client b s name h = lookup-insert_ne client.name name b s.backends h

  pub config-record_success :
      (client : ClientConfig) (s : RegistryState F) → (record_success client s).config ≡ s.config
  unfolding record_success put
  config-record_success client s = elim (Bool-cases s.config.enabled) [
    | inl on ↦ ap (λ (t : RegistryState F). t.config) (if_true _ _ on)
    | inr off ↦ ap (λ (t : RegistryState F). t.config) (if_false _ _ off)
  ]

  pub config-record_failure :
      (client : ClientConfig) (now : ℕ) (s : RegistryState F)
      → (record_failure client now s).config ≡ s.config
  unfolding record_failure put
  config-record_failure client now s = elim (Bool-cases s.config.enabled) [
    | inl on ↦ ap (λ (t : RegistryState F). t.config) (if_true _ _ on)
    | inr off ↦ ap (λ (t : RegistryState F). t.config) (if_false _ _ off)
  ]

  pub lookup-record_success :
      (client : ClientConfig) (s : RegistryState F) (name : String)
      → str_eq client.name name ≡ false
      → lookup name (record_success client s).backends ≡ lookup name s.backends
  unfolding record_success
  lookup-record_success client s name h = elim (Bool-cases s.config.enabled) [
    | inl on ↦ rw (if_true _ _ on) (lookup-put client _ s name h)
    | inr off ↦ rw (if_false _ _ off)
  ]

  pub lookup-record_failure :
      (client : ClientConfig) (now : ℕ) (s : RegistryState F) (name : String)
      → str_eq client.name name ≡ false
      → lookup name (record_failure client now s).backends ≡ lookup name s.backends
  unfolding record_failure
  lookup-record_failure client now s name h = elim (Bool-cases s.config.enabled) [
    | inl on ↦ rw (if_true _ _ on) (lookup-put client _ s name h)
    | inr off ↦ rw (if_false _ _ off)
  ]

module _ (fl : Floats) where
  open fl use {F}

  pub config-allow :
      (client : ClientConfig) (now : ℕ) (s : RegistryState F)
      {r : AttemptPermission × RegistryState F}
      → allow fl client now s ≡ some r
      → r.1.config ≡ s.config
  unfolding put
  config-allow client now s h = elim (allow_cases fl client now s h) [
    | inl (_, e) ↦ ap (λ (q : AttemptPermission × RegistryState F). q.1.config) e
    | inr (p, _, _, e) ↦ ap (λ (q : AttemptPermission × RegistryState F). q.1.config) e
  ]

  pub lookup-allow :
      (client : ClientConfig) (now : ℕ) (s : RegistryState F) (name : String)
      {r : AttemptPermission × RegistryState F}
      → str_eq client.name name ≡ false
      → allow fl client now s ≡ some r
      → lookup name r.1.backends ≡ lookup name s.backends
  lookup-allow client now s name other h = elim (allow_cases fl client now s h) [
    | inl (_, e) ↦ ap (λ (q : AttemptPermission × RegistryState F). lookup name q.1.backends) e
    | inr (p, _, _, e) ↦
        ap (λ (q : AttemptPermission × RegistryState F). lookup name q.1.backends) e
        ∙ lookup-put client p.1 s name other
  ]
