-- ===== src/Dispatcher/Cycle.antt =====
-- A cycle of fallback models keeps the loop of services/dispatcher.rs going for ever where health
-- checks are off and no backend gives an answer that ends a chain.
use que_qiao_router.Base.{
  ℕ, zero, suc, ◌≡◌, refl, ◌∙◌, inl, inr, String, Bool, true, false, Option, none, some, List, [],
  ◌∷◌, Bool-cases, if_true, if_false, ◌||◌, arith,
}
use que_qiao_router.Base.Floats.{Floats}
use que_qiao_router.Config.{ClientConfig}
use que_qiao_router.CircuitBreaker.{RegistryState, allowed, configure}
use que_qiao_router.CircuitBreaker.Invariant.{allow_of_disabled}
use que_qiao_router.CircuitBreaker.Frame.{config-record_failure, config-record_success}
use que_qiao_router.Routing.{RoutingKey}
use que_qiao_router.Dispatcher.{
  Reply, ok, err, Environment, Run, fall_back, finished, continue, judge, account, is_failure,
  conclude, select_fallback_model,
}
use que_qiao_router.Dispatcher.Execute.{
  out_of_fuel, pause, attempt, try_clients, end_result, resolve_clients, execute_client_chain,
  after_chain, with_clients, execute_loop, execute,
}
use que_qiao_router.Dispatcher.Trace.{LastError, try_clients_continue, try_clients_nil}
use que_qiao_router.Dispatcher.Answers.{is_done, is_cons}

abbrev pub IsDisabled : {F : Type 0} → RegistryState F → Type 0
IsDisabled s = s.config.enabled ≡ false

judge_not_done :
    (c : ClientConfig) (model : String) (last : LastError) (reply : Reply)
    → is_done reply ≡ false
    → (last' : LastError) × (judge c model last reply ≡ continue last')
unfolding judge
judge_not_done c model last (err e) h = (last, refl)
judge_not_done c model last (ok resp) h = (_, if_false _ _ h)

account-IsDisabled :
    {F : Type 0} (c : ClientConfig) (reply : Reply) (now : ℕ) (s : RegistryState F)
    → IsDisabled s
    → IsDisabled (account c reply now s)
unfolding account
account-IsDisabled c reply now s h = elim (Bool-cases (is_failure reply)) [
  | inl bad ↦ rw (if_true _ _ bad, config-record_failure c now s) h
  | inr good ↦ rw (if_false _ _ good, config-record_success c s) h
]

module _ (fl : Floats) {W : Type 0} where
  open fl use {F}

  -- Health checks are off, whatever other tasks do, and no answer ends a chain.
  pub record Hopeless (env : Environment F W) : Type 0 where
    pub elapse_keeps : (w : W) (s : RegistryState F) → IsDisabled s → IsDisabled (env.elapse w s).1
    pub call_keeps :
        (w : W) (s : RegistryState F) (c : ClientConfig) (model : String)
        → IsDisabled s
        → IsDisabled (env.call w s c model).2
    pub no_answer :
        (w : W) (s : RegistryState F) (c : ClientConfig) (model : String)
        → is_done (env.call w s c model).0 ≡ false
    pub off : (w : W) → (env.config w).health_check.enabled ≡ false

  module _ (env : Environment F W) (hopeless : Hopeless env) where
    -- All clients are tried, in vain.
    try_clients_in_vain :
        (cs : List ClientConfig) (model : String) (attempted : Bool) (last : LastError)
        (run : Run F W)
        → IsDisabled run.registry
        → (tried : Bool) × (last' : LastError) × (after : Run F W) × (try_clients fl env cs model
              attempted last run
            ≡ some (finished tried last', after))
          × IsDisabled after.registry
          × (tried ≡ (attempted || is_cons cs))
    unfolding pause attempt
    try_clients_in_vain [] model attempted last run h =
        (attempted, last, run, try_clients_nil fl env model attempted last run, h, ground arith)
    try_clients_in_vain (c ∷ cs) model attempted last run h =
        let off = hopeless.elapse_keeps run.world run.registry h in
        let ready = record (pause fl env run) { registry = (pause fl env run).registry } in
        let (last', j) =
          judge_not_done c model last (attempt fl env c model ready).0
            (hopeless.no_answer ready.world ready.registry c model) in
        let called =
          account-IsDisabled c (attempt fl env c model ready).0
            (env.clock (attempt fl env c model ready).1.world) _
            (hopeless.call_keeps ready.world ready.registry c model off) in
        let (tried, last'', after, e, h', t) =
          try_clients_in_vain cs model true last' (attempt fl env c model ready).1 called in
        (
          tried,
          last'',
          after,
          try_clients_continue fl env model c cs attempted last last' run allowed
                (pause fl env run).registry (allow_of_disabled fl c _ _ off) (λ w q. cc q) j
              ∙ e,
          h',
          ground arith,
        )

    -- So a chain ends at the fallback.
    conclude_fallback :
        (clients : List ClientConfig) (model fallback : String) (last : LastError)
        → select_fallback_model clients ≡ some fallback
        → conclude clients model true last ≡ fall_back fallback
    unfolding conclude
    conclude_fallback clients model fallback last e = rw (e, conclude)

    chain_falls_back :
        (c : ClientConfig) (cs : List ClientConfig) (model fallback : String) (run : Run F W)
        → IsDisabled run.registry
        → select_fallback_model (c ∷ cs) ≡ some fallback
        → (after : Run F W) × IsDisabled after.registry
          × (execute_client_chain fl env (c ∷ cs) model run ≡ some (fall_back fallback, after))
    unfolding execute_client_chain end_result
    chain_falls_back c cs model fallback run h e =
        let (tried, last, after, made, off, t) =
          try_clients_in_vain (c ∷ cs) model false none run h in
        (after, off, rw (made, t, conclude_fallback (c ∷ cs) model fallback last e))

    module _ (Trapped : String → Type 0) (keys : Option (List RoutingKey))
        (endpoint : Option String)
        (trap : (model : String) (w : W)
          → Trapped model
          → (c : ClientConfig) × (cs : List ClientConfig) × (fallback : String) × (resolve_clients
                fl env model keys endpoint w
              ≡ c ∷ cs)
            × (select_fallback_model (c ∷ cs) ≡ some fallback)
            × Trapped fallback) where
      loop_diverges :
          (fuel : ℕ) (model : String) (run : Run F W)
          → Trapped model
          → IsDisabled run.registry
          → execute_loop fl env fuel model keys endpoint run ≡ out_of_fuel
      unfolding execute_loop with_clients after_chain pause
      loop_diverges zero model run t h = refl
      loop_diverges (suc fuel) model run t h =
          let start = pause fl env run in
          let (c, cs, fallback, found, next, t') = trap model start.world t in
          let (after, off, made) =
            chain_falls_back c cs model fallback start
              (hopeless.elapse_keeps run.world run.registry h) next in
          rw (found, made) (loop_diverges fuel fallback _ t' off)

  -- Where health checks are off and no answer ends a chain, a request for a model among a set in
  -- which every model has a backend and falls back to one of the set never ends: no number of
  -- rounds is enough.
  pub execute_diverges :
      (env : Environment F W) (Trapped : String → Type 0) (keys : Option (List RoutingKey))
      (endpoint : Option String) (fuel : ℕ) (model : String) (world : W)
      (registry : RegistryState F)
      → Hopeless env
      → ((m : String) (w : W)
          → Trapped m
          → (c : ClientConfig) × (cs : List ClientConfig) × (fallback : String) × (resolve_clients
                fl env m keys endpoint w
              ≡ c ∷ cs)
            × (select_fallback_model (c ∷ cs) ≡ some fallback)
            × Trapped fallback)
      → Trapped model
      → execute fl env fuel model keys endpoint world registry ≡ out_of_fuel
  unfolding execute configure
  execute_diverges env Trapped keys endpoint fuel model world registry hopeless trap t =
      loop_diverges env hopeless Trapped keys endpoint trap fuel model _ t (hopeless.off _)
