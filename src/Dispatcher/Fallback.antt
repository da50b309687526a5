-- ===== src/Dispatcher/Fallback.antt =====
-- The loop of services/dispatcher.rs over fallback models ends where the fallbacks have no cycle.
use mathlib.Core.HLevel.{Π_prop}
use native.Mathlib.Bridge.{le_prop}
use que_qiao_router.Base.{
  ℕ, zero, suc, ◌<◌, ◌≡◌, ◌≢◌, refl, ◌∙◌, inl, inr, String, true, Option, none, some, List, [], ◌∷◌,
  All, arith, Bool-cases, Option-cases, if_true, if_false,
}
use que_qiao_router.Base.Floats.{Floats}
use que_qiao_router.Base.Perms.{All-perm}
use que_qiao_router.Config.{ClientConfig, matches_model}
use que_qiao_router.CircuitBreaker.{RegistryState}
use que_qiao_router.Routing.{RoutingKey}
use que_qiao_router.Routing.Permutation.{select_clients-perm}
use que_qiao_router.Dispatcher.{
  Environment, Run, ChainResult, respond, fall_back, exhausted, select_fallback_model,
  find_matching_clients,
}
use que_qiao_router.Dispatcher.Execute.{
  Outcome, out_of_fuel, pause, resolve_clients, execute_loop, execute, after_chain, with_clients,
}
use que_qiao_router.Dispatcher.Answers.{execute_client_chain-Describes}

-- The client falls back to models of lower rank only.
abbrev pub Descends : (String → ℕ) → String → ClientConfig → Type 0
Descends rank model c =
    (fallback : String) → c.fallback ≡ some fallback → rank fallback < rank model

Descends-prop :
    (rank : String → ℕ) (model : String) (c : ClientConfig) → IsProp (Descends rank model c)
Descends-prop rank model c = Π_prop λ fallback. Π_prop λ e. le_prop

fallback-Descends :
    (rank : String → ℕ) (model fallback : String) (cs : List ClientConfig)
    → All (Descends rank model) cs
    → select_fallback_model cs ≡ some fallback
    → rank fallback < rank model
unfolding select_fallback_model
fallback-Descends rank model fallback [] h e = absurd (cc)
fallback-Descends rank model fallback (c ∷ cs) h e = elim (Option-cases c.fallback) [
  | inl missing ↦
      fallback-Descends rank model fallback cs h.1 (rw (missing, select_fallback_model) at e)
  | inr (m, found) ↦ h.0 fallback (found ∙ (rw (found, select_fallback_model) at e))
]

matching-Descends :
    (rank : String → ℕ) (model : String) (cs : List ClientConfig)
    → All (λ c. matches_model c model ≡ true → Descends rank model c) cs
    → All (Descends rank model) (find_matching_clients cs model)
unfolding find_matching_clients
matching-Descends rank model [] h = tt
matching-Descends rank model (c ∷ cs) h = elim (Bool-cases (matches_model c model)) [
  | inl yes_ ↦ rw (if_true _ _ yes_) (h.0 yes_, matching-Descends rank model cs h.1)
  | inr no_ ↦ rw (if_false _ _ no_) (matching-Descends rank model cs h.1)
]

module _ (fl : Floats) {W : Type 0} where
  open fl use {F}

  module _ (env : Environment F W) (rank : String → ℕ)
      (acyclic : (w : W) (model : String)
        → All
            (λ c. matches_model c model ≡ true → Descends rank model c)
            (env.config w).openai_clients) where
    resolve-Descends :
        (model : String) (keys : Option (List RoutingKey)) (endpoint : Option String) (w : W)
        → All (Descends rank model) (resolve_clients fl env model keys endpoint w)
    unfolding resolve_clients
    resolve-Descends model keys endpoint w =
        All-perm (Descends rank model) (Descends-prop rank model)
          (select_clients-perm fl (env.entropy w) _ keys (env.config w).strategy _)
          (matching-Descends rank model (env.config w).openai_clients (acyclic w model))

    after_chain-ne-out_of_fuel :
        (model : String) (next : String → Run F W → Outcome F W)
        (r : Option (ChainResult × Run F W))
        → ((fallback : String) (after : Run F W)
            → r ≡ some (fall_back fallback, after)
            → (start : Run F W) → next fallback start ≢ out_of_fuel)
        → after_chain fl env model next r ≢ out_of_fuel
    unfolding after_chain
    after_chain-ne-out_of_fuel model next none h = λ e. cc e
    after_chain-ne-out_of_fuel model next (some (respond resp, after)) h = λ e. cc e
    after_chain-ne-out_of_fuel model next (some (fall_back fallback, after)) h =
        h fallback after refl _
    after_chain-ne-out_of_fuel model next (some (exhausted, after)) h = λ e. cc e

    with_clients-ne-out_of_fuel :
        (model : String) (next : String → Run F W → Outcome F W) (start : Run F W)
        (cs : List ClientConfig)
        → All (Descends rank model) cs
        → ((fallback : String) (run : Run F W)
            → rank fallback < rank model
            → next fallback run ≢ out_of_fuel)
        → with_clients fl env model next start cs ≢ out_of_fuel
    unfolding with_clients
    with_clients-ne-out_of_fuel model next start [] all h = λ e. cc e
    with_clients-ne-out_of_fuel model next start (c ∷ cs) all h =
        after_chain-ne-out_of_fuel model next _ (λ fallback after e run.
          let (log, made, told) =
            execute_client_chain-Describes fl env model (c ∷ cs) start after (fall_back fallback)
              e in
          h fallback run (fallback-Descends rank model fallback (c ∷ cs) all told.2))

    loop_terminates :
        (fuel : ℕ) (model : String) (keys : Option (List RoutingKey)) (endpoint : Option String)
        (run : Run F W)
        → rank model < fuel
        → execute_loop fl env fuel model keys endpoint run ≢ out_of_fuel
    unfolding execute_loop
    loop_terminates zero model keys endpoint run h = absurd (omega arith)
    loop_terminates (suc fuel) model keys endpoint run h =
        with_clients-ne-out_of_fuel model _ (pause fl env run) _
          (resolve-Descends model keys endpoint (pause fl env run).world)
          (λ fallback after less. loop_terminates fuel fallback keys endpoint after (omega arith))

  -- If the fallbacks of the configuration descend along a rank of the models, whatever the
  -- configuration is reloaded to, then a request ends: as many rounds as the rank of its model, and
  -- one more, are enough, whatever the handlers answer.
  pub execute_terminates :
      (env : Environment F W) (rank : String → ℕ) (fuel : ℕ) (model : String)
      (keys : Option (List RoutingKey)) (endpoint : Option String) (world : W)
      (registry : RegistryState F)
      → ((w : W) (m : String)
          → All (λ c. matches_model c m ≡ true → Descends rank m c) (env.config w).openai_clients)
      → rank model < fuel
      → execute fl env fuel model keys endpoint world registry ≢ out_of_fuel
  unfolding execute
  execute_terminates env rank fuel model keys endpoint world registry acyclic h =
      loop_terminates env rank acyclic fuel model keys endpoint _ h
