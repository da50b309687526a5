-- ===== src/Dispatcher/Execute.antt =====
-- services/dispatcher.rs: the loop over the clients of a model and the loop over fallback models.
-- A result none or `aborted` is the panic of the registry's backoff arithmetic, which ends the
-- process.
use que_qiao_router.Base.{
  ℕ, zero, suc, String, Bool, true, false, Option, none, some, List, [], ◌∷◌, ◌++◌, ◌>>=◌,
}
use que_qiao_router.Base.Floats.{Floats}
use que_qiao_router.Base.Int.{ℤ}
use que_qiao_router.Config.{ClientConfig, LoadBalancingStrategy, least_connections}
use que_qiao_router.CircuitBreaker.{blocked, RegistryState, allow, configure}
use que_qiao_router.Routing.{RoutingKey, select_clients}
use que_qiao_router.Response.{UpstreamClientErrorKind, Response, client_not_found, into_response}
use que_qiao_router.Dispatcher.{
  Reply, Environment, Run, ChainResult, respond, fall_back, exhausted, LoopEnd, returned, finished,
  accept, continue, judge, account, conclude, decorate, exhausted_response, find_matching_clients,
}

pub data Outcome (F : Type 0) (W : Type 0) : Type 0 where
  answered : Response → Run F W → Outcome F W
  aborted : Outcome F W
  out_of_fuel : Outcome F W

module _ (fl : Floats) {W : Type 0} where
  open fl use {F}

  module _ (env : Environment F W) where
    -- The other tasks move.
    unfoldable pub pause : Run F W → Run F W
    pause run =
        let r = env.elapse run.world run.registry in record run { world = r.0; registry = r.1 }

    -- One client that may be tried: its name is noted, the handler is called, and the answer is
    -- entered in the registry at the time of the answer.
    unfoldable pub attempt : ClientConfig → String → Run F W → Reply × Run F W
    unfolding account
    attempt client model run =
        let r = env.call run.world run.registry client model in
        (
          r.0,
          record run {
            world = r.1;
            registry = account client r.0 (env.clock r.1) r.2;
            tried = run.tried ++ client.name ∷ [];
          },
        )

    unfoldable pub try_clients :
        List ClientConfig
        → String
        → Bool
        → Option (UpstreamClientErrorKind × Response)
        → Run F W
        → Option (LoopEnd × Run F W)
    unfolding pause attempt judge
    try_clients [] model attempted last run = some (finished attempted last, run)
    try_clients (c ∷ cs) model attempted last run = do
      r ← allow fl c (env.clock (pause run).world) (pause run).registry
      let ready = record (pause run) { registry = r.1 }
      elim r.0 [
        | blocked _ ↦ try_clients cs model attempted last ready
        | _ ↦
            let (reply, after) = attempt c model ready in
            elim (judge c model last reply) [
              | accept resp ↦ some (returned resp, after)
              | continue last' ↦ try_clients cs model true last' after
            ]
      ]

    unfoldable pub end_result : List ClientConfig → String → LoopEnd → ChainResult
    unfolding conclude
    end_result clients model (returned resp) = respond resp
    end_result clients model (finished attempted last) = conclude clients model attempted last

    -- `execute_client_chain_with_registry`.
    unfoldable pub execute_client_chain :
        List ClientConfig → String → Run F W → Option (ChainResult × Run F W)
    unfolding try_clients end_result
    execute_client_chain clients model run = do
      r ← try_clients clients model false none run
      some (end_result clients model r.0, r.1)

    abbrev counts_for :
        LoadBalancingStrategy
        → W
        → List ClientConfig
        → String
        → Option String
        → Option (List (String × ℤ))
    counts_for least_connections w clients model endpoint =
        some (env.active_counts w clients model endpoint)
    counts_for _ w clients model endpoint = none

    -- `resolve_clients`, at the world in which it reads the configuration; no clients stand for
    -- its error.
    unfoldable pub resolve_clients :
        String → Option (List RoutingKey) → Option String → W → List ClientConfig
    unfolding select_clients find_matching_clients
    resolve_clients model keys endpoint w =
        let config = env.config w in
        let clients = find_matching_clients config.openai_clients model in
        select_clients fl (env.entropy w) clients keys config.strategy
          (counts_for config.strategy w clients model endpoint)

    -- What the result of a chain leads to; `next` goes on with a fallback model.
    unfoldable pub after_chain :
        String → (String → Run F W → Outcome F W) → Option (ChainResult × Run F W) → Outcome F W
    unfolding decorate exhausted_response
    after_chain model next none = aborted
    after_chain model next (some (respond resp, after)) = answered (decorate after.tried resp) after
    after_chain model next (some (fall_back fallback, after)) =
        next fallback (record after { failovers = after.failovers ++ model ∷ [] })
    after_chain model next (some (exhausted, after)) =
        answered (exhausted_response model after.tried) after

    unfoldable pub with_clients :
        String → (String → Run F W → Outcome F W) → Run F W → List ClientConfig → Outcome F W
    unfolding after_chain execute_client_chain into_response
    with_clients model next start [] = answered (into_response (client_not_found model)) start
    with_clients model next start (c ∷ cs) =
        after_chain model next (execute_client_chain (c ∷ cs) model start)

    -- The loop of `execute`, on fuel.
    unfoldable pub execute_loop :
        ℕ → String → Option (List RoutingKey) → Option String → Run F W → Outcome F W
    unfolding pause resolve_clients with_clients
    execute_loop zero model keys endpoint run = out_of_fuel
    execute_loop (suc fuel) model keys endpoint run =
        with_clients model (λ fallback after. execute_loop fuel fallback keys endpoint after)
          (pause run) (resolve_clients model keys endpoint (pause run).world)

    -- `execute`: the policy of the registry is that of the configuration at the start.
    unfoldable pub execute :
        ℕ → String → Option (List RoutingKey) → Option String → W → RegistryState F → Outcome F W
    unfolding execute_loop
    execute fuel model keys endpoint world registry =
        let r = env.elapse world registry in
        execute_loop fuel model keys endpoint (record {
          world = r.0;
          registry = configure fl (env.config r.0).health_check r.1;
          tried = [];
          failovers = [];
        })
