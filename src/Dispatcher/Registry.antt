-- ===== src/Dispatcher/Registry.antt =====
-- A request of services/dispatcher.rs leaves the circuit breaker consistent.
use que_qiao_router.Base.{String}
use que_qiao_router.Base.Floats.{Floats}
use que_qiao_router.Config.{ClientConfig}
use que_qiao_router.CircuitBreaker.{RegistryState}
use que_qiao_router.CircuitBreaker.Invariant.{IsValidRegistry}
use que_qiao_router.Response.{Response}
use que_qiao_router.Dispatcher.{Environment, Run}
use que_qiao_router.Dispatcher.Execute.{Outcome, answered, aborted, out_of_fuel}

module _ (fl : Floats) {W : Type 0} where
  open fl use {F}

  -- The other tasks, and the handlers, keep the registry consistent.
  pub record KeepsValid (env : Environment F W) : Type 0 where
    pub elapse_keeps :
        (w : W) (s : RegistryState F) → IsValidRegistry s → IsValidRegistry (env.elapse w s).1
    pub call_keeps :
        (w : W) (s : RegistryState F) (c : ClientConfig) (model : String)
        → IsValidRegistry s
        → IsValidRegistry (env.call w s c model).2

  module _ (env : Environment F W) (keeps : KeepsValid env) where
    abbrev Valid : Run F W → Type 0
    Valid run = IsValidRegistry run.registry

    ValidOutcome : Outcome F W → Type 0
    ValidOutcome (answered resp run) = Valid run
    ValidOutcome aborted = Unit
    ValidOutcome out_of_fuel = Unit
