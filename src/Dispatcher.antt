-- ===== src/Dispatcher.antt =====
-- services/dispatcher.rs: the choice of backends for a request, the attempts in order, and the
-- fallback to other models. The environment is an argument: the configuration and the clock that a
-- request reads, the handler that it calls, and what other tasks do to the shared registry between
-- two of its steps. The log lines are left out.
pub mod Execute
pub mod Cycle
pub mod Fallback
pub mod Answers
pub mod Trace
pub mod Calls
pub mod Registry
pub mod Classification
mod Tests
use que_qiao_router.Base.{
  ℕ, zero, suc, String, Bool, true, false, not, ◌&&◌, ◌||◌, Option, none, some, List, [], ◌∷◌, ◌++◌,
  ◌==◌, if◌then◌else◌, or_else, ◌>>=◌,
}
use que_qiao_router.Base.Floats.{Floats}
use que_qiao_router.Base.Int.{ℤ}
use que_qiao_router.Config.{
  ClientConfig, Config, LoadBalancingStrategy, least_connections, is_some, matches_model,
}
use que_qiao_router.CircuitBreaker.{
  AttemptPermission, allowed, half_open, blocked, RegistryState, allow, record_success,
  record_failure, configure,
}
use que_qiao_router.Routing.{Entropy, RoutingKey, select_clients}
use que_qiao_router.Response.{
  UpstreamClientErrorKind, credential_invalid, permission_denied, model_not_supported, rate_limited,
  request_rejected, Message, client_error, client_error_of, passing_through, cooling_down,
  all_failed, with_tried, AccessLogMeta, error_body, Response, is_success, is_client_error,
  is_server_error, AppError, client_not_found, internal_server_error, into_response,
}

-- `classify_upstream_client_error`.
unfoldable pub classify : ℕ → UpstreamClientErrorKind
classify status =
    if status == 401
    then credential_invalid
    else if status == 403
    then permission_denied
    else if status == 404
    then model_not_supported
    else if status == 429
    then rate_limited
    else request_rejected

unfoldable pub counts_as_backend_failure : UpstreamClientErrorKind → Bool
counts_as_backend_failure rate_limited = true
counts_as_backend_failure _ = false

unfoldable pub is_rejected : UpstreamClientErrorKind → Bool
is_rejected request_rejected = true
is_rejected _ = false

unfoldable pub should_retry_on_client_error : ℕ → Bool
unfolding classify is_rejected
should_retry_on_client_error status = not (is_rejected (classify status))

unfoldable pub select_fallback_model : List ClientConfig → Option String
select_fallback_model [] = none
select_fallback_model (c ∷ cs) = elim c.fallback [
  | some model ↦ some model
  | none ↦ select_fallback_model cs
]

unfoldable pub find_matching_clients : List ClientConfig → String → List ClientConfig
find_matching_clients [] model = []
find_matching_clients (c ∷ cs) model =
    let rest = find_matching_clients cs model in if matches_model c model then c ∷ rest else rest

-- What a handler returns.
pub data Reply : Type 0 where
  ok : Response → Reply
  err : AppError → Reply

-- What one request meets. A step of the request happens at a state of the world; `elapse` is what
-- the others do to the world and to the registry before a step, and `call` is a call of the handler
-- with all that happens until it has answered.
pub record Environment (F : Type 0) (W : Type 0) : Type 0 where
  pub config : W → Config F
  pub clock : W → ℕ
  pub entropy : W → Entropy F
  pub active_counts : W → List ClientConfig → String → Option String → List (String × ℤ)
  pub elapse : W → RegistryState F → W × RegistryState F
  pub call : W → RegistryState F → ClientConfig → String → Reply × W × RegistryState F

-- The state of a request: the world, the registry, the names of the clients tried so far, and the
-- models whose failover counter was raised.
pub record Run (F : Type 0) (W : Type 0) : Type 0 where
  pub world : W
  pub registry : RegistryState F
  pub tried : List String
  pub failovers : List String

-- A missing entry for the access log is filled in.
unfoldable pub with_meta : String → ClientConfig → Option Message → Response → Response
with_meta model client error resp = elim resp.meta [
  | some _ ↦ resp
  | none ↦ record resp {
    meta =
        some (record { model = model; backend = client.name; error = error; request_body = none });
  }
]

unfoldable pub cooling_response : String → Response
cooling_response model = record {
  status = 503;
  body = error_body (cooling_down model) "upstream_unavailable";
  meta = some (record {
    model = model;
    backend = "unknown";
    error = some (cooling_down model);
    request_body = none;
  });
}

-- The last 4xx answer, on its way to the caller.
unfoldable pub pass_through : UpstreamClientErrorKind → Response → Response
pass_through kind resp = elim resp.meta [
  | none ↦ resp
  | some meta ↦ record resp {
    meta = some (record meta { error = some (passing_through resp.status kind) });
  }
]

pub data ChainResult : Type 0 where
  respond : Response → ChainResult
  fall_back : String → ChainResult
  exhausted : ChainResult

-- The clients are tried until one answer is returned, or to the end: whether one was tried at all,
-- and the last 4xx answer.
pub data LoopEnd : Type 0 where
  returned : Response → LoopEnd
  finished : Bool → Option (UpstreamClientErrorKind × Response) → LoopEnd

-- What an answer leads to: it is returned, or the next client is tried.
pub data Verdict : Type 0 where
  accept : Response → Verdict
  continue : Option (UpstreamClientErrorKind × Response) → Verdict

-- An answer that no other backend would better: a success, or a request that is at fault itself.
unfoldable pub is_final : ℕ → Bool
unfolding should_retry_on_client_error
is_final status =
    is_success status
    || is_client_error status && not (is_client_error status && should_retry_on_client_error status)

unfoldable pub judge :
    ClientConfig → String → Option (UpstreamClientErrorKind × Response) → Reply → Verdict
unfolding is_final with_meta
judge client model last (err e) = continue last
judge client model last (ok resp) =
    if is_final resp.status
    then accept (
        with_meta model client
          (if is_client_error resp.status then some (client_error resp.status) else none) resp)
    else continue (
        some (
          classify resp.status,
          with_meta model client (some (client_error_of resp.status (classify resp.status))) resp,
        ))

-- Whether an answer is recorded as a failure of the backend.
unfoldable pub is_failure : Reply → Bool
unfolding is_final classify counts_as_backend_failure
is_failure (err e) = true
is_failure (ok resp) =
    not (is_final resp.status) && counts_as_backend_failure (classify resp.status)

unfoldable pub account : {F : Type 0} → ClientConfig → Reply → ℕ → RegistryState F → RegistryState F
unfolding is_failure
account client reply now s =
    if is_failure reply then record_failure client now s else record_success client s

-- `execute_client_chain_with_registry` after its loop.
unfoldable pub conclude :
    List ClientConfig → String → Bool → Option (UpstreamClientErrorKind × Response) → ChainResult
unfolding cooling_response select_fallback_model pass_through
conclude clients model false last = respond (cooling_response model)
conclude clients model true last = elim (select_fallback_model clients) [
  | some fallback ↦ fall_back fallback
  | none ↦ elim last [ some (kind, resp) ↦ respond (pass_through kind resp) | none ↦ exhausted ]
]

-- The names that were tried are added to an error that is logged, and to the body of a 5xx.
unfoldable pub decorate_meta : List String → Response → AccessLogMeta → Option Message → Response
decorate_meta tried resp meta none = resp
decorate_meta tried resp meta (some message) =
    let meta' = record meta { error = some (with_tried message tried) } in
    if is_server_error resp.status
    then record resp {
      body = error_body (with_tried message tried) "internal_error";
      meta = some meta';
    }
    else record resp { meta = some meta' }

unfoldable pub decorate : List String → Response → Response
unfolding decorate_meta
decorate tried resp = elim resp.meta [
  | none ↦ resp
  | some meta ↦ decorate_meta tried resp meta meta.error
]

abbrev pub first_or : String → List String → String
first_or d [] = d
first_or d (x ∷ xs) = x

unfoldable pub exhausted_response : String → List String → Response
unfolding into_response
exhausted_response model tried =
    record (into_response (internal_server_error (all_failed model tried))) {
      meta = some (record {
        model = model;
        backend = first_or "unknown" tried;
        error = some (all_failed model tried);
        request_body = none;
      });
    }
