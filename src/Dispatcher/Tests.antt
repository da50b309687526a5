-- ===== src/Dispatcher/Tests.antt =====
-- Requests of services/dispatcher.rs on small inputs, and the theorems at such inputs.
use que_qiao_router.Base.{
  ℕ, ◌<◌, ◌+◌, ◌≡◌, ◌≢◌, refl, subst, String, true, false, Option, none, some, List, [], ◌∷◌, All,
  arith, if◌then◌else◌, str_eq, lookup, insert, eq_of_some,
}
use que_qiao_router.Base.Sorting.{sort_by}
use que_qiao_router.Samples.{tenths, primary, spare, policy}
use que_qiao_router.Config.{
  ClientConfig, Config, HealthCheckConfig, random, matches_model, by_match, rewrite_of, any_str,
}
use que_qiao_router.CircuitBreaker.{
  BackendState, allow, record_failure, record_success, new_backend, allow_backend, entry, put,
  failure_backend, success_backend,
}
use que_qiao_router.Response.{Response, payload}
use que_qiao_router.Dispatcher.{
  Reply, ok, Environment, Run, ChainResult, respond, is_final, select_fallback_model,
}
use que_qiao_router.Dispatcher.Execute.{out_of_fuel, execute_client_chain, execute, resolve_clients}
use que_qiao_router.Dispatcher.Trace.{Log, Attempts}
use que_qiao_router.Dispatcher.Answers.{Describes, execute_client_chain-Describes}
use que_qiao_router.Dispatcher.Fallback.{Descends, execute_terminates}
use que_qiao_router.Dispatcher.Cycle.{Hopeless, execute_diverges}

answer : ℕ → Response
answer status = record { status = status; body = payload ""; meta = none }

-- The primary backend is rate limited.
abbrev limited : ClientConfig → String → Reply
limited client model = if str_eq client.name "primary" then ok (answer 429) else ok (answer 200)

-- One configuration; each step takes a nanosecond, and no other task uses the registry.
abbrev environment : Config ℕ → (ClientConfig → String → Reply) → Environment ℕ ℕ
environment config handler = record {
  config = λ _. config;
  clock = λ w. w;
  entropy = λ _. record { draw = λ i. i; hash = λ _ _. 0 };
  active_counts = λ _ _ _ _. [];
  elapse = λ w s. (w + 1, s);
  call = λ w s client model. (handler client model, w + 1, s);
}

abbrev config : List ClientConfig → HealthCheckConfig ℕ → Config ℕ
config clients health = record {
  openai_clients = clients;
  strategy = random;
  thinking_format = none;
  models_cache = record { ttl_seconds = 60 };
  health_check = health;
  config_generation = 1;
}

abbrev exact : ClientConfig → String → Option String → ClientConfig
exact client model fallback = record client {
  model_match = record { match_type = "exact"; value = model ∷ [] };
  fallback = fallback;
}

abbrev clients : List ClientConfig
clients = primary ∷ spare ∷ []

abbrev start : Run ℕ ℕ
start = record {
  world = 0;
  registry = record { config = policy; backends = [] };
  tried = [];
  failovers = [];
}

abbrev backend : String → ℕ → BackendState
backend base_url failures = record {
  base_url = base_url;
  consecutive_failures = failures;
  opened_at = none;
  backoff_level = 0;
  probe_in_flight = false;
}

-- The primary backend has a failure, and the answer is that of the spare one.
abbrev end : Run ℕ ℕ
end = record {
  world = 4;
  registry = record {
    config = policy;
    backends = ("primary", backend primary.base_url 1) ∷ ("spare", backend spare.base_url 0) ∷ [];
  };
  tried = "primary" ∷ "spare" ∷ [];
  failovers = [];
}

abbrev served : ChainResult
served = respond (record {
  status = 200;
  body = payload "";
  meta = some (record { model = "large"; backend = "spare"; error = none; request_body = none });
})

served_lem :
    execute_client_chain tenths (environment (config clients policy) limited) clients "large" start
    ≡ some (served, end)
unfolding execute_client_chain allow record_failure record_success new_backend lookup insert answer
    allow_backend entry put failure_backend success_backend
served_lem = refl

execute_client_chain-Describes_example :
    (log : Log) × Attempts tenths
      (environment (config clients policy) limited)
      "large"
      clients
      none
      start
      log
      end
    × Describes clients "large" log served
execute_client_chain-Describes_example =
    execute_client_chain-Describes tenths (environment (config clients policy) limited) "large"
      clients start end served served_lem

abbrev chained : List ClientConfig
chained = exact primary "large" (some "small") ∷ exact spare "small" none ∷ []

abbrev rank : String → ℕ
rank model = if str_eq "large" model then 1 else 0

large_first :
    (model : String)
    → matches_model (exact primary "large" (some "small")) model ≡ true
    → rank "small" < rank model
unfolding matches_model by_match rewrite_of any_str
large_first model h = ground arith

chained-Descends :
    (model : String) → All (λ c. matches_model c model ≡ true → Descends rank model c) chained
unfolding matches_model by_match
chained-Descends model = (
  λ h fallback e. subst (λ f. rank f < rank model) (eq_of_some e) (large_first model h),
  (λ h fallback e. absurd (cc e), tt),
)

execute_terminates_example :
    execute tenths
      (environment (config chained policy) limited)
      2
      "large"
      none
      none
      0
      start.registry
    ≢ out_of_fuel
execute_terminates_example =
    execute_terminates tenths (environment (config chained policy) limited) rank 2 "large" none none
      0 start.registry (λ w m. chained-Descends m) (omega arith)

-- The only backend falls back to its own model, and it does not know the model.
abbrev looping : ClientConfig
looping = exact primary "large" (some "large")

abbrev unchecked : HealthCheckConfig ℕ
unchecked = record policy { enabled = false }

abbrev lost : ClientConfig → String → Reply
lost client model = ok (answer 404)

lost-Hopeless : Hopeless tenths (environment (config (looping ∷ []) unchecked) lost)
unfolding answer is_final
lost-Hopeless = record {
  elapse_keeps = λ w s h. h;
  call_keeps = λ w s c model h. h;
  no_answer = λ w s c model. refl;
  off = λ w. refl;
}

looping_resolved :
    (w : ℕ)
    → resolve_clients tenths
        (environment (config (looping ∷ []) unchecked) lost)
        "large"
        none
        none
        w
      ≡ looping ∷ []
unfolding resolve_clients matches_model by_match sort_by
looping_resolved w = refl

execute_diverges_example :
    execute tenths
      (environment (config (looping ∷ []) unchecked) lost)
      1000
      "large"
      none
      none
      0
      start.registry
    ≡ out_of_fuel
unfolding select_fallback_model
execute_diverges_example =
    execute_diverges tenths (environment (config (looping ∷ []) unchecked) lost) (λ m. m ≡ "large")
      none none 1000 "large" 0 start.registry lost-Hopeless
      (λ m w e. (looping, [], "large", rw e (looping_resolved w), refl, refl)) refl

-- A request for the model of the spare backend alone.
abbrev small_end : Run ℕ ℕ
small_end = record {
  world = 4;
  registry = record { config = policy; backends = ("spare", backend spare.base_url 0) ∷ [] };
  tried = "spare" ∷ [];
  failovers = [];
}

abbrev small_answer : Response
small_answer = record {
  status = 200;
  body = payload "";
  meta = some (record { model = "small"; backend = "spare"; error = none; request_body = none });
}
