-- ===== src/Config.antt =====
-- config/types.rs: the configuration that the components read.
use que_qiao_router.Base.{
  ℕ, String, Bool, true, false, Option, none, some, List, [], ◌∷◌, ◌||◌, str_eq, lookup, or_else,
  if◌then◌else◌,
}
use que_qiao_router.Base.Floats.{Floats}
use text.Mathlib.Text.{find?}

pub data LoadBalancingStrategy : Type 0 where
  deterministic random least_connections : LoadBalancingStrategy

pub data ThinkingFormat : Type 0 where
  passthrough think_tag reasoning reasoning_content : ThinkingFormat

pub data ModelEcho : Type 0 where
  upstream inbound : ModelEcho

pub record ModelMatch : Type 0 where
  pub match_type : String
  pub value : List String

-- Without the parsed copy of `extra_body`.
pub record ClientConfig : Type 0 where
  pub name : String
  pub base_url : String
  pub api_key : Option String
  pub model_match : ModelMatch
  pub priority : Option ℕ
  pub fallback : Option String
  pub special_prefix : Option String
  pub stop : Option (List String)
  pub max_tokens : Option ℕ
  pub extra_body : Option String
  pub thinking_format : Option ThinkingFormat
  pub model_rewrite : Option (List (String × String))
  pub model_echo : ModelEcho

abbrev pub default_client : ClientConfig
default_client = record {
  name = "";
  base_url = "";
  api_key = none;
  model_match = record { match_type = "exact"; value = [] };
  priority = none;
  fallback = none;
  special_prefix = none;
  stop = none;
  max_tokens = none;
  extra_body = none;
  thinking_format = none;
  model_rewrite = none;
  model_echo = upstream;
}

-- The type parameter is that of the doubles.
pub record HealthCheckConfig (F : Type 0) : Type 0 where
  pub enabled : Bool
  pub failure_threshold : ℕ
  pub cooldown_seconds : ℕ
  pub max_cooldown_seconds : ℕ
  pub backoff_multiplier : F

unfoldable pub default_health_check : (fl : Floats) → HealthCheckConfig fl.F
default_health_check fl = record {
  enabled = true;
  failure_threshold = 3;
  cooldown_seconds = 30;
  max_cooldown_seconds = 300;
  backoff_multiplier = fl.of_nat 2;
}

pub record ModelsCacheConfig : Type 0 where
  pub ttl_seconds : ℕ

-- Without the connection pool, which only the start-up code reads.
pub record Config (F : Type 0) : Type 0 where
  pub openai_clients : List ClientConfig
  pub strategy : LoadBalancingStrategy
  pub thinking_format : Option ThinkingFormat
  pub models_cache : ModelsCacheConfig
  pub health_check : HealthCheckConfig F
  pub config_generation : ℕ

unfoldable pub resolve_thinking_format : {F : Type 0} → Config F → ClientConfig → ThinkingFormat
resolve_thinking_format config client = elim client.thinking_format [
  | some f ↦ f
  | none ↦ or_else config.thinking_format passthrough
]

unfoldable pub any_str : (String → Bool) → List String → Bool
any_str p [] = false
any_str p (x ∷ xs) = p x || any_str p xs

unfoldable pub rewrite_of : ClientConfig → String → Option String
rewrite_of client model = elim client.model_rewrite [
  | none ↦ none
  | some rewrites ↦ lookup model rewrites
]

unfoldable pub resolve_upstream_model : ClientConfig → String → String
resolve_upstream_model client model = or_else (rewrite_of client model) model

abbrev pub is_some {ℓ} : {A : Type ℓ} → Option A → Bool
is_some none = false
is_some (some _) = true

-- `haystack.contains(needle)`.
unfoldable pub contains : String → String → Bool
contains haystack needle = is_some (find? haystack needle)

unfoldable pub by_match : ModelMatch → String → Bool
unfolding any_str
by_match m model =
    if str_eq m.match_type "keyword"
    then any_str (contains model) m.value
    else if str_eq m.match_type "exact"
    then any_str (λ v. str_eq v model) m.value
    else false

unfoldable pub matches_model : ClientConfig → String → Bool
matches_model client model = by_match client.model_match model || is_some (rewrite_of client model)
