-- ===== src/CircuitBreaker.antt =====
-- services/circuit_breaker.rs: the registry of backend states behind one mutex. Each method holds
-- the lock from its first line to its last, so it is one function on the state. Durations and
-- instants are nanoseconds of the monotonic clock, which is read by the caller's argument `now`.
-- A result none is the panic of `Duration::mul_f64`, which aborts the process.
pub mod Invariant
pub mod Frame
pub mod History
mod Tests
pub mod Retry
pub mod Recovery
pub mod Cooldown
pub mod Opened
pub mod Probe
use que_qiao_router.Base.{
  ℕ, zero, suc, ◌+◌, ◌-◌, ◌*◌, ◌^◌, min, max, String, Bool, true, false, not, ◌&&◌, ◌||◌, Option,
  none, some, List, [], ◌∷◌, str_eq, ltb, leb, if◌then◌else◌, lookup, insert, or_else, ◌>>=◌,
}
use que_qiao_router.Base.Floats.{Floats}
use que_qiao_router.Config.{ClientConfig, HealthCheckConfig, is_some}

pub data AttemptPermission : Type 0 where
  allowed half_open : AttemptPermission
  blocked : ℕ → AttemptPermission

pub record BackendState : Type 0 where
  pub base_url : String
  pub consecutive_failures : ℕ
  pub opened_at : Option ℕ
  pub backoff_level : ℕ
  pub probe_in_flight : Bool

pub record RegistryState (F : Type 0) : Type 0 where
  pub config : HealthCheckConfig F
  pub backends : List (String × BackendState)

unfoldable pub new_backend : ClientConfig → BackendState
new_backend client = record {
  base_url = client.base_url;
  consecutive_failures = 0;
  opened_at = none;
  backoff_level = 0;
  probe_in_flight = false;
}

-- u32::MAX.
abbrev pub u32_max : ℕ
u32_max = 4294967295

-- `n.saturating_add(1)` on u32.
abbrev pub saturating_suc : ℕ → ℕ
saturating_suc n = min (n + 1) u32_max

-- `Duration::from_secs`.
abbrev pub from_secs : ℕ → ℕ
from_secs s = s * 1000000000

-- `entry(name).or_insert_with(new)`.
unfoldable pub entry : ClientConfig → List (String × BackendState) → BackendState
entry client backends = or_else (lookup client.name backends) (new_backend client)

unfoldable pub put : {F : Type 0} → ClientConfig → BackendState → RegistryState F → RegistryState F
put client b s = record s { backends = insert client.name b s.backends }

unfoldable pub success_backend : ClientConfig → BackendState → BackendState
success_backend client b =
    if str_eq b.base_url client.base_url
    then record b {
      consecutive_failures = 0;
      opened_at = none;
      backoff_level = 0;
      probe_in_flight = false;
    }
    else new_backend client

-- The three parts of `record_failure`: a failure against an open or probing backend raises the
-- backoff level, any other counts towards the threshold; then the probe is over; then it opens.
unfoldable pub count_failure : BackendState → BackendState
count_failure b =
    if is_some b.opened_at || b.probe_in_flight
    then record b { backoff_level = saturating_suc b.backoff_level; probe_in_flight = false }
    else record b {
      consecutive_failures = saturating_suc b.consecutive_failures;
      probe_in_flight = false;
    }

unfoldable pub open_if : ℕ → ℕ → BackendState → BackendState
open_if threshold now b =
    if is_some b.opened_at || leb threshold b.consecutive_failures
    then record b { opened_at = some now }
    else b

unfoldable pub failure_backend : ClientConfig → ℕ → ℕ → BackendState → BackendState
unfolding count_failure open_if
failure_backend client threshold now b =
    open_if threshold now
      (count_failure (if str_eq b.base_url client.base_url then b else new_backend client))

-- `allow` on an open backend, `elapsed` after it opened.
unfoldable pub admit_open : ℕ → ℕ → BackendState → AttemptPermission × BackendState
admit_open cooldown elapsed b =
    if ltb elapsed cooldown
    then (blocked (cooldown - elapsed), b)
    else if b.probe_in_flight
    then (blocked 0, b)
    else (half_open, record b { probe_in_flight = true })

unfoldable pub record_success : {F : Type 0} → ClientConfig → RegistryState F → RegistryState F
record_success client s =
    if s.config.enabled then put client (success_backend client (entry client s.backends)) s else s

unfoldable pub record_failure : {F : Type 0} → ClientConfig → ℕ → RegistryState F → RegistryState F
record_failure client now s =
    if s.config.enabled
    then put client
        (failure_backend client s.config.failure_threshold now (entry client s.backends)) s
    else s

module _ (fl : Floats) where
  open fl use {F, of_nat, is_finite, lt, mul_duration}

  unfoldable pub normalize_config : HealthCheckConfig F → HealthCheckConfig F
  normalize_config c = record c {
    failure_threshold = max c.failure_threshold 1;
    max_cooldown_seconds = max c.max_cooldown_seconds c.cooldown_seconds;
    backoff_multiplier =
        if not (is_finite c.backoff_multiplier) || lt c.backoff_multiplier (of_nat 1)
        then of_nat 1
        else c.backoff_multiplier;
  }

  unfoldable pub new_registry : HealthCheckConfig F → RegistryState F
  unfolding normalize_config
  new_registry c = record { config = normalize_config c; backends = [] }

  unfoldable pub configure : HealthCheckConfig F → RegistryState F → RegistryState F
  unfolding normalize_config
  configure c s = record s { config = normalize_config c }

  -- The loop of `cooldown_for_state`, by the rounds left.
  unfoldable pub cooldown_loop : ℕ → F → ℕ → ℕ → Option ℕ
  cooldown_loop zero multiplier most d = some d
  cooldown_loop (suc n) multiplier most d = do
    product ← mul_duration d multiplier
    cooldown_loop n multiplier most (min product most)

  unfoldable pub cooldown_for_state : HealthCheckConfig F → BackendState → Option ℕ
  unfolding cooldown_loop
  cooldown_for_state c b =
      cooldown_loop b.backoff_level c.backoff_multiplier (from_secs c.max_cooldown_seconds)
        (from_secs c.cooldown_seconds)

  unfoldable pub admit :
      HealthCheckConfig F → ℕ → BackendState → Option (AttemptPermission × BackendState)
  unfolding admit_open
  admit c now b = elim b.opened_at [
    | none ↦ some (allowed, b)
    | some opened_at ↦ do
      cooldown ← cooldown_for_state c b
      some (admit_open cooldown (now - opened_at) b)
  ]

  unfoldable pub allow_backend :
      HealthCheckConfig F
      → ClientConfig
      → ℕ
      → BackendState
      → Option (AttemptPermission × BackendState)
  unfolding admit
  allow_backend c client now b =
      if str_eq b.base_url client.base_url
      then admit c now b
      else some (allowed, new_backend client)

  unfoldable pub allow :
      ClientConfig → ℕ → RegistryState F → Option (AttemptPermission × RegistryState F)
  allow client now s =
      if s.config.enabled
      then (do
        r ← allow_backend s.config client now (entry client s.backends)
        some (r.0, put client r.1 s))
      else some (allowed, s)
