-- ===== src/Samples.antt =====
-- Small inputs at which the components are run: doubles in tenths, a backend of config/types.rs and
-- a policy of health checks.
use que_qiao_router.Base.{ℕ, ◌*◌, ◌+◌, true, false, none, some, ltb, leb}
use Prim.Native.Nat.{compare, ◌/◌}
use que_qiao_router.Base.Floats.{Floats}
use que_qiao_router.Config.{ClientConfig, HealthCheckConfig, default_client}

-- Doubles as tenths: enough for whole multipliers. A product from ten times the longest duration
-- that is used here counts as an overflow.
abbrev pub tenths : Floats
tenths = record {
  F = ℕ;
  of_nat = λ n. n * 10;
  is_finite = λ _. true;
  lt = ltb;
  le = leb;
  partial_cmp = λ a b. some (compare a b);
  div = λ a b. a * 10 / b;
  add = ◌+◌;
  neg = λ a. 0;
  powf = λ a b. a;
  mul_duration =
      λ d m. elim (ltb (d * m / 10) 10000000000000) [ true ↦ some (d * m / 10) | false ↦ none ];
}

abbrev pub primary : ClientConfig
primary = record default_client { name = "primary"; base_url = "https://primary.example.com/v1" }

abbrev pub policy : HealthCheckConfig ℕ
policy = record {
  enabled = true;
  failure_threshold = 2;
  cooldown_seconds = 30;
  max_cooldown_seconds = 100;
  backoff_multiplier = 20;
}

abbrev pub spare : ClientConfig
spare = record default_client {
  name = "spare";
  base_url = "https://spare.example.com/v1";
  priority = some 2;
}
