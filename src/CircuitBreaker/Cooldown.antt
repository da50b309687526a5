-- ===== src/CircuitBreaker/Cooldown.antt =====
-- The cooldown of an open backend, `cooldown_for_state` of services/circuit_breaker.rs.
use que_qiao_router.Base.{
  ℕ, zero, suc, ◌≤◌, ◌≡◌, sym, ◌∙◌, min, some, arith, eq_of_some, subst, >>=-eq-some,
}
use que_qiao_router.Base.Floats.{Floats}
use que_qiao_router.Config.{HealthCheckConfig}
use que_qiao_router.CircuitBreaker.{BackendState, from_secs, cooldown_loop, cooldown_for_state}

module _ (fl : Floats) where
  open fl use {F, of_nat, is_finite, lt, mul_duration}

  -- Doubles hold the nanoseconds of a duration up to this bound, 52 days, without loss, so that a
  -- product by at least one, rounded, is no shorter.
  abbrev pub exact_ns : ℕ
  exact_ns = 4503599627370496

  abbrev pub Grows : F → Type 0
  Grows m = (d p : ℕ) → d ≤ exact_ns → mul_duration d m ≡ some p → d ≤ p

  -- No product within the longest cooldown overflows a `Duration`.
  abbrev pub Fits : F → ℕ → Type 0
  Fits m most = (d : ℕ) → d ≤ most → (p : ℕ) × (mul_duration d m ≡ some p)

  module _ (m : F) (most : ℕ) (grows : Grows m) (exact : most ≤ exact_ns) where
    loop-bounds :
        (n d : ℕ) {r : ℕ} → d ≤ most → cooldown_loop fl n m most d ≡ some r → (d ≤ r) × (r ≤ most)
    unfolding cooldown_loop
    loop-bounds zero d h e = omega (arith, eq_of_some e)
    loop-bounds (suc n) d h e =
        let (p, ok, rest) = >>=-eq-some (mul_duration d m) _ e in
        omega (arith, grows d p (omega arith) ok, loop-bounds n (min p most) (omega arith) rest)

    loop_mono :
        (n n' d : ℕ) {r r' : ℕ}
        → n ≤ n'
        → d ≤ most
        → cooldown_loop fl n m most d ≡ some r
        → cooldown_loop fl n' m most d ≡ some r'
        → r ≤ r'
    unfolding cooldown_loop
    loop_mono zero n' d le h e e' = omega (arith, eq_of_some e, loop-bounds n' d h e')
    loop_mono (suc n) zero d le h e e' = absurd (omega arith)
    loop_mono (suc n) (suc n') d {r' = r'} le h e e' =
        let (p, ok, rest) = >>=-eq-some (mul_duration d m) _ e in
        let (p', ok', rest') = >>=-eq-some (mul_duration d m) _ e' in
        let same : p' ≡ p = eq_of_some (sym ok' ∙ ok) in
        loop_mono n n' (min p most) (omega arith) (omega arith) rest
          (subst (λ q. cooldown_loop fl n' m most (min q most) ≡ some r') same rest')

  -- The cooldown stays between the configured first and longest one, and never falls when the
  -- backoff level rises, if the first is at most the longest (as normalised), the longest is under
  -- 52 days and the multiplier, being at least one, shortens no duration.
  pub cooldown_for_state-bounds :
      (c : HealthCheckConfig F) (b b' : BackendState) {r r' : ℕ}
      → Grows c.backoff_multiplier
      → c.cooldown_seconds ≤ c.max_cooldown_seconds
      → from_secs c.max_cooldown_seconds ≤ exact_ns
      → b.backoff_level ≤ b'.backoff_level
      → cooldown_for_state fl c b ≡ some r
      → cooldown_for_state fl c b' ≡ some r'
      → (from_secs c.cooldown_seconds ≤ r) × (r ≤ r') × (r' ≤ from_secs c.max_cooldown_seconds)
  unfolding cooldown_for_state
  cooldown_for_state-bounds c b b' g h exact le e e' =
      let first = loop-bounds c.backoff_multiplier _ g exact b.backoff_level _ (omega arith) e in
      let last = loop-bounds c.backoff_multiplier _ g exact b'.backoff_level _ (omega arith) e' in
      (
        first.0,
        loop_mono c.backoff_multiplier _ g exact b.backoff_level b'.backoff_level _ le (omega arith)
            e e',
        last.1,
      )
