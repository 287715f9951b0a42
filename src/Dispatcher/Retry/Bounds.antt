-- ===== src/Dispatcher/Retry/Bounds.antt =====
-- Bounds on the delay before the next attempt.
use native.Mathlib.Nat.{
  div-le_of_le-mul, lt-mul-div-succ, mul-div-le, le_of_mul-le-mul_left, lt_of_mul-lt-mul_left,
  min-le_left, min-eq_right, one-le-pow, min-le_right, mul-div_left,
}
use native.Mathlib.Decide.{dec_le}
use webhook_engine.Base.{
  ◌∙◌, ℕ, ◌+◌, ◌-◌, ◌*◌, ◌/◌, ◌^◌, ◌≤◌, ◌<◌, min, ◌≡◌, ◌⊎◌, inl, inr, Option, none, some, String,
  arith, ap,
}
use webhook_engine.Dispatcher.Retry.{
  RetryConfig, Random, scale, delay, with_jitter, calculate_backoff_delay, HeaderReader,
  retry_after_delay, next_attempt_delay,
}

backoff-le-max :
    (n : ℕ) (config : RetryConfig) (random : Random)
    → calculate_backoff_delay n config random ≤ config.max_delay
unfolding calculate_backoff_delay
backoff-le-max n config random = div-le_of_le-mul (scale n config random) (
    omega (
      arith,
      min-le_right (with_jitter n config random) (config.max_delay * scale n config random),
    ))

-- No delay exceeds the maximum, whatever the status, the `retry-after` header and the jitter.
pub next_attempt_delay-le-max :
    (reader : HeaderReader) (now status : ℕ) (retry_after : Option String) (attempts : ℕ)
    (config : RetryConfig) (random : Random)
    → next_attempt_delay reader now status retry_after attempts config random ≤ config.max_delay
unfolding next_attempt_delay retry_after_delay
next_attempt_delay-le-max reader now status none attempts config random =
    ground (arith, backoff-le-max attempts config random)
next_attempt_delay-le-max reader now status (some value) attempts config random =
    ground (arith, backoff-le-max attempts config random)

module _ (D d n q m : ℕ) where
  abbrev jittered : ℕ
  jittered = D * (4 * d + 2 * n - d)

  abbrev unit : ℕ
  unit = 4 * d * q

  abbrev delayed : ℕ
  delayed = min jittered (m * unit) / unit

  jittered-eq : jittered ≡ 3 * (D * d) + 2 * (D * n)
  jittered-eq = let e : 4 * d + 2 * n - d ≡ 3 * d + 2 * n = omega arith in rw e (omega arith)

  jitter_above : n < d → 0 < d → 4 * q * delayed ≤ 5 * D
  jitter_above h pos =
      let below : D * n ≤ D * d = grind arith in
      le_of_mul-le-mul_left {k = d}
        (omega (
          arith,
          mul-div-le (min jittered (m * unit)) unit,
          min-le_left jittered (m * unit),
          jittered-eq,
        ))
        pos

  jitter_below : 0 < d → 0 < q → (delayed ≡ m) ⊎ (3 * D < 4 * q * (delayed + 1))
  jitter_below pos qpos =
      let upos : 0 < unit = grind arith in
      elim (dec_le (m * unit) jittered) [
        | yes capped ↦ inl (ap (λ (t : ℕ). t / unit) (min-eq_right capped) ∙ mul-div_left m upos)
        | no free ↦ inr (
            lt_of_mul-lt-mul_left d
              (omega (arith, lt-mul-div-succ (min jittered (m * unit)) upos, jittered-eq)))
      ]

-- For attempt `n`, the delay lies around the exponential one, baseDelay * multiplier ^ (n - 1), where the
-- multiplier is the fraction `multiplier_num / multiplier_den`. Either the maximum is reached, or the
-- delay lies above three quarters of the exponential one (rounded down to a millisecond); it never lies
-- above five quarters of it. Both bounds are times 4 * multiplier_den ^ (n - 1).
pub calculate_backoff_delay_bounds :
    (n : ℕ) (config : RetryConfig) (random : Random)
    → random.num < random.den
    → 0 < config.multiplier_den
    → let unit = config.multiplier_den ^ (n - 1) in
      let exponential = config.base_delay * config.multiplier_num ^ (n - 1) in
      let d = calculate_backoff_delay n config random in
      (4 * unit * d ≤ 5 * exponential)
      × ((d ≡ config.max_delay) ⊎ (3 * exponential < 4 * unit * (d + 1)))
unfolding calculate_backoff_delay
calculate_backoff_delay_bounds n config random h pos =
    let D = delay n config in
    let q = config.multiplier_den ^ (n - 1) in
    let dpos : 0 < random.den = omega arith in
    (
      jitter_above D random.den random.num q config.max_delay h dpos,
      jitter_below D random.den random.num q config.max_delay dpos
          (one-le-pow (n - 1) config.multiplier_den pos),
    )
