-- ===== src/Dispatcher/Retry.antt =====
-- The retry rules of src/dispatcher/application/services/delivery-executor.service.ts, with the
-- settings of src/common/config.service.ts. Delays are in milliseconds. The backoff multiplier is a
-- fraction, `multiplier_num / multiplier_den`, and so is the value of `Math.random()`; the
-- arithmetic is exact, and a delay is cut to whole milliseconds, as `new Date` does.
pub mod Bounds
use webhook_engine.Base.{
  ℕ, suc, ◌+◌, ◌-◌, ◌*◌, ◌/◌, ◌^◌, ◌≤◌, ◌<◌, min, ltb, leb, ◌==◌, if◌then◌else◌, ◌≡◌, ◌⊎◌, ◌↔◌,
  Bool, true, false, ◌||◌, Option, none, some, String, arith, str_eq,
}

pub record RetryConfig : Type 0 where
  pub max_attempts : ℕ
  pub base_delay : ℕ
  pub max_delay : ℕ
  pub multiplier_num : ℕ
  pub multiplier_den : ℕ

-- A value of `Math.random()`: num / den, below 1.
pub record Random : Type 0 where
  pub num : ℕ
  pub den : ℕ

unfoldable pub is_retryable : ℕ → Bool
is_retryable status =
    leb 500 status || (status == 408 || (status == 409 || (status == 425 || status == 429)))

-- `delay` and `delay + jitter` in units of `1 / scale` ms, where
-- delay = baseDelay * multiplier ^ (attempt - 1) and jitter = delay * 0.25 * (2 * random - 1).
abbrev pub scale : ℕ → RetryConfig → Random → ℕ
scale attempt_number config random = 4 * random.den * config.multiplier_den ^ (attempt_number - 1)

abbrev pub delay : ℕ → RetryConfig → ℕ
delay attempt_number config = config.base_delay * config.multiplier_num ^ (attempt_number - 1)

abbrev pub with_jitter : ℕ → RetryConfig → Random → ℕ
with_jitter attempt_number config random =
    delay attempt_number config * (4 * random.den + 2 * random.num - random.den)

-- `Math.min(Math.max(delay + jitter, 0), maxDelay)`; the sum is never negative.
unfoldable pub calculate_backoff_delay : ℕ → RetryConfig → Random → ℕ
calculate_backoff_delay attempt_number config random =
    min (with_jitter attempt_number config random)
      (config.max_delay * scale attempt_number config random)
    / scale attempt_number config random

-- `Math.min(Math.max(delay, 0), maximum)` for a delay that may be negative or, if a text is neither a
-- number nor a date, not there. `millis` is `Number(value) * 1000` where `Number(value)` is finite;
-- `date` is `new Date(value).getTime()`.
pub data Millis : Type 0 where
  at_least_zero below_zero : ℕ → Millis

abbrev pub clamp : Millis → ℕ → ℕ
clamp (at_least_zero n) maximum = min n maximum
clamp (below_zero n) maximum = min 0 maximum

-- How the JavaScript runtime reads a header's value.
pub record HeaderReader : Type 0 where
  pub millis : String → Option Millis
  pub date : String → Option ℕ

-- `new Date(value).getTime() - Date.now()`
abbrev pub until : ℕ → ℕ → Millis
until now time = if leb now time then at_least_zero (time - now) else below_zero (now - time)

unfoldable pub retry_after_delay : HeaderReader → ℕ → Option String → ℕ → Option ℕ
retry_after_delay reader now none maximum = none
retry_after_delay reader now (some value) maximum =
    if str_eq value "" then none else elim (reader.millis value) [
      | some delay ↦ some (clamp delay maximum)
      | none ↦ elim (reader.date value) [
        | some time ↦ some (clamp (until now time) maximum)
        | none ↦ none
      ]
    ]

-- The delay of `nextAttemptAt`: `retry-after` counts only for status 429.
unfoldable pub next_attempt_delay :
    HeaderReader → ℕ → ℕ → Option String → ℕ → RetryConfig → Random → ℕ
unfolding retry_after_delay calculate_backoff_delay
next_attempt_delay reader now status retry_after attempts config random =
    if status == 429
    then elim (retry_after_delay reader now retry_after config.max_delay) [
      | some delay ↦ delay
      | none ↦ calculate_backoff_delay attempts config random
    ]
    else calculate_backoff_delay attempts config random
