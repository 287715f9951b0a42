-- ===== src/Config/Checks.antt =====
-- What the constructor of `ConfigService` in src/common/config.service.ts guarantees.
use native.Mathlib.Nat.{one-le-pow, div-add-mod}
use webhook_engine.Base.{
  ℕ, ◌^◌, ◌≤◌, ◌<◌, ltb, ◌≡◌, true, false, not, Bool-cases, inl, inr, ◌||◌, String, ok, arith, M,
  then_with, Ensures, then_with-Ensures, Ensures-ok, JsNumber, finite, is_integer, is_positive,
  is_finite, to_natural, to_fraction,
}
use webhook_engine.Config.{
  Env, WebhookConfig, to_number, positive_integer, positive_number, is_algorithm, read_config,
  check_config, config_service,
}

pub record IsValid (c : WebhookConfig) : Type 0 where
  pub max_attempts : 0 < c.retry.max_attempts
  pub base_delay : 0 < c.retry.base_delay
  pub max_delay : c.retry.base_delay ≤ c.retry.max_delay
  pub multiplier_num : 0 < c.retry.multiplier_num
  pub multiplier_den : 0 < c.retry.multiplier_den
  pub timeout : 0 < c.timeout
  pub outbox_poll_interval : 0 < c.outbox_poll_interval
  pub stale_delivery_age : 0 < c.stale_delivery_age
  pub max_timestamp_age : 0 < c.security.max_timestamp_age
  pub signature_algorithm : is_algorithm c.security.signature_algorithm ≡ true

-- A number that passes both tests is at least one.
whole_pos :
    (value : JsNumber)
    → (not (is_integer value) || not (is_positive value)) ≡ false
    → 0 < to_natural value
unfolding is_integer is_positive to_natural
whole_pos (finite negative n k) h =
    grind (arith, div-add-mod n (2 ^ k), one-le-pow k 2 (omega arith))
whole_pos _ h = ground arith

fraction_pos :
    (value : JsNumber)
    → (not (is_finite value) || not (is_positive value)) ≡ false
    → (0 < (to_fraction value).0) × (0 < (to_fraction value).1)
unfolding is_finite is_positive to_fraction
fraction_pos (finite negative n k) h = (ground arith, one-le-pow k 2 (omega arith))
fraction_pos _ h = absurd cc

record IsPlausible (c : WebhookConfig) : Type 0 where
  max_attempts : 0 < c.retry.max_attempts
  base_delay : 0 < c.retry.base_delay
  multiplier_num : 0 < c.retry.multiplier_num
  multiplier_den : 0 < c.retry.multiplier_den
  timeout : 0 < c.timeout
  outbox_poll_interval : 0 < c.outbox_poll_interval
  stale_delivery_age : 0 < c.stale_delivery_age
  max_timestamp_age : 0 < c.security.max_timestamp_age

module _ (number : String → JsNumber) where
  positive_integer-Ensures :
      (name : String) (fallback : ℕ) (env : Env)
      → Ensures (λ n. 0 < n) (positive_integer number name fallback env)
  unfolding positive_integer
  positive_integer-Ensures name fallback env =
      let value = to_number number fallback (env name) in
      elim (Bool-cases (not (is_integer value) || not (is_positive value))) [
        | inl bad ↦ rw bad tt
        | inr good ↦ rw good (whole_pos value good)
      ]

  positive_number-Ensures :
      (name : String) (fallback : ℕ) (env : Env)
      → Ensures (λ q. (0 < q.0) × (0 < q.1)) (positive_number number name fallback env)
  unfolding positive_number
  positive_number-Ensures name fallback env =
      let value = to_number number fallback (env name) in
      elim (Bool-cases (not (is_finite value) || not (is_positive value))) [
        | inl bad ↦ rw bad tt
        | inr good ↦ rw good (fraction_pos value good)
      ]

  -- A positive integer is read, and what follows keeps its promise for each such number.
  then_positive :
      {B : Type 0} (R : B → Type 0) (name : String) (fallback : ℕ) (f : ℕ → M Env B) (env : Env)
      → ((n : ℕ) (env' : Env) → 0 < n → Ensures R (f n env'))
      → Ensures R (then_with f (positive_integer number name fallback env))
  then_positive R name fallback f env k =
      then_with-Ensures (λ n. 0 < n) R f (positive_integer number name fallback env)
        (positive_integer-Ensures name fallback env) (λ n env' h. k n env' h)

  read_config-Ensures : (env : Env) → Ensures IsPlausible (read_config number env)
  unfolding read_config
  read_config-Ensures env = then_positive IsPlausible "WEBHOOK_MAX_ATTEMPTS" 5 _ env (λ a e1 ha.
      then_positive IsPlausible "WEBHOOK_BASE_DELAY" 1000 _ e1 (λ b e2 hb.
        then_positive IsPlausible "WEBHOOK_MAX_DELAY" 300000 _ e2 (λ m e3 hm.
          then_with-Ensures (λ (q : ℕ × ℕ). (0 < q.0) × (0 < q.1)) IsPlausible _
            (positive_number number "WEBHOOK_BACKOFF_MULTIPLIER" 2 e3)
            (positive_number-Ensures "WEBHOOK_BACKOFF_MULTIPLIER" 2 e3)
            (λ q e4 hq. then_positive IsPlausible "WEBHOOK_TIMEOUT" 10000 _ e4 (λ t e5 ht.
              then_positive IsPlausible "OUTBOX_POLL_INTERVAL" 1000 _ e5 (λ o e6 ho.
                then_positive IsPlausible "STALE_DELIVERY_AGE" 900000 _ e6 (λ s e7 hs.
                  then_positive IsPlausible "WEBHOOK_MAX_TIMESTAMP_AGE" 300 _ e7 (λ g e8 hg.
                    record {
                      max_attempts = ha;
                      base_delay = hb;
                      multiplier_num = hq.0;
                      multiplier_den = hq.1;
                      timeout = ht;
                      outbox_poll_interval = ho;
                      stale_delivery_age = hs;
                      max_timestamp_age = hg;
                    }))))))))

  check_config-Ensures :
      (c : WebhookConfig) (env : Env) → IsPlausible c → Ensures IsValid (check_config c env)
  unfolding check_config
  check_config-Ensures c env h = elim (Bool-cases (ltb c.retry.max_delay c.retry.base_delay)) [
    | inl bad ↦ rw bad tt
    | inr order ↦ elim (Bool-cases (is_algorithm c.security.signature_algorithm)) [
      | inr bad ↦ rw (order, bad) tt
      | inl good ↦
          rw (order, good)
            (record {
              max_attempts = h.max_attempts;
              base_delay = h.base_delay;
              max_delay = ground arith;
              multiplier_num = h.multiplier_num;
              multiplier_den = h.multiplier_den;
              timeout = h.timeout;
              outbox_poll_interval = h.outbox_poll_interval;
              stale_delivery_age = h.stale_delivery_age;
              max_timestamp_age = h.max_timestamp_age;
              signature_algorithm = good;
            })
    ]
  ]

-- If the constructor of the settings does not throw, the settings make sense, whatever the environment
-- holds: the number of attempts, both delays, the multiplier, the timeout, the poll interval, the age
-- of a stale delivery and that of a timestamp are above zero, the greatest delay is at least the first
-- one, and the signature algorithm is one of the three.
pub config_service-IsValid :
    (number : String → JsNumber) (env : Env) (c : WebhookConfig) (env' : Env)
    → config_service number env ≡ (ok c, env')
    → IsValid c
unfolding config_service
config_service-IsValid number env c env' h = Ensures-ok IsValid (config_service number env) h (
    then_with-Ensures IsPlausible IsValid check_config (read_config number env)
      (read_config-Ensures number env) (check_config-Ensures number))
