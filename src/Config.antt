-- ===== src/Config.antt =====
-- src/common/config.service.ts: the settings, read from the environment of the process. `number` is
-- `Number(text)` of the JavaScript runtime.
pub mod Checks
use webhook_engine.Base.{
  ℕ, ltb, not, if◌then◌else◌, Bool, ◌||◌, ◌&&◌, Option, none, some, ◌++◌, String, str_eq, Text,
  units, Error, other_error, ok, M, pure, throw, ◌>>=◌, ◌>>◌, JsNumber, whole, is_integer,
  is_finite, is_positive, is_negative, to_natural, to_fraction,
}
use webhook_engine.Dispatcher.Retry.{RetryConfig}

-- `process.env`
abbrev pub Env : Type 0
Env = String → Option String

pub record SecurityConfig : Type 0 where
  pub max_timestamp_age : ℕ
  pub signature_algorithm : String

pub record RedisConfig : Type 0 where
  pub host : String
  pub port : ℕ

pub record WebhookConfig : Type 0 where
  pub retry : RetryConfig
  pub timeout : ℕ
  pub outbox_poll_interval : ℕ
  pub stale_delivery_age : ℕ
  pub security : SecurityConfig

abbrev pub failure : Text → Error
failure message = other_error message

-- `process.env[name]`
abbrev pub variable : String → M Env (Option String)
variable name env = (ok (env name), env)

-- `value ?? fallback`
abbrev pub or_nullish : Option String → String → String
or_nullish none fallback = fallback
or_nullish (some value) _ = value

-- `value || fallback`
abbrev pub or_falsy : Option String → String → String
or_falsy none fallback = fallback
or_falsy (some value) fallback = if str_eq value "" then fallback else value

-- `value === text`
abbrev pub equals : Option String → String → Bool
equals none text' = Bool.false
equals (some value) text' = str_eq value text'

abbrev pub is_algorithm : String → Bool
is_algorithm name = str_eq name "sha256" || (str_eq name "sha384" || str_eq name "sha512")

unfoldable pub is_production : Env → Bool
is_production env = equals (env "NODE_ENV") "production"

unfoldable pub is_test : Env → Bool
is_test env = equals (env "NODE_ENV") "test"

unfoldable pub process_role : Env → String
process_role env = or_nullish (env "PROCESS_ROLE") "all"

unfoldable pub is_api_only : Env → Bool
unfolding process_role
is_api_only env = str_eq (process_role env) "api"

unfoldable pub is_worker_only : Env → Bool
unfolding process_role
is_worker_only env = str_eq (process_role env) "worker"

unfoldable pub capture_response_bodies : Env → Bool
capture_response_bodies env = equals (env "CAPTURE_WEBHOOK_RESPONSE_BODIES") "true"

unfoldable pub max_request_body_size : Env → String
max_request_body_size env = or_nullish (env "MAX_REQUEST_BODY_SIZE") "256kb"

-- The key of the environment, unless it is empty; else the one for development.
abbrev admin_key_or_default : Option String → M Env String
admin_key_or_default key env =
    if str_eq (or_nullish key "") ""
    then (if is_production env
        then throw (failure (units "ADMIN_API_KEY is required in production")) env
        else pure "dev-admin-key-change-me" env)
    else pure (or_nullish key "") env

unfoldable pub admin_api_key : M Env String
unfolding is_production
admin_api_key = variable "ADMIN_API_KEY" >>= admin_key_or_default

unfoldable pub check_config : WebhookConfig → M Env WebhookConfig
check_config config =
    if ltb config.retry.max_delay config.retry.base_delay
    then throw (failure (units "WEBHOOK_MAX_DELAY must be greater than WEBHOOK_BASE_DELAY"))
    else (if not (is_algorithm config.security.signature_algorithm)
        then throw (failure (units "WEBHOOK_SIGNATURE_ALGORITHM must be sha256, sha384, or sha512"))
        else pure config)

module _ (number : String → JsNumber) where
  -- `Number(value ?? fallback)`
  abbrev pub to_number : ℕ → Option String → JsNumber
  to_number fallback none = whole fallback
  to_number fallback (some value) = number value

  abbrev positive_integer_or_throw : String → JsNumber → M Env ℕ
  positive_integer_or_throw name value =
      if not (is_integer value) || not (is_positive value)
      then throw (failure (units name ++ units " must be a positive integer"))
      else pure (to_natural value)

  unfoldable pub positive_integer : String → ℕ → M Env ℕ
  unfolding is_integer is_positive to_natural
  positive_integer name fallback =
      variable name >>= (λ value. positive_integer_or_throw name (to_number fallback value))

  abbrev positive_number_or_throw : String → JsNumber → M Env (ℕ × ℕ)
  positive_number_or_throw name value =
      if not (is_finite value) || not (is_positive value)
      then throw (failure (units name ++ units " must be a positive number"))
      else pure (to_fraction value)

  unfoldable pub positive_number : String → ℕ → M Env (ℕ × ℕ)
  unfolding is_finite is_positive to_fraction
  positive_number name fallback =
      variable name >>= (λ value. positive_number_or_throw name (to_number fallback value))

  abbrev retention_or_throw : JsNumber → M Env ℕ
  retention_or_throw value =
      if not (is_integer value) || is_negative value
      then throw (failure (units "EVENT_RETENTION_DAYS must be a non-negative integer"))
      else pure (to_natural value)

  unfoldable pub event_retention_days : M Env ℕ
  unfolding is_integer is_negative to_natural
  event_retention_days =
      variable "EVENT_RETENTION_DAYS" >>= (λ value. retention_or_throw (to_number 0 value))

  unfoldable pub worker_concurrency : M Env ℕ
  unfolding positive_integer
  worker_concurrency = positive_integer "WORKER_CONCURRENCY" 10

  unfoldable pub port : M Env ℕ
  unfolding positive_integer
  port = positive_integer "PORT" 3000

  unfoldable pub redis_config : M Env RedisConfig
  unfolding positive_integer
  redis_config = do
    host ← variable "REDIS_HOST"
    number' ← positive_integer "REDIS_PORT" 6379
    pure (record { host = or_nullish host "127.0.0.1"; port = number' })

  unfoldable pub read_config : M Env WebhookConfig
  unfolding positive_integer positive_number
  read_config = do
    max_attempts ← positive_integer "WEBHOOK_MAX_ATTEMPTS" 5
    base_delay ← positive_integer "WEBHOOK_BASE_DELAY" 1000
    max_delay ← positive_integer "WEBHOOK_MAX_DELAY" 300000
    multiplier ← positive_number "WEBHOOK_BACKOFF_MULTIPLIER" 2
    timeout ← positive_integer "WEBHOOK_TIMEOUT" 10000
    outbox_poll_interval ← positive_integer "OUTBOX_POLL_INTERVAL" 1000
    stale_delivery_age ← positive_integer "STALE_DELIVERY_AGE" 900000
    max_timestamp_age ← positive_integer "WEBHOOK_MAX_TIMESTAMP_AGE" 300
    algorithm ← variable "WEBHOOK_SIGNATURE_ALGORITHM"
    pure (record {
      retry = record {
        max_attempts = max_attempts;
        base_delay = base_delay;
        max_delay = max_delay;
        multiplier_num = multiplier.0;
        multiplier_den = multiplier.1;
      };
      timeout = timeout;
      outbox_poll_interval = outbox_poll_interval;
      stale_delivery_age = stale_delivery_age;
      security = record {
        max_timestamp_age = max_timestamp_age;
        signature_algorithm = or_falsy algorithm "sha256";
      };
    })

  -- the constructor of `ConfigService`
  unfoldable pub config_service : M Env WebhookConfig
  unfolding read_config check_config
  config_service = read_config >>= check_config
