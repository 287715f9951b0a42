-- ===== src/Http/Health.antt =====
-- src/health: the checks of the database and of Redis, the use case and the controller.
use webhook_engine.Base.{
  Bool-cases, inl, inr, ℕ, if◌then◌else◌, Bool, true, false, not, ◌&&◌, Option, none, some, String,
  str_eq, Text, units, Error, Result, ok, err, M, pure, try_catch, ◌>>=◌, ◌>>◌, ◌≡◌, refl, caught,
}
use webhook_engine.Config.{Env, is_test}

pub data CheckStatus : Type 0 where
  healthy failing skipped : CheckStatus

pub record HealthCheckResult : Type 0 where
  pub status : CheckStatus
  pub detail : Option Text

-- The services that are checked; `error_text` is `error.message`, or the text for a thrown value that
-- is no `Error`.
pub record Checked (E : Type 0) : Type 0 where
  pub query_raw : M E (Unit {0})
  pub redis_status : E → String
  pub connect : M E (Unit {0})
  pub ping : M E String
  pub error_text : Error → Text

pub record Health : Type 0 where
  pub is_ok : Bool
  pub database : HealthCheckResult
  pub redis : HealthCheckResult

abbrev pub is_failing : CheckStatus → Bool
is_failing failing = true
is_failing _ = false

abbrev result : CheckStatus → Option Text → HealthCheckResult
result status detail = record { status = status; detail = detail }

module _ {E : Type 0} (services : Checked E) (env : Env) where
  abbrev failed : Error → M E HealthCheckResult
  failed e = pure (result failing (some (services.error_text e)))

  unfoldable pub check_database : M E HealthCheckResult
  unfolding is_test
  check_database =
      if is_test env
      then pure (result skipped (some (units "database check disabled in test environment")))
      else try_catch (services.query_raw >> pure (result healthy none)) failed

  -- `if (this.redis.status === 'wait') { … }`
  abbrev connect_if_waiting : M E (Unit {0})
  connect_if_waiting e =
      if str_eq (services.redis_status e) "wait" then services.connect e else pure tt e

  abbrev ping_result : String → HealthCheckResult
  ping_result response = result (if str_eq response "PONG" then healthy else failing) none

  unfoldable pub check_redis : M E HealthCheckResult
  unfolding is_test
  check_redis =
      if is_test env
      then pure (result skipped (some (units "redis check disabled in test environment")))
      else try_catch (do connect_if_waiting; response ← services.ping; pure (ping_result response))
          failed

  -- Both checks run at the same time in the source.
  unfoldable pub get_health : M E Health
  unfolding check_database check_redis
  get_health = do
    database ← check_database
    redis ← check_redis
    pure (record {
      is_ok = not (is_failing database.status) && not (is_failing redis.status);
      database = database;
      redis = redis;
    })

  -- The status of the reply, and its body.
  unfoldable pub health : M E (ℕ × Health)
  unfolding get_health
  health = do h ← get_health; pure ((if h.is_ok then 200 else 503), h)

  caught-failed :
      (r : Result HealthCheckResult × E)
      → (h : HealthCheckResult) × (e : E) × (caught failed r ≡ (ok h, e))
  caught-failed (ok h, e) = (h, e, refl)
  caught-failed (err error, e) = (_, e, refl)

  -- Each check answers, whatever the services do.
  check_database_answers :
      (e : E) → (h : HealthCheckResult) × (t : E) × (check_database e ≡ (ok h, t))
  unfolding check_database
  check_database_answers e = elim (Bool-cases (is_test env)) [
    | inl test ↦ rw test (_, e, refl)
    | inr live ↦ rw live (caught-failed _)
  ]

  check_redis_answers : (e : E) → (h : HealthCheckResult) × (t : E) × (check_redis e ≡ (ok h, t))
  unfolding check_redis
  check_redis_answers e = elim (Bool-cases (is_test env)) [
    | inl test ↦ rw test (_, e, refl)
    | inr live ↦ rw live (caught-failed _)
  ]

  -- The health route always answers: with 200 if no check fails, else with 503.
  pub health_answers :
      (e : E)
      → (h : Health) × (t : E) × (health e ≡ (
        ok (
          (if not (is_failing h.database.status) && not (is_failing h.redis.status)
              then 200
              else 503),
          h,
        ),
        t,
      ))
  unfolding health get_health
  health_answers e =
      let (database, e1, first) = check_database_answers e in
      let (redis, e2, second) = check_redis_answers e1 in
      let h : Health = record {
        is_ok = not (is_failing database.status) && not (is_failing redis.status);
        database = database;
        redis = redis;
      } in
      (h, e2, rw (first, second) refl)
