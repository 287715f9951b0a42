-- ===== src/Dispatcher/Process.antt =====
-- src/dispatcher/application/use-cases/process-delivery.use-case.ts, which
-- src/dispatcher/infrastructure/queue/dispatcher.worker.ts calls for each job. The rate limiter is
-- the port src/dispatcher/application/ports/rate-limiter.port.ts.
pub mod Sends
use webhook_engine.Base.{
  ℕ, ◌+◌, ◌==◌, max, if◌then◌else◌, Bool, true, false, not, ◌&&◌, ◌||◌, Option, none, some, Text,
  units, Result, M, pure, ◌>>=◌, ◌>>◌,
}
use webhook_engine.Prisma.{Prisma}
use webhook_engine.Schema.{DeliveryStatus, success, dlq, cancelled}
use webhook_engine.World.{World, on_db, on_external, clock, increment}
use webhook_engine.Dispatcher.Repository.{
  DispatchableDelivery, find_by_id, mark_cancelled, mark_rate_limited_and_schedule,
}
use webhook_engine.Dispatcher.Executor
use webhook_engine.Dispatcher.Executor.{Services}

-- `tenant:${id}` and `endpoint:${id}`
pub data RateScope : Type 0 where
  tenant endpoint : ℕ → RateScope

pub record RateLimitResult : Type 0 where
  pub exceeded : Bool
  pub delay_ms : ℕ
  pub current_requests : ℕ

-- `checkRateLimit(scope, limit)` at a time
abbrev pub RateLimiter : Type 0 → Type 0
RateLimiter E = RateScope → ℕ → ℕ → M E RateLimitResult

-- `['SUCCESS', 'DLQ', 'CANCELLED'].includes(status)`
abbrev pub is_finished : DeliveryStatus → Bool
is_finished success = true
is_finished dlq = true
is_finished cancelled = true
is_finished _ = false

abbrev not_exceeded : RateLimitResult
not_exceeded = record { exceeded = false; delay_ms = 0; current_requests = 0 }

-- `a && endpoint.rateLimit`: null and zero count as absent
abbrev truthy : Option ℕ → ℕ
truthy none = 0
truthy (some n) = n

module _ {E : Type 0} (db : Prisma) (svc : Services E) (limiter : RateLimiter E) where
  unfoldable pub check_endpoint :
      DispatchableDelivery → RateLimitResult → M (World E) RateLimitResult
  check_endpoint d tenant_limit =
      if not tenant_limit.exceeded && not (truthy d.endpoint.rate_limit == 0)
      then (do
        now ← clock
        on_external (limiter (endpoint d.endpoint.id) (truthy d.endpoint.rate_limit) now))
      else pure not_exceeded

  unfoldable pub limited_or_executed :
      DispatchableDelivery → ℕ → RateLimitResult → RateLimitResult → M (World E) (Unit {0})
  limited_or_executed d expected_attempt tenant_limit endpoint_limit =
      if tenant_limit.exceeded || endpoint_limit.exceeded
      then (do
        now ← clock
        on_db (
            mark_rate_limited_and_schedule db now d.delivery.id
              (now + max tenant_limit.delay_ms endpoint_limit.delay_ms) expected_attempt)
        increment "deliveries_rate_limited_total")
      else Executor.execute svc db d expected_attempt

  unfoldable pub process_active : DispatchableDelivery → ℕ → M (World E) (Unit {0})
  unfolding check_endpoint limited_or_executed
  process_active d expected_attempt = do
    now ← clock
    tenant_limit ← on_external (limiter (tenant d.tenant.id) d.tenant.rate_limit now)
    endpoint_limit ← check_endpoint d tenant_limit
    limited_or_executed d expected_attempt tenant_limit endpoint_limit

  unfoldable pub process_found : Option DispatchableDelivery → ℕ → M (World E) (Unit {0})
  unfolding process_active
  process_found none expected_attempt = pure tt
  process_found (some d) expected_attempt =
      if is_finished d.delivery.status
      then pure tt
      else if not d.endpoint.is_active
      then (do
        now ← clock
        on_db (mark_cancelled db now d.delivery.id (units "Endpoint is inactive")))
      else process_active d expected_attempt

  unfoldable pub process : ℕ → ℕ → M (World E) (Unit {0})
  unfolding process_found
  process delivery_id expected_attempt = do
    delivery ← on_db (find_by_id db delivery_id)
    process_found delivery expected_attempt
