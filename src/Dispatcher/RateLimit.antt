-- ===== src/Dispatcher/RateLimit.antt =====
-- src/dispatcher/infrastructure/rate-limiting/redis-rate-limiter.adapter.ts: the token bucket that
-- the Lua script keeps in Redis. Tokens are counted in thousandths, in which the script's numbers
-- are whole: a bucket gains `limit` of them in each millisecond. The arithmetic is exact,
-- where the script's is in doubles: its tokens, and the delay that it answers, may be less by an error of
-- rounding. A limit is at least 1, as the request validation demands.
pub mod Answers
pub mod Window
use webhook_engine.Base.{
  ℕ, ◌+◌, ◌-◌, ◌*◌, ◌/◌, ◌≢◌, min, ltb, leb, ◌==◌, if◌then◌else◌, ◌≡◌, Bool, true, false, Option,
  none, some, M, Result, ok,
}
use webhook_engine.Dispatcher.Process.{RateScope, RateLimitResult, RateLimiter}

-- The fields 'tokens' and 'updatedAt' of the hash, which are always written together.
pub record Bucket : Type 0 where
  pub tokens : ℕ
  pub updated_at : ℕ

-- The part of Redis that the script uses. The key of a scope is `rate-limit:${scope}`.
pub record Redis : Type 1 where
  pub Store : Type 0
  pub hmget : ℕ → RateScope → Store → Option Bucket
  pub hmset : RateScope → Bucket → Store → Store
  -- PEXPIRE at a time, with a time to live
  pub pexpire : ℕ → RateScope → ℕ → Store → Store

-- A hash that was written can be read until it expires.
pub record IsRedis (redis : Redis) : Type 0 where
  pub hmget-hmset :
      (time now : ℕ) (scope : RateScope) (bucket : Bucket) (ttl : ℕ) (store : redis.Store)
      → redis.hmget time scope (redis.pexpire now scope ttl (redis.hmset scope bucket store))
        ≡ (if ltb time (now + ttl) then some bucket else none)
  pub hmget-hmset_ne :
      (time now : ℕ) (scope other : RateScope) (bucket : Bucket) (ttl : ℕ) (store : redis.Store)
      → other ≢ scope
      → redis.hmget time other (redis.pexpire now scope ttl (redis.hmset scope bucket store))
        ≡ redis.hmget time other store

-- `math.ceil(a / b)`
abbrev pub ceil_div : ℕ → ℕ → ℕ
ceil_div a b = (a + b - 1) / b

-- The tokens at a time: `math.min(limit, tokens + elapsed * limit / 1000)`, and the limit where
-- nothing is stored. `-` stops at 0, as `math.max(0, now - updatedAt)` does.
unfoldable pub level : ℕ → ℕ → Option Bucket → ℕ
level limit now none = min (1000 * limit) (1000 * limit + (now - now) * limit)
level limit now (some b) = min (1000 * limit) (b.tokens + (now - b.updated_at) * limit)

-- The answer, and the bucket to store, for the tokens at hand.
unfoldable pub spend : ℕ → ℕ → ℕ → RateLimitResult × Bucket
spend limit now tokens =
    if leb 1000 tokens
    then (
      record {
        exceeded = false;
        delay_ms = 0;
        current_requests = ceil_div (1000 * limit - (tokens - 1000)) 1000;
      },
      record { tokens = tokens - 1000; updated_at = now },
    )
    else (
      record {
        exceeded = true;
        delay_ms = ceil_div (1000 - tokens) limit;
        current_requests = ceil_div (1000 * limit - tokens) 1000;
      },
      record { tokens = tokens; updated_at = now },
    )

unfoldable pub take_token : ℕ → ℕ → Option Bucket → RateLimitResult × Bucket
take_token limit now stored = spend limit now (level limit now stored)

module _ (redis : Redis) where
  abbrev stored :
      ℕ → RateScope → redis.Store → RateLimitResult × Bucket → Result RateLimitResult × redis.Store
  stored now scope store (result, bucket) =
      (ok result, redis.pexpire now scope 2000 (redis.hmset scope bucket store))

  unfoldable pub check_rate_limit : RateLimiter redis.Store
  unfolding take_token
  check_rate_limit scope limit now store =
      stored now scope store (take_token limit now (redis.hmget now scope store))
