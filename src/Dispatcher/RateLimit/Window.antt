-- ===== src/Dispatcher/RateLimit/Window.antt =====
-- The rate limiter over its store: the number of calls admitted in a stretch of time.
use webhook_engine.Base.{
  ℕ, ◌+◌, ◌-◌, ◌*◌, ◌≤◌, ltb, if◌then◌else◌, ◌≡◌, ap, some, List, [], ◌∷◌, ok, err, arith, inl, inr,
  Bool-cases, Result,
}
use webhook_engine.Dispatcher.Process.{RateScope, RateLimitResult}
use webhook_engine.Dispatcher.RateLimit.{
  Bucket, Redis, IsRedis, level, spend, take_token, check_rate_limit,
}
use webhook_engine.Dispatcher.RateLimit.Answers.{level-le, level_expired, spend_cases}

spend-updated_at : (limit now tokens : ℕ) → (spend limit now tokens).1.updated_at ≡ now
spend-updated_at limit now tokens = elim (spend_cases limit now tokens) [
  | inl (_, _, b) ↦ ap (λ (x : Bucket). x.updated_at) b
  | inr (_, _, _, b) ↦ ap (λ (x : Bucket). x.updated_at) b
]

module _ (redis : Redis) (law : IsRedis redis) (scope : RateScope) (limit : ℕ) where
  -- The store after a check.
  abbrev after : ℕ → redis.Store → redis.Store
  after now store = (check_rate_limit redis scope limit now store).1

  -- A later check sees the bucket of the one before, whether its key has expired or not.
  level-after :
      (now later : ℕ) (store : redis.Store)
      → level limit later (redis.hmget later scope (after now store))
        ≡ level limit later (some ((take_token limit now (redis.hmget now scope store)).1))
  unfolding check_rate_limit take_token
  level-after now later store =
      let t = level limit now (redis.hmget now scope store) in
      let b = (spend limit now t).1 in
      rw (law.hmget-hmset later now scope b 2000 store)
        (elim (Bool-cases (ltb later (now + 2000))) [
          | inl kept ↦ rw kept
          | inr gone ↦
              let late : now + 2000 ≤ later = ground arith in
              rw gone (level_expired limit later b (omega (arith, spend-updated_at limit now t)))
        ])

-- The checks of one scope: the first after `now` by the first gap, and so on; how many are admitted.
module _ (redis : Redis) (scope : RateScope) (limit : ℕ) where
  abbrev counted : Result RateLimitResult × redis.Store → (redis.Store → ℕ) → ℕ
  counted (ok r, store) more = (if r.exceeded then 0 else 1) + more store
  counted (err e, store) more = more store

  pub admitted : ℕ → List ℕ → redis.Store → ℕ
  admitted now [] store = 0
  admitted now (gap ∷ gaps) store =
      counted (check_rate_limit redis scope limit (now + gap) store)
        (λ store'. admitted (now + gap) gaps store')

abbrev pub sum : List ℕ → ℕ
sum [] = 0
sum (x ∷ xs) = x + sum xs

module _ (redis : Redis) (law : IsRedis redis) (scope : RateScope) (limit : ℕ) where
  level_next :
      (now later tokens : ℕ) (store : redis.Store)
      → (spend limit now (level limit now (redis.hmget now scope store))).1
        ≡ record { tokens = tokens; updated_at = now }
      → level limit later (redis.hmget later scope (after redis law scope limit now store))
        ≤ tokens + (later - now) * limit
  unfolding level take_token
  level_next now later tokens store e =
      rw (level-after redis law scope limit now later store, e) (omega arith)

  admitted-level :
      (now tokens : ℕ) (gaps : List ℕ) (store : redis.Store)
      → ((later : ℕ)
          → now ≤ later
          → level limit later (redis.hmget later scope store) ≤ tokens + (later - now) * limit)
      → 1000 * admitted redis scope limit now gaps store ≤ tokens + sum gaps * limit
  unfolding admitted check_rate_limit take_token
  admitted-level now tokens [] store h = omega arith
  admitted-level now tokens (gap ∷ gaps) store h =
      let t = level limit (now + gap) (redis.hmget (now + gap) scope store) in
      let store' = after redis law scope limit (now + gap) store in
      let elapsed : now + gap - now ≡ gap = omega arith in
      let at_once : t ≤ tokens + gap * limit = rw elapsed at (h (now + gap) (omega arith)) in
      elim (spend_cases limit (now + gap) t) [
        | inl (enough, e, b) ↦
            let ih =
              admitted-level (now + gap) (t - 1000) gaps store'
                (λ later _. level_next (now + gap) later (t - 1000) store b) in
            rw e (omega arith)
        | inr (low, e, _, b) ↦
            let ih =
              admitted-level (now + gap) t gaps store'
                (λ later _. level_next (now + gap) later t store b) in
            rw e (omega arith)
      ]

-- Over any stretch of time, and from any state of Redis, the limiter admits at most `limit` calls
-- at once and `limit` more for each second; the gaps between the calls are in milliseconds.
pub admitted-le :
    (redis : Redis)
    → IsRedis redis
    → (scope : RateScope) (limit now : ℕ) (gaps : List ℕ) (store : redis.Store)
    → 1000 * admitted redis scope limit now gaps store ≤ 1000 * limit + sum gaps * limit
admitted-le redis law scope limit now gaps store =
    admitted-level redis law scope limit now (1000 * limit) gaps store
      (λ later _. omega (arith, level-le limit later (redis.hmget later scope store)))
