-- ===== src/Tests/RedisData.antt =====
-- Redis as a function from scopes to buckets with their time of expiry.
use webhook_engine.Base.{
  ℕ, ◌+◌, ltb, if◌then◌else◌, ◌==◌, ◌≡◌, refl, ap, ◌≢◌, Bool, true, false, Option, some, none,
  arith, Bool-cases, inl, inr,
}
use webhook_engine.Dispatcher.Process.{RateScope}
use webhook_engine.Dispatcher.RateLimit.{Bucket, Redis, IsRedis}

abbrev same_scope : RateScope → RateScope → Bool
same_scope (RateScope.tenant a) (RateScope.tenant b) = a == b
same_scope (RateScope.endpoint a) (RateScope.endpoint b) = a == b
same_scope _ _ = false

abbrev pub Buckets : Type 0
Buckets = RateScope → Option (Bucket × ℕ)

abbrev live : ℕ → Option (Bucket × ℕ) → Option Bucket
live time none = none
live time (some (b, expiry)) = if ltb time expiry then some b else none

abbrev expiring : ℕ → Option (Bucket × ℕ) → Option (Bucket × ℕ)
expiring expiry none = none
expiring expiry (some (b, _)) = some (b, expiry)

abbrev pub memory : Redis
memory = record {
  Store = Buckets;
  hmget = λ time scope store. live time (store scope);
  hmset = λ scope b store other. if same_scope other scope then some (b, 0) else store other;
  pexpire = λ now scope ttl store other.
      if same_scope other scope then expiring (now + ttl) (store other) else store other;
}

abbrev pub no_buckets : Buckets
no_buckets _ = none

same_scope_self : (scope : RateScope) → same_scope scope scope ≡ true
same_scope_self (RateScope.tenant a) = ground arith
same_scope_self (RateScope.endpoint a) = ground arith

same_scope-ne : (a b : RateScope) → a ≢ b → same_scope a b ≡ false
same_scope-ne (RateScope.tenant a) (RateScope.tenant b) h = elim (Bool-cases (a == b)) [
  | inl e ↦ absurd (h (ap (λ (n : ℕ). RateScope.tenant n) (ground arith)))
  | inr e ↦ e
]
same_scope-ne (RateScope.tenant a) (RateScope.endpoint b) h = refl
same_scope-ne (RateScope.endpoint a) (RateScope.tenant b) h = refl
same_scope-ne (RateScope.endpoint a) (RateScope.endpoint b) h = elim (Bool-cases (a == b)) [
  | inl e ↦ absurd (h (ap (λ (n : ℕ). RateScope.endpoint n) (ground arith)))
  | inr e ↦ e
]

pub memory-IsRedis : IsRedis memory
memory-IsRedis = record {
  hmget-hmset = λ time now scope bucket ttl store. rw (same_scope_self scope);
  hmget-hmset_ne = λ time now scope other bucket ttl store h. rw (same_scope-ne other scope h);
}
