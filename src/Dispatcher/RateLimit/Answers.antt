-- ===== src/Dispatcher/RateLimit/Answers.antt =====
-- One bucket: what a check answers, and what the expiry of its key changes.
use native.Mathlib.Decide.{dec_le}
use webhook_engine.Base.{
  ◌⊎◌, inl, inr, ℕ, ◌+◌, ◌-◌, ◌*◌, ◌≤◌, ◌<◌, ◌≡◌, true, false, Option, none, some, arith,
}
use webhook_engine.Dispatcher.RateLimit.{Bucket, level, spend, ceil_div}

pub level-le : (limit now : ℕ) (o : Option Bucket) → level limit now o ≤ 1000 * limit
unfolding level
level-le limit now none = omega arith
level-le limit now (some b) = omega arith

-- Redis drops a bucket two seconds after its last use. That changes no level: after one second the
-- bucket would have been full.
pub level_expired :
    (limit now : ℕ) (b : Bucket)
    → b.updated_at + 2000 ≤ now
    → level limit now none ≡ level limit now (some b)
unfolding level
level_expired limit now b h =
    let full : 2000 * limit ≤ (now - b.updated_at) * limit = grind arith in omega arith

-- The two branches of the script.
pub spend_cases :
    (limit now tokens : ℕ)
    → let (r, b) = spend limit now tokens in
      ((1000 ≤ tokens)
        × (r.exceeded ≡ false)
        × (b ≡ record { tokens = tokens - 1000; updated_at = now }))
      ⊎ ((tokens < 1000)
          × (r.exceeded ≡ true)
          × (r.delay_ms ≡ ceil_div (1000 - tokens) limit)
          × (b ≡ record { tokens = tokens; updated_at = now }))
unfolding spend
spend_cases limit now tokens = elim (dec_le 1000 tokens) [
  | yes h ↦ inl (h, ground arith, ground arith)
  | no h ↦ inr (omega arith, ground arith, ground arith, ground arith)
]
