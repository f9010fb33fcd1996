-- ===== src/RateLimit/Bucket.antt =====
-- golang.org/x/time/rate, which the limiters call and do not implement: a parameter.
use grok_search_mcp.Base.{ℕ, Bool}

-- Times and intervals are numbers of nanoseconds. A call that changes a `*rate.Limiter` returns it.
pub record TokenBucket : Type 1 where
  pub Limit : Type 0
  pub Bucket : Type 0
  -- `rate.Every(interval)`
  pub every : ℕ → Limit
  -- `rate.NewLimiter(limit, burst)`
  pub new_limiter : Limit → ℕ → Bucket
  -- `limiter.AllowN(now, n)`
  pub allow_n : Bucket → ℕ → ℕ → Bool × Bucket
  -- `limiter.SetLimitAt(now, limit)`
  pub set_limit_at : Bucket → ℕ → Limit → Bucket
  -- `limiter.SetBurstAt(now, burst)`
  pub set_burst_at : Bucket → ℕ → ℕ → Bucket

-- `time.Minute`
abbrev pub minute : ℕ
minute = 60_000_000_000
