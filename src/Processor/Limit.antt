-- ===== src/Processor/Limit.antt =====
-- The rate limiter of processor/internal/service/ratelimit.go.
use Prim.Native.String
use insider_notification.Base.{
  ℕ, ℤ, pos, String, Bool, true, false, List, [], ◌∷◌, ◌==◌, is_positive, if◌then◌else◌,
}
use insider_notification.Effect.{M, pure, ◌>>=◌, wrapping}
use insider_notification.Platform.{Platform}
use insider_notification.Processor.Retry.{second}

-- The interface `Limiter`: whether an attempt is allowed, and when to try again.
pub record Limiter (S : Type 0) : Type 0 where
  pub is_allowed : (channel : String) → M S (Bool × ℤ)

-- `redis_rate.Limit` and the part of `redis_rate.Result` that is used.
pub record RateLimit : Type 0 where
  pub rate : ℤ
  pub burst : ℤ
  pub period : ℕ

pub record RateResult : Type 0 where
  pub allowed : ℤ
  pub retry_after : ℤ

-- `redis_rate.Limiter.Allow`
pub record RateLimiter (S : Type 0) : Type 0 where
  pub allow : (key : String) → RateLimit → M S RateResult

abbrev pub default_limit : RateLimit
default_limit = record { rate = pos 100; burst = pos 120; period = second }

-- The map `channelLimits`, as pairs with different keys.
unfoldable pub limit_for : List (String × RateLimit) → String → RateLimit
limit_for [] channel = default_limit
limit_for ((c, l) ∷ rest) channel = if c == channel then l else limit_for rest channel

abbrev pub limit_key : String → String
limit_key channel = String.◌++◌ "ratelimit:{" (String.◌++◌ channel "}")

-- The method `IsAllowed` of `redisLimiter`.
unfoldable pub is_allowed :
    {S : Type 0}
    → Platform
    → RateLimiter S
    → List (String × RateLimit)
    → (channel : String) → M S (Bool × ℤ)
is_allowed p limiter limits channel = do
  res ← wrapping p "rate limiter: " (limiter.allow (limit_key channel) (limit_for limits channel))
  pure (if is_positive res.allowed then (true, pos 0) else (false, res.retry_after))

-- `NewLimiter`
abbrev pub new_limiter :
    {S : Type 0} → Platform → RateLimiter S → List (String × RateLimit) → Limiter S
new_limiter p limiter limits = record { is_allowed = is_allowed p limiter limits }
