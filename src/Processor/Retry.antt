-- ===== src/Processor/Retry.antt =====
-- The backoff of processor/internal/service/retry.go. Durations are in nanoseconds.
pub mod Bounds
use insider_notification.Base.{ℕ, ℤ, pos, ltz, ◌+ℤ◌, ◌*◌, ◌/◌, ◌^◌, ◌-◌, leb, if◌then◌else◌}

abbrev pub second : ℕ
second = 1000000000

abbrev pub max_attempts : ℕ
max_attempts = 4

abbrev pub retry_base : ℕ
retry_base = 60 * second

abbrev pub retry_max_wait : ℕ
retry_max_wait = 480 * second

-- What the function takes from Go's floating point and math/rand: the conversion of an integral
-- float64 to a `time.Duration`; `rand.Float64()`, a number of 2^-53 parts; and, for a draw f, a
-- base and a factor given as a fraction, `time.Duration(f * float64(base) * factor)`.
pub record Randomness (S : Type 0) : Type 0 where
  pub to_duration : ℕ → ℤ
  pub draw : S → S × ℕ
  pub product : (f : ℕ) (base : ℤ) (num den : ℕ) → ℤ

-- `float64(retryBase) * math.Pow(2, float64(attempt-2))`, which is integral where the attempt is
-- not negative.
abbrev pub scaled_base : ℕ → ℕ
scaled_base attempt =
    if leb 2 attempt then retry_base * 2 ^ (attempt - 2) else retry_base / 2 ^ (2 - attempt)

abbrev pub capped : ℤ → ℤ
capped base = if ltz (pos retry_max_wait) base then pos retry_max_wait else base

-- `time.Duration(rand.Float64() * float64(base) * 0.2)`
abbrev pub jitter : {S : Type 0} → Randomness S → ℤ → S → S × ℤ
jitter r base s = let (s', f) = r.draw s in (s', r.product f base 2 10)

-- `RetryDelay`
unfoldable pub retry_delay : {S : Type 0} → Randomness S → ℕ → S → S × ℤ
retry_delay r attempt s =
    let base = capped (r.to_duration (scaled_base attempt)) in
    let (s', j) = jitter r base s in (s', base +ℤ j)
