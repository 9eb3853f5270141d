-- ===== src/Processor/Retry/Bounds.antt =====
-- The range of the delays of processor/internal/service/retry.go.
use insider_notification.Base.{ℕ, pos, ◌≡◌, ◌≤◌, ◌<◌, ◌*◌, ◌^◌, ◌-◌, ◌+ℤ◌, ◌+◌, le→leb, min, arith}
use insider_notification.Processor.Retry.{
  Randomness, second, retry_max_wait, scaled_base, capped, jitter, retry_delay,
}

-- A float64 that fits an int64 converts to that integer.
abbrev pub ConvertsInRange : {S : Type 0} → Randomness S → Type 0
ConvertsInRange r = (n : ℕ) → n < 2 ^ 63 → r.to_duration n ≡ pos n

-- `rand.Float64()` is below 1.
abbrev pub DrawsBelowOne : {S : Type 0} → Randomness S → Type 0
DrawsBelowOne {S} r = (s : S) → (r.draw s).1 < 2 ^ 53

-- A number below 1, times a base that a float64 holds with room to spare, times a factor from 0 to
-- 1, converts to no negative duration and to no more than the base times the factor.
abbrev pub ScalesDown : {S : Type 0} → Randomness S → Type 0
ScalesDown r =
    (f b num den : ℕ)
    → f < 2 ^ 53
    → b < 2 ^ 50
    → 1 ≤ den
    → num ≤ den
    → (j : ℕ) × (r.product f (pos b) num den ≡ pos j) × (den * j ≤ num * b)

-- The documented backoff before attempt n: one minute before the second attempt, doubled before
-- each later one, at most eight minutes.
abbrev pub backoff : ℕ → ℕ
backoff n = min (60 * second * 2 ^ (n - 2)) (480 * second)

capped-pos : (n : ℕ) → capped (pos n) ≡ pos (min n retry_max_wait)
capped-pos n = ground arith

+ℤ-pos : (a b : ℕ) → pos a +ℤ pos b ≡ pos (a + b)
unfolding ◌+ℤ◌
+ℤ-pos a b = ground arith

jitter-le :
    {S : Type 0} (r : Randomness S) (b : ℕ) (s : S)
    → DrawsBelowOne r
    → ScalesDown r
    → b < 2 ^ 50
    → (j : ℕ) × ((jitter r (pos b) s).1 ≡ pos j) × (5 * j ≤ b)
jitter-le r b s below scales fits =
    let (j, drawn, small) = scales (r.draw s).1 b 2 10 (below s) fits (omega arith) (omega arith) in
    (j, drawn, omega arith)

delay_lem :
    {S : Type 0} (r : Randomness S) (n j : ℕ) (s : S)
    → ConvertsInRange r
    → 2 ≤ n
    → 60 * second * 2 ^ (n - 2) < 2 ^ 63
    → (jitter r (pos (backoff n)) s).1 ≡ pos j
    → (retry_delay r n s).1 ≡ pos (backoff n + j)
unfolding retry_delay
delay_lem r n j s convert late fits drawn =
    let scaled : scaled_base n ≡ 60 * second * 2 ^ (n - 2) = rw (le→leb 2 n late) in
    let base = convert (60 * second * 2 ^ (n - 2)) fits in
    rw (scaled, base, capped-pos, drawn) (+ℤ-pos (backoff n) j)

-- From the second attempt on, as long as the doubled base fits a duration, where a float64 that
-- fits converts exactly, a random number is below 1, and its product with a base and a factor up to
-- 1 is at most that share of the base: the delay is at least the backoff, the doubled base capped
-- at eight minutes, and exceeds it by no more than a fifth.
pub retry_delay-bounds :
    {S : Type 0} (r : Randomness S) (n : ℕ) (s : S)
    → ConvertsInRange r
    → DrawsBelowOne r
    → ScalesDown r
    → 2 ≤ n
    → 60 * second * 2 ^ (n - 2) < 2 ^ 63
    → (d : ℕ) × ((retry_delay r n s).1 ≡ pos d) × (backoff n ≤ d) × (5 * d ≤ 6 * backoff n)
retry_delay-bounds r n s convert below scales late fits =
    let (j, drawn, small) = jitter-le r (backoff n) s below scales (omega arith) in
    (backoff n + j, delay_lem r n j s convert late fits drawn, omega arith, omega arith)
