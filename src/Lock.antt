-- ===== src/Lock.antt =====
-- The lock in Redis: shared/lock/redis.go. The client of Redis is a parameter.
pub mod Exclusion
use Prim.Native.String
use insider_notification.Base.{ℕ, ◌*◌, ◌^◌, String, Bool}
use insider_notification.Effect.{M}
use insider_notification.Processor.Pipeline.{Locker}

-- `SetNX(key, 1, ttl)`, with the duration in nanoseconds, and `Del(key)`.
pub record Redis (S : Type 0) : Type 0 where
  pub set_nx : (key : String) (ttl : ℕ) → M S Bool
  pub del : (key : String) → M S (Unit {0})

-- `lockTTL`, 10 seconds.
abbrev pub lock_ttl : ℕ
lock_ttl = 10 * 10 ^ 9

abbrev pub key_of : String → String
key_of id = String.◌++◌ "notify:lock:" id

module _ {S : Type 0} (client : Redis S) where
  -- `TryLock`
  unfoldable pub try_lock : (id : String) → M S Bool
  try_lock id = client.set_nx (key_of id) lock_ttl

  -- `Unlock`
  unfoldable pub unlock : (id : String) → M S (Unit {0})
  unlock id = client.del (key_of id)

  -- `NewRedisLocker`
  unfoldable pub new_redis_locker : Locker S
  new_redis_locker = record { try_lock = try_lock; unlock = unlock }
