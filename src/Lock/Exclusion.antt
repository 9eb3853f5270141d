-- ===== src/Lock/Exclusion.antt =====
-- Workers that take and release the lock of one id: shared/lock/redis.go as `Run` of
-- processor/internal/delivery/pipeline.go uses it.
use insider_notification.Base.{
  ℕ, ◌+◌, ◌≤◌, ◌<◌, String, Bool, true, Option, none, some, ◌≡◌, ◌≢◌, sym, ap, ◌∙◌, eqb, eqb_iff,
  Bool-cases, if◌then◌else◌, inl, inr, arith,
}
use insider_notification.Effect.{Result, ok}
use insider_notification.Lock.{Redis, lock_ttl, key_of, try_lock, unlock}

-- What Redis documents: a key that was set expires at a time; while it is there `SetNX` neither
-- changes it nor reports that it was set, and `SetNX` that reports so has set it to expire after
-- its duration. `now` is the time of the server; the calls take none.
pub record RedisLaws {S : Type 0} (client : Redis S) : Type 0 where
  pub now : S → ℕ
  pub expiry : S → String → Option ℕ
  pub set_nx_now : (s : S) (k : String) (ttl : ℕ) → now (client.set_nx k ttl s).0 ≡ now s
  pub del_now : (s : S) (k : String) → now (client.del k s).0 ≡ now s
  pub set_nx_set :
      (s s' : S) (k : String) (ttl : ℕ)
      → client.set_nx k ttl s ≡ (s', ok true)
      → expiry s' k ≡ some (now s + ttl)
  pub set_nx_keeps :
      (s : S) (k : String) (ttl t : ℕ)
      → expiry s k ≡ some t
      → now s < t
      → expiry (client.set_nx k ttl s).0 k ≡ some t
  pub set_nx_taken :
      (s : S) (k : String) (ttl t : ℕ)
      → expiry s k ≡ some t
      → now s < t
      → (client.set_nx k ttl s).1 ≢ ok true

module _ {S : Type 0} {client : Redis S} (laws : RedisLaws client) (id : String) where
  open laws use {now, expiry}

  -- The state of Redis, and when each worker that is between its `TryLock` and its `Unlock` got the
  -- lock.
  pub record Workers : Type 0 where
    pub redis : S
    pub since : ℕ → Option ℕ

  abbrev pub put : (ℕ → Option ℕ) → ℕ → Option ℕ → ℕ → Option ℕ
  put f w o v = if eqb w v then o else f v

  -- Time passes, or something happens that is not about the key of the id.
  pub record Later (s s' : S) : Type 0 where
    pub forward : now s ≤ now s'
    pub kept : (t : ℕ) → expiry s (key_of id) ≡ some t → now s' < t → expiry s' (key_of id) ≡ some t

  -- No worker holds the lock for as long as the key lives.
  abbrev pub InTime : (ℕ → Option ℕ) → S → Type 0
  InTime since s = (w t : ℕ) → since w ≡ some t → now s < t + lock_ttl

  pub data Step : Workers → Workers → Type 0 where
    taking :
        {x : Workers} {s' : S} (w : ℕ)
        → try_lock client id x.redis ≡ (s', ok true)
        → Step x (record { redis = s'; since = put x.since w (some (now x.redis)) })
    missing :
        {x : Workers} {s' : S} {r : Result Bool}
        → try_lock client id x.redis ≡ (s', r)
        → r ≢ ok true
        → Step x (record { redis = s'; since = x.since })
    leaving :
        {x : Workers} {s' : S} {r : Result (Unit {0})} (w t : ℕ)
        → x.since w ≡ some t
        → unlock client id x.redis ≡ (s', r)
        → Step x (record { redis = s'; since = put x.since w none })
    passing :
        {x : Workers} {s' : S}
        → Later x.redis s'
        → InTime x.since s'
        → Step x (record { redis = s'; since = x.since })

  pub data Steps : Workers → Workers → Type 0 where
    done : {x : Workers} → Steps x x
    then_ : {x y z : Workers} → Steps x y → Step y z → Steps x z

  -- Each holder has its key, which lives, and there is one holder at most.
  pub record IsExclusive (x : Workers) : Type 0 where
    pub live :
        (w t : ℕ)
        → x.since w ≡ some t
        → (expiry x.redis (key_of id) ≡ some (t + lock_ttl)) × (now x.redis < t + lock_ttl)
    pub one : (v w t u : ℕ) → x.since v ≡ some t → x.since w ≡ some u → v ≡ w

  -- Where a lock is given, nobody held it.
  nobody :
      (x : Workers) (s' : S)
      → IsExclusive x
      → try_lock client id x.redis ≡ (s', ok true)
      → (w t : ℕ) → ¬ (x.since w ≡ some t)
  unfolding try_lock
  nobody x s' good taken w t h =
      let (there, alive) = good.live w t h in
      laws.set_nx_taken x.redis (key_of id) lock_ttl (t + lock_ttl) there alive
        (ap (λ y. y.1) taken)

  put-some :
      (f : ℕ → Option ℕ) (w v m t : ℕ)
      → ((v t : ℕ) → ¬ (f v ≡ some t))
      → put f w (some m) v ≡ some t
      → (w ≡ v) × (m ≡ t)
  put-some f w v m t nobody_ h = elim (Bool-cases (eqb w v)) [
    | inl same ↦ (ground (arith, eqb_iff w v), ground (arith, rw same at h))
    | inr other ↦ absurd (nobody_ v t (rw other at h))
  ]

  put-none : (f : ℕ → Option ℕ) (w v t : ℕ) → put f w none v ≡ some t → (f v ≡ some t) × (w ≢ v)
  put-none f w v t h = elim (Bool-cases (eqb w v)) [
    | inl same ↦ cc (rw same at h)
    | inr other ↦ (rw other at h, λ (same : w ≡ v). ground (arith, eqb_iff w v))
  ]

  taking-IsExclusive :
      (x : Workers) (s' : S) (w : ℕ)
      → IsExclusive x
      → try_lock client id x.redis ≡ (s', ok true)
      → IsExclusive (record { redis = s'; since = put x.since w (some (now x.redis)) })
  unfolding try_lock
  taking-IsExclusive x s' w good h =
      let alone = nobody x s' good h in
      let same_now : now s' ≡ now x.redis =
        ap (λ y. now y.0) (sym h) ∙ laws.set_nx_now x.redis (key_of id) lock_ttl in
      record {
        live = λ v t held.
            let (who, when) = put-some x.since w v (now x.redis) t alone held in
            (
              laws.set_nx_set x.redis s' (key_of id) lock_ttl h
                  ∙ ap (λ k. some (k + lock_ttl)) when,
              omega arith,
            );
        one = λ u v t r first second.
            let (a, _) = put-some x.since w u (now x.redis) t alone first in
            let (b, _) = put-some x.since w v (now x.redis) r alone second in sym a ∙ b;
      }

  missing-IsExclusive :
      (x : Workers) (s' : S) (r : Result Bool)
      → IsExclusive x
      → try_lock client id x.redis ≡ (s', r)
      → IsExclusive (record { redis = s'; since = x.since })
  unfolding try_lock
  missing-IsExclusive x s' r good h =
      let same_now : now s' ≡ now x.redis =
        ap (λ y. now y.0) (sym h) ∙ laws.set_nx_now x.redis (key_of id) lock_ttl in
      record {
        live = λ w t held.
            let (there, alive) = good.live w t held in
            (
              ap (λ y. expiry y.0 (key_of id)) (sym h)
                  ∙ laws.set_nx_keeps x.redis (key_of id) lock_ttl (t + lock_ttl) there alive,
              omega arith,
            );
        one = good.one;
      }

  leaving-IsExclusive :
      (x : Workers) (s' : S) (w t : ℕ)
      → IsExclusive x
      → x.since w ≡ some t
      → IsExclusive (record { redis = s'; since = put x.since w none })
  leaving-IsExclusive x s' w t good mine = record {
    live = λ v u held.
        let (other, apart) = put-none x.since w v u held in
        absurd (apart (good.one w v t u mine other));
    one = λ v v' u u' first second.
        let (other, apart) = put-none x.since w v u first in
        absurd (apart (good.one w v t u mine other));
  }

  passing-IsExclusive :
      (x : Workers) (s' : S)
      → IsExclusive x
      → Later x.redis s'
      → InTime x.since s'
      → IsExclusive (record { redis = s'; since = x.since })
  passing-IsExclusive x s' good later in_time = record {
    live = λ w t held.
        let (there, alive) = good.live w t held in
        (later.kept (t + lock_ttl) there (in_time w t held), in_time w t held);
    one = good.one;
  }

  Step-IsExclusive : {x y : Workers} → IsExclusive x → Step x y → IsExclusive y
  Step-IsExclusive good (taking {x} {s'} w h) = taking-IsExclusive x s' w good h
  Step-IsExclusive good (missing {x} {s'} {r} h not_) = missing-IsExclusive x s' r good h
  Step-IsExclusive good (leaving {x} {s'} w t mine h) = leaving-IsExclusive x s' w t good mine
  Step-IsExclusive good (passing {x} {s'} later in_time) =
      passing-IsExclusive x s' good later in_time

  -- Workers that take and release the lock of one id in any order, while time passes and each of
  -- them releases the lock before its key expires: from a state in which at most one worker holds
  -- the lock, and its key is in Redis until the duration of the lock has passed, each state that
  -- they reach is such a state.
  pub Steps-IsExclusive : {x y : Workers} → IsExclusive x → Steps x y → IsExclusive y
  Steps-IsExclusive good done = good
  Steps-IsExclusive good (then_ before step) = Step-IsExclusive (Steps-IsExclusive good before) step
