-- ===== src/Tests/Lock.antt =====
-- Two workers and a Redis with one key.
use insider_notification.Base.{
  ℕ, ◌+◌, ◌<◌, Bool, true, false, Option, none, some, ◌≡◌, refl, sym, ap, ◌∙◌, ltb, lt→ltb,
  if◌then◌else◌, eqb,
}
use insider_notification.Effect.{Result, ok}
use insider_notification.Lock.{Redis, lock_ttl, try_lock}
use insider_notification.Lock.Exclusion.{
  RedisLaws, Workers, Step, taking, missing, done, then_, IsExclusive, Steps-IsExclusive,
}

record Server : Type 0 where
  time : ℕ
  key : Option ℕ

abbrev is_live : Option ℕ → ℕ → Bool
is_live none t = false
is_live (some e) t = ltb t e

abbrev set_if : Bool → ℕ → Server → Server × Result Bool
set_if true ttl s = (s, ok false)
set_if false ttl s = (record s { key = some (s.time + ttl) }, ok true)

-- The server has a single key.
abbrev client : Redis Server
client = record {
  set_nx = λ k ttl s. set_if (is_live s.key s.time) ttl s;
  del = λ k s. (record s { key = none }, ok tt);
}

set_if-time : (b : Bool) (ttl : ℕ) (s : Server) → (set_if b ttl s).0.time ≡ s.time
set_if-time true ttl s = refl
set_if-time false ttl s = refl

set_if-key :
    (b : Bool) (ttl : ℕ) (s s' : Server)
    → set_if b ttl s ≡ (s', ok true)
    → s'.key ≡ some (s.time + ttl)
set_if-key true ttl s s' h = cc
set_if-key false ttl s s' h = ap (λ (y : Server × Result Bool). y.0.key) (sym h)

live : (s : Server) (t : ℕ) → s.key ≡ some t → s.time < t → is_live s.key s.time ≡ true
live s t h lt = ap (λ k. is_live k s.time) h ∙ lt→ltb s.time t lt

abbrev laws : RedisLaws client
laws = record {
  now = λ s. s.time;
  expiry = λ s k. s.key;
  set_nx_now = λ s k ttl. set_if-time (is_live s.key s.time) ttl s;
  del_now = λ s k. refl;
  set_nx_set = λ s s' k ttl h. set_if-key (is_live s.key s.time) ttl s s' h;
  set_nx_keeps = λ s k ttl t h lt. ap (λ b. (set_if b ttl s).0.key) (live s t h lt) ∙ h;
  set_nx_taken = λ s k ttl t h lt same.
      let refused : (set_if (is_live s.key s.time) ttl s).1 ≡ ok false =
        ap (λ b. (set_if b ttl s).1) (live s t h lt) in
      cc;
}

abbrev idle : Workers laws "1"
idle = record { redis = record { time = 5; key = none }; since = λ w. none }

nobody_yet : IsExclusive laws "1" idle
nobody_yet = record { live = λ w t h. cc; one = λ v w t u h k. cc }

abbrev held : Server
held = record { time = 5; key = some (5 + lock_ttl) }

abbrev taken : Workers laws "1"
taken = record { redis = held; since = λ v. if eqb 1 v then some 5 else none }

abbrev refused : Workers laws "1"
refused = record { redis = held; since = taken.since }

first_takes : Step laws "1" idle taken
unfolding try_lock
first_takes = taking 1 refl

second_misses : Step laws "1" taken refused
unfolding try_lock
second_misses = missing {r = ok false} refl (λ h. cc)

Steps-IsExclusive_example : IsExclusive laws "1" refused
Steps-IsExclusive_example =
    Steps-IsExclusive laws "1" nobody_yet (then_ (then_ done first_takes) second_misses)
