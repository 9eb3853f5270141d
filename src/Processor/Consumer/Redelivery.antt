-- ===== src/Processor/Consumer/Redelivery.antt =====
-- A message over its deliveries: the broker delivers it again, with the next attempt number, after
-- each `Nak` or `NakWithDelay` of `processOne`, up to a limit.
use insider_notification.Base.{
  ℕ, ℤ, pos, zero, suc, ◌+◌, String, Bool, true, false, [], ◌∷◌, ◌++◌, ◌≡◌, ◌≤◌, ◌<◌, refl, ap, ◌∙◌,
  ◌⊎◌, inl, inr, ltz, ltb→lt, subst, sym, arith,
}
use insider_notification.Effect.{Result, ok, err, then_on}
use insider_notification.Public.Topic
use insider_notification.Public.Events.{NotificationReadyEvent, Payload, delivery_result}
use insider_notification.Processor.Client.{DeliveryResult}
use insider_notification.Processor.Pipeline.{
  NotificationDeliveryPipeline, max_attempts_for, run, run_locked,
}
use insider_notification.Processor.Pipeline.Laws.{Lawful}
use insider_notification.Processor.Pipeline.Attempt.{verdict, MayRetry}
use insider_notification.Processor.Pipeline.Runs.{locked, answered, Runs, run-Runs}
use insider_notification.Processor.Consumer.{
  Settlement, ack, nak, nak_with_delay, settle_error, settlement, process_one,
}

-- An acknowledged message is done, another one goes on.
abbrev pub after_settlement : {S : Type 0} → (again : S → S × Bool) → S × Settlement → S × Bool
after_settlement again (s, ack) = (s, true)
after_settlement again (s, nak) = again s
after_settlement again (s, nak_with_delay d) = again s

-- At most `left` deliveries of a message from attempt n on, with `idle` between them; whether the
-- message was acknowledged.
unfoldable pub redeliver :
    {S : Type 0}
    → NotificationDeliveryPipeline S
    → NotificationReadyEvent
    → (idle : S → S) → (left n : ℕ) → S
    → S × Bool
redeliver p evt idle zero n s = (s, false)
redeliver p evt idle (suc left) n s =
    after_settlement (λ u. redeliver p evt idle left (suc n) (idle u)) (process_one p evt n s)

-- The deliveries of one message by a processor whose dependencies work: `ready` are the states in
-- which the lock of the message is free and, once it is taken, the limiter allows. A state is ready
-- again when the lock was released and the time between two deliveries has passed. The broker
-- accepts.
pub record Healthy {S : Type 0} (p : NotificationDeliveryPipeline S) (evt : NotificationReadyEvent)
    (idle : S → S) : Type 1 where
  pub ready : S → Type 0
  pub lock_free : (s : S) → ready s → (p.locker.try_lock evt.notification_id s).1 ≡ ok true
  pub allowed :
      (s : S)
      → ready s
      → (d : ℤ) × ((p.limiter.is_allowed evt.channel (p.locker.try_lock evt.notification_id s).0).1
          ≡ ok (true, d))
  pub rested : (s : S) → ready (idle (p.locker.unlock evt.notification_id s).0)
  pub accepts : (s : S) (t : String) (m : Payload) → (p.publisher.publish t m s).1 ≡ ok tt

-- The lock that a run has taken is released at its end.
process_one-unlocks :
    {S : Type 0} (p : NotificationDeliveryPipeline S) (evt : NotificationReadyEvent) (n : ℕ) (s : S)
    → (p.locker.try_lock evt.notification_id s).1 ≡ ok true
    → (u : S) × ((process_one p evt n s).0 ≡ (p.locker.unlock evt.notification_id u).0)
unfolding process_one run run_locked
process_one-unlocks p evt n s held = (
  _,
  ap
      (λ (r : Result Bool).
        (then_on (run_locked p evt n) ((p.locker.try_lock evt.notification_id s).0, r)).0)
      held,
)

module _ {S : Type 0} {p : NotificationDeliveryPipeline S} (laws : Lawful p) where
  open laws use {sent, requests}

  -- One acknowledgement, with the verdict of an attempt from n to m as the only publication.
  abbrev pub SettlesBy : NotificationReadyEvent → (n m : ℕ) → S → S × Bool → Type 0
  SettlesBy evt n m s x =
      (x.1 ≡ true)
      × ((dr : DeliveryResult) × (k : ℕ) × (n ≤ k)
          × (k ≤ m)
          × (n + requests x.0 ≡ requests s + suc k)
          × (sent x.0 ≡ sent s ++ (Topic.status, delivery_result (verdict evt dr k)) ∷ []))

module _ {S : Type 0} {p : NotificationDeliveryPipeline S} (laws : Lawful p)
    {evt : NotificationReadyEvent} {idle : S → S} (health : Healthy p evt idle) where
  open laws use {sent, requests}

  -- A run where all dependencies work: the verdict of this attempt, or another try.
  abbrev pub Works : ℕ → S → S → Settlement → Type 0
  Works n s s' settled =
      (requests s' ≡ suc (requests s))
      × health.ready (idle s')
      × (((settled ≡ ack)
            × (sent s'
                ≡ sent s
                  ++ (Topic.status, delivery_result (verdict evt (answered p evt s).1 n)) ∷ [])
            × ¬ MayRetry evt (answered p evt s).1 n)
          ⊎ ((d : ℤ) × (settled ≡ nak_with_delay d)
              × (sent s' ≡ sent s)
              × MayRetry evt (answered p evt s).1 n))

  pub process_one-Works :
      (n : ℕ) (s : S)
      → health.ready s
      → Works n s (process_one p evt n s).0 (process_one p evt n s).1
  unfolding process_one settlement
  process_one-Works n s live = go (run p evt n s).1 (run-Runs laws evt n s)
    where
      free : (locked p evt s).1 ≡ ok true
      free = health.lock_free s live

      again : health.ready (idle (run p evt n s).0)
      again =
          let (u, after) = process_one-unlocks p evt n s free in
          subst (λ x. health.ready (idle x)) (sym after) (health.rested u)

      go :
          (r : Result (Unit {0}))
          → Runs laws evt n s (sent (run p evt n s).0) (requests (run p evt n s).0) r
          → Works n s (run p evt n s).0 (settlement r)
      go (ok _) (inl (missed, _, _)) = cc free
      go (ok _) (inr (_, q, k, final)) = (k, again, inl (refl, q, final))
      go (err e) (inl (_, inl (_, failed))) = cc free
      go (err e) (inl (_, inr (inl (_, _, failed)))) =
          let (d, allowed) = health.allowed s live in cc
      go (err e) (inl (_, inr (inr (_, _, _, (u, failed))))) = cc (health.accepts u _ _)
      go (err e) (inr (inl (d, _, refused, _, _, _))) =
          let (d', allowed) = health.allowed s live in cc
      go (err e) (inr (inr (_, delay, may, q, k))) =
          (k, again, inr (_, ap settle_error delay, q, may))

  -- What a negative acknowledgement of attempt n leaves to the later deliveries.
  later :
      (m left n : ℕ) (s u : S) (dr : DeliveryResult)
      → ((v : S) → (sent (idle v) ≡ sent v) × (requests (idle v) ≡ requests v))
      → max_attempts_for evt ≡ pos m
      → requests u ≡ suc (requests s)
      → sent u ≡ sent s
      → MayRetry evt dr n
      → (suc n ≤ m
          → SettlesBy laws evt (suc n) m (idle u) (redeliver p evt idle left (suc n) (idle u)))
      → SettlesBy laws evt n m s (redeliver p evt idle left (suc n) (idle u))
  later m left n s u dr quiet max k q (_, _, below) rest =
      let under : ltz (pos n) (pos m) ≡ true = subst (λ x. ltz (pos n) x ≡ true) max below in
      let (same, still) = quiet u in
      let (done, (dr', j, low, high, count, all)) = rest (ltb→lt n m under) in
      (
        done,
        (
          dr',
          j,
          omega arith,
          high,
          omega arith,
          all ∙ ap (λ l. l ++ (Topic.status, delivery_result (verdict evt dr' j)) ∷ []) (same ∙ q),
        ),
      )

  first :
      (m left n : ℕ) (s : S) (x : S × Settlement)
      → ((u : S) → (sent (idle u) ≡ sent u) × (requests (idle u) ≡ requests u))
      → max_attempts_for evt ≡ pos m
      → n ≤ m
      → Works n s x.0 x.1
      → ((u : S)
          → health.ready (idle u)
          → suc n ≤ m
          → SettlesBy laws evt (suc n) m (idle u) (redeliver p evt idle left (suc n) (idle u)))
      → SettlesBy laws evt n m s
          (after_settlement (λ u. redeliver p evt idle left (suc n) (idle u)) x)
  first m left n s (u, ack) quiet max le (k, back, inl (_, q, _)) rest =
      (refl, ((answered p evt s).1, n, omega arith, le, omega arith, q))
  first m left n s (u, ack) quiet max le (k, back, inr (d, other, _, _)) rest = cc
  first m left n s (u, nak) quiet max le (k, back, inl (other, _, _)) rest = cc
  first m left n s (u, nak) quiet max le (k, back, inr (d, other, _, _)) rest = cc
  first m left n s (u, nak_with_delay d) quiet max le (k, back, inl (other, _, _)) rest = cc
  first m left n s (u, nak_with_delay d) quiet max le (k, back, inr (_, _, q, may)) rest =
      later m left n s u (answered p evt s).1 quiet max k q may (rest u back)

  -- With lawful dependencies, a broker that accepts, and the lock of the message free and the
  -- limiter allowing at its first delivery and each time the lock was released and the time between
  -- two deliveries has passed: a message whose maximum is m and that can be delivered up to attempt
  -- m is acknowledged. Exactly one message is published for it, the verdict of an attempt k ≤ m,
  -- and the provider is asked once in each attempt up to k, provided nothing else is published or
  -- asked of the provider between the deliveries.
  pub redeliver-SettlesBy :
      (m left n : ℕ) (s : S)
      → ((u : S) → (sent (idle u) ≡ sent u) × (requests (idle u) ≡ requests u))
      → max_attempts_for evt ≡ pos m
      → n ≤ m
      → m < n + left
      → health.ready s
      → SettlesBy laws evt n m s (redeliver p evt idle left n s)
  unfolding redeliver
  redeliver-SettlesBy m zero n s quiet max le lt live = absurd (omega arith)
  redeliver-SettlesBy m (suc left) n s quiet max le lt live =
      first m left n s (process_one p evt n s) quiet max le (process_one-Works n s live)
        (λ u back more.
          redeliver-SettlesBy m left (suc n) (idle u) quiet max more (omega arith) back)
