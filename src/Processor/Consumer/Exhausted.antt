-- ===== src/Processor/Consumer/Exhausted.antt =====
-- A message whose deliveries run out: NATS delivers it as often as `MaxDeliver` says, which
-- processor/internal/app/app.go sets to one more than the attempts of its configuration.
use insider_notification.Base.{
  ℕ, pos, zero, suc, ◌+◌, ◌-◌, ◌^◌, ◌≤◌, ◌<◌, min, String, Bool, true, false, Option, none, some,
  ◌≡◌, refl, sym, ap, subst, ◌∙◌, inl, inr, ltz, lt→ltb, arith,
}
use insider_notification.Effect.{ok}
use insider_notification.Public.Events.{NotificationReadyEvent}
use insider_notification.Nats.{Msg}
use insider_notification.Nats.Subscriber.{Pull, Received, attempt_of, decode}
use insider_notification.Processor.Pipeline.{NotificationDeliveryPipeline, max_attempts_for}
use insider_notification.Processor.Pipeline.Laws.{Lawful}
use insider_notification.Processor.Pipeline.Runs.{answered}
use insider_notification.Processor.Consumer.{Settlement, ack, nak, nak_with_delay, process_one}
use insider_notification.Processor.Consumer.Redelivery.{
  Healthy, Works, process_one-Works, redeliver, after_settlement,
}

-- `processOne` on what `decode` made of a message; one that is no event was given back there.
abbrev pub consume_decoded :
    {S : Type 0}
    → NotificationDeliveryPipeline S
    → S × Option (Received NotificationReadyEvent)
    → S × Settlement
consume_decoded p (s, none) = (s, nak)
consume_decoded p (s, some r) = process_one p r.event r.attempt_number s

unfoldable pub consume :
    {S B : Type 0}
    → NotificationDeliveryPipeline S
    → Pull S NotificationReadyEvent B
    → Msg
    → S
    → S × Settlement
consume p c m s = consume_decoded p (decode c m s)

-- At most `left` deliveries of the message with the given data, the first of which is its n-th.
unfoldable pub deliver_again :
    {S B : Type 0}
    → NotificationDeliveryPipeline S
    → Pull S NotificationReadyEvent B
    → (data_ : String) → (idle : S → S) → (left n : ℕ) → S
    → S × Bool
deliver_again p c b idle zero n s = (s, false)
deliver_again p c b idle (suc left) n s =
    after_settlement (λ u. deliver_again p c b idle left (suc n) (idle u))
      (consume p c (record { data_ = b; num_delivered = some n }) s)

-- The n-th delivery of a message with an event is attempt n.
consume-process_one :
    {S B : Type 0} (p : NotificationDeliveryPipeline S) (c : Pull S NotificationReadyEvent B)
    (b : String) (evt : NotificationReadyEvent) (n : ℕ) (s : S)
    → c.unmarshal b ≡ ok evt
    → n < 2 ^ 63
    → consume p c (record { data_ = b; num_delivered = some n }) s ≡ process_one p evt n s
unfolding consume decode attempt_of
consume-process_one p c b evt n s reads small =
    let whole : min n (2 ^ 63 - 1) ≡ n = omega arith in rw (reads, whole) refl

settlement_cong :
    {S : Type 0} {f g : S → S × Bool} (x : S × Settlement)
    → ((u : S) → f u ≡ g u)
    → after_settlement f x ≡ after_settlement g x
settlement_cong (u, ack) h = refl
settlement_cong (u, nak) h = h u
settlement_cong (u, nak_with_delay d) h = h u

-- The deliveries of a message that reads back as an event are the attempts of that event, from the
-- number of the first delivery on, for numbers that an int can hold.
pub deliver_again-redeliver :
    {S B : Type 0} (p : NotificationDeliveryPipeline S) (c : Pull S NotificationReadyEvent B)
    (b : String) (evt : NotificationReadyEvent) (idle : S → S) (left n : ℕ) (s : S)
    → c.unmarshal b ≡ ok evt
    → n + left < 2 ^ 63
    → deliver_again p c b idle left n s ≡ redeliver p evt idle left n s
unfolding deliver_again redeliver
deliver_again-redeliver p c b evt idle zero n s reads small = refl
deliver_again-redeliver p c b evt idle (suc left) n s reads small =
    ap (after_settlement (λ u. deliver_again p c b idle left (suc n) (idle u)))
      (consume-process_one p c b evt n s reads (omega arith))
    ∙ settlement_cong (process_one p evt n s)
        (λ u. deliver_again-redeliver p c b evt idle left (suc n) (idle u) reads (omega arith))

module _ {S : Type 0} {p : NotificationDeliveryPipeline S} (laws : Lawful p) where
  open laws use {sent}

  -- The provider is out: it answers each request with a failure that may be tried again.
  abbrev pub IsOut : NotificationReadyEvent → Type 0
  IsOut evt =
      (s : S) → ((answered p evt s).1.success ≡ false) × ((answered p evt s).1.retryable ≡ true)

  -- No acknowledgement and no report after all the deliveries.
  abbrev pub Unsettled : S → S × Bool → Type 0
  Unsettled s x = (x.1 ≡ false) × (sent x.0 ≡ sent s)

module _ {S : Type 0} {p : NotificationDeliveryPipeline S} (laws : Lawful p)
    {evt : NotificationReadyEvent} {idle : S → S} (health : Healthy p evt idle) where
  open laws use {sent}

  out-Unsettled :
      (m n : ℕ) (s : S) (again : S → S × Bool) (x : S × Settlement)
      → max_attempts_for evt ≡ pos m
      → n < m
      → IsOut laws evt
      → Works laws health n s x.0 x.1
      → ((u : S) → health.ready (idle u) → Unsettled laws (idle u) (again u))
      → ((u : S) → sent (idle u) ≡ sent u)
      → Unsettled laws s (after_settlement again x)
  out-Unsettled m n s again (u, ack) max more out (_, back, inl (_, _, final)) rest quiet =
      let (failed, retryable) = out s in
      absurd (final (failed, retryable, ap (ltz (pos n)) max ∙ lt→ltb n m more))
  out-Unsettled m n s again (u, ack) max more out (_, back, inr (d, other, _, _)) rest quiet = cc
  out-Unsettled m n s again (u, nak) max more out (_, back, inl (other, _, _)) rest quiet = cc
  out-Unsettled m n s again (u, nak) max more out (_, back, inr (d, other, _, _)) rest quiet = cc
  out-Unsettled m n s again (u, nak_with_delay d) max more out (_, back, inl (other, _, _)) rest
        quiet =
      cc
  out-Unsettled m n s again (u, nak_with_delay d) max more out (_, back, inr (_, _, q, _)) rest
        quiet =
      let (done, kept) = rest u back in (done, kept ∙ quiet u ∙ q)

  redeliver-Unsettled :
      (m left n : ℕ) (s : S)
      → ((u : S) → sent (idle u) ≡ sent u)
      → max_attempts_for evt ≡ pos m
      → n + left ≤ m
      → health.ready s
      → IsOut laws evt
      → Unsettled laws s (redeliver p evt idle left n s)
  unfolding redeliver
  redeliver-Unsettled m zero n s quiet max enough live out = (refl, refl)
  redeliver-Unsettled m (suc left) n s quiet max enough live out =
      out-Unsettled m n s (λ u. redeliver p evt idle left (suc n) (idle u)) (process_one p evt n s)
        max (omega arith) out (process_one-Works laws health n s live)
        (λ u back. redeliver-Unsettled m left (suc n) (idle u) quiet max (omega arith) back out)
        quiet

  -- A message whose maximum m is above the number of its deliveries, which finds its lock free and
  -- the limiter allowing at its first delivery and each time the lock was released and the time
  -- between two deliveries has passed, in a processor with a broker that accepts and a provider
  -- that fails each request in a way that may be tried again: after its last delivery it has not
  -- been acknowledged, and no report of it has been published.
  pub deliver_again-Unsettled :
      {B : Type 0} (c : Pull S NotificationReadyEvent B) (b : String) (m deliveries : ℕ) (s : S)
      → c.unmarshal b ≡ ok evt
      → ((u : S) → sent (idle u) ≡ sent u)
      → max_attempts_for evt ≡ pos m
      → 1 + deliveries < 2 ^ 63
      → deliveries < m
      → health.ready s
      → IsOut laws evt
      → Unsettled laws s (deliver_again p c b idle deliveries 1 s)
  deliver_again-Unsettled c b m deliveries s reads quiet max small fewer live out =
      subst (Unsettled laws s)
        (sym (deliver_again-redeliver p c b evt idle deliveries 1 s reads small))
        (redeliver-Unsettled m deliveries 1 s quiet max (omega arith) live out)
