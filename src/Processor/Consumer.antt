-- ===== src/Processor/Consumer.antt =====
-- The consumer of the ready notifications: `processOne` of
-- processor/internal/transport/messaging/notification_ready_consumer.go.
pub mod Redelivery
pub mod Exhausted
use insider_notification.Base.{ℕ, ℤ, Option, none, some}
use insider_notification.Errors.{Error, as_retry_after}
use insider_notification.Effect.{Result, ok, err}
use insider_notification.Public.Events.{NotificationReadyEvent}
use insider_notification.Processor.Pipeline.{NotificationDeliveryPipeline, run}

-- What is called on the message of the broker.
pub data Settlement : Type 0 where
  ack nak : Settlement
  nak_with_delay : (delay : ℤ) → Settlement

abbrev pub settle_error : Option ℤ → Settlement
settle_error none = nak
settle_error (some delay) = nak_with_delay delay

unfoldable pub settlement : Result (Unit {0}) → Settlement
settlement (ok _) = ack
settlement (err e) = settle_error (as_retry_after e)

-- `processOne`, on the event and the attempt number of the message.
unfoldable pub process_one :
    {S : Type 0} → NotificationDeliveryPipeline S → NotificationReadyEvent → ℕ → S → S × Settlement
process_one p evt attempt s = let (s', r) = run p evt attempt s in (s', settlement r)
