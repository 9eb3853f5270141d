-- ===== src/Nats.antt =====
-- NATS JetStream as shared/messaging/nats uses it.
pub mod Publisher
pub mod Subscriber
use insider_notification.Base.{ℕ, String, Bool, Option}
use insider_notification.Effect.{M, Result}
use insider_notification.Public.Events.{Payload}

-- What the program reads of a message that was fetched: its data and, where it has metadata, the
-- number of its deliveries.
pub record Msg : Type 0 where
  pub data_ : String
  pub num_delivered : Option ℕ

-- `json.Marshal` of a payload.
pub record Marshaller : Type 0 where
  pub marshal : Payload → Result String

-- The calls of `JetStreamContext` for publishing, with the futures of asynchronous publications.
-- `complete` is the wait for `PublishAsyncComplete` or the end of the context, `outcome` the wait
-- for `Ok` or `Err` of a future.
pub record JetStream (S F : Type 0) : Type 0 where
  pub publish_msg : (subject data_ : String) → M S (Unit {0})
  pub publish_msg_async : (subject data_ : String) → M S F
  pub complete : M S (Unit {0})
  pub outcome : F → M S (Unit {0})
