-- ===== src/Ports.antt =====
-- The port for publishing events: shared/messaging/publisher.go. A context carries no more than a
-- trace and cancellation, and is left out.
use insider_notification.Base.{String, List, [], ◌∷◌, ◌≡◌, ◌⊎◌}
use insider_notification.Effect.{M, Result, ok, err}
use insider_notification.Public.Events.{Payload}

-- The interface `Publisher` over the state of the broker.
pub record Publisher (S : Type 0) : Type 0 where
  pub publish : (topic : String) → Payload → M S (Unit {0})

-- The interface `BatchPublisher`, without the `Publisher` that it extends.
pub record BatchPublisher (S : Type 0) : Type 0 where
  pub publish_batch : (topic : String) → List Payload → M S (Unit {0})

-- The payload is one of those of a batch.
abbrev pub Listed : Payload → List Payload → Type 0
Listed m [] = ⊥
Listed m (x ∷ xs) = (x ≡ m) ⊎ Listed m xs

-- How a message is settled.
pub data Reply : Type 0 where
  acked nacked : Reply

abbrev pub reply_to : {S : Type 0} → S × Result (Unit {0}) → S × Reply
reply_to (s, ok _) = (s, acked)
reply_to (s, err e) = (s, nacked)
