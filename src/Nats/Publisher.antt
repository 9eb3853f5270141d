-- ===== src/Nats/Publisher.antt =====
-- The publisher: shared/messaging/nats/publisher.go. The trace headers are left out.
pub mod States
pub mod Acks
pub mod Order
use insider_notification.Base.{String, Option, none, some, List, [], ◌∷◌}
use insider_notification.Errors.{Error, join}
use insider_notification.Effect.{M, Result, ok, err, pure, lift, wrapping, ◌>>=◌, ◌>>◌}
use insider_notification.Platform.{Platform}
use insider_notification.Public.Events.{Payload}
use insider_notification.Ports.{Publisher, BatchPublisher}
use insider_notification.Nats.{JetStream, Marshaller}

-- `nil` is success.
abbrev pub to_result : Option Error → Result (Unit {0})
to_result none = ok tt
to_result (some e) = err e

abbrev pub add_error : Result (Unit {0}) → List Error → List Error
add_error (ok _) es = es
add_error (err e) es = e ∷ es

module _ {S F : Type 0} (p : Platform) (json : Marshaller) (js : JetStream S F) where
  abbrev pub encode : Payload → M S String
  encode m = wrapping p "nats marshal payload: " (lift (json.marshal m))

  -- `Publish`
  unfoldable pub publish : (subject : String) → Payload → M S (Unit {0})
  publish subject payload = do b ← encode payload; js.publish_msg subject b

  abbrev pub send_async : (subject data_ : String) → M S F
  send_async subject b = wrapping p "nats async publish: " (js.publish_msg_async subject b)

  abbrev pub and_then : M S (List F) → F → M S (List F)
  and_then rest f = do fs ← rest; pure (f ∷ fs)

  -- The loop of `PublishBatch` that sends.
  unfoldable pub send_all : (subject : String) → List Payload → M S (List F)
  send_all subject [] = pure []
  send_all subject (m ∷ ms) = do
    b ← encode m
    f ← send_async subject b
    and_then (send_all subject ms) f

  abbrev pub after_outcome : (S → S × List Error) → S × Result (Unit {0}) → S × List Error
  after_outcome rest (s, r) = ((rest s).0, add_error r (rest s).1)

  -- Its loop that collects the errors.
  unfoldable pub collect : List F → S → S × List Error
  collect [] s = (s, [])
  collect (f ∷ fs) s = after_outcome (collect fs) (js.outcome f s)

  abbrev pub settle : List F → M S (Unit {0})
  settle fs s = let (s', es) = collect fs s in (s', to_result (join es))

  -- `PublishBatch`
  unfoldable pub publish_batch : (subject : String) → List Payload → M S (Unit {0})
  publish_batch subject [] = pure tt
  publish_batch subject (m ∷ ms) = do fs ← send_all subject (m ∷ ms); js.complete; settle fs

  -- `NewPublisher`, as each of the two interfaces.
  unfoldable pub new_publisher : Publisher S
  new_publisher = record { publish = publish }

  unfoldable pub new_batch_publisher : BatchPublisher S
  new_batch_publisher = record { publish_batch = publish_batch }
