-- ===== src/Processor/Workers/Replay.antt =====
-- What the workers have done with the messages that they settled: `StartMessageProcessing` of
-- processor/internal/transport/messaging/notification_ready_consumer.go.
use insider_notification.Base.{List, [], ◌∷◌, ◌++◌, ◌≡◌, ap, ap₂, ◌∙◌}
use insider_notification.Processor.Pipeline.{NotificationDeliveryPipeline}
use insider_notification.Processor.Consumer.{Settlement, process_one}
use insider_notification.Processor.Workers.{Message, Pool}

-- The messages of the calls that have settled one.
abbrev pub messages : List (Message × Settlement) → List Message
messages [] = []
messages ((m, r) ∷ ms) = m ∷ messages ms

module _ {S : Type 0} (p : NotificationDeliveryPipeline S) (start : S) where
  -- One call of `processOne` for each message, in the order of the list, each from the state that
  -- the one before has left, with what they answer the broker.
  abbrev replay : List Message → S → S × List (Message × Settlement)
  replay [] s = (s, [])
  replay (m ∷ ms) s =
      let (s', reply) = process_one p m.event m.attempt_number s in
      let (t, rest) = replay ms s' in (t, (m, reply) ∷ rest)

  -- The pool has called `processOne` for the settled messages and for no other, once for each.
  abbrev pub Replays : Pool S → Type 0
  Replays x = replay (messages x.settled) start ≡ (x.state, x.settled)

  pub replay-one_more :
      (xs : List (Message × Settlement)) (m : Message) (r : Settlement) (s t : S)
      → replay (messages xs) s ≡ (t, xs)
      → (process_one p m.event m.attempt_number t).1 ≡ r
      → replay (messages (xs ++ (m, r) ∷ [])) s
        ≡ ((process_one p m.event m.attempt_number t).0, xs ++ (m, r) ∷ [])
  replay-one_more [] m r s t h same =
      let at : s ≡ t = ap (λ (y : S × List (Message × Settlement)). y.0) h in
      ap
        (λ (u : S). (
          (process_one p m.event m.attempt_number u).0,
          (m, (process_one p m.event m.attempt_number u).1) ∷ [],
        ))
        at
      ∙ ap (λ (a : Settlement). ((process_one p m.event m.attempt_number t).0, [] ++ (m, a) ∷ []))
          same
  replay-one_more ((x, a) ∷ xs) m r s t h same =
      let s' = (process_one p x.event x.attempt_number s).0 in
      let reply = (process_one p x.event x.attempt_number s).1 in
      let ends : (replay (messages xs) s').0 ≡ t =
        ap (λ (y : S × List (Message × Settlement)). y.0) h in
      let list : (x, reply) ∷ (replay (messages xs) s').1 ≡ (x, a) ∷ xs =
        ap (λ (y : S × List (Message × Settlement)). y.1) h in
      let tail : (replay (messages xs) s').1 ≡ xs = cc in
      let head : reply ≡ a = cc in
      let rest = replay-one_more xs m r s' t (ap₂ (λ u v. (u, v)) ends tail) same in
      ap (λ (y : S × List (Message × Settlement)). (y.0, (x, reply) ∷ y.1)) rest
      ∙ ap
          (λ (b : Settlement).
            ((process_one p m.event m.attempt_number t).0, (x, b) ∷ xs ++ (m, r) ∷ []))
          head
