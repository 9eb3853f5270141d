-- ===== src/Processor/Workers.antt =====
-- The pool of workers: `StartMessageProcessing` of processor/internal/transport/messaging/
-- notification_ready_consumer.go. A call of `Next` and one of `processOne` are each one step of a
-- worker, and the workers take their steps in any order.
pub mod Replay
pub mod Accounts
use insider_notification.Base.{
  ℕ, zero, suc, ◌+◌, Bool, true, false, Option, none, some, List, [], ◌∷◌, ◌++◌, replicate,
  get_elem?,
}
use insider_notification.Public.Events.{NotificationReadyEvent}
use insider_notification.Nats.Subscriber.{Received}
use insider_notification.Processor.Router.{PriorityRouter, next, receive_first}
use insider_notification.Processor.Pipeline.{NotificationDeliveryPipeline}
use insider_notification.Processor.Consumer.{Settlement, process_one}

abbrev pub Message : Type 0
Message = Received NotificationReadyEvent

-- A worker before `Next`, with a message in its hands, or after its return.
pub data Worker : Type 0 where
  idle ended : Worker
  working : Message → Worker

-- `arrived` are the messages that have come to the channels, and `settled` the calls of
-- `processOne` that have returned, with what each has answered the broker.
pub record Pool (S : Type 0) : Type 0 where
  pub router : PriorityRouter Message
  pub state : S
  pub workers : List Worker
  pub arrived : List Message
  pub settled : List (Message × Settlement)

abbrev pub put_at : List Worker → ℕ → Worker → List Worker
put_at [] i w = []
put_at (v ∷ ws) zero w = w ∷ ws
put_at (v ∷ ws) (suc i) w = v ∷ put_at ws i w

-- The message that `Next` waits for, where every channel is empty.
abbrev pub after_scan : {B : Type 0} → Option B → Option Message → List Message
after_scan (some b) waited = []
after_scan none none = []
after_scan none (some m) = m ∷ []

abbrev pub push : List (List Message) → ℕ → Message → List (List Message)
push [] i m = []
push (c ∷ cs) zero m = (c ++ m ∷ []) ∷ cs
push (c ∷ cs) (suc i) m = c ∷ push cs i m

abbrev pub if_there : Option (List Message) → Message → List Message
if_there none m = []
if_there (some c) m = m ∷ []

-- A subscription sends a message on the channel of the given index.
abbrev pub arrive : {S : Type 0} → ℕ → Message → Pool S → Pool S
arrive i m x = record x {
  router = record (x.router) { sources = push x.router.sources i m };
  arrived = x.arrived ++ if_there (get_elem? x.router.sources i) m;
}

-- The moves of a schedule.
pub data Move : Type 0 where
  arrives : ℕ → Message → Move
  steps : (worker : ℕ) (done : Bool) (waited : Option Message) → Move

module _ {S : Type 0} (p : NotificationDeliveryPipeline S) where
  -- What a worker makes of the answer of `Next`, which may panic.
  abbrev pub after_next :
      Pool S → ℕ → List Message → Option (PriorityRouter Message × Option Message) → Option (Pool S)
  after_next x i waited none = none
  after_next x i waited (some (r, none)) =
      some (record x { router = r; arrived = x.arrived ++ waited })
  after_next x i waited (some (r, some m)) = some (record x {
    router = r;
    workers = put_at x.workers i (working m);
    arrived = x.arrived ++ waited;
  })

  -- The next step of a worker in its loop; `done` says that the context is.
  unfoldable pub work :
      Pool S → ℕ → (done : Bool) → (waited : Option Message) → Option Worker → Option (Pool S)
  work x i done waited none = some x
  work x i done waited (some ended) = some x
  work x i true waited (some idle) = some (record x { workers = put_at x.workers i ended })
  work x i false waited (some idle) =
      after_next x i (after_scan (receive_first x.router.sources) waited) (next x.router waited)
  work x i done waited (some (working m)) =
      let (s', reply) = process_one p m.event m.attempt_number x.state in
      some (record x {
        state = s';
        workers = put_at x.workers i idle;
        settled = x.settled ++ (m, reply) ∷ [];
      })

  unfoldable pub move : Move → Pool S → Option (Pool S)
  move (arrives i m) x = some (arrive i m x)
  move (steps i done waited) x = work x i done waited (get_elem? x.workers i)

  abbrev pub then_moves : (Pool S → Option (Pool S)) → Option (Pool S) → Option (Pool S)
  then_moves again none = none
  then_moves again (some x) = again x

  -- The pool after a schedule, unless a worker has panicked.
  unfoldable pub run_moves : List Move → Pool S → Option (Pool S)
  run_moves [] x = some x
  run_moves (v ∷ vs) x = then_moves (run_moves vs) (move v x)

-- `NewNotificationReadyConsumer` with the given concurrency, before any message.
abbrev pub start_pool : {S : Type 0} → PriorityRouter Message → (concurrency : ℕ) → S → Pool S
start_pool r concurrency s = record {
  router = r;
  state = s;
  workers = replicate concurrency idle;
  arrived = [];
  settled = [];
}
