-- ===== src/Tests/Workers.antt =====
-- Two workers on two channels: a message is taken and settled, another one waits, and one arrives
-- while a worker waits for it.
use insider_notification.Base.{ℕ, Bool, true, false, none, some, List, [], ◌∷◌, refl}
use insider_notification.Nats.Subscriber.{received}
use insider_notification.Processor.Router.{PriorityRouter}
use insider_notification.Processor.Workers.{Message, Move, arrives, steps, start_pool, run_moves}
use insider_notification.Processor.Workers.Accounts.{StaysBalanced, run_moves-StaysBalanced}
use insider_notification.Tests.Processor.{answer, pipeline_of, event, start}

abbrev message : ℕ → Message
message n = received (record { data_ = "{}"; num_delivered = some n }) event

abbrev any : Message → Bool
any m = true

abbrev router : PriorityRouter Message
router = record { sources = [] ∷ [] ∷ []; slots = 0 ∷ 0 ∷ 1 ∷ []; cursor = 0 }

abbrev schedule : List Move
schedule =
    arrives 0 (message 1)
    ∷ arrives 1 (message 2)
    ∷ steps 0 false none
    ∷ steps 1 false none
    ∷ steps 0 false none
    ∷ steps 0 false (some (message 3))
    ∷ steps 1 false none
    ∷ []

run_moves-StaysBalanced_example :
    StaysBalanced any
      (pipeline_of answer)
      start
      (run_moves (pipeline_of answer) schedule (start_pool router 2 start))
run_moves-StaysBalanced_example =
    run_moves-StaysBalanced any (pipeline_of answer) start schedule (start_pool router 2 start)
      (refl, refl)
