-- ===== src/Tests/Journey.antt =====
-- A notification that the processor delivers at its third attempt and whose report reaches the API
-- service, and one whose provider stays out for all its deliveries.
use insider_notification.Base.{ℕ, suc, pos, true, false, some, [], ◌≡◌, refl, ap, arith}
use insider_notification.Effect.{ok}
use insider_notification.Domain.{get_max_attempts}
use insider_notification.Store.{ready_event}
use insider_notification.History.{perform_all}
use insider_notification.Nats.{Marshaller}
use insider_notification.Journey.Created.{IsServed, create-IsServed}
use insider_notification.Public.Events.{NotificationReadyEvent}
use insider_notification.Nats.Subscriber.{Pull, Received}
use insider_notification.Processor.Client.{DeliveryResult}
use insider_notification.Processor.Consumer.Exhausted.{
  deliver_again, Unsettled, deliver_again-Unsettled,
}
use insider_notification.Journey.{Answers}
use insider_notification.Tests.Api.{empty, hello, one_row, stored, created}
use insider_notification.Tests.Memory
use insider_notification.Tests.Processor.{
  World, answer, pipeline_of, laws_of, health_of, event, start, start-ready, event_max,
}

answers : Answers Memory.platform Memory.laws
unfolding Memory.repository Memory.laws
answers = record {
  reads = λ s id e h. (s, ap (λ o. (s, Memory.found o)) h);
  writes = λ s id status e h. (_, _, ap (λ o. Memory.write_at id o status s) h);
}

there : (Memory.laws).row one_row 1 ≡ some stored
unfolding Memory.laws
there = refl

-- A message whose data is the event.
abbrev pull : Pull World NotificationReadyEvent (Received NotificationReadyEvent)
pull = record {
  unmarshal = λ b. ok event;
  is_done = λ s. (s, false);
  fetch = λ s. (s, ok []);
  nak = λ m s. s;
  send = λ r s. (s, true);
  close = λ s. s;
}

-- The provider never answers well.
abbrev outage : ℕ → DeliveryResult
outage n = answer (suc n)

deliver_again-Unsettled_example :
    Unsettled
      (laws_of outage)
      start
      (deliver_again (pipeline_of outage) pull "{}" (λ s. s) 2 1 start)
deliver_again-Unsettled_example =
    deliver_again-Unsettled (laws_of outage) (health_of outage event) pull "{}" 3 2 start refl
      (λ u. refl) event_max (omega arith) (omega arith) (start-ready outage event)
      (λ s. (refl, refl))

-- The message of the created notification.
abbrev pull_created : Pull World NotificationReadyEvent (Received NotificationReadyEvent)
pull_created = record pull { unmarshal = λ b. ok (ready_event Memory.platform stored) }

abbrev marshaller : Marshaller
marshaller = record { marshal = λ m. ok "{}" }

three : get_max_attempts hello ≡ pos 3
unfolding get_max_attempts
three = refl

still :
    (Memory.laws).row
      (perform_all Memory.platform Memory.ids Memory.repository Memory.publisher [] one_row)
      1
    ≡ some stored
unfolding Memory.laws perform_all
still = refl

create-IsServed_example :
    IsServed Memory.platform Memory.laws
      (laws_of answer)
      marshaller
      pull_created
      hello
      3
      empty
      one_row
      stored
      stored
      (perform_all Memory.platform Memory.ids Memory.repository Memory.publisher [] one_row)
      start
      (deliver_again (pipeline_of answer) pull_created "{}" (λ s. s) 4 1 start)
create-IsServed_example =
    create-IsServed Memory.platform Memory.laws (laws_of answer) marshaller pull_created hello empty
      one_row stored stored [] start (λ s. s)
      (health_of answer (ready_event Memory.platform stored)) 3 4 "{}" created refl three
      (omega arith) (omega arith) (omega arith)
      (start-ready answer (ready_event Memory.platform stored)) refl refl refl (λ u. (refl, refl))
      answers still refl
