-- ===== src/Journey/Created.antt =====
-- A notification from its creation to its final status: `Create` of api/internal/service/
-- notification.go, the deliveries of its message to the processor, and the report back.
use insider_notification.Base.{
  ℕ, zero, suc, ◌+◌, ◌≤◌, ◌<◌, ◌^◌, pos, String, Bool, none, some, List, [], ◌∷◌, ◌++◌, ◌≡◌, refl,
  sym, ap, subst, ◌∙◌, arith, if◌then◌else◌, eqb_refl,
}
use insider_notification.Effect.{ok}
use insider_notification.Platform.{Platform}
use insider_notification.Public.Status
use insider_notification.Public.Topic.{topic_by_priority}
use insider_notification.Public.Events.{NotificationReadyEvent, ready}
use insider_notification.Domain.{Notification, get_max_attempts}
use insider_notification.Store.{DbNotification, Ids, NotificationRepository, ready_event}
use insider_notification.Ports.{Publisher}
use insider_notification.Service.{create}
use insider_notification.Service.Contract
use insider_notification.Service.Contract.{update}
use insider_notification.Service.Create.{announcement_at, create-ok}
use insider_notification.Service.Evolution.{Became}
use insider_notification.History.{Operation, perform_all, perform_all-Evolves}
use insider_notification.Nats.{Marshaller}
use insider_notification.Nats.Subscriber.{Pull}
use insider_notification.Processor.Pipeline.{NotificationDeliveryPipeline, max_attempts_for}
use insider_notification.Processor.Pipeline.Laws
use insider_notification.Processor.Consumer.Redelivery.{Healthy}
use insider_notification.Processor.Consumer.Exhausted.{deliver_again, deliver_again-redeliver}
use insider_notification.Journey.{Answers, Arrives, redeliver-Arrives}

-- The processor takes over the number of attempts of the notification.
max_attempts_for-ready_event :
    (p : Platform) (e : DbNotification) (m : ℕ)
    → e.max_attempts ≡ pos m
    → 1 ≤ m
    → max_attempts_for (ready_event p e) ≡ pos m
unfolding max_attempts_for ready_event
max_attempts_for-ready_event p e zero h some_attempt = absurd (omega arith)
max_attempts_for-ready_event p e (suc m) h some_attempt = rw h refl

module _ {S T B : Type 0} (p : Platform) {ids : Ids S} {repo : NotificationRepository S}
    {publisher : Publisher S} (laws : Contract.Lawful ids repo publisher)
    {q : NotificationDeliveryPipeline T} (works : Laws.Lawful q) (json : Marshaller)
    (c : Pull T NotificationReadyEvent B) where
  open laws use {row, sent}

  -- The row after any calls of the service, if it was created just before.
  row-created :
      (s s' : S) (n : Notification) (e : DbNotification) (os : List Operation)
      → create p ids repo publisher n s ≡ (s', ok e)
      → (d : DbNotification) × (row (perform_all p ids repo publisher os s') e.id ≡ some d)
        × Became e d
  row-created s s' n e os made =
      let (fresh, fields, stored, told) = create-ok p laws s s' n e made in
      let there : row s' e.id ≡ some e =
        ap (λ t. t e.id) stored ∙ ap (λ b. if b then some e else row s e.id) (eqb_refl e.id) in
      perform_all-Evolves p laws os s' e.id e there

  -- What becomes of a created notification: its one message is its ready event; `d` is its row
  -- later on, with what was asked for; and the deliveries of the message from then on end with a
  -- report that the service writes into that row.
  abbrev pub IsServed :
      Notification → (m : ℕ) → S → S → (e d : DbNotification) → S → T → T × Bool → Type 0
  IsServed n m s s' e d u t x =
      (sent s' ≡ sent s ++ (topic_by_priority n.priority, ready (ready_event p e)) ∷ [])
      × Became e d
      × Arrives p laws works (ready_event p e) e.id m d u t x

  -- With a repository that answers, a broker that accepts, and the lock of the message free and the
  -- limiter allowing at its first delivery and each time the lock was released and the time between
  -- two deliveries has passed: a notification without a delivery time that is
  -- created with at most m attempts is announced by one message, its ready event, on the topic of
  -- its priority. If its row is still pending after any calls of the API service, and the data of
  -- the message, which is read back as that event, is delivered to the processor up to `left`
  -- times, which are at least m, then the row has the fields that it was created with; the message
  -- is acknowledged, and one report is published for it; and the API service acknowledges that
  -- report and has its status in the row.
  pub create-IsServed :
      (n : Notification) (s s' : S) (e d : DbNotification) (os : List Operation) (t : T)
      (idle : T → T) (health : Healthy q (ready_event p e) idle) (m left : ℕ) (b : String)
      → create p ids repo publisher n s ≡ (s', ok e)
      → n.deliver_after ≡ none
      → get_max_attempts n ≡ pos m
      → 1 ≤ m
      → m < 1 + left
      → 1 + left < 2 ^ 63
      → health.ready t
      → p.parse_uuid (p.uuid_text e.id) ≡ some e.id
      → json.marshal (ready (ready_event p e)) ≡ ok b
      → c.unmarshal b ≡ ok (ready_event p e)
      → ((u : T)
          → (works.sent (idle u) ≡ works.sent u) × (works.requests (idle u) ≡ works.requests u))
      → Answers p laws
      → row (perform_all p ids repo publisher os s') e.id ≡ some d
      → d.status ≡ Status.pending
      → IsServed n m s s' e d
          (perform_all p ids repo publisher os s')
          t
          (deliver_again q c b idle left 1 t)
  unfolding ready_event
  create-IsServed n s s' e d os t idle health m left b made now max some_attempt enough small live
        prints marshalled reads quiet answers there pending =
      let (fresh, fields, stored, told) = create-ok p laws s s' n e made in
      let (d', found, became) = row-created s s' n e os made in
      let one : d' ≡ d = ground (arith, sym found ∙ there) in
      let immediate : announcement_at p e e.deliver_after
          ≡ (topic_by_priority n.priority, ready (ready_event p e)) =
        ap (announcement_at p e) (fields.deliver_after ∙ now)
        ∙ ap (λ x. (topic_by_priority x, ready (ready_event p e))) fields.priority in
      (
        told ∙ ap (λ x. sent s ++ x ∷ []) immediate,
        subst (Became e) one became,
        subst
            (Arrives p laws works (ready_event p e) e.id m d
              (perform_all p ids repo publisher os s') t)
            (sym (deliver_again-redeliver q c b (ready_event p e) idle left 1 t reads small))
            (redeliver-Arrives p laws works (ready_event p e) idle health e.id m left d _ t quiet
              (max_attempts_for-ready_event p e m (fields.max_attempts ∙ max) some_attempt)
              some_attempt enough live answers prints there pending),
      )
