-- ===== src/Scheduler/Shutdown.antt =====
-- A tick of the dispatcher whose context ends: deliveryscheduler/internal/
-- scheduled_notification_dispatcher/dispatcher.go on the repository in Postgres and the publisher
-- of NATS.
use insider_notification.Base.{
  ℕ, ℤ, String, false, none, List, [], ◌∷◌, map, ◌≡◌, refl, sym, subst, ◌∙◌,
}
use insider_notification.Errors.{Error}
use insider_notification.Effect.{Result, ok, err}
use insider_notification.Platform.{Platform}
use insider_notification.Public.Topic
use insider_notification.Nats.{JetStream, Marshaller}
use insider_notification.Nats.Publisher.{new_batch_publisher}
use insider_notification.Nats.Publisher.States.{publish_batch-fails}
use insider_notification.Scheduler.{
  ScheduledNotification, ScheduledNotificationDispatcher, new_dispatcher, due_payload,
  after_publish, after_claim, tick_pass,
}
use insider_notification.Scheduler.Postgres.{
  InsertQuery, Bun, upsert_all, upsert_query, new_scheduled_notification_repository,
}
use insider_notification.Scheduler.Conservation.{HasId}
use insider_notification.Scheduler.Deployed.{ClusterLaws, dispatcher, batch_row, claim-ok}

module _ {S F : Type 0} (p : Platform) (json : Marshaller) {db : Bun S} {js : JetStream S F}
    {clock : S → S × ℕ} (batch : ℤ) (laws : ClusterLaws db js clock) where
  open laws use {row}

  abbrev ticking : ScheduledNotificationDispatcher S
  ticking = dispatcher p json batch laws

  -- From now on the wait for the acknowledgements and the inserts fail, as they do once the context
  -- is done.
  pub record Ended : Type 0 where
    pub cut : (v : S) → (e : Error) × ((js.complete v).1 ≡ err e)
    pub refused : (v : S) (q : InsertQuery) → (e : Error) × ((db.insert q v).1 ≡ err e)

  upsert_drops :
      (n : ScheduledNotification) (ns : List ScheduledNotification) (s : S) (id : String)
      → Ended
      → row (upsert_all p db (n ∷ ns) s).0 id ≡ row s id
  unfolding upsert_all
  upsert_drops n ns s id over =
      let query = upsert_query (n ∷ ns) in
      let (e, failed) = over.refused s query in
      laws.insert_error s (db.insert query s).0 query e id (λ i. ((db.insert query s).0, failed i))

  after_publish-drops :
      (n : ScheduledNotification) (ns : List ScheduledNotification) (y : S × Result (Unit {0}))
      (id : String)
      → Ended
      → (e : Error) × (y.1 ≡ err e)
      → (row (after_publish ticking (n ∷ ns) y).0 id ≡ row y.0 id)
        × ((after_publish ticking (n ∷ ns) y).1 ≡ false)
  unfolding after_publish new_dispatcher new_scheduled_notification_repository
  after_publish-drops n ns (s, ok _) id over (e, h) = cc
  after_publish-drops n ns (s, err x) id over failed = (upsert_drops n ns s id over, refl)

  after_claim-drops :
      (ns : List ScheduledNotification) (s s' : S) (t : ℕ) (id : String)
      → Ended
      → ticking.repo.delete_by_scheduled_at_before_returning t ticking.batch s ≡ (s', ok ns)
      → HasId id ns
      → (row (after_claim ticking (s', ok ns)).0 id ≡ none)
        × ((after_claim ticking (s', ok ns)).1 ≡ false)
  unfolding after_claim new_dispatcher new_scheduled_notification_repository new_batch_publisher
  after_claim-drops [] s s' t id over h listed = absurd listed
  after_claim-drops (n ∷ ns) s s' t id over h listed =
      let topic = Topic.scheduled_notification_due in
      let ms = map due_payload ns in
      let (same, stops) =
        after_publish-drops n ns (ticking.publisher.publish_batch topic (due_payload n ∷ ms) s') id
          over (publish_batch-fails p json js topic (due_payload n) ms s' over.cut) in
      let gone =
        laws.claim_gone s s' t _ (n ∷ ns) id
          (claim-ok p json batch laws s s' t ticking.batch (n ∷ ns) h) listed in
      (same ∙ batch_row p json batch laws topic (due_payload n ∷ ms) s' id ∙ gone, stops)

  -- Once the context is done, so that the wait for the acknowledgements fails and every insert
  -- fails: a pass of the tick that claims a notification ends the tick, and leaves no row for the
  -- notification.
  pub tick_pass-Drops :
      (s s' : S) (ns : List ScheduledNotification) (id : String)
      → Ended
      → ticking.repo.delete_by_scheduled_at_before_returning (clock s).1 ticking.batch (clock s).0
        ≡ (s', ok ns)
      → HasId id ns
      → (row (tick_pass ticking s).0 id ≡ none) × ((tick_pass ticking s).1 ≡ false)
  unfolding tick_pass new_dispatcher
  tick_pass-Drops s s' ns id over h listed =
      let drops = after_claim-drops ns (clock s).0 s' (clock s).1 id over h listed in
      subst (λ y. (row (after_claim ticking y).0 id ≡ none) × ((after_claim ticking y).1 ≡ false))
        (sym h) drops
