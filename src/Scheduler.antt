-- ===== src/Scheduler.antt =====
-- The delivery scheduler: deliveryscheduler/internal, a table of notifications that wait for their
-- time, the consumers that fill and empty it and the dispatcher that announces what is due.
pub mod Conservation
pub mod Postgres
pub mod Deployed
pub mod Shutdown
use insider_notification.Base.{
  ℕ, zero, suc, ℤ, pos, String, Bool, true, false, Option, none, some, List, [], ◌∷◌, map,
  is_positive, if◌then◌else◌,
}
use insider_notification.Effect.{M, Result, ok, err}
use insider_notification.Public.Topic
use insider_notification.Public.Events.{
  Payload, due, ScheduledNotificationItem, NotificationsScheduledEvent,
  NotificationScheduleCancelledEvent,
}
use insider_notification.Ports.{BatchPublisher, Reply, reply_to}

-- `db.ScheduledNotification` with `TraceMetadataModel`; the metadata is a map of strings.
pub record ScheduledNotification : Type 0 where
  pub notification_id : String
  pub scheduled_at : Option ℕ
  pub trace_metadata : List (String × String)

-- The interface `ScheduledNotificationRepository`.
pub record ScheduledNotificationRepository (S : Type 0) : Type 0 where
  pub upsert_all : List ScheduledNotification → M S (Unit {0})
  pub delete_by_scheduled_at_before_returning :
      (before : ℕ) (limit : ℤ) → M S (List ScheduledNotification)
  pub delete_by_notification_id : String → M S (Unit {0})

-- `ScheduledNotificationDispatcher`, with the wall clock.
pub record ScheduledNotificationDispatcher (S : Type 0) : Type 0 where
  pub repo : ScheduledNotificationRepository S
  pub publisher : BatchPublisher S
  pub batch : ℤ
  pub clock : S → S × ℕ

-- `NewScheduledNotificationDispatcher`
unfoldable pub new_dispatcher :
    {S : Type 0}
    → ScheduledNotificationRepository S
    → BatchPublisher S
    → ℤ
    → (S → S × ℕ)
    → ScheduledNotificationDispatcher S
new_dispatcher repo publisher batch clock = record {
  repo = repo;
  publisher = publisher;
  batch = if is_positive batch then batch else pos 100;
  clock = clock;
}

abbrev pub due_payload : ScheduledNotification → Payload
due_payload n = due (record { notification_id = n.notification_id })

module _ {S : Type 0} (d : ScheduledNotificationDispatcher S) where
  open d use {repo, publisher, batch, clock}

  -- After the publication of the claimed rows: on a failure they are stored again, and the tick
  -- ends. The Boolean is whether the loop goes on.
  unfoldable pub after_publish : List ScheduledNotification → S × Result (Unit {0}) → S × Bool
  after_publish ns (s, ok _) = (s, true)
  after_publish ns (s, err e) = ((repo.upsert_all ns s).0, false)

  unfoldable pub after_claim : S × Result (List ScheduledNotification) → S × Bool
  unfolding after_publish
  after_claim (s, err e) = (s, false)
  after_claim (s, ok []) = (s, false)
  after_claim (s, ok (n ∷ ns)) =
      after_publish (n ∷ ns)
        (publisher.publish_batch Topic.scheduled_notification_due (map due_payload (n ∷ ns)) s)

  -- One pass of the loop of `Tick`.
  unfoldable pub tick_pass : S → S × Bool
  unfolding after_claim
  tick_pass s =
      let (s', now) = clock s in
      after_claim (repo.delete_by_scheduled_at_before_returning now batch s')

  abbrev pub go_round : (S → Option S) → S × Bool → Option S
  go_round again (s, true) = again s
  go_round again (s, false) = some s

  -- `Tick`, if its loop ends within the given number of passes.
  unfoldable pub tick : ℕ → S → Option S
  unfolding tick_pass
  tick zero s = none
  tick (suc fuel) s = go_round (tick fuel) (tick_pass s)

abbrev pub row_of : List (String × String) → ScheduledNotificationItem → ScheduledNotification
row_of trace item = record {
  notification_id = item.notification_id;
  scheduled_at = some item.scheduled_at;
  trace_metadata = trace;
}

-- `handleScheduledEvents`; `trace` is what `ExtractTraceMetadata` reads from the context.
unfoldable pub handle_scheduled_events :
    {S : Type 0}
    → ScheduledNotificationRepository S
    → (trace : List (String × String)) → NotificationsScheduledEvent
    → S
    → S × Reply
handle_scheduled_events repo trace evt s =
    reply_to (repo.upsert_all (map (row_of trace) evt.notifications) s)

-- `handleCancelEvent`
unfoldable pub handle_cancel_event :
    {S : Type 0}
    → ScheduledNotificationRepository S
    → NotificationScheduleCancelledEvent
    → S
    → S × Reply
handle_cancel_event repo evt s = reply_to (repo.delete_by_notification_id evt.notification_id s)
