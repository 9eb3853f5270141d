-- ===== src/Service.antt =====
-- The business operations of the API service: api/internal/service/notification.go, but for
-- `CreateBatch` (Batch.antt).
pub mod Contract
pub mod Create
pub mod Cancel
pub mod Evolution
pub mod Race
use insider_notification.Base.{
  ℕ, String, Bool, true, false, Option, none, some, List, [], ◌∷◌, if◌then◌else◌,
}
use insider_notification.Errors.{
  Error, message, is_db_not_found, not_found_error, conflict_error, wrap,
}
use insider_notification.Effect.{
  M, Result, ok, err, pure, fail, ◌>>=◌, ◌>>◌, on_error, wrapping, lift,
}
use insider_notification.Platform.{Platform}
use insider_notification.Public.Status
use insider_notification.Public.Topic
use insider_notification.Public.Topic.{topic_by_priority}
use insider_notification.Public.Events.{
  Payload, ready, scheduled, schedule_cancelled, ScheduledNotificationItem,
}
use insider_notification.Domain.{Notification, transition}
use insider_notification.Store.{
  DbNotification, Ids, from, to_domain, ready_event, ListFilter, NotificationRepository,
}
use insider_notification.Ports.{Publisher}

-- The error that `Cancel` returns when it cannot read the notification.
unfoldable pub cancel_error : Error → Error
cancel_error e = if is_db_not_found e then not_found_error "notification not found" else e

abbrev pub scheduled_item : Platform → DbNotification → ℕ → ScheduledNotificationItem
scheduled_item p e t = record { notification_id = p.uuid_text e.id; scheduled_at = t }

abbrev pub scheduled_payload : List ScheduledNotificationItem → Payload
scheduled_payload items = scheduled (record { notifications = items })

-- The publication of a notification that is ready, an error wrapped with the prefix.
unfoldable pub publish_ready :
    {S : Type 0} → Platform → Publisher S → String → DbNotification → M S (Unit {0})
publish_ready p publisher prefix entity =
    wrapping p prefix
      (publisher.publish (topic_by_priority entity.priority) (ready (ready_event p entity)))

-- `dn.Transition(...)` on the domain model of an entity, of which only the error is used.
unfoldable pub check_transition : Platform → String → DbNotification → Result (Unit {0})
check_transition p to entity = (transition p to (to_domain entity)).1

module _ {S : Type 0} (p : Platform) (ids : Ids S) (repo : NotificationRepository S)
    (publisher : Publisher S) where
  unfoldable pub persist : Notification → Option ℕ → M S DbNotification
  persist n batch_id = do
    entity ← from ids n batch_id
    wrapping p "create notification: " (repo.create entity)

  -- The two branches of `publish`, by `entity.DeliverAfter`.
  pub publish_at : DbNotification → Option ℕ → M S (Unit {0})
  publish_at entity none = publish_ready p publisher "publish event: " entity
  publish_at entity (some t) = wrapping p "publish scheduled event: " (
      publisher.publish Topic.notification_scheduled
        (scheduled_payload (scheduled_item p entity t ∷ [])))

  unfoldable pub publish : DbNotification → M S (Unit {0})
  unfolding publish_at
  publish entity = publish_at entity entity.deliver_after

  unfoldable pub create : Notification → M S DbNotification
  unfolding persist publish
  create n = do entity ← persist n none; publish entity; pure entity

  unfoldable pub get_by_id : ℕ → M S DbNotification
  get_by_id id = repo.get_by_id id

  unfoldable pub list : ListFilter → M S (List DbNotification × ℕ × Option ℕ)
  list f = repo.list f

  -- `Cancel` after its check: the write and the announcement.
  unfoldable pub mark_cancelled : ℕ → M S DbNotification
  mark_cancelled id = do
    updated ← repo.update_status id Status.cancelled
    wrapping p "publish cancel event: " (
        publisher.publish Topic.notification_schedule_cancelled
          (schedule_cancelled (record { notification_id = p.uuid_text id })))
    pure updated

  -- `Cancel` after its read of the notification.
  unfoldable pub cancel_entity : ℕ → DbNotification → M S DbNotification
  unfolding mark_cancelled
  cancel_entity id entity = do
    on_error (λ e. conflict_error (message p e)) (lift (check_transition p Status.cancelled entity))
    mark_cancelled id

  unfoldable pub cancel : ℕ → M S DbNotification
  unfolding cancel_error cancel_entity
  cancel id = do entity ← on_error cancel_error (repo.get_by_id id); cancel_entity id entity

  -- `UpdateStatus` after its check.
  unfoldable pub write_status : ℕ → String → M S (Unit {0})
  write_status id status = do updated ← repo.update_status id status; pure tt

  -- `UpdateStatus` after its read of the notification.
  unfoldable pub update_entity : ℕ → String → DbNotification → M S (Unit {0})
  unfolding write_status
  update_entity id status entity = do
    lift (check_transition p status entity)
    write_status id status

  unfoldable pub update_status : ℕ → String → M S (Unit {0})
  unfolding update_entity
  update_status id status = do entity ← repo.get_by_id id; update_entity id status entity
