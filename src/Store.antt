-- ===== src/Store.antt =====
-- The persistence port of the API service: api/internal/db/notification_model.go and
-- notification_repo.go, with the embedded models of shared/bun/models.go.
pub mod Postgres
use insider_notification.Base.{ℕ, ℤ, String, Option, List}
use insider_notification.Effect.{M, pure, ◌>>=◌}
use insider_notification.Platform.{Platform}
use insider_notification.Public.Status
use insider_notification.Public.Events.{NotificationReadyEvent}
use insider_notification.Domain.{Notification, get_max_attempts}

-- `db.Notification` with `IDModel` and `TimestampModel`; the zero time is 0.
pub record DbNotification : Type 0 where
  pub id : ℕ
  pub created_at : ℕ
  pub updated_at : ℕ
  pub batch_id : Option ℕ
  pub recipient : String
  pub channel : String
  pub content : String
  pub priority : String
  pub status : String
  pub deliver_after : Option ℕ
  pub max_attempts : ℤ

-- google/uuid: `NewV7`, which may fail, and `New`.
pub record Ids (S : Type 0) : Type 0 where
  pub new_v7 : M S ℕ
  pub new : S → S × ℕ

-- `NewIDModel`
abbrev pub new_id_model : {S : Type 0} → Ids S → M S ℕ
new_id_model ids = ids.new_v7

-- The entity that `From` builds once it has an id.
abbrev pub entity_of : Notification → Option ℕ → ℕ → DbNotification
entity_of n batch_id id = record {
  id = id;
  created_at = 0;
  updated_at = 0;
  batch_id = batch_id;
  recipient = n.recipient;
  channel = n.channel;
  content = n.content;
  priority = n.priority;
  status = Status.pending;
  deliver_after = n.deliver_after;
  max_attempts = get_max_attempts n;
}

-- `db.Notification{}.From`
unfoldable pub from : {S : Type 0} → Ids S → Notification → Option ℕ → M S DbNotification
from ids n batch_id = do id ← new_id_model ids; pure (entity_of n batch_id id)

-- `ToDomain`, with `notification.New`
unfoldable pub to_domain : DbNotification → Notification
to_domain e = record {
  channel = e.channel;
  recipient = e.recipient;
  content = e.content;
  priority = e.priority;
  status = e.status;
  deliver_after = e.deliver_after;
  max_attempts = e.max_attempts;
}

-- `NotificationReadyEvent{}.From` of api/public/events.go, through the entity's getters.
unfoldable pub ready_event : Platform → DbNotification → NotificationReadyEvent
ready_event p e = record {
  notification_id = p.uuid_text e.id;
  channel = e.channel;
  recipient = e.recipient;
  content = e.content;
  priority = e.priority;
  max_attempts = e.max_attempts;
}

pub record ListFilter : Type 0 where
  pub status : String
  pub channel : String
  pub batch_id : Option ℕ
  pub date_from : Option ℕ
  pub date_to : Option ℕ
  pub page_size : ℤ
  pub cursor_id : Option ℕ
  pub page : ℤ
  pub sort : String
  pub order : String

-- The interface `NotificationRepository` over the state of its implementation. `Create` and
-- `CreateBatch` write what the database generates through their pointers: they return the rows.
pub record NotificationRepository (S : Type 0) : Type 0 where
  pub create : DbNotification → M S DbNotification
  pub create_batch : List DbNotification → M S (List DbNotification)
  pub get_by_id : ℕ → M S DbNotification
  pub get_by_ids : List ℕ → M S (List DbNotification)
  pub list : ListFilter → M S (List DbNotification × ℕ × Option ℕ)
  pub update_status : ℕ → String → M S DbNotification
  pub find_scheduled_due : M S (List DbNotification)
