-- ===== src/Public/Events.antt =====
-- The events that the services exchange: api/public/events.go, processor/public/events.go and
-- deliveryscheduler/public/events.go.
use insider_notification.Base.{ℕ, ℤ, String, List}

pub record NotificationReadyEvent : Type 0 where
  pub notification_id : String
  pub channel : String
  pub recipient : String
  pub content : String
  pub priority : String
  pub max_attempts : ℤ

pub record ScheduledNotificationItem : Type 0 where
  pub notification_id : String
  pub scheduled_at : ℕ

pub record NotificationsScheduledEvent : Type 0 where
  pub notifications : List ScheduledNotificationItem

pub record NotificationScheduleCancelledEvent : Type 0 where
  pub notification_id : String

pub record NotificationDeliveryResultEvent : Type 0 where
  pub notification_id : String
  pub status : String
  pub attempt_number : ℕ
  pub http_status_code : ℕ
  pub error_message : String
  pub provider_message_id : String
  pub latency_ms : ℕ

pub record ScheduledNotificationDueEvent : Type 0 where
  pub notification_id : String

-- The values that are passed as the `payload any` of a publisher.
pub data Payload : Type 0 where
  ready : NotificationReadyEvent → Payload
  scheduled : NotificationsScheduledEvent → Payload
  schedule_cancelled : NotificationScheduleCancelledEvent → Payload
  delivery_result : NotificationDeliveryResultEvent → Payload
  due : ScheduledNotificationDueEvent → Payload
