-- ===== src/Reports.antt =====
-- The consumer of the delivery results in the API service:
-- api/internal/transport/messaging/delivery_result_consumer.go.
pub mod Settled
use insider_notification.Base.{ℕ, Option, none, some}
use insider_notification.Effect.{Result, ok, err}
use insider_notification.Platform.{Platform}
use insider_notification.Public.Events.{NotificationDeliveryResultEvent}
use insider_notification.Store.{Ids, NotificationRepository}
use insider_notification.Ports.{Publisher, Reply, nacked, reply_to}
use insider_notification.Service.{update_status}

module _ {S : Type 0} (p : Platform) (ids : Ids S) (repo : NotificationRepository S)
    (publisher : Publisher S) where
  -- `processOne` on the parsed id.
  abbrev pub process_id : NotificationDeliveryResultEvent → Option ℕ → S → S × Reply
  process_id evt none s = (s, nacked)
  process_id evt (some id) s = reply_to (update_status p ids repo publisher id evt.status s)

  -- `processOne`
  unfoldable pub process_result : NotificationDeliveryResultEvent → S → S × Reply
  process_result evt s = process_id evt (p.parse_uuid evt.notification_id) s
