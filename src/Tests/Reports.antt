-- ===== src/Tests/Reports.antt =====
-- Delivery results on the in-memory ports.
use insider_notification.Base.{◌≡◌, refl, ne_of_test, inl, inr}
use insider_notification.Public.Status
use insider_notification.Public.Events.{NotificationDeliveryResultEvent}
use insider_notification.Domain.{transition, valid_transitions}
use insider_notification.Domain.Lifecycle.{IsAllowed, Edge, deliver}
use insider_notification.Store.{to_domain}
use insider_notification.Ports.{acked}
use insider_notification.Service.{update_status, check_transition}
use insider_notification.Reports.{process_result}
use insider_notification.Reports.Settled.{Written, process_result-Written}
use insider_notification.Tests.Memory.{platform, ids, repository, publisher, laws}
use insider_notification.Tests.Api.{one_row}

abbrev report : NotificationDeliveryResultEvent
report = record {
  notification_id = "1";
  status = Status.delivered;
  attempt_number = 1;
  http_status_code = 202;
  error_message = "";
  provider_message_id = "";
  latency_ms = 3;
}

reported : (process_result platform ids repository publisher report one_row).1 ≡ acked
unfolding process_result update_status repository check_transition transition valid_transitions
    to_domain
reported = refl

process_result-Written_example :
    Written platform laws report one_row
      (process_result platform ids repository publisher report one_row).0
process_result-Written_example = process_result-Written platform laws report one_row reported

-- A failure that is reported after the delivery.
abbrev late : NotificationDeliveryResultEvent
late = record report { status = Status.failed }

too_late : ¬ IsAllowed Status.delivered Status.failed
too_late (inl same) = ne_of_test Status.delivered Status.failed refl same
too_late (inr (deliver p q)) = ne_of_test Status.delivered Status.pending refl p
too_late (inr (Edge.give_up p q)) = ne_of_test Status.delivered Status.pending refl p
too_late (inr (Edge.cancel p q)) = ne_of_test Status.delivered Status.pending refl p
too_late (inr (Edge.retry p q)) = ne_of_test Status.delivered Status.failed refl p
