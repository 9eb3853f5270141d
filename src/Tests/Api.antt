-- ===== src/Tests/Api.antt =====
-- Concrete runs of the API service on the in-memory ports.
use insider_notification.Base.{
  String, false, none, some, List, [], ◌∷◌, ◌++◌, ◌≡◌, ◌↔◌, refl, ne_of_test, inl, inr, pos,
}
use insider_notification.Effect.{ok}
use insider_notification.Public.Status
use insider_notification.Domain.{
  Notification, zero_notification, transition, set_channel, set_recipient, phone_re_match,
  set_content, set_priority, set_max_attempts, get_max_attempts, valid_transitions,
}
use insider_notification.Domain.Lifecycle.{Edge, deliver, IsAllowed}
use insider_notification.Requests.{CreateRequest, fill, to_notification}
use insider_notification.Requests.Acceptance.{AsksFor, to_notification_iff}
use insider_notification.Store.{DbNotification, from, to_domain}
use insider_notification.Service.{
  publish_ready, create, cancel, cancel_entity, update_status, check_transition,
}
use insider_notification.Service.Cancel.{cancellation, cancel-ok}
use insider_notification.Service.Race.{cancel-overwrites}
use insider_notification.Service.Evolution.{Evolves}
use insider_notification.History.{
  Operation, creating, cancelling, updating, perform_all, perform_all-Evolves,
}
use insider_notification.Service.Create.{announcement, IsRowOf, create-ok}
use insider_notification.Service.Contract.{update, HasStatus}
use insider_notification.Tests.Memory.{Memory, platform, ids, repository, publisher, laws}

abbrev pub request : CreateRequest
request = record {
  recipient = "+905551112233";
  channel = "sms";
  content = "hello";
  priority = "high";
  max_attempts = some (pos 3);
  deliver_after = none;
}

abbrev pub hello : Notification
hello = record zero_notification {
  channel = "sms";
  recipient = "+905551112233";
  content = "hello";
  priority = "high";
  max_attempts = pos 3;
}

accepted : to_notification platform request ≡ (hello, ok tt)
unfolding to_notification fill set_channel set_recipient phone_re_match set_content set_priority
    set_max_attempts
accepted = refl

abbrev pub empty : Memory
empty = record { table = λ k. none; sent = []; next = 1; failing = false }

abbrev pub stored : DbNotification
stored = record {
  id = 1;
  created_at = 5;
  updated_at = 5;
  batch_id = none;
  recipient = "+905551112233";
  channel = "sms";
  content = "hello";
  priority = "high";
  status = Status.pending;
  deliver_after = none;
  max_attempts = pos 3;
}

abbrev pub one_row : Memory
one_row = record {
  table = update empty.table 1 stored;
  sent = announcement platform stored ∷ [];
  next = 2;
  failing = false;
}

pub created : create platform ids repository publisher hello empty ≡ (one_row, ok stored)
unfolding create repository from publish_ready get_max_attempts
created = refl

create-ok_example :
    (laws.row empty 1 ≡ none)
    × IsRowOf hello stored
    × (laws.row one_row ≡ update (laws.row empty) 1 stored)
    × (laws.sent one_row ≡ laws.sent empty ++ announcement platform stored ∷ [])
create-ok_example = create-ok platform laws empty one_row hello stored created

to_notification_iff_example :
    (to_notification platform request ≡ (hello, ok tt)) ↔ AsksFor platform request hello
to_notification_iff_example = to_notification_iff platform request hello

abbrev pub with_status : String → DbNotification
with_status st = record stored { status = st; updated_at = 6 }

abbrev holding : DbNotification → Memory
holding e = record empty { table = update empty.table 1 e; next = 2 }

pub barred : ¬ IsAllowed Status.delivered Status.cancelled
barred (inl same) = ne_of_test Status.delivered Status.cancelled refl same
barred (inr (deliver p q)) = ne_of_test Status.delivered Status.pending refl p
barred (inr (Edge.give_up p q)) = ne_of_test Status.delivered Status.pending refl p
barred (inr (Edge.cancel p q)) = ne_of_test Status.delivered Status.pending refl p
barred (inr (Edge.retry p q)) = ne_of_test Status.delivered Status.failed refl p

abbrev after_cancel : Memory
after_cancel = record one_row {
  table = update one_row.table 1 (with_status Status.cancelled);
  sent = one_row.sent ++ cancellation platform 1 ∷ [];
}

cancelled_run :
    cancel platform ids repository publisher 1 one_row
    ≡ (after_cancel, ok (with_status Status.cancelled))
unfolding cancel repository check_transition transition valid_transitions to_domain
cancelled_run = refl

cancel-ok_example :
    (e : DbNotification) × (laws.row one_row 1 ≡ some e)
    × IsAllowed e.status Status.cancelled
    × HasStatus Status.cancelled e (with_status Status.cancelled)
    × (laws.row after_cancel ≡ update (laws.row one_row) 1 (with_status Status.cancelled))
    × (laws.sent after_cancel ≡ laws.sent one_row ++ cancellation platform 1 ∷ [])
cancel-ok_example =
    cancel-ok platform laws one_row after_cancel 1 (with_status Status.cancelled) cancelled_run

abbrev pub after_delivery : Memory
after_delivery = record one_row { table = update one_row.table 1 (with_status Status.delivered) }

delivered_run :
    update_status platform ids repository publisher 1 Status.delivered one_row
    ≡ (after_delivery, ok tt)
unfolding update_status repository check_transition transition valid_transitions to_domain
delivered_run = refl

pub read_delivered :
    repository.get_by_id 1 after_delivery ≡ (after_delivery, ok (with_status Status.delivered))
unfolding repository
read_delivered = refl

abbrev overwritten : Memory
overwritten = record after_delivery {
  table = update after_delivery.table 1 (with_status Status.cancelled);
  sent = after_delivery.sent ++ cancellation platform 1 ∷ [];
}

overwriting_run :
    cancel_entity platform ids repository publisher 1 stored after_delivery
    ≡ (overwritten, ok (with_status Status.cancelled))
unfolding cancel_entity repository check_transition transition valid_transitions to_domain
overwriting_run = refl

cancel-overwrites_example :
    (d : DbNotification) × (laws.row after_delivery 1 ≡ some d)
    × (d.status ≡ Status.delivered)
    × (laws.row overwritten 1 ≡ some (with_status Status.cancelled))
    × ((with_status Status.cancelled).status ≡ Status.cancelled)
cancel-overwrites_example =
    cancel-overwrites platform laws one_row after_delivery overwritten 1 stored
      (with_status Status.cancelled) delivered_run overwriting_run

abbrev pub calls : List Operation
calls = creating hello ∷ updating 1 Status.delivered ∷ cancelling 1 ∷ []

perform_all-Evolves_example :
    Evolves
      (laws.row one_row)
      (laws.row (perform_all platform ids repository publisher calls one_row))
perform_all-Evolves_example = perform_all-Evolves platform laws calls one_row
