-- ===== src/Tests/Http.antt =====
-- Concrete requests to the HTTP API on the in-memory ports.
use insider_notification.Base.{
  String, ◌++◌, none, some, List, [], ◌∷◌, false, ◌≡◌, ◌≤◌, refl, length,
}
use insider_notification.Errors.{db_not_found, message}
use insider_notification.Effect.{ok, err}
use insider_notification.Public.Status
use insider_notification.Store.{DbNotification, from}
use insider_notification.Processor.Http.{HttpClient, request}
use insider_notification.Processor.Client.{NtfnDeliveryRequestBody, Clock, send}
use insider_notification.Processor.Client.Outcome.{Network, Reports, Posts, send-Reports}
use insider_notification.Requests.{CreateRequest, to_notification, fill}
use insider_notification.Api.Responses.{HttpResponse, BatchResponse, batch_body, details_none}
use insider_notification.Api.{create_batch_of, validate_items, count_accepted, report_items}
use insider_notification.Batch.{create_batch}
use insider_notification.Domain.{
  set_channel, set_recipient, phone_re_match, set_content, set_priority, set_max_attempts,
  get_max_attempts,
}
use insider_notification.Api.Statuses.{
  Replies, get_reply, cancel_reply, bad_id-Replies, missing-Replies, refused-Replies,
}
use insider_notification.Api.Accounting.{Accounts, create_batch_of-Accounts}
use insider_notification.Service.Contract.{update}
use insider_notification.Service.Create.{announcement}
use insider_notification.Tests.Memory.{Memory, platform, ids, repository, publisher, laws}
use insider_notification.Tests.Api.{
  empty, stored, with_status, request as create_request, after_delivery, barred, read_delivered,
}

bad_id-Replies_example :
    Replies platform ids repository publisher
      (get_reply platform ids repository publisher "x" empty)
      empty
      422
    × Replies platform ids repository publisher
        (cancel_reply platform ids repository publisher "x" empty)
        empty
        422
bad_id-Replies_example = bad_id-Replies platform ids repository publisher "x" empty refl

missing : repository.get_by_id 1 empty ≡ (empty, err db_not_found)
unfolding repository
missing = refl

missing-Replies_example :
    Replies platform ids repository publisher
      (cancel_reply platform ids repository publisher "1" empty)
      empty
      404
    × Replies platform ids repository publisher
        (get_reply platform ids repository publisher "1" empty)
        empty
        500
missing-Replies_example =
    missing-Replies platform ids repository publisher "1" 1 empty empty refl missing

refused-Replies_example :
    Replies platform ids repository publisher
      (cancel_reply platform ids repository publisher "1" after_delivery)
      after_delivery
      409
    × (laws.row after_delivery ≡ laws.row after_delivery)
refused-Replies_example =
    refused-Replies platform ids repository publisher laws "1" 1 after_delivery after_delivery
      (with_status Status.delivered) refl read_delivered barred

-- A valid request and one for an unknown channel.
abbrev two_requests : List CreateRequest
two_requests = create_request ∷ record create_request { channel = "fax" } ∷ []

abbrev batch_row : DbNotification
batch_row = record stored { batch_id = some 9 }

abbrev after_batch : Memory
after_batch = record {
  table = update empty.table 1 batch_row;
  sent = announcement platform batch_row ∷ [];
  next = 2;
  failing = false;
}

abbrev reply : HttpResponse
reply = record {
  status = 207;
  body = batch_body (record {
    batch_id = "0";
    total = 2;
    accepted = 1;
    rejected = 1;
    results =
        record {
          index = 1;
          status = "rejected";
          id = none;
          error = some (record {
            code = "VALIDATION_ERROR";
            message = "must be one of sms, email, push";
            details = details_none;
          });
        }
        ∷ record { index = 0; status = "accepted"; id = some "1"; error = none }
        ∷ [];
  });
}

batch_run :
    create_batch_of platform ids repository publisher two_requests empty ≡ (after_batch, ok reply)
unfolding create_batch_of create_batch validate_items to_notification fill set_channel set_recipient
    phone_re_match set_content set_priority set_max_attempts from repository get_max_attempts
    count_accepted message report_items
batch_run = refl

create_batch_of-Accounts_example :
    (length two_requests ≤ 1000)
    × ((b : BatchResponse) × (reply ≡ record { status = 207; body = batch_body b })
        × Accounts platform two_requests b)
create_batch_of-Accounts_example =
    create_batch_of-Accounts platform ids repository publisher two_requests empty after_batch reply
      batch_run

-- A provider that answers with 503 at once, and the requests that reached it.
abbrev clock : Clock (List (String × String × String))
clock = record { now = λ s. (s, 0) }

abbrev provider : HttpClient (List (String × String × String)) NtfnDeliveryRequestBody
provider = record {
  base_url = "http://provider";
  marshal = λ b. ok b.content;
  new_request = λ m u b. ok tt;
  round_trip = λ m u b s. (s ++ (m, u, b) ∷ [], ok 503);
}

network : Network clock provider
network = record { log = λ s. s; now_log = λ s. refl; round_trip_log = λ m u b s. refl }

abbrev payload : NtfnDeliveryRequestBody
payload = record { to = "+905551112233"; channel = "sms"; content = "hello" }

send-Reports_example :
    Reports
      (request platform provider "POST" "" payload []).1
      (send platform clock provider "+905551112233" "sms" "hello" []).1
    × Posts network payload [] (send platform clock provider "+905551112233" "sms" "hello" [])
send-Reports_example = send-Reports network platform "+905551112233" "sms" "hello" []
