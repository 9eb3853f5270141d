-- ===== src/Api.antt =====
-- The HTTP handlers of the API service: api/internal/transport/http/notification.go and dtos.go,
-- with `errHandler` of shared/handler/error_handler.go.
pub mod Responses
pub mod Statuses
pub mod Accounting
pub mod Items
use Prim.Native.String
use insider_notification.Base.{
  ℕ, ℤ, pos, zero, suc, ◌+◌, ◌-◌, ◌/◌, String, Bool, true, false, Option, none, some, List, [], ◌∷◌,
  ◌++◌, map, length, ◌==◌, ltb, ltz, is_positive, pos_part, if◌then◌else◌,
}
use insider_notification.Errors.{Error, message, new_validation_error}
use insider_notification.Effect.{M, Result, ok, err, pure, fail, ◌>>=◌, ◌>>◌, lift}
use insider_notification.Platform.{Platform}
use insider_notification.Domain.{Notification}
use insider_notification.Requests.{CreateRequest, to_notification}
use insider_notification.Store.{DbNotification, Ids, ListFilter, NotificationRepository}
use insider_notification.Ports.{Publisher}
use insider_notification.Service.{create, get_by_id, list, cancel}
use insider_notification.Batch.{BatchResult, create_batch}
use insider_notification.Api.Responses.{
  HttpResponse, Body, notification_body, list_body, cancel_body, batch_body, BatchItemResult,
  BatchResponse, ErrorBody, details_none, to_notification_response,
}

-- `intParam`
unfoldable pub int_param : Platform → String → ℤ → ℤ
int_param p s def = elim (p.atoi s) [ none ↦ def | some v ↦ if is_positive v then v else def ]

-- `if pageSize > 100 { pageSize = 100 }`
abbrev pub page_cap : ℤ → ℤ
page_cap v = if ltz (pos 100) v then pos 100 else v

-- An optional parameter that is dropped where it does not parse.
abbrev pub parsed : (String → Option ℕ) → String → Option ℕ
parsed parse s = if s == "" then none else parse s

-- The filter of `listNotifications`, without the cursor; `q` is `r.URL.Query().Get`.
unfoldable pub filter_of : Platform → (q : String → String) → ListFilter
filter_of p q = record {
  status = q "status";
  channel = q "channel";
  batch_id = parsed p.parse_uuid (q "batch_id");
  date_from = parsed p.parse_rfc3339 (q "date_from");
  date_to = parsed p.parse_rfc3339 (q "date_to");
  page_size = page_cap (int_param p (q "page_size") (pos 20));
  cursor_id = none;
  page = int_param p (q "page") (pos 1);
  sort = q "sort";
  order = q "order";
}

-- `decodeCursor`, with the error that its caller gives.
abbrev pub decode_cursor : Platform → String → Result (Option ℕ)
decode_cursor p s = elim (p.parse_uuid s) [
  | none ↦ err (new_validation_error "cursor" "invalid")
  | some id ↦ ok (some id)
]

abbrev pub cursor_of : Platform → String → Result (Option ℕ)
cursor_of p s = if s == "" then ok none else decode_cursor p s

-- The id of the path, as it parses.
abbrev pub id_or_invalid : Option ℕ → Result ℕ
id_or_invalid none = err (new_validation_error "id" "must be a valid UUID")
id_or_invalid (some id) = ok id

abbrev pub notification_reply : Platform → ℕ → DbNotification → HttpResponse
notification_reply p code entity = record {
  status = code;
  body = notification_body (to_notification_response p entity);
}

abbrev pub cancel_answer : Platform → DbNotification → HttpResponse
cancel_answer p entity = record {
  status = 200;
  body = cancel_body (record {
    id = p.uuid_text entity.id;
    status = entity.status;
    updated_at = p.format_rfc3339 entity.updated_at;
  });
}

-- `(total + pageSize - 1) / pageSize`, of a positive page size.
abbrev pub total_pages : ℕ → ℤ → ℕ
total_pages total page_size = (total + pos_part page_size - 1) / pos_part page_size

-- One result of `ToNotification`: the notification is used where there is no error.
abbrev pub converted : Notification × Result (Unit {0}) → Result Notification
converted (n, ok _) = ok n
converted (n, err e) = err e

abbrev pub rejected_item : Platform → ℕ → Error → BatchItemResult
rejected_item p i e = record {
  index = i;
  status = "rejected";
  id = none;
  error =
      some (record { code = "VALIDATION_ERROR"; message = message p e; details = details_none });
}

-- What one request of a batch adds to the valid items or to the rejected ones.
abbrev pub sort_item :
    Platform
    → ℕ
    → Result Notification
    → List (ℕ × Notification) × List BatchItemResult
    → List (ℕ × Notification) × List BatchItemResult
sort_item p i (ok n) (valid, rejected) = ((i, n) ∷ valid, rejected)
sort_item p i (err e) (valid, rejected) = (valid, rejected_item p i e ∷ rejected)

-- The first loop of `createBatch`, from index i on.
unfoldable pub validate_items :
    Platform → ℕ → List CreateRequest → List (ℕ × Notification) × List BatchItemResult
validate_items p i [] = ([], [])
validate_items p i (r ∷ rs) =
    sort_item p i (converted (to_notification p r)) (validate_items p (suc i) rs)

abbrev pub some_text : Platform → Option ℕ → Option String
some_text p none = none
some_text p (some id) = some (p.uuid_text id)

abbrev pub internal_error : Option String → Option ErrorBody
internal_error none = none
internal_error (some text) =
    some (record { code = "INTERNAL_ERROR"; message = text; details = details_none })

-- The second loop: the results of the service at the indices of the valid items.
unfoldable pub report_items :
    Platform → List (ℕ × Notification) → List BatchResult → List BatchItemResult
report_items p ((i, n) ∷ valid) (res ∷ results) =
    record {
      index = i;
      status = res.status;
      id = some_text p res.id;
      error = internal_error res.error;
    }
    ∷ report_items p valid results
report_items p [] results = []
report_items p (v ∷ valid) [] = []

abbrev pub count_id : Option ℕ → ℕ
count_id none = 0
count_id (some id) = 1

-- `accepted`
unfoldable pub count_accepted : List BatchResult → ℕ
count_accepted [] = 0
count_accepted (r ∷ rs) = count_id r.id + count_accepted rs

-- The body of the response to a batch.
abbrev pub batch_of :
    Platform
    → (total : ℕ) → List (ℕ × Notification)
    → List BatchItemResult
    → (batch_id : ℕ) → List BatchResult
    → BatchResponse
batch_of p total valid rejected batch_id results = record {
  batch_id = p.uuid_text batch_id;
  total = total;
  accepted = count_accepted results;
  rejected = total - count_accepted results;
  results = rejected ++ report_items p valid results;
}

module _ {S : Type 0} (p : Platform) (ids : Ids S) (repo : NotificationRepository S)
    (publisher : Publisher S) where
  -- `createNotification`, on the result of decoding the body.
  unfoldable pub create_notification : Result CreateRequest → M S HttpResponse
  create_notification body = do
    req ← lift body
    n ← lift (converted (to_notification p req))
    entity ← create p ids repo publisher n
    pure (notification_reply p 201 entity)

  -- `getNotification` on the id, and on the path parameter.
  abbrev pub get_at : ℕ → M S HttpResponse
  get_at id = do entity ← get_by_id p ids repo publisher id; pure (notification_reply p 200 entity)

  unfoldable pub get_notification : (id : String) → M S HttpResponse
  get_notification text = lift (id_or_invalid (p.parse_uuid text)) >>= get_at

  -- `cancelNotification` on the id, and on the path parameter.
  abbrev pub cancel_at : ℕ → M S HttpResponse
  cancel_at id = do entity ← cancel p ids repo publisher id; pure (cancel_answer p entity)

  unfoldable pub cancel_notification : (id : String) → M S HttpResponse
  cancel_notification text = lift (id_or_invalid (p.parse_uuid text)) >>= cancel_at

  -- `listNotifications`
  unfoldable pub list_notifications : (q : String → String) → M S HttpResponse
  list_notifications q = do
    cursor ← lift (cursor_of p (q "cursor"))
    found ← list p ids repo publisher (record (filter_of p q) { cursor_id = cursor })
    pure (record {
      status = 200;
      body = list_body (record {
        data_ = map (to_notification_response p) found.0;
        page = (filter_of p q).page;
        page_size = (filter_of p q).page_size;
        total = found.1;
        total_pages = total_pages found.1 (filter_of p q).page_size;
        next_cursor = some_text p found.2;
      });
    })

  -- The end of `createBatch`, after the service.
  abbrev pub batch_response :
      (total : ℕ)
      → List (ℕ × Notification)
      → List BatchItemResult
      → S × (ℕ × List BatchResult × Result (Unit {0}))
      → S × Result HttpResponse
  batch_response total valid rejected (s, (batch_id, results, err e)) = (s, err e)
  batch_response total valid rejected (s, (batch_id, results, ok _)) = (
    s,
    ok (record {
      status = 207;
      body = batch_body (batch_of p total valid rejected batch_id results);
    }),
  )

  -- `createBatch` after the decoding.
  unfoldable pub create_batch_of : List CreateRequest → M S HttpResponse
  create_batch_of requests s =
      let (valid, rejected) = validate_items p 0 requests in
      let answer =
        batch_response (length requests) valid rejected
          (create_batch p ids repo publisher (map (λ v. v.1) valid) s) in
      if ltb 1000 (length requests)
      then (s, err (new_validation_error "notifications" "max 1000 items"))
      else answer

  -- `createBatch`
  unfoldable pub create_batch_handler : Result (List CreateRequest) → M S HttpResponse
  unfolding create_batch_of
  create_batch_handler body = lift body >>= create_batch_of
