-- ===== src/Api/Responses.antt =====
-- The responses of the HTTP API: api/internal/transport/http/dtos.go, and the error responses of
-- shared/handler/error_handler.go.
use insider_notification.Base.{
  ℕ, ℤ, String, Bool, true, false, ◌||◌, Option, none, some, List, if◌then◌else◌,
}
use insider_notification.Errors.{
  Error, FieldError, message, as_not_found, as_conflict, as_domain, as_validation, as_json, eof,
  unexpected_eof,
}
use insider_notification.Effect.{Result, ok, err}
use insider_notification.Platform.{Platform}
use insider_notification.Store.{DbNotification}

pub record NotificationResponse : Type 0 where
  pub id : String
  pub batch_id : Option String
  pub recipient : String
  pub channel : String
  pub content : String
  pub priority : String
  pub status : String
  pub max_attempts : ℤ
  pub deliver_after : Option String
  pub created_at : String
  pub updated_at : String

-- `listResponse` with its `paginationMeta`.
pub record ListResponse : Type 0 where
  pub data_ : List NotificationResponse
  pub page : ℤ
  pub page_size : ℤ
  pub total : ℕ
  pub total_pages : ℕ
  pub next_cursor : Option String

pub record CancelResponse : Type 0 where
  pub id : String
  pub status : String
  pub updated_at : String

-- The values of `details any`.
pub data Details : Type 0 where
  details_none : Details
  details_fields : List FieldError → Details

pub record ErrorBody : Type 0 where
  pub code : String
  pub message : String
  pub details : Details

pub record BatchItemResult : Type 0 where
  pub index : ℕ
  pub status : String
  pub id : Option String
  pub error : Option ErrorBody

pub record BatchResponse : Type 0 where
  pub batch_id : String
  pub total : ℕ
  pub accepted : ℕ
  pub rejected : ℕ
  pub results : List BatchItemResult

pub data Body : Type 0 where
  notification_body : NotificationResponse → Body
  list_body : ListResponse → Body
  cancel_body : CancelResponse → Body
  batch_body : BatchResponse → Body
  error_body : ErrorBody → Body

-- What `WriteJSON` writes.
pub record HttpResponse : Type 0 where
  pub status : ℕ
  pub body : Body

abbrev option_text : (ℕ → String) → Option ℕ → Option String
option_text f none = none
option_text f (some n) = some (f n)

-- `toNotificationResponse`
unfoldable pub to_notification_response : Platform → DbNotification → NotificationResponse
to_notification_response p n = record {
  id = p.uuid_text n.id;
  batch_id = option_text p.uuid_text n.batch_id;
  recipient = n.recipient;
  channel = n.channel;
  content = n.content;
  priority = n.priority;
  status = n.status;
  max_attempts = n.max_attempts;
  deliver_after = option_text p.format_rfc3339 n.deliver_after;
  created_at = p.format_rfc3339 n.created_at;
  updated_at = p.format_rfc3339 n.updated_at;
}

-- `writeError`
abbrev pub write_error : ℕ → (code message : String) → Details → HttpResponse
write_error status code text details = record {
  status = status;
  body = error_body (record { code = code; message = text; details = details });
}

-- `err == io.EOF || err == io.ErrUnexpectedEOF`
abbrev pub is_eof : Error → Bool
is_eof eof = true
is_eof unexpected_eof = true
is_eof e = false

-- The chain of tests of `errHandler`.
unfoldable pub error_response : Platform → Error → HttpResponse
error_response p e = elim (as_not_found e) [
  | some text ↦ write_error 404 "NOT_FOUND" text details_none
  | none ↦ elim (as_conflict e) [
    | some text ↦ write_error 409 "CONFLICT" text details_none
    | none ↦ elim (as_domain e) [
      | some (code, text) ↦ write_error 422 code text details_none
      | none ↦ elim (as_validation e) [
        | some fields ↦
            write_error 422 "VALIDATION_ERROR" "validation failed" (details_fields fields)
        | none ↦
            if as_json e || is_eof e
            then write_error 422 "VALIDATION_ERROR" "invalid request body" details_none
            else write_error 500 "INTERNAL_ERROR" (message p e) details_none
      ]
    ]
  ]
]

-- `errHandler`
unfoldable pub err_handler : {S : Type 0} → Platform → S × Result HttpResponse → S × HttpResponse
err_handler p (s, ok r) = (s, r)
err_handler p (s, err e) = (s, error_response p e)
