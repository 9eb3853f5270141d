-- ===== src/Requests.antt =====
-- The request bodies of the HTTP API: `createRequest` and `ToNotification` of
-- api/internal/transport/http/dtos.go.
pub mod Acceptance
use insider_notification.Base.{ℕ, ℤ, String, Option, none, some}
use insider_notification.Errors.{Error}
use insider_notification.Effect.{M, pure, fail, ◌>>=◌, ◌>>◌, Result}
use insider_notification.Platform.{Platform}
use insider_notification.Domain.{
  Notification, zero_notification, set_channel, set_recipient, set_content, set_priority,
  set_max_attempts, set_deliver_after, err_invalid_deliver_after,
}

pub record CreateRequest : Type 0 where
  pub recipient : String
  pub channel : String
  pub content : String
  pub priority : String
  pub max_attempts : Option ℤ
  pub deliver_after : Option String

-- `if r.MaxAttempts != nil`
set_request_attempts : Option ℤ → M Notification (Unit {0})
set_request_attempts none = pure tt
set_request_attempts (some v) = set_max_attempts v

set_parsed : Option ℕ → M Notification (Unit {0})
set_parsed none = fail err_invalid_deliver_after
set_parsed (some t) = set_deliver_after (some t)

-- `if r.DeliverAfter != nil`
set_request_time : Platform → Option String → M Notification (Unit {0})
unfolding set_parsed
set_request_time p none = pure tt
set_request_time p (some text) = set_parsed (p.parse_rfc3339 text)

-- The body of `ToNotification` on the notification that it builds.
unfoldable pub fill : Platform → CreateRequest → M Notification (Unit {0})
unfolding set_request_attempts set_request_time
fill p r = do
  set_channel r.channel
  set_recipient p r.recipient
  set_content r.content
  set_priority r.priority
  set_request_attempts r.max_attempts
  set_request_time p r.deliver_after

unfoldable pub to_notification : Platform → CreateRequest → Notification × Result (Unit {0})
to_notification p r = fill p r zero_notification
