-- ===== src/Domain.antt =====
-- The domain model of the API service: api/internal/domain/notification/models.go and errors.go.
-- A setter is a call on the notification as its state.
pub mod Lifecycle
use Prim.Native.Nat.{ℕ}
use Prim.Native.Char.{code}
use Prim.Native.String
use Prim.Native.String.{◌++◌}
use insider_notification.Base.{
  ℤ, pos, zero, String, Bool, true, false, ◌&&◌, ◌||◌, Option, none, some, List, [], ◌∷◌, ◌==◌,
  length, leb, eqb, is_positive, if◌then◌else◌,
}
use insider_notification.Errors.{Error, domain_error, wrapped, message}
use insider_notification.Effect.{M, pure, fail, ok, err}
use insider_notification.Platform.{Platform}
use insider_notification.Public.Channel
use insider_notification.Public.Priority
use insider_notification.Public.Status

pub record Notification : Type 0 where
  pub channel : String
  pub recipient : String
  pub content : String
  pub priority : String
  pub status : String
  pub deliver_after : Option ℕ
  pub max_attempts : ℤ

-- `var n notification.Notification`
abbrev pub zero_notification : Notification
zero_notification = record {
  channel = "";
  recipient = "";
  content = "";
  priority = "";
  status = "";
  deliver_after = none;
  max_attempts = pos 0;
}

abbrev pub err_invalid_channel : Error
err_invalid_channel = domain_error "INVALID_CHANNEL" "must be one of sms, email, push"

abbrev pub err_recipient_required : Error
err_recipient_required = domain_error "RECIPIENT_REQUIRED" "required"

abbrev pub err_invalid_email : Error
err_invalid_email = domain_error "INVALID_EMAIL" "must be a valid email address"

abbrev pub err_invalid_phone : Error
err_invalid_phone =
    domain_error "INVALID_PHONE" "must be a valid E.164 phone number (+<7-15 digits>)"

abbrev pub err_channel_not_set : Error
err_channel_not_set = domain_error "CHANNEL_NOT_SET" "channel must be set before recipient"

abbrev pub err_content_required : Error
err_content_required = domain_error "CONTENT_REQUIRED" "required"

abbrev pub err_invalid_priority : Error
err_invalid_priority = domain_error "INVALID_PRIORITY" "must be one of high, normal, low"

abbrev pub err_invalid_deliver_after : Error
err_invalid_deliver_after = domain_error "INVALID_DELIVER_AFTER" "must be ISO 8601 format"

abbrev pub err_invalid_max_attempts : Error
err_invalid_max_attempts = domain_error "INVALID_MAX_ATTEMPTS" "must be greater than 0"

abbrev pub err_unknown_status : Error
err_unknown_status = domain_error "UNKNOWN_STATUS" "unknown status"

abbrev pub err_invalid_transition : Error
err_invalid_transition = domain_error "INVALID_TRANSITION" "invalid status transition"

-- The code points of a text.
abbrev pub codes : String → List ℕ
codes String.[] = []
codes (String.◌∷◌ c s) = code c ∷ codes s

abbrev pub is_digit : ℕ → Bool
is_digit c = leb b'0' c && leb c b'9'

unfoldable pub all_digits : List ℕ → Bool
all_digits [] = true
all_digits (c ∷ cs) = is_digit c && all_digits cs

-- What follows the plus sign: [1-9]\d{6,14}
unfoldable pub phone_digits : List ℕ → Bool
unfolding all_digits
phone_digits [] = false
phone_digits (d ∷ ds) =
    leb b'1' d && leb d b'9' && all_digits ds && leb 6 (length ds) && leb (length ds) 14

unfoldable pub phone_codes : List ℕ → Bool
unfolding phone_digits
phone_codes [] = false
phone_codes (c ∷ cs) = eqb c b'+' && phone_digits cs

-- `phoneRE.MatchString`, for the expression ^\+[1-9]\d{6,14}$
unfoldable pub phone_re_match : String → Bool
unfolding phone_codes
phone_re_match s = phone_codes (codes s)

unfoldable pub set_channel : String → M Notification (Unit {0})
set_channel ch n =
    if ch == Channel.sms || ch == Channel.email || ch == Channel.push
    then (record n { channel = ch }, ok tt)
    else (n, err err_invalid_channel)

unfoldable pub set_recipient : Platform → String → M Notification (Unit {0})
set_recipient p r n =
    if r == ""
    then (n, err err_recipient_required)
    else if n.channel == Channel.email
    then if p.parse_address r
      then (record n { recipient = r }, ok tt)
      else (n, err err_invalid_email)
    else if n.channel == Channel.sms
    then if phone_re_match r
      then (record n { recipient = r }, ok tt)
      else (n, err err_invalid_phone)
    else if n.channel == Channel.push
    then (record n { recipient = r }, ok tt)
    else (n, err err_channel_not_set)

unfoldable pub set_content : String → M Notification (Unit {0})
set_content s n =
    if s == "" then (n, err err_content_required) else (record n { content = s }, ok tt)

unfoldable pub set_priority : String → M Notification (Unit {0})
set_priority p n =
    if p == Priority.high || p == Priority.normal || p == Priority.low
    then (record n { priority = p }, ok tt)
    else (n, err err_invalid_priority)

unfoldable pub set_deliver_after : Option ℕ → M Notification (Unit {0})
set_deliver_after t n = (record n { deliver_after = t }, ok tt)

unfoldable pub set_max_attempts : ℤ → M Notification (Unit {0})
set_max_attempts v n =
    if is_positive v
    then (record n { max_attempts = v }, ok tt)
    else (n, err err_invalid_max_attempts)

-- The map `validTransitions`; `none` is a key that is not there.
unfoldable pub valid_transitions : String → Option (List String)
valid_transitions s =
    if s == Status.pending
    then some (Status.delivered ∷ Status.failed ∷ Status.cancelled ∷ [])
    else if s == Status.failed
    then some (Status.pending ∷ [])
    else if s == Status.delivered
    then some []
    else if s == Status.cancelled
    then some []
    else none

-- `slices.Contains`
abbrev pub contains : List String → String → Bool
contains [] a = false
contains (x ∷ xs) a = x == a || contains xs a

-- `fmt.Errorf("%w: %q", ErrUnknownStatus(), n.status)`
abbrev pub unknown_status_error : Platform → String → Error
unknown_status_error p s =
    wrapped (message p err_unknown_status ++ ": " ++ p.quote s) err_unknown_status

-- `fmt.Errorf("%w: %s → %s", ErrInvalidTransition(), n.status, to)`
abbrev pub invalid_transition_error : Platform → String → String → Error
invalid_transition_error p s to =
    wrapped (message p err_invalid_transition ++ ": " ++ s ++ " → " ++ to) err_invalid_transition

unfoldable pub transition : Platform → String → M Notification (Unit {0})
transition p to n = if n.status == to then (n, ok tt) else elim (valid_transitions n.status) [
  | none ↦ (n, err (unknown_status_error p n.status))
  | some allowed ↦
      if contains allowed to
      then (record n { status = to }, ok tt)
      else (n, err (invalid_transition_error p n.status to))
]

-- `New` and the getters are the record and its fields, but for this one.
unfoldable pub get_max_attempts : Notification → ℤ
get_max_attempts n = elim n.max_attempts [ pos zero ↦ pos 1 | other ↦ other ]
