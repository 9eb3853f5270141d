-- ===== src/Platform.antt =====
-- The functions of Go's standard library and of third-party packages that the program calls and
-- that compute a value: a parameter of the definitions that use them.
--   parse_uuid, uuid_text   google/uuid Parse and String; a UUID is its 128 bits as a number
--   parse_address           net/mail ParseAddress, whether it succeeds
--   parse_rfc3339, format_rfc3339   time.Parse and Time.Format at RFC3339
--   quote                   the verb %q of fmt
--   atoi                    strconv.Atoi
--   itoa                    the verb %d of fmt
--   format_duration         time.Duration.String
--   equal_fold              strings.EqualFold
-- A `time.Time` is a number of nanoseconds since its zero value.
use insider_notification.Base.{ℕ, ℤ, Bool, Option, String}

pub record Platform : Type 0 where
  pub parse_uuid : String → Option ℕ
  pub uuid_text : ℕ → String
  pub parse_address : String → Bool
  pub parse_rfc3339 : String → Option ℕ
  pub format_rfc3339 : ℕ → String
  pub quote : String → String
  pub atoi : String → Option ℤ
  pub itoa : ℕ → String
  pub format_duration : ℤ → String
  pub equal_fold : String → String → Bool
