-- ===== src/Errors.antt =====
-- Error values: shared/genericerrors/errors.go, shared/handler/validation.go, api/internal/db/
-- errors.go, `ErrRetryAfter` of processor/internal/delivery/pipeline.go, and the errors of the
-- libraries as far as the program tells them apart.
use Prim.Native.String.{◌++◌}
use insider_notification.Base.{
  ℤ, String, Bool, true, false, ◌||◌, Option, none, some, List, [], ◌∷◌, ◌==◌,
}
use insider_notification.Platform.{Platform}

pub record FieldError : Type 0 where
  pub field : String
  pub message : String

-- A value of Go's `error`; nil is the absence of one (`Option Error`, or `ok`).
pub data Error : Type 0 where
  domain_error : (code message : String) → Error
  not_found_error : (message : String) → Error
  conflict_error : (message : String) → Error
  validation_error : (fields : List FieldError) → Error
  retry_after : (delay : ℤ) → Error
  -- the sentinel `db.ErrNotFound`
  db_not_found : Error
  -- the sentinel `sql.ErrNoRows`
  sql_no_rows : Error
  -- `json.SyntaxError` or `json.UnmarshalTypeError`
  json_error : (message : String) → Error
  -- `io.EOF` and `io.ErrUnexpectedEOF`
  eof unexpected_eof : Error
  -- any other error, of a library or of `errors.New`
  other : (message : String) → Error
  -- `fmt.Errorf` with the verb %w: the whole text, and the error that it wraps
  wrapped : (message : String) → Error → Error
  -- `errors.Join` of two errors, the second of which may be a join again
  joined : Error → Error → Error

join_fields : List FieldError → String
join_fields [] = ""
join_fields (f ∷ []) = f.field ++ ": " ++ f.message
join_fields (f ∷ g ∷ fs) = f.field ++ ": " ++ f.message ++ "; " ++ join_fields (g ∷ fs)

-- The method `Error()`.
unfoldable pub message : Platform → Error → String
unfolding join_fields
message p (domain_error code text) = text
message p (not_found_error text) = text
message p (conflict_error text) = text
message p (validation_error fields) = "validation: " ++ join_fields fields
message p (retry_after delay) = "retry after " ++ p.format_duration delay
message p db_not_found = "not found"
message p sql_no_rows = "sql: no rows in result set"
message p (json_error text) = text
message p eof = "EOF"
message p unexpected_eof = "unexpected EOF"
message p (other text) = text
message p (wrapped text e) = text
message p (joined e f) = message p e ++ "\n" ++ message p f

-- `fmt.Errorf(prefix + "%w", err)`.
unfoldable pub wrap : Platform → String → Error → Error
wrap p prefix e = wrapped (prefix ++ message p e) e

-- `NewValidationError`.
abbrev pub new_validation_error : (field message : String) → Error
new_validation_error f m = validation_error (record { field = f; message = m } ∷ [])

-- `DomainError.Is`.
unfoldable pub is_domain : Error → (code : String) → Bool
is_domain (domain_error c text) code = code == c
is_domain e code = false

abbrev pub or_else : {A : Type 0} → Option A → Option A → Option A
or_else (some a) o = some a
or_else none o = o

abbrev pub join_onto : Error → List Error → Error
join_onto e [] = e
join_onto e (f ∷ fs) = joined e (join_onto f fs)

-- `errors.Join`, which is nil where there is no error. The join of one error has its text, and
-- `errors.Is` and `errors.As` go through it: it is that error here.
unfoldable pub join : List Error → Option Error
join [] = none
join (e ∷ es) = some (join_onto e es)

-- `errors.Is(err, db.ErrNotFound)`: the error or one that it wraps.
unfoldable pub is_db_not_found : Error → Bool
is_db_not_found db_not_found = true
is_db_not_found (wrapped text e) = is_db_not_found e
is_db_not_found (joined e f) = is_db_not_found e || is_db_not_found f
is_db_not_found e = false

-- `errors.Is(err, sql.ErrNoRows)`
unfoldable pub is_no_rows : Error → Bool
is_no_rows sql_no_rows = true
is_no_rows (wrapped text e) = is_no_rows e
is_no_rows (joined e f) = is_no_rows e || is_no_rows f
is_no_rows e = false

-- `errors.As` at each of the types that the program asks for.
unfoldable pub as_not_found : Error → Option String
as_not_found (not_found_error text) = some text
as_not_found (wrapped text e) = as_not_found e
as_not_found (joined e f) = or_else (as_not_found e) (as_not_found f)
as_not_found e = none

unfoldable pub as_conflict : Error → Option String
as_conflict (conflict_error text) = some text
as_conflict (wrapped text e) = as_conflict e
as_conflict (joined e f) = or_else (as_conflict e) (as_conflict f)
as_conflict e = none

unfoldable pub as_domain : Error → Option (String × String)
as_domain (domain_error code text) = some (code, text)
as_domain (wrapped text e) = as_domain e
as_domain (joined e f) = or_else (as_domain e) (as_domain f)
as_domain e = none

unfoldable pub as_validation : Error → Option (List FieldError)
as_validation (validation_error fields) = some fields
as_validation (wrapped text e) = as_validation e
as_validation (joined e f) = or_else (as_validation e) (as_validation f)
as_validation e = none

unfoldable pub as_json : Error → Bool
as_json (json_error text) = true
as_json (wrapped text e) = as_json e
as_json (joined e f) = as_json e || as_json f
as_json e = false

unfoldable pub as_retry_after : Error → Option ℤ
as_retry_after (retry_after delay) = some delay
as_retry_after (wrapped text e) = as_retry_after e
as_retry_after (joined e f) = or_else (as_retry_after e) (as_retry_after f)
as_retry_after e = none
