-- ===== src/Health.antt =====
-- The liveness and the readiness of a service: shared/handler/health.go.
pub mod Readiness
use Prim.Native.String
use insider_notification.Base.{
  ℕ, String, Bool, true, false, ◌||◌, Option, none, some, List, [], ◌∷◌, ◌==◌, if◌then◌else◌,
}
use insider_notification.Errors.{Error, message}
use insider_notification.Platform.{Platform}

-- `healthResponse`; the checks are a map.
pub record HealthResponse : Type 0 where
  pub status : String
  pub checks : String → Option String

-- What `WriteJSON` is called with.
pub record HealthReply : Type 0 where
  pub status_code : ℕ
  pub body : HealthResponse

-- `ReadinessChecker`; the error of a check is nil where there is none.
pub record ReadinessChecker (S : Type 0) : Type 0 where
  pub name : String
  pub check : S → S × Option Error

abbrev pub no_checks : String → Option String
no_checks name = none

abbrev pub put : (String → Option String) → (key value : String) → String → Option String
put checks key value name = if key == name then some value else checks name

-- `livenessCheck`
abbrev pub liveness_check : HealthReply
liveness_check = record { status_code = 200; body = record { status = "ok"; checks = no_checks } }

abbrev pub text_of : Platform → Option Error → String
text_of p none = "ok"
text_of p (some e) = String.◌++◌ "error: " (message p e)

abbrev pub is_failure : Option Error → Bool
is_failure none = false
is_failure (some e) = true

abbrev pub verdict : (String → Option String) → Bool → HealthReply
verdict checks degraded =
    if degraded
    then record { status_code = 503; body = record { status = "degraded"; checks = checks } }
    else record { status_code = 200; body = record { status = "ok"; checks = checks } }

module _ {S : Type 0} (p : Platform) where
  -- One pass of the loop over the checkers, and the rest of it.
  abbrev pub record_check :
      ReadinessChecker S
      → ((String → Option String) → Bool → S → S × HealthReply)
      → (String → Option String)
      → Bool
      → S × Option Error
      → S × HealthReply
  record_check c rest checks degraded (s, o) =
      rest (put checks c.name (text_of p o)) (degraded || is_failure o) s

  -- The loop, and the reply after it.
  unfoldable pub run_checks :
      List (ReadinessChecker S) → (String → Option String) → Bool → S → S × HealthReply
  run_checks [] checks degraded s = (s, verdict checks degraded)
  run_checks (c ∷ cs) checks degraded s = record_check c (run_checks cs) checks degraded (c.check s)

  -- `readinessCheck`
  unfoldable pub readiness_check : List (ReadinessChecker S) → S → S × HealthReply
  readiness_check [] s =
      (s, record { status_code = 200; body = record { status = "ok"; checks = no_checks } })
  readiness_check (c ∷ cs) s = run_checks (c ∷ cs) no_checks false s
