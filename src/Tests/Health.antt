-- ===== src/Tests/Health.antt =====
-- The readiness of a service with two checks, the second of which fails.
use insider_notification.Base.{none, some, List, [], ◌∷◌, false}
use insider_notification.Errors.{other}
use insider_notification.Health.{ReadinessChecker, no_checks, readiness_check}
use insider_notification.Health.Readiness.{outcomes, Reports, readiness_check-Reports}
use insider_notification.Tests.Memory.{platform}

abbrev checkers : List (ReadinessChecker (Unit {0}))
checkers =
    record { name = "postgres"; check = λ s. (s, none) }
    ∷ record { name = "nats"; check = λ s. (s, some (other "not connected")) }
    ∷ []

readiness_check-Reports_example :
    Reports platform false no_checks (outcomes checkers tt) (readiness_check platform checkers tt).1
readiness_check-Reports_example = readiness_check-Reports platform checkers tt
