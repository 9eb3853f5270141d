-- ===== src/Startup/Ledger/Mains.antt =====
-- What main gives back before it ends: cmd/main.go of the three services, and shared/otel/setup.go.
use insider_notification.Base.{◌⊎◌, String, some, List, [], ◌∷◌, ◌≡◌}
use insider_notification.Errors.{Error}
use insider_notification.Platform.{Platform}
use insider_notification.Startup.{Call, traces, metrics, logs, Task, World, Process, Call}
use insider_notification.Startup.Config.{Viper}
use insider_notification.Startup.Services.Processor
use insider_notification.Startup.Services.Scheduler
use insider_notification.Startup.Services.Api
use insider_notification.Startup.Ledger.{Ledger, Resource, provider}
use insider_notification.Startup.Ledger.Runs.{To, Explains}
use insider_notification.Startup.Ledger.Rules.{Holds}
use insider_notification.Startup.Ledger.Connected.{idle}

-- Any error, after any calls that are allowed.
abbrev Any : Error → Ledger → Type 0
Any e m = Unit

module _ {S : Type 0} (p : Platform) (w : World S) {X : Type 0} (fails : Explains w X)
    (to_lower : String → String) where
  abbrev observed : List Resource → List Resource
  observed rs = provider logs ∷ provider metrics ∷ provider traces ∷ rs

-- Why a service does not come to its regular end: a call of a library has failed, a variable that
-- it requires is empty, or its configuration is bad.
abbrev pub Reason : {S V : Type 0} → World S → Viper V → V → String → String → Type 0 → Type 0
Reason {S = S} w viper v first second Bad =
    ((c : Call) × (s : S) × (e : Error) × ((w.answer c s).1 ≡ some e))
    ⊎ ((viper.get_string v first ≡ "") ⊎ ((viper.get_string v second ≡ "") ⊎ Bad))

module _ {S V : Type 0} (p : Platform) (w : World S) (viper : Viper V)
    (to_lower : String → String) where
  -- Main comes to its end with nothing held and the given goroutines running, or for a reason.
  abbrev pub Ends :
      V → (first second : String) → Type 0 → (loops : List Task) → Process S (Unit {0}) → Type 0
  Ends v first second Bad ls m =
      Holds (Reason w viper v first second Bad) (idle [] []) (To (idle ls [])) m
