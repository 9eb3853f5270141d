-- ===== src/Startup/Services.antt =====
-- The services: internal/app/app.go and cmd/main.go of the processor, of the scheduler and of the
-- API service.
pub mod Processor
pub mod Scheduler
pub mod Api
use Prim.Native.String.{◌++◌}
use insider_notification.Base.{String, Bool, true, false, List, [], ◌∷◌}
use insider_notification.Errors.{Error, message}
use insider_notification.Effect.{Result, ok, err}
use insider_notification.Platform.{Platform}
use insider_notification.Startup.{
  error, log, notify_context, stop_signal, World, Process, ◌>>=◌, ◌>>◌, give, exit, attempt,
  deferring, make,
}
use insider_notification.Startup.Config.{BaseConfig}
use insider_notification.Startup.Telemetry.{init_logger, init, shutdown}

abbrev pub notification_stream : String
notification_stream = "NOTIFICATIONS"

abbrev pub subjects : List String
subjects = "notify.>" ∷ []

module _ {S : Type 0} (p : Platform) (w : World S) where
  -- `slog.Error(text, "error", err)` and `os.Exit(1)`.
  abbrev pub give_up : {A : Type 0} → String → Error → Process S A
  give_up t e = make w (log error (t ++ ": " ++ message p e)) >> exit 1

  abbrev pub unless_error : {A B : Type 0} → String → (A → Process S B) → Result A → Process S B
  unless_error t k (ok a) = k a
  unless_error t k (err e) = give_up t e

module _ {S : Type 0} (p : Platform) (w : World S) (to_lower : String → String) where
  -- The body of main with the telemetry, and its shutdown deferred, where it is enabled. Where
  -- `Init` fails the deferred function is nil, but `os.Exit` comes first.
  abbrev pub with_telemetry : BaseConfig → Bool → Process S (Unit {0}) → Process S (Unit {0})
  with_telemetry b false body = body
  with_telemetry b true body =
      attempt (init w to_lower b.otel_service_name b.otel_endpoint b.log_level)
      >>= unless_error p w "otel init" (λ _. deferring (shutdown w >>= λ _. give tt) body)

  -- The body with the context that ends with a signal.
  abbrev pub with_signal : Process S (Unit {0}) → Process S (Unit {0})
  with_signal body = make w notify_context >> deferring (make w stop_signal) body

  -- What the three functions `main` share, after the configuration.
  unfoldable pub main_with : BaseConfig → Process S (Unit {0}) → Process S (Unit {0})
  main_with b serve =
      init_logger w to_lower b.log_level >> with_telemetry b b.otel_enabled (with_signal serve)
