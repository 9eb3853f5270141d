-- ===== src/Startup/Telemetry.antt =====
-- The telemetry and the logger: shared/otel/setup.go and shared/logger/logger.go. The exporters
-- are made with the options that the program gives; the contexts are left out.
pub mod Shutdown
use insider_notification.Base.{
  ℕ, ℤ, pos, negsuc, String, Bool, true, false, Option, none, some, List, [], ◌∷◌, ◌++◌, ◌==◌,
  if◌then◌else◌, ltz,
}
use insider_notification.Errors.{Error, other, joined, join}
use insider_notification.Nats.Publisher.{to_result}
use insider_notification.Effect.{Result, ok, err}
use insider_notification.Startup.{
  Level, debug, info, warn, error, Sink, stderr, bridge, Signal, traces, metrics, logs, Call,
  new_resource, new_exporter, set_provider, shutdown_provider, set_propagator, set_error_handler,
  set_default, World, Process, ◌>>=◌, ◌>>◌, give, fail, call, make, check,
}

-- `ParseLevel`, over `strings.ToLower`.
unfoldable pub parse_level : (to_lower : String → String) → String → Level
parse_level to_lower level =
    let l = to_lower level in
    if l == "debug"
    then debug
    else if l == "warn"
    then warn
    else if l == "error"
    then error
    else info

-- The value of a level in log/slog.
abbrev pub value_of : Level → ℤ
value_of debug = negsuc 3
value_of info = pos 0
value_of warn = pos 4
value_of error = pos 8

-- A handler of log/slog, as far as `levelHandler` uses it: records of a level, into a state.
pub record Handler (T : Type 0) : Type 0 where
  pub enabled : ℤ → Bool
  pub handle : ℤ → String → T → T × Result (Unit {0})

-- `levelHandler`
unfoldable pub level_handler : {T : Type 0} → (min : ℤ) → Handler T → Handler T
level_handler min next = record {
  enabled = λ l. if ltz l min then false else true;
  handle = λ l r s. if ltz l min then (s, ok tt) else next.handle l r s;
}

abbrev pub exporter_name : Signal → String
exporter_name traces = "failed to create otlp trace exporter"
exporter_name metrics = "failed to create otlp metric exporter"
exporter_name logs = "failed to create otlp log exporter"

abbrev pub provider_name : Signal → String
provider_name traces = "failed shutting down tracer provider"
provider_name metrics = "failed shutting down meter provider"
provider_name logs = "failed shutting down logger provider"

-- `errors.Join(errors.New(text), err)`
abbrev pub annotated : String → Error → Error
annotated t e = joined (other t) e

module _ {S : Type 0} (w : World S) (to_lower : String → String) where
  -- `Init` of the logger.
  unfoldable pub init_logger : (log_level : String) → Process S (Unit {0})
  init_logger log_level = make w (set_default stderr (parse_level to_lower log_level))

  -- The set-up of one signal: its exporter, and its provider as the global one.
  unfoldable pub set_up : Signal → (endpoint : String) → Process S (Unit {0})
  set_up g endpoint =
      check w (new_exporter g endpoint) (annotated (exporter_name g)) >> make w (set_provider g)

  -- `Init`
  unfoldable pub init : (service endpoint log_level : String) → Process S (Unit {0})
  init service endpoint log_level =
      check w (new_resource service) (annotated "failed to create otel resource")
      >> set_up traces endpoint
      >> make w set_propagator
      >> set_up metrics endpoint
      >> set_up logs endpoint
      >> make w set_error_handler
      >> make w (set_default bridge (parse_level to_lower log_level))

module _ {S : Type 0} (w : World S) where
  abbrev pub noted : Signal → Option Error → List Error → List Error
  noted g none es = es
  noted g (some e) es = annotated (provider_name g) e ∷ es

  abbrev pub close_signal : Signal → Process S (List Error) → Process S (List Error)
  close_signal g rest = call w (shutdown_provider g) >>= λ o. rest >>= λ es. give (noted g o es)

  -- The shutdown function that `Init` returns.
  unfoldable pub shutdown : Process S (Result (Unit {0}))
  shutdown = close_signal traces (close_signal metrics (close_signal logs (give []))) >>= λ es.
      give (to_result (join es))
