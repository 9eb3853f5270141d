-- ===== src/Startup.antt =====
-- The start and the end of the three services: the functions that main calls, as processes that
-- call the libraries. A process gives the calls that it makes, in their order, and how it ends. The
-- answers of the libraries are a parameter; what they return, but for errors, is not looked at.
pub mod Connections
pub mod Config
pub mod Telemetry
pub mod Metrics
pub mod Services
pub mod Ledger
use insider_notification.Base.{
  ℕ, ℤ, String, Bool, true, false, Option, none, some, List, [], ◌∷◌, ◌++◌,
}
use insider_notification.Errors.{Error, message, wrap}
use insider_notification.Effect.{Result, ok, err}
use insider_notification.Platform.{Platform}

-- The providers of the telemetry.
pub data Signal : Type 0 where
  traces metrics logs : Signal

-- The levels of log/slog, and where its default logger writes.
pub data Level : Type 0 where
  debug info warn error : Level

pub data Sink : Type 0 where
  stderr bridge : Sink

-- `natsio.StreamConfig` with the work-queue policy and the storage in files.
pub record StreamConfig : Type 0 where
  pub name : String
  pub subjects : List String

-- The goroutines that the services start; a subscription fetches its messages in one.
pub data Task : Type 0 where
  message_processing delivery_results scheduled_due scheduled_events cancel_events ticks server :
      Task
  fetching : (subject : String) → Task

-- The calls of the libraries.
pub data Call : Type 0 where
  open_db : (url : String) → Call
  ping_db add_query_hook close_db : Call
  open_redis : (addr : String) → Call
  ping_redis instrument_tracing instrument_metrics close_redis : Call
  connect_nats : (url : String) → Call
  jet_stream drain_nats : Call
  stream_info : (name : String) → Call
  add_stream update_stream : StreamConfig → Call
  pull_subscribe : (subject durable : String) (max_deliver : ℤ) → Call
  new_resource : (service : String) → Call
  new_exporter : Signal → (endpoint : String) → Call
  set_provider shutdown_provider : Signal → Call
  set_propagator set_error_handler : Call
  set_default : Sink → Level → Call
  int64_counter : (name : String) → Call
  int64_histogram : (name : String) (boundaries : List ℕ) → Call
  int64_observable_gauge : (name : String) → Call
  -- a line of log/slog
  log : Level → (text : String) → Call
  -- `signal.NotifyContext`, the end of its context, and its stop function
  notify_context context_done stop_signal : Call
  with_timeout : (seconds : ℕ) → Call
  cancel_timeout : Call
  -- the start of a goroutine, and the wait for those of the wait group
  go_ : Task → Call
  shutdown_server wait_tasks : Call

-- What a call answers, where it may fail.
pub record World (S : Type 0) : Type 0 where
  pub answer : Call → S → S × Option Error
  -- `err == natsio.ErrStreamNotFound`
  pub is_stream_not_found : Error → Bool

-- How a function ends: it returns, returns an error, panics, or the process ends in `os.Exit`.
pub data Outcome (A : Type 0) : Type 0 where
  returned : A → Outcome A
  failed : Error → Outcome A
  panicked : String → Outcome A
  exited : ℕ → Outcome A

abbrev pub Run : Type 0 → Type 0 → Type 0
Run S A = S × (List Call × Outcome A)

abbrev pub Process : Type 0 → Type 0 → Type 0
Process S A = S → Run S A

abbrev pub after : {S A : Type 0} → List Call → Run S A → Run S A
after xs (s, (ys, o)) = (s, (xs ++ ys, o))

-- `k` goes on where the first process returns.
abbrev pub follow : {S A B : Type 0} → (A → Process S B) → Run S A → Run S B
follow k (s, (xs, returned a)) = after xs (k a s)
follow k (s, (xs, failed e)) = (s, (xs, failed e))
follow k (s, (xs, panicked t)) = (s, (xs, panicked t))
follow k (s, (xs, exited n)) = (s, (xs, exited n))

infixl 5 ◌>>=◌ ◌>>◌
unfoldable pub ◌>>=◌ : {S A B : Type 0} → Process S A → (A → Process S B) → Process S B
◌>>=◌ m k s = follow k (m s)

unfoldable pub ◌>>◌ : {S B : Type 0} → Process S (Unit {0}) → Process S B → Process S B
◌>>◌ m k s = follow (λ _. k) (m s)

abbrev pub give : {S A : Type 0} → A → Process S A
give a s = (s, ([], returned a))

abbrev pub fail : {S A : Type 0} → Error → Process S A
fail e s = (s, ([], failed e))

abbrev pub panic : {S A : Type 0} → String → Process S A
panic t s = (s, ([], panicked t))

abbrev pub exit : {S A : Type 0} → ℕ → Process S A
exit n s = (s, ([], exited n))

-- The error that a function returns, as a value of its caller.
abbrev pub caught : {S A : Type 0} → Run S A → Run S (Result A)
caught (s, (xs, returned a)) = (s, (xs, returned (ok a)))
caught (s, (xs, failed e)) = (s, (xs, returned (err e)))
caught (s, (xs, panicked t)) = (s, (xs, panicked t))
caught (s, (xs, exited n)) = (s, (xs, exited n))

unfoldable pub attempt : {S A : Type 0} → Process S A → Process S (Result A)
attempt m s = caught (m s)

-- The end of a function with a deferred call: it keeps its outcome unless the deferred
-- call panics.
abbrev pub keeping : {S A : Type 0} → Outcome A → Run S (Unit {0}) → Run S A
keeping o (s, (xs, returned _)) = (s, (xs, o))
keeping o (s, (xs, failed e)) = (s, (xs, o))
keeping o (s, (xs, panicked t)) = (s, (xs, panicked t))
keeping o (s, (xs, exited n)) = (s, (xs, exited n))

-- `defer d()` before `m`: `os.Exit` runs no deferred calls.
abbrev pub finish : {S A : Type 0} → Process S (Unit {0}) → Run S A → Run S A
finish d (s, (xs, returned a)) = after xs (keeping (returned a) (d s))
finish d (s, (xs, failed e)) = after xs (keeping (failed e) (d s))
finish d (s, (xs, panicked t)) = after xs (keeping (panicked t) (d s))
finish d (s, (xs, exited n)) = (s, (xs, exited n))

unfoldable pub deferring : {S A : Type 0} → Process S (Unit {0}) → Process S A → Process S A
deferring d m s = finish d (m s)

module _ {S : Type 0} (w : World S) where
  -- A call, with its error as a value.
  abbrev pub call : Call → Process S (Option Error)
  call c s = let (s', o) = w.answer c s in (s', (c ∷ [], returned o))

  -- A call whose error, if it has one, is not looked at.
  abbrev pub make : Call → Process S (Unit {0})
  make c s = let (s', o) = w.answer c s in (s', (c ∷ [], returned tt))

  abbrev pub or_fail : (Error → Error) → Option Error → Process S (Unit {0})
  or_fail f none = give tt
  or_fail f (some e) = fail (f e)

  abbrev pub or_panic : (Error → String) → Option Error → Process S (Unit {0})
  or_panic f none = give tt
  or_panic f (some e) = panic (f e)

  -- `if err != nil { return f(err) }`, and `if err != nil { panic(f(err)) }`.
  abbrev pub check : Call → (Error → Error) → Process S (Unit {0})
  check c f = call c >>= or_fail f

  abbrev pub must : Call → (Error → String) → Process S (Unit {0})
  must c f = call c >>= or_panic f
