-- ===== src/Startup/Metrics.antt =====
-- The metrics of the processor: processor/internal/service/metrics.go.
pub mod Tallies
use insider_notification.Base.{ℕ, String, Option, none, some, List, [], ◌∷◌}
use insider_notification.Effect.{Result, ok, err}
use insider_notification.Public.Priority
use insider_notification.Public.Topic
use insider_notification.Processor.Pipeline.{Metrics}
use insider_notification.Startup.{
  int64_counter, int64_histogram, int64_observable_gauge, World, Process, ◌>>◌, check,
}

-- The instruments of the meter, and the call `XLen` of Redis.
pub record Instruments (S : Type 0) : Type 0 where
  pub add_sent : (by_ : ℕ) → S → S
  pub add_failed : (by_ : ℕ) → S → S
  pub record_latency : (latency_ms : ℕ) → S → S
  pub x_len : (stream : String) → S → S × Result ℕ
  pub observe : (depth : ℕ) (priority : String) → S → S

-- `NewMetrics`: the registration of the instruments.
unfoldable pub new_metrics : {S : Type 0} → World S → Process S (Unit {0})
new_metrics w =
    check w (int64_counter "notification.sent") (λ e. e)
    >> check w (int64_counter "notification.failed") (λ e. e)
    >> check w
        (int64_histogram "notification.delivery.latency.ms"
          (50 ∷ 100 ∷ 250 ∷ 500 ∷ 1000 ∷ 2500 ∷ 5000 ∷ []))
        (λ e. e)
    >> check w (int64_observable_gauge "notification.queue.depth") (λ e. e)

module _ {S : Type 0} (i : Instruments S) where
  -- `RecordNotificationSent` and `RecordNotificationFailed`
  unfoldable pub metrics : Metrics S
  metrics = record {
    record_notification_sent = λ l s. i.record_latency l (i.add_sent 1 s);
    record_notification_failed = λ l s. i.record_latency l (i.add_failed 1 s);
  }

  -- The map of the callback, as a list.
  abbrev pub queues : List (String × String)
  queues =
      (Priority.high, Topic.high) ∷ (Priority.normal, Topic.normal) ∷ (Priority.low, Topic.low) ∷ []

  abbrev pub after_len : String → S × Result ℕ → S
  after_len priority (s, ok n) = i.observe n priority s
  after_len priority (s, err e) = s

  -- Its loop, for the entries in the order in which they come.
  unfoldable pub observe_all : List (String × String) → S → S
  observe_all [] s = s
  observe_all ((priority, topic) ∷ qs) s = observe_all qs (after_len priority (i.x_len topic s))

  -- The callback of the gauge; without a client of Redis it does nothing.
  unfoldable pub observe_depth : (has_client : Option (Unit {0})) → List (String × String) → S → S
  observe_depth none qs s = s
  observe_depth (some _) qs s = observe_all qs s
