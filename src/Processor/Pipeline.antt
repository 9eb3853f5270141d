-- ===== src/Processor/Pipeline.antt =====
-- The delivery pipeline of processor/internal/delivery/pipeline.go.
pub mod Laws
pub mod Attempt
pub mod Runs
use insider_notification.Base.{
  ℕ, ℤ, pos, String, Bool, true, false, ◌&&◌, ltz, is_positive, suc, ◌+◌, if◌then◌else◌,
}
use insider_notification.Errors.{Error, retry_after}
use insider_notification.Effect.{M, Result, ok, err, pure, fail, ◌>>=◌, ◌>>◌, effect}
use insider_notification.Public.Status
use insider_notification.Public.Topic
use insider_notification.Public.Events.{
  NotificationReadyEvent, NotificationDeliveryResultEvent, Payload, delivery_result,
}
use insider_notification.Ports.{Publisher}
use insider_notification.Processor.Retry.{Randomness, retry_delay, second, max_attempts}
use insider_notification.Processor.Client.{DeliveryResult, NtfnDeliveryClient}
use insider_notification.Processor.Limit.{Limiter}

-- The interface `Locker` of shared/lock/locker.go.
pub record Locker (S : Type 0) : Type 0 where
  pub try_lock : (id : String) → M S Bool
  pub unlock : (id : String) → M S (Unit {0})

-- The interface `Metrics` of processor/internal/service/metrics.go.
pub record Metrics (S : Type 0) : Type 0 where
  pub record_notification_sent : (latency_ms : ℕ) → S → S
  pub record_notification_failed : (latency_ms : ℕ) → S → S

-- `NotificationDeliveryPipeline`, with the source of its jitter.
pub record NotificationDeliveryPipeline (S : Type 0) : Type 0 where
  pub publisher : Publisher S
  pub delivery_client : NtfnDeliveryClient S
  pub limiter : Limiter S
  pub locker : Locker S
  pub metrics : Metrics S
  pub randomness : Randomness S

unfoldable pub max_attempts_for : NotificationReadyEvent → ℤ
max_attempts_for evt = if is_positive evt.max_attempts then evt.max_attempts else pos max_attempts

abbrev pub delivered_event :
    NotificationReadyEvent → DeliveryResult → ℕ → NotificationDeliveryResultEvent
delivered_event evt dr attempt = record {
  notification_id = evt.notification_id;
  status = Status.delivered;
  attempt_number = attempt;
  http_status_code = dr.status_code;
  error_message = "";
  provider_message_id = dr.provider_msg_id;
  latency_ms = dr.latency_ms;
}

abbrev pub failed_event :
    NotificationReadyEvent → DeliveryResult → ℕ → NotificationDeliveryResultEvent
failed_event evt dr attempt = record {
  notification_id = evt.notification_id;
  status = Status.failed;
  attempt_number = attempt;
  http_status_code = dr.status_code;
  error_message = dr.error_message;
  provider_message_id = "";
  latency_ms = dr.latency_ms;
}

-- `defer`: the call runs after the body, whatever that returns, and its own result is dropped.
abbrev pub deferring : {S A : Type 0} → M S (Unit {0}) → M S A → M S A
deferring last body s = let (s', r) = body s in ((last s').0, r)

-- A limiter that asks for no wait gets one of a second.
abbrev pub wait_of : ℤ → ℤ
wait_of d = if is_positive d then d else pos second

module _ {S : Type 0} (p : NotificationDeliveryPipeline S) where
  open p use {publisher, delivery_client, limiter, locker, metrics, randomness}

  -- After the limiter's answer.
  unfoldable pub limit_answer : Bool × ℤ → M S (Unit {0})
  limit_answer (true, d) = pure tt
  limit_answer (false, d) = fail (retry_after (wait_of d))

  unfoldable pub apply_rate_limit : NotificationReadyEvent → M S (Unit {0})
  unfolding limit_answer
  apply_rate_limit evt = limiter.is_allowed evt.channel >>= limit_answer

  unfoldable pub publish_status : NotificationDeliveryResultEvent → M S (Unit {0})
  publish_status evt = publisher.publish Topic.status (delivery_result evt)

  -- The three branches of `handleDeliveryResult`.
  unfoldable pub on_success : NotificationReadyEvent → DeliveryResult → ℕ → M S (Unit {0})
  on_success evt dr attempt =
      effect (metrics.record_notification_sent dr.latency_ms)
      >> publish_status (delivered_event evt dr attempt)

  unfoldable pub on_retry : ℕ → M S (Unit {0})
  on_retry attempt s =
      let (s', delay) = retry_delay randomness (attempt + 1) s in (s', err (retry_after delay))

  unfoldable pub on_failure : NotificationReadyEvent → DeliveryResult → ℕ → M S (Unit {0})
  on_failure evt dr attempt =
      effect (metrics.record_notification_failed dr.latency_ms)
      >> publish_status (failed_event evt dr attempt)

  -- The `switch`: the first test is of success, the second one of a retry that is left.
  unfoldable pub handle_case :
      Bool → Bool → NotificationReadyEvent → DeliveryResult → ℕ → M S (Unit {0})
  handle_case true again evt dr attempt = on_success evt dr attempt
  handle_case false true evt dr attempt = on_retry attempt
  handle_case false false evt dr attempt = on_failure evt dr attempt

  unfoldable pub handle_delivery_result :
      NotificationReadyEvent → DeliveryResult → ℕ → M S (Unit {0})
  unfolding handle_case
  handle_delivery_result evt dr attempt =
      handle_case dr.success (dr.retryable && ltz (pos attempt) (max_attempts_for evt)) evt dr
        attempt

  -- The call of the provider and what follows it.
  unfoldable pub attempt_delivery : NotificationReadyEvent → ℕ → M S (Unit {0})
  attempt_delivery evt attempt s =
      let (s', dr) = delivery_client.send evt.recipient evt.channel evt.content s in
      handle_delivery_result evt dr attempt s'

  -- `Run` after the answer of the lock.
  unfoldable pub run_locked : NotificationReadyEvent → ℕ → Bool → M S (Unit {0})
  run_locked evt attempt false = pure tt
  run_locked evt attempt true =
      deferring (locker.unlock evt.notification_id)
        (apply_rate_limit evt >> attempt_delivery evt attempt)

  unfoldable pub run : NotificationReadyEvent → ℕ → M S (Unit {0})
  unfolding run_locked
  run evt attempt = locker.try_lock evt.notification_id >>= run_locked evt attempt
