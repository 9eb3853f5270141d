-- ===== src/Startup/Metrics/Tallies.antt =====
-- What the metrics count in a run of the pipeline: processor/internal/service/metrics.go with
-- processor/internal/delivery/pipeline.go.
use insider_notification.Base.{
  ℕ, ℤ, pos, suc, String, ◌+◌, Bool, true, false, ◌&&◌, ◌≡◌, refl, ap, ◌∙◌, ltz,
}
use insider_notification.Effect.{Result, ok, err, then_on}
use insider_notification.Public.Events.{NotificationReadyEvent, Payload}
use insider_notification.Processor.Client.{DeliveryResult}
use insider_notification.Processor.Retry.{retry_delay}
use insider_notification.Processor.Pipeline.{
  NotificationDeliveryPipeline, max_attempts_for, limit_answer, apply_rate_limit, publish_status,
  on_success, on_retry, on_failure, handle_case, handle_delivery_result, attempt_delivery,
  run_locked, run,
}
use insider_notification.Startup.Metrics.{Instruments, metrics}

-- The counters of deliveries that succeeded and failed, and the number of latencies.
pub record Tally : Type 0 where
  pub sent : ℕ
  pub failed : ℕ
  pub observed : ℕ

abbrev pub metered :
    {S : Type 0} → NotificationDeliveryPipeline S → Instruments S → NotificationDeliveryPipeline S
metered q i = record q { metrics = metrics i }

-- The instruments count, and nothing else in the pipeline touches them.
pub record TallyLaws {S : Type 0} (q : NotificationDeliveryPipeline S) (i : Instruments S)
    : Type 0 where
  pub tally : S → Tally
  pub add_sent_tally :
      (n : ℕ) (s : S) → tally (i.add_sent n s) ≡ record (tally s) { sent = n + (tally s).sent }
  pub add_failed_tally :
      (n : ℕ) (s : S)
      → tally (i.add_failed n s) ≡ record (tally s) { failed = n + (tally s).failed }
  pub record_tally :
      (l : ℕ) (s : S)
      → tally (i.record_latency l s) ≡ record (tally s) { observed = suc (tally s).observed }
  pub lock_same : (id : String) (s : S) → tally (q.locker.try_lock id s).0 ≡ tally s
  pub unlock_same : (id : String) (s : S) → tally (q.locker.unlock id s).0 ≡ tally s
  pub limit_same : (ch : String) (s : S) → tally (q.limiter.is_allowed ch s).0 ≡ tally s
  pub send_same :
      (to ch content : String) (s : S) → tally (q.delivery_client.send to ch content s).0 ≡ tally s
  pub publish_same :
      (t : String) (m : Payload) (s : S) → tally (q.publisher.publish t m s).0 ≡ tally s
  pub draw_same : (s : S) → tally (q.randomness.draw s).0 ≡ tally s

-- One delivery more, that succeeded or failed.
abbrev pub count_sent : Tally → Tally
count_sent t = record t { sent = 1 + t.sent; observed = suc t.observed }

abbrev pub count_failed : Tally → Tally
count_failed t = record t { failed = 1 + t.failed; observed = suc t.observed }

abbrev pub after_verdict : (success again : Bool) → Tally → Tally
after_verdict true again t = count_sent t
after_verdict false true t = t
after_verdict false false t = count_failed t

-- The tally after a run, by what the lock, the limiter and the provider answer.
abbrev pub expected :
    NotificationReadyEvent → ℕ → Result Bool → Result (Bool × ℤ) → DeliveryResult → Tally → Tally
expected evt n (ok true) (ok (true, d)) dr t =
    after_verdict dr.success (dr.retryable && ltz (pos n) (max_attempts_for evt)) t
expected evt n locked limited dr t = t

module _ {S : Type 0} {q : NotificationDeliveryPipeline S} {i : Instruments S}
    (laws : TallyLaws q i) (evt : NotificationReadyEvent) (n : ℕ) where
  open laws use {tally}

  verdict_tally :
      (success again : Bool) (dr : DeliveryResult) (s : S)
      → tally (handle_case (metered q i) success again evt dr n s).0
        ≡ after_verdict success again (tally s)
  unfolding handle_case on_success on_retry on_failure publish_status metrics retry_delay
  verdict_tally true again dr s =
      laws.publish_same _ _ _
      ∙ laws.record_tally _ _
      ∙ ap (λ (t : Tally). record t { observed = suc t.observed }) (laws.add_sent_tally 1 s)
  verdict_tally false true dr s = laws.draw_same s
  verdict_tally false false dr s =
      laws.publish_same _ _ _
      ∙ laws.record_tally _ _
      ∙ ap (λ (t : Tally). record t { observed = suc t.observed }) (laws.add_failed_tally 1 s)

  abbrev reply : S → S × DeliveryResult
  reply = q.delivery_client.send evt.recipient evt.channel evt.content

  limited_tally :
      (y : S × Result (Bool × ℤ))
      → tally
          (then_on
            (λ _. attempt_delivery (metered q i) evt n)
            (then_on (limit_answer (metered q i)) y)).0
        ≡ expected evt n (ok true) y.1 (reply y.0).1 (tally y.0)
  unfolding limit_answer attempt_delivery handle_delivery_result
  limited_tally (u, err e) = refl
  limited_tally (u, ok (false, d)) = refl
  limited_tally (u, ok (true, d)) =
      verdict_tally (reply u).1.success _ (reply u).1 (reply u).0
      ∙ ap (after_verdict (reply u).1.success _) (laws.send_same _ _ _ u)

  locked_tally :
      (x : S × Result Bool)
      → tally (then_on (run_locked (metered q i) evt n) x).0
        ≡ expected evt n x.1
            (q.limiter.is_allowed evt.channel x.0).1
            (reply (q.limiter.is_allowed evt.channel x.0).0).1
            (tally x.0)
  unfolding run_locked apply_rate_limit
  locked_tally (u, err e) = refl
  locked_tally (u, ok false) = refl
  locked_tally (u, ok true) =
      laws.unlock_same _ _
      ∙ limited_tally (q.limiter.is_allowed evt.channel u)
      ∙ ap
          (expected evt n (ok true) (q.limiter.is_allowed evt.channel u).1
            (reply (q.limiter.is_allowed evt.channel u).0).1)
          (laws.limit_same evt.channel u)

  -- The metrics of the processor, in a run of the pipeline on any branch: a delivery that the
  -- provider accepts counts once as sent, one that is given up counts once as failed, each with its
  -- latency, whether or not its result can be published; an attempt that is to be repeated, that is
  -- rate limited or that does not get the lock counts as nothing.
  pub run-Tallies :
      (s : S)
      → let locked = q.locker.try_lock evt.notification_id s in
        let limited = q.limiter.is_allowed evt.channel locked.0 in
        tally (run (metered q i) evt n s).0
        ≡ expected evt n locked.1 limited.1 (reply limited.0).1 (tally s)
  unfolding run
  run-Tallies s =
      let locked = q.locker.try_lock evt.notification_id s in
      let limited = q.limiter.is_allowed evt.channel locked.0 in
      locked_tally locked
      ∙ ap (expected evt n locked.1 limited.1 (reply limited.0).1) (laws.lock_same _ s)
