-- ===== src/Processor/Pipeline/Laws.antt =====
-- What the pipeline relies on in its dependencies.
use insider_notification.Base.{ℕ, String, none, List, [], ◌∷◌, ◌++◌, ◌≡◌, suc}
use insider_notification.Errors.{Error, as_retry_after}
use insider_notification.Effect.{ok, err}
use insider_notification.Public.Events.{Payload}
use insider_notification.Processor.Pipeline.{NotificationDeliveryPipeline}

-- Only a publication that succeeds adds to the messages of the broker, only a call of the delivery
-- client counts as a request to the provider, and no dependency returns the pipeline's own
-- `ErrRetryAfter`. What a failed publication leaves behind is open.
pub record Lawful {S : Type 0} (p : NotificationDeliveryPipeline S) : Type 0 where
  pub sent : S → List (String × Payload)
  pub requests : S → ℕ
  pub lock_sent : (s : S) (id : String) → sent (p.locker.try_lock id s).0 ≡ sent s
  pub lock_requests : (s : S) (id : String) → requests (p.locker.try_lock id s).0 ≡ requests s
  pub lock_error :
      (s : S) (id : String) (e : Error)
      → (p.locker.try_lock id s).1 ≡ err e
      → as_retry_after e ≡ none
  pub unlock_sent : (s : S) (id : String) → sent (p.locker.unlock id s).0 ≡ sent s
  pub unlock_requests : (s : S) (id : String) → requests (p.locker.unlock id s).0 ≡ requests s
  pub limit_sent : (s : S) (ch : String) → sent (p.limiter.is_allowed ch s).0 ≡ sent s
  pub limit_requests : (s : S) (ch : String) → requests (p.limiter.is_allowed ch s).0 ≡ requests s
  pub limit_error :
      (s : S) (ch : String) (e : Error)
      → (p.limiter.is_allowed ch s).1 ≡ err e
      → as_retry_after e ≡ none
  pub send_sent :
      (s : S) (to ch content : String) → sent (p.delivery_client.send to ch content s).0 ≡ sent s
  pub send_requests :
      (s : S) (to ch content : String)
      → requests (p.delivery_client.send to ch content s).0 ≡ suc (requests s)
  pub sent_metric_sent : (s : S) (l : ℕ) → sent (p.metrics.record_notification_sent l s) ≡ sent s
  pub sent_metric_requests :
      (s : S) (l : ℕ) → requests (p.metrics.record_notification_sent l s) ≡ requests s
  pub failed_metric_sent :
      (s : S) (l : ℕ) → sent (p.metrics.record_notification_failed l s) ≡ sent s
  pub failed_metric_requests :
      (s : S) (l : ℕ) → requests (p.metrics.record_notification_failed l s) ≡ requests s
  pub draw_sent : (s : S) → sent (p.randomness.draw s).0 ≡ sent s
  pub draw_requests : (s : S) → requests (p.randomness.draw s).0 ≡ requests s
  pub publish_ok :
      (s s' : S) (t : String) (m : Payload)
      → p.publisher.publish t m s ≡ (s', ok tt)
      → sent s' ≡ sent s ++ (t, m) ∷ []
  pub publish_requests :
      (s : S) (t : String) (m : Payload) → requests (p.publisher.publish t m s).0 ≡ requests s
  pub publish_error :
      (s : S) (t : String) (m : Payload) (e : Error)
      → (p.publisher.publish t m s).1 ≡ err e
      → as_retry_after e ≡ none
