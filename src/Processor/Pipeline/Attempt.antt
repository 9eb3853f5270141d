-- ===== src/Processor/Pipeline/Attempt.antt =====
-- The part of a run that follows the provider's answer: `handleDeliveryResult` of
-- processor/internal/delivery/pipeline.go.
use insider_notification.Base.{
  ℕ, pos, Bool, true, false, none, some, [], ◌∷◌, ◌++◌, ◌≡◌, refl, ap, ap₂, sym, ◌∙◌, ◌⊎◌, ◌&&◌,
  inl, inr, ltz, ◌+◌, arith, if◌then◌else◌,
}
use insider_notification.Errors.{Error, as_retry_after}
use insider_notification.Effect.{Result, ok, err}
use insider_notification.Public.Topic
use insider_notification.Public.Events.{
  NotificationReadyEvent, NotificationDeliveryResultEvent, delivery_result,
}
use insider_notification.Processor.Retry.{retry_delay}
use insider_notification.Processor.Client.{DeliveryResult}
use insider_notification.Processor.Pipeline.{
  NotificationDeliveryPipeline, max_attempts_for, delivered_event, failed_event, publish_status,
  on_success, on_retry, on_failure, handle_delivery_result, handle_case,
}
use insider_notification.Processor.Pipeline.Laws.{Lawful}

-- The event that reports a result for good.
abbrev pub verdict : NotificationReadyEvent → DeliveryResult → ℕ → NotificationDeliveryResultEvent
verdict evt dr attempt =
    if dr.success then delivered_event evt dr attempt else failed_event evt dr attempt

-- A failure that may be tried again at this attempt.
abbrev pub MayRetry : NotificationReadyEvent → DeliveryResult → ℕ → Type 0
MayRetry evt dr attempt =
    (dr.success ≡ false) × (dr.retryable ≡ true) × (ltz (pos attempt) (max_attempts_for evt) ≡ true)

module _ {S : Type 0} {p : NotificationDeliveryPipeline S} (laws : Lawful p) where
  open p use {publisher, delivery_client, limiter, locker, metrics, randomness}
  open laws use {sent, requests}

  -- The broker refuses the verdict in some state.
  abbrev pub PublishFails : NotificationReadyEvent → DeliveryResult → ℕ → Error → Type 0
  PublishFails evt dr n e =
      (u : S) × ((publisher.publish Topic.status (delivery_result (verdict evt dr n)) u).1 ≡ err e)

  -- What `handleDeliveryResult` does with a result, by what it returns.
  abbrev pub Handled :
      NotificationReadyEvent → DeliveryResult → ℕ → S → S → Result (Unit {0}) → Type 0
  Handled evt dr n s s' (ok _) =
      (sent s' ≡ sent s ++ (Topic.status, delivery_result (verdict evt dr n)) ∷ [])
      × (requests s' ≡ requests s)
      × ¬ MayRetry evt dr n
  Handled evt dr n s s' (err e) =
      (requests s' ≡ requests s)
      × (((as_retry_after e ≡ none) × ¬ MayRetry evt dr n × PublishFails evt dr n e)
          ⊎ ((as_retry_after e ≡ some (retry_delay randomness (n + 1) s).1)
              × (sent s' ≡ sent s)
              × MayRetry evt dr n))

  -- The publication of the verdict, from a state that has sent and requested no more than `s`.
  verdict_after :
      (evt : NotificationReadyEvent) (dr : DeliveryResult) (n : ℕ) (s s0 : S)
      (e : NotificationDeliveryResultEvent)
      → sent s0 ≡ sent s
      → requests s0 ≡ requests s
      → e ≡ verdict evt dr n
      → ¬ MayRetry evt dr n
      → Handled evt dr n s (publish_status p e s0).0 (publish_status p e s0).1
  unfolding publish_status
  verdict_after evt dr n s s0 e quiet idle same final =
      go (publisher.publish Topic.status (delivery_result e) s0) refl
    where
      go :
          (x : S × Result (Unit {0}))
          → publisher.publish Topic.status (delivery_result e) s0 ≡ x
          → Handled evt dr n s x.0 x.1
      go (s', ok _) h = (
        laws.publish_ok s0 s' _ _ h
            ∙ ap₂ (λ l m. l ++ (Topic.status, delivery_result m) ∷ []) quiet same,
        ap requests (sym (ap (λ x. x.0) h)) ∙ laws.publish_requests s0 _ _ ∙ idle,
        final,
      )
      go (s', err x) h = (
        ap requests (sym (ap (λ x. x.0) h)) ∙ laws.publish_requests s0 _ _ ∙ idle,
        inl (
          laws.publish_error s0 _ _ x (ap (λ x. x.1) h),
          final,
          (s0, rw⁻¹ same (ap (λ x. x.1) h)),
        ),
      )

  on_retry-Handled :
      (evt : NotificationReadyEvent) (dr : DeliveryResult) (n : ℕ) (s : S)
      → MayRetry evt dr n
      → Handled evt dr n s (on_retry p n s).0 (on_retry p n s).1
  unfolding on_retry retry_delay as_retry_after
  on_retry-Handled evt dr n s may = (laws.draw_requests s, inr (refl, laws.draw_sent s, may))

  handle_case-Handled :
      (good again : Bool) (evt : NotificationReadyEvent) (dr : DeliveryResult) (n : ℕ) (s : S)
      → dr.success ≡ good
      → (dr.retryable && ltz (pos n) (max_attempts_for evt)) ≡ again
      → Handled evt dr n s
          (handle_case p good again evt dr n s).0
          (handle_case p good again evt dr n s).1
  unfolding handle_case on_success on_failure
  handle_case-Handled true again evt dr n s good retry =
      verdict_after evt dr n s _ _ (laws.sent_metric_sent s _) (laws.sent_metric_requests s _)
        (ap (λ b. if b then delivered_event evt dr n else failed_event evt dr n) (sym good))
        (λ m. cc (m.0))
  handle_case-Handled false true evt dr n s bad retry = on_retry-Handled evt dr n s (ground arith)
  handle_case-Handled false false evt dr n s bad retry =
      verdict_after evt dr n s _ _ (laws.failed_metric_sent s _) (laws.failed_metric_requests s _)
        (ap (λ b. if b then delivered_event evt dr n else failed_event evt dr n) (sym bad))
        (λ m. ground arith)

  pub handle-Handled :
      (evt : NotificationReadyEvent) (dr : DeliveryResult) (n : ℕ) (s : S)
      → Handled evt dr n s
          (handle_delivery_result p evt dr n s).0
          (handle_delivery_result p evt dr n s).1
  unfolding handle_delivery_result
  handle-Handled evt dr n s = handle_case-Handled dr.success _ evt dr n s refl refl
