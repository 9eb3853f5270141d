-- ===== src/Startup/Services/Processor.antt =====
-- The processor: processor/internal/app/app.go and processor/cmd/main.go.
use insider_notification.Base.{
  zero, suc, ℤ, pos, negsuc, int64, String, Option, none, some, List, [], ◌∷◌,
}
use insider_notification.Errors.{wrap}
use insider_notification.Effect.{Result, ok, err}
use insider_notification.Platform.{Platform}
use insider_notification.Public.Channel
use insider_notification.Public.Topic
use insider_notification.Public.Events.{NotificationReadyEvent}
use insider_notification.Processor.Router.{WeightedSource, PriorityRouter, new_priority_router}
use insider_notification.Processor.Limit.{RateLimit}
use insider_notification.Processor.Retry.{second}
use insider_notification.Startup.{
  info, log, close_redis, context_done, go_, message_processing, wait_tasks, World, Process, ◌>>=◌,
  ◌>>◌, give, fail, panic, attempt, deferring, make,
}
use insider_notification.Startup.Config.{Viper, ProcessorConfig, load_processor}
use insider_notification.Startup.Connections.{
  new_client, new_handle, close, ensure_stream, subscribe,
}
use insider_notification.Startup.Metrics.{new_metrics}
use insider_notification.Startup.Services.{notification_stream, subjects, unless_error, main_with}

-- n + 1 in 64 bits.
abbrev pub increment : ℤ → ℤ
increment (pos n) = int64 (suc n)
increment (negsuc zero) = pos 0
increment (negsuc (suc n)) = negsuc n

-- The channels of the subscriptions, before anything is sent, with their weights.
abbrev pub source : ℤ → WeightedSource NotificationReadyEvent
source n = record { ch = []; weight = n }

abbrev pub weighted :
    (high_weight normal_weight low_weight : ℤ) → List (WeightedSource NotificationReadyEvent)
weighted high_weight normal_weight low_weight =
    source high_weight ∷ source normal_weight ∷ source low_weight ∷ []

abbrev limit_of : (rate burst : ℤ) → RateLimit
limit_of r b = record { rate = r; burst = b; period = second }

-- The limits of the channels that `New` gives to the limiter.
unfoldable pub limits : ProcessorConfig → List (String × RateLimit)
limits cfg =
    (Channel.sms, limit_of cfg.sms_rate_per_second cfg.sms_burst)
    ∷ (Channel.email, limit_of cfg.email_rate_per_second cfg.email_burst)
    ∷ (Channel.push, limit_of cfg.push_rate_per_second cfg.push_burst)
    ∷ []

module _ {S : Type 0} (p : Platform) (w : World S) where
  -- The function that `New` returns for the end.
  abbrev pub cleanup : Process S (Unit {0})
  cleanup = close p w >> make w close_redis

  -- The router, whose constructor panics where a weight is not positive.
  abbrev pub routed : Option (PriorityRouter NotificationReadyEvent) → Process S (Unit {0})
  routed none = panic "priority router: all weights must be >= 1"
  routed (some r) = give tt

  -- `NewNotificationReadyConsumer`
  unfoldable pub new_notification_ready_consumer :
      (high_weight normal_weight low_weight max_deliver : ℤ) → Process S (Unit {0})
  new_notification_ready_consumer high_weight normal_weight low_weight n =
      subscribe p w Topic.high "processor-high" n
      >> subscribe p w Topic.normal "processor-normal" n
      >> subscribe p w Topic.low "processor-low" n
      >> routed (new_priority_router (weighted high_weight normal_weight low_weight))

  abbrev pub after_stream : Result (Unit {0}) → Process S (Unit {0})
  after_stream (ok _) = give tt
  after_stream (err e) = fail (wrap p "ensure nats stream: " e)

  abbrev pub after_metrics : Result (Unit {0}) → Process S (Unit {0})
  after_metrics (ok _) = give tt
  after_metrics (err e) = cleanup >> fail (wrap p "init metrics: " e)

  -- `New`
  unfoldable pub new_ : ProcessorConfig → Process S (Unit {0})
  new_ cfg =
      new_client p w cfg.redis_addr
      >> new_handle p w cfg.nats_addr
      >> (attempt (ensure_stream p w notification_stream subjects) >>= after_stream)
      >> (attempt (new_metrics w) >>= after_metrics)
      >> new_notification_ready_consumer cfg.high_weight cfg.normal_weight cfg.low_weight
          (increment cfg.max_attempts)

  -- `Start`, up to its return.
  abbrev pub start : Process S (Unit {0})
  start = make w (go_ message_processing) >> make w (log info "processor started")

  -- The body of main from the start to the end of the workers.
  abbrev pub work : Process S (Unit {0})
  work =
      start
      >> make w context_done
      >> make w (log info "shutting down, waiting for workers")
      >> make w wait_tasks
      >> make w (log info "all workers stopped")

  unfoldable pub serve : ProcessorConfig → Process S (Unit {0})
  serve cfg = attempt (new_ cfg) >>= unless_error p w "init app" (λ _. deferring cleanup work)

  -- `main`
  unfoldable pub main : {V : Type 0} → Viper V → (to_lower : String → String) → Process S (Unit {0})
  main viper to_lower =
      load_processor viper w >>= λ cfg. main_with p w to_lower cfg.base (serve cfg)
