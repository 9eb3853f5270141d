-- ===== src/Startup/Ledger/Opened.antt =====
-- What the three functions `New` hold when they return: internal/app/app.go of the services.
use insider_notification.Base.{Option, none, some, List, ◌∷◌, ◌≡◌, ◌⊎◌, inl, inr, refl, sym, subst}
use insider_notification.Errors.{Error, wrap}
use insider_notification.Effect.{err}
use insider_notification.Platform.{Platform}
use insider_notification.Public.Topic
use insider_notification.Public.Events.{NotificationReadyEvent}
use insider_notification.Processor.Router.{PriorityRouter, new_priority_router}
use insider_notification.Startup.{World, Task, fetching, ◌>>=◌, attempt}
use insider_notification.Startup.Services.{notification_stream, subjects}
use insider_notification.Startup.Config.{ProcessorConfig, SchedulerConfig, ApiConfig}
use insider_notification.Startup.Connections.{ensure_stream}
use insider_notification.Startup.Metrics.{new_metrics}
use insider_notification.Startup.Ledger.{Ledger, Resource, db, redis, nats, step, remove}
use insider_notification.Startup.Ledger.Runs.{To, Or, Explains}
use insider_notification.Startup.Ledger.Rules.{
  Holds, make-Meets, give-Meets, fail-Meets, panic-Meets, never_fails, then-To, then-Or, attempt-Or,
}
use insider_notification.Startup.Services.Processor
use insider_notification.Startup.Services.Scheduler
use insider_notification.Startup.Services.Api
use insider_notification.Startup.Ledger.Connected.{
  idle, Same, new_client-Holds, connect-Holds, new_handle-Holds, ensure_stream-Holds,
  subscribe-Holds, subscribe_batch-Holds, new_metrics-Holds,
}

-- The router of the processor is not made with these weights.
abbrev pub Unweighted : ProcessorConfig → Type 0
Unweighted cfg =
    new_priority_router (Processor.weighted cfg.high_weight cfg.normal_weight cfg.low_weight) ≡ none

-- The goroutines of the subscriptions that the three functions make.
abbrev pub processor_loops : List Task → List Task
processor_loops ls = fetching Topic.low ∷ fetching Topic.normal ∷ fetching Topic.high ∷ ls

abbrev pub scheduler_loops : List Task → List Task
scheduler_loops ls =
    fetching Topic.notification_schedule_cancelled ∷ fetching Topic.notification_scheduled ∷ ls

abbrev pub api_loops : List Task → List Task
api_loops ls = fetching Topic.scheduled_notification_due ∷ fetching Topic.status ∷ ls

module _ {S : Type 0} (p : Platform) (w : World S) {X : Type 0} (fails : Explains w X) where
  -- What is left open where the processor or the scheduler does not start.
  abbrev pub RefusedProcessor : List Task → List Resource → Error → Ledger → Type 0
  RefusedProcessor ls rs e m =
      (((x : Error) × (e ≡ wrap p "ensure nats stream: " x)) × (m ≡ idle ls (nats ∷ redis ∷ rs)))
      ⊎ (((x : Error) × (e ≡ wrap p "init metrics: " x)) × (m ≡ idle ls rs))

  pub processor_cleanup-Holds :
      (ls : List Task) (rs : List Resource)
      → Holds X (idle ls (nats ∷ redis ∷ rs)) (To (idle ls rs)) (Processor.cleanup p w)
  unfolding step remove
  processor_cleanup-Holds ls rs =
      then-To (make-Meets w fails _ _ (idle ls (redis ∷ rs)) refl) (make-Meets w fails _ _ _ refl)

  streams :
      (ls : List Task) (rs : List Resource)
      → Holds X
          (idle ls (nats ∷ redis ∷ rs))
          (Or (RefusedProcessor ls rs) (idle ls (nats ∷ redis ∷ rs)))
          (attempt (ensure_stream p w notification_stream subjects) >>= Processor.after_stream p w)
  streams ls rs =
      let l = idle ls (nats ∷ redis ∷ rs) in
      attempt-Or (Processor.after_stream p w) (ensure_stream-Holds p w fails _ _ l)
        (λ a. never_fails (give-Meets S tt l))
        (λ e m x same. fail-Meets S _ m (Or (RefusedProcessor ls rs) l) x (inl ((e, refl), same)))

  registered :
      (ls : List Task) (rs : List Resource)
      → Holds X
          (idle ls (nats ∷ redis ∷ rs))
          (Or (RefusedProcessor ls rs) (idle ls (nats ∷ redis ∷ rs)))
          (attempt (new_metrics w) >>= Processor.after_metrics p w)
  registered ls rs =
      let l = idle ls (nats ∷ redis ∷ rs) in
      attempt-Or (Processor.after_metrics p w) (new_metrics-Holds p w fails l)
        (λ a. never_fails (give-Meets S tt l))
        (λ e m x same.
          subst
            (λ m. Holds X m (Or (RefusedProcessor ls rs) l) (Processor.after_metrics p w (err e)))
            (sym same)
            (then-To (processor_cleanup-Holds ls rs) (
              fail-Meets S _ (idle ls rs) (Or (RefusedProcessor ls rs) l) x
                (inr ((e, refl), refl)))))

  routed-Holds :
      (o : Option (PriorityRouter NotificationReadyEvent)) (l : Ledger)
      → (o ≡ none → X)
      → Holds X l (To l) (Processor.routed p w o)
  routed-Holds none l why = panic-Meets S _ l (To l) (why refl)
  routed-Holds (some r) l why = give-Meets S tt l

  -- `New` of the processor, where it returns, holds Redis and NATS, with the goroutines of its
  -- three subscriptions running, which nothing waits for, and no other. Where it returns an error
  -- it has started none, and holds nothing more than before if the metrics failed, but both
  -- connections if the stream did. With positive weights and libraries of which no call fails in
  -- any state, it returns.
  pub processor_new-Holds :
      (cfg : ProcessorConfig) (ls : List Task) (rs : List Resource)
      → (Unweighted cfg → X)
      → Holds X
          (idle ls rs)
          (Or (RefusedProcessor ls rs) (idle (processor_loops ls) (nats ∷ redis ∷ rs)))
          (Processor.new_ p w cfg)
  unfolding Processor.new_ Processor.new_notification_ready_consumer
  processor_new-Holds cfg ls rs unweighted =
      let l = idle ls (nats ∷ redis ∷ rs) in
      let keep = λ (e : Error) (m : Ledger) (q : RefusedProcessor ls rs e m). q in
      then-Or
        (then-Or
          (then-To (then-To (new_client-Holds p w fails _ ls rs) (new_handle-Holds p w fails _ _ _))
            (streams ls rs))
          (registered ls rs) keep)
        (never_fails (
          then-To
            (then-To
              (then-To (subscribe-Holds p w fails _ _ _ l) (subscribe-Holds p w fails _ _ _ _))
              (subscribe-Holds p w fails _ _ _ _))
            (routed-Holds _ _ unweighted)))
        keep

  pub scheduler_cleanup-Holds :
      (ls : List Task) (rs : List Resource)
      → Holds X (idle ls (nats ∷ db ∷ rs)) (To (idle ls rs)) (Scheduler.cleanup p w)
  unfolding step remove
  scheduler_cleanup-Holds ls rs =
      then-To (make-Meets w fails _ _ (idle ls (db ∷ rs)) refl) (make-Meets w fails _ _ _ refl)

  -- `New` of the scheduler holds the database and NATS where it returns, with the goroutines of two
  -- subscriptions, and nothing more than before where it returns an error.
  pub scheduler_new-Holds :
      (cfg : SchedulerConfig) (ls : List Task) (rs : List Resource)
      → Holds X
          (idle ls rs)
          (Or (Same (idle ls rs)) (idle (scheduler_loops ls) (nats ∷ db ∷ rs)))
          (Scheduler.new_ p w cfg)
  unfolding Scheduler.new_
  scheduler_new-Holds cfg ls rs =
      let l = idle ls (nats ∷ db ∷ rs) in
      let streamed =
        attempt-Or (Scheduler.after_stream p w) {R = Or (Same (idle ls rs)) l}
          (ensure_stream-Holds p w fails _ _ l) (λ a. never_fails (give-Meets S tt l))
          (λ e m x same.
            subst (λ m. Holds X m (Or (Same (idle ls rs)) l) (Scheduler.after_stream p w (err e)))
              (sym same)
              (then-To (scheduler_cleanup-Holds ls rs)
                (fail-Meets S e (idle ls rs) (Or (Same (idle ls rs)) l) x refl))) in
      let keep = λ (e : Error) (m : Ledger) (q : Same (idle ls rs) e m). q in
      then-Or
        (then-Or
          (then-To (then-To (connect-Holds p w fails _ ls rs) (new_handle-Holds p w fails _ _ _))
            streamed)
          (never_fails (subscribe-Holds p w fails _ _ _ l)) keep)
        (never_fails (subscribe-Holds p w fails _ _ _ _)) keep

  pub api_cleanup-Holds :
      (ls : List Task) (rs : List Resource)
      → Holds X (idle ls (nats ∷ db ∷ rs)) (To (idle ls rs)) (Api.cleanup p w)
  unfolding step remove
  api_cleanup-Holds ls rs =
      then-To (make-Meets w fails _ _ (idle ls (db ∷ rs)) refl) (make-Meets w fails _ _ _ refl)

  -- `New` of the API service returns with the database and NATS, and panics in every other case.
  pub api_new-Holds :
      (cfg : ApiConfig) (ls : List Task) (rs : List Resource)
      → Holds X (idle ls rs) (To (idle (api_loops ls) (nats ∷ db ∷ rs))) (Api.new_ p w cfg)
  unfolding Api.new_
  api_new-Holds cfg ls rs =
      let l = idle ls (nats ∷ db ∷ rs) in
      let streamed =
        attempt-Or (Api.after_stream p w) {R = To l} (ensure_stream-Holds p w fails _ _ l)
          (λ a. give-Meets S tt l) (λ e m x same. panic-Meets S _ m (To l) x) in
      then-To
        (then-To
          (then-To (then-To (connect-Holds p w fails _ ls rs) (new_handle-Holds p w fails _ _ _))
            streamed)
          (subscribe-Holds p w fails _ _ _ l))
        (subscribe_batch-Holds p w fails _ _ _ _)
