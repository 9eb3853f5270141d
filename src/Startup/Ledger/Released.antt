-- ===== src/Startup/Ledger/Released.antt =====
-- What the services give back before they end: cmd/main.go and internal/app/app.go of the three.
use insider_notification.Base.{String, Option, none, some, List, [], ◌∷◌, refl}
use insider_notification.Errors.{Error}
use insider_notification.Effect.{Result}
use insider_notification.Platform.{Platform}
use insider_notification.Startup.{
  World, Task, message_processing, scheduled_events, cancel_events, ticks, delivery_results,
  scheduled_due, server,
}
use insider_notification.Startup.Config.{ProcessorConfig, SchedulerConfig, ApiConfig}
use insider_notification.Startup.Services.{give_up}
use insider_notification.Startup.Services.Processor
use insider_notification.Startup.Services.Scheduler
use insider_notification.Startup.Services.Api
use insider_notification.Startup.Ledger.{Ledger, Resource, db, redis, nats, timer, step, remove}
use insider_notification.Startup.Ledger.Runs.{To, Explains}
use insider_notification.Startup.Ledger.Rules.{
  Holds, make-Meets, call-Meets, give-Meets, exit-Meets, then-To, bind-To, attempt-Or, defer-To,
}
use insider_notification.Startup.Ledger.Connected.{idle}
use insider_notification.Startup.Ledger.Opened.{
  Unweighted, processor_new-Holds, scheduler_new-Holds, api_new-Holds, processor_cleanup-Holds,
  scheduler_cleanup-Holds, api_cleanup-Holds, processor_loops, scheduler_loops, api_loops,
}

abbrev busy : (loops : List Task) → List Resource → (tasks : List Task) → Ledger
busy ls rs ts = record { tasks = ts; loops = ls; held = rs }

module _ {S : Type 0} (p : Platform) (w : World S) {X : Type 0} (fails : Explains w X) where
  pub give_up-Holds :
      {A : Type 0} (t : String) (e : Error) (l : Ledger) (Q : Result A → Ledger → Type 0)
      → X
      → Holds X l Q (give_up p w t e)
  unfolding step
  give_up-Holds t e l Q x = then-To (make-Meets w fails _ _ l refl) (exit-Meets S 1 l Q x)

  -- The goroutines of each service run between its start and the wait for them.
  processor_work-Holds :
      (ls : List Task) (rs : List Resource)
      → Holds X (idle ls rs) (To (idle ls rs)) (Processor.work p w)
  unfolding step
  processor_work-Holds ls rs =
      let busy : Ledger = record { tasks = message_processing ∷ []; loops = ls; held = rs } in
      then-To
        (then-To
          (then-To
            (then-To (then-To (make-Meets w fails _ _ busy refl) (make-Meets w fails _ _ _ refl))
              (make-Meets w fails _ _ _ refl))
            (make-Meets w fails _ _ _ refl))
          (make-Meets w fails _ _ (idle ls rs) refl))
        (make-Meets w fails _ _ _ refl)

  pub processor_serve-Holds :
      (cfg : ProcessorConfig)
      → (Unweighted cfg → X)
      → (ls : List Task) (rs : List Resource)
      → Holds X (idle ls rs) (To (idle (processor_loops ls) rs)) (Processor.serve p w cfg)
  unfolding Processor.serve
  processor_serve-Holds cfg unweighted ls rs =
      attempt-Or _ (processor_new-Holds p w fails cfg ls rs unweighted)
        (λ a.
          defer-To (processor_work-Holds (processor_loops ls) (nats ∷ redis ∷ rs))
            (processor_cleanup-Holds p w fails (processor_loops ls) rs))
        (λ e m x q. give_up-Holds _ e m (To (idle (processor_loops ls) rs)) x)

  scheduler_work-Holds :
      (ls : List Task) (rs : List Resource)
      → Holds X (idle ls rs) (To (idle ls rs)) (Scheduler.work p w)
  unfolding step
  scheduler_work-Holds ls rs =
      let one = busy ls rs (scheduled_events ∷ []) in
      let two = busy ls rs (cancel_events ∷ scheduled_events ∷ []) in
      let three = busy ls rs (ticks ∷ cancel_events ∷ scheduled_events ∷ []) in
      let started =
        then-To
          (then-To (then-To (make-Meets w fails _ _ one refl) (make-Meets w fails _ _ two refl))
            (make-Meets w fails _ _ three refl))
          (make-Meets w fails _ _ three refl) in
      then-To
        (then-To
          (then-To (then-To started (make-Meets w fails _ _ _ refl))
            (make-Meets w fails _ _ _ refl))
          (make-Meets w fails _ _ (idle ls rs) refl))
        (make-Meets w fails _ _ _ refl)

  pub scheduler_serve-Holds :
      (cfg : SchedulerConfig) (ls : List Task) (rs : List Resource)
      → Holds X (idle ls rs) (To (idle (scheduler_loops ls) rs)) (Scheduler.serve p w cfg)
  unfolding Scheduler.serve
  scheduler_serve-Holds cfg ls rs =
      attempt-Or _ (scheduler_new-Holds p w fails cfg ls rs)
        (λ a.
          defer-To (scheduler_work-Holds (scheduler_loops ls) (nats ∷ db ∷ rs))
            (scheduler_cleanup-Holds p w fails (scheduler_loops ls) rs))
        (λ e m x q. give_up-Holds _ e m (To (idle (scheduler_loops ls) rs)) x)

  log_shutdown-Holds : (l : Ledger) (o : Option Error) → Holds X l (To l) (Api.log_shutdown p w o)
  unfolding step
  log_shutdown-Holds l none = give-Meets S tt l
  log_shutdown-Holds l (some e) = make-Meets w fails _ _ _ refl

  api_work-Holds :
      (ls : List Task) (rs : List Resource) → Holds X (idle ls rs) (To (idle ls rs)) (Api.work p w)
  unfolding step remove
  api_work-Holds ls rs =
      let one = busy ls rs (delivery_results ∷ []) in
      let two = busy ls rs (scheduled_due ∷ delivery_results ∷ []) in
      let three = busy ls rs (server ∷ scheduled_due ∷ delivery_results ∷ []) in
      let timed = busy ls (timer ∷ rs) (server ∷ scheduled_due ∷ delivery_results ∷ []) in
      let closed = busy ls (timer ∷ rs) (scheduled_due ∷ delivery_results ∷ []) in
      let started =
        then-To (then-To (make-Meets w fails _ _ one refl) (make-Meets w fails _ _ two refl))
          (make-Meets w fails _ _ three refl) in
      let stopped =
        then-To (bind-To (call-Meets w fails _ timed closed refl) (log_shutdown-Holds closed))
          (make-Meets w fails _ _ (idle ls (timer ∷ rs)) refl) in
      then-To
        (then-To
          (then-To (then-To started (make-Meets w fails _ _ _ refl))
            (make-Meets w fails _ _ _ refl))
          (make-Meets w fails _ _ timed refl))
        (defer-To (then-To stopped (make-Meets w fails _ _ _ refl))
          (make-Meets w fails _ _ (idle ls rs) refl))

  pub api_serve-Holds :
      (cfg : ApiConfig) (ls : List Task) (rs : List Resource)
      → Holds X (idle ls rs) (To (idle (api_loops ls) rs)) (Api.serve p w cfg)
  unfolding Api.serve
  api_serve-Holds cfg ls rs = then-To (api_new-Holds p w fails cfg ls rs) (
      defer-To (api_work-Holds (api_loops ls) (nats ∷ db ∷ rs))
        (api_cleanup-Holds p w fails (api_loops ls) rs))
