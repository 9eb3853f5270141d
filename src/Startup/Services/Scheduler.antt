-- ===== src/Startup/Services/Scheduler.antt =====
-- The scheduler: deliveryscheduler/internal/app/app.go and deliveryscheduler/cmd/main.go.
use insider_notification.Base.{pos, String}
use insider_notification.Effect.{Result, ok, err}
use insider_notification.Platform.{Platform}
use insider_notification.Public.Topic
use insider_notification.Startup.{
  info, log, close_db, context_done, go_, scheduled_events, cancel_events, ticks, wait_tasks, World,
  Process, ◌>>=◌, ◌>>◌, give, fail, attempt, deferring, make,
}
use insider_notification.Startup.Config.{Viper, SchedulerConfig, load_scheduler}
use insider_notification.Startup.Connections.{connect, new_handle, close, ensure_stream, subscribe}
use insider_notification.Startup.Services.{notification_stream, subjects, unless_error, main_with}

module _ {S : Type 0} (p : Platform) (w : World S) where
  -- The function that `New` returns for the end.
  abbrev pub cleanup : Process S (Unit {0})
  cleanup = close p w >> make w close_db

  abbrev pub after_stream : Result (Unit {0}) → Process S (Unit {0})
  after_stream (ok _) = give tt
  after_stream (err e) = cleanup >> fail e

  -- `New`
  unfoldable pub new_ : SchedulerConfig → Process S (Unit {0})
  new_ cfg =
      connect p w cfg.database_url
      >> new_handle p w cfg.nats_addr
      >> (attempt (ensure_stream p w notification_stream subjects) >>= after_stream)
      >> subscribe p w Topic.notification_scheduled "ds-scheduled" (pos 0)
      >> subscribe p w Topic.notification_schedule_cancelled "ds-cancel" (pos 0)

  -- `Start`, up to its return.
  abbrev pub start : Process S (Unit {0})
  start =
      make w (go_ scheduled_events)
      >> make w (go_ cancel_events)
      >> make w (go_ ticks)
      >> make w (log info "deliveryscheduler started")

  -- The body of main from the start to the end of the goroutines.
  abbrev pub work : Process S (Unit {0})
  work =
      start
      >> make w context_done
      >> make w (log info "shutting down, waiting for goroutines")
      >> make w wait_tasks
      >> make w (log info "all goroutines stopped")

  unfoldable pub serve : SchedulerConfig → Process S (Unit {0})
  serve cfg = attempt (new_ cfg) >>= unless_error p w "init app" (λ _. deferring cleanup work)

  -- `main`
  unfoldable pub main : {V : Type 0} → Viper V → (to_lower : String → String) → Process S (Unit {0})
  main viper to_lower =
      load_scheduler viper w >>= λ cfg. main_with p w to_lower cfg.base (serve cfg)
