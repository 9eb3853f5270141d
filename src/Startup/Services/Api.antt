-- ===== src/Startup/Services/Api.antt =====
-- The API service: api/internal/app/app.go and api/cmd/main.go.
use Prim.Native.String.{◌++◌}
use insider_notification.Base.{pos, String, Option, none, some}
use insider_notification.Errors.{Error, message}
use insider_notification.Effect.{Result, ok, err}
use insider_notification.Platform.{Platform}
use insider_notification.Public.Topic
use insider_notification.Startup.{
  info, error, log, close_db, context_done, with_timeout, cancel_timeout, go_, delivery_results,
  scheduled_due, server, shutdown_server, wait_tasks, World, Process, ◌>>=◌, ◌>>◌, give, panic,
  attempt, deferring, call, make,
}
use insider_notification.Startup.Config.{Viper, ApiConfig, load_api}
use insider_notification.Startup.Connections.{
  connect, new_handle, close, ensure_stream, subscribe, subscribe_batch,
}
use insider_notification.Startup.Services.{notification_stream, subjects, main_with}

module _ {S : Type 0} (p : Platform) (w : World S) where
  -- The function that `New` returns for the end.
  abbrev pub cleanup : Process S (Unit {0})
  cleanup = close p w >> make w close_db

  abbrev pub after_stream : Result (Unit {0}) → Process S (Unit {0})
  after_stream (ok _) = give tt
  after_stream (err e) = panic ("ensure nats stream: " ++ message p e)

  -- `New`
  unfoldable pub new_ : ApiConfig → Process S (Unit {0})
  new_ cfg =
      connect p w cfg.database_url
      >> new_handle p w cfg.nats_addr
      >> (attempt (ensure_stream p w notification_stream subjects) >>= after_stream)
      >> subscribe p w Topic.status "api-status" (pos 0)
      >> subscribe_batch p w Topic.scheduled_notification_due "api-scheduled-due" (pos 0)

  -- `Start`, up to its return.
  abbrev pub start : Process S (Unit {0})
  start = make w (go_ delivery_results) >> make w (go_ scheduled_due) >> make w (go_ server)

  abbrev pub log_shutdown : Option Error → Process S (Unit {0})
  log_shutdown none = give tt
  log_shutdown (some e) = make w (log error ("shutdown error: " ++ message p e))

  -- The function that `Start` returns.
  abbrev pub stop : Process S (Unit {0})
  stop = call w shutdown_server >>= log_shutdown >> make w wait_tasks

  -- The body of main from the start to the end of the goroutines.
  abbrev pub work : Process S (Unit {0})
  work =
      start
      >> make w context_done
      >> make w (log info "shutting down")
      >> make w (with_timeout 5)
      >> deferring (make w cancel_timeout) (stop >> make w (log info "all goroutines stopped"))

  unfoldable pub serve : ApiConfig → Process S (Unit {0})
  serve cfg = new_ cfg >> deferring cleanup work

  -- `main`
  unfoldable pub main : {V : Type 0} → Viper V → (to_lower : String → String) → Process S (Unit {0})
  main viper to_lower = load_api viper w >>= λ cfg. main_with p w to_lower cfg.base (serve cfg)
