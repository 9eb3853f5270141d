-- ===== src/Startup/Connections.antt =====
-- The connections: shared/redis/client.go, shared/bun/connect.go, shared/messaging/nats/handle.go
-- and the subscriptions of subscriber.go.
pub mod Stream
use Prim.Native.String.{◌++◌}
use insider_notification.Base.{
  ℤ, String, Bool, true, false, Option, none, some, List, [], ◌∷◌, if◌then◌else◌,
}
use insider_notification.Errors.{Error, message, wrap}
use insider_notification.Platform.{Platform}
use insider_notification.Startup.{
  info, log, StreamConfig, Call, open_db, ping_db, add_query_hook, open_redis, ping_redis,
  instrument_tracing, instrument_metrics, connect_nats, jet_stream, drain_nats, stream_info,
  add_stream, update_stream, pull_subscribe, go_, fetching, World, Process, ◌>>=◌, ◌>>◌, fail, call,
  make, check, must,
}

module _ {S : Type 0} (p : Platform) (w : World S) where
  -- `NewClient`, which pings Redis.
  unfoldable pub new_client : (addr : String) → Process S (Unit {0})
  new_client addr =
      make w (open_redis addr)
      >> must w ping_redis (λ e. "redis ping " ++ addr ++ ": " ++ message p e)
      >> must w instrument_tracing (message p)
      >> must w instrument_metrics (message p)

  -- `Connect`
  unfoldable pub connect : (url : String) → Process S (Unit {0})
  connect url =
      make w (open_db url)
      >> must w ping_db (λ e. "connect to postgres: " ++ message p e)
      >> make w add_query_hook

  -- `NewHandle`
  unfoldable pub new_handle : (url : String) → Process S (Unit {0})
  new_handle url =
      must w (connect_nats url) (λ e. "nats connect: " ++ message p e)
      >> must w jet_stream (λ e. "nats jetstream: " ++ message p e)

  -- `Handle.Close`
  abbrev pub close : Process S (Unit {0})
  close = make w drain_nats

  abbrev pub stream_of : (name : String) → List String → StreamConfig
  stream_of n subjects = record { name = n; subjects = subjects }

  abbrev pub put_stream : StreamConfig → Option Error → Process S (Unit {0})
  put_stream cfg none = check w (update_stream cfg) (λ e. e)
  put_stream cfg (some e) =
      if w.is_stream_not_found e
      then check w (add_stream cfg) (λ e. e)
      else fail (wrap p ("nats stream info " ++ cfg.name ++ ": ") e)

  -- `EnsureStream`
  unfoldable pub ensure_stream : (name : String) → List String → Process S (Unit {0})
  ensure_stream name subjects = call w (stream_info name) >>= put_stream (stream_of name subjects)

  -- `Subscribe` and `SubscribeBatch` with the start of their goroutine, whose body is not here.
  unfoldable pub pull_subscription :
      (subject durable : String) (max_deliver : ℤ) → Process S (Unit {0})
  pull_subscription subject durable max_deliver =
      must w (pull_subscribe subject durable max_deliver)
        (λ e. "nats pull subscribe " ++ subject ++ ": " ++ message p e)

  unfoldable pub subscribe : (subject durable : String) (max_deliver : ℤ) → Process S (Unit {0})
  subscribe subject durable max_deliver =
      pull_subscription subject durable max_deliver
      >> make w (log info "nats subscription established")
      >> make w (go_ (fetching subject))

  unfoldable pub subscribe_batch :
      (subject durable : String) (max_deliver : ℤ) → Process S (Unit {0})
  subscribe_batch subject durable max_deliver =
      pull_subscription subject durable max_deliver
      >> make w (log info "nats batch subscription established")
      >> make w (go_ (fetching subject))
