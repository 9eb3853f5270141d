-- ===== src/Tests/Tallies.antt =====
-- A run of the pipeline that counts, with a broker that is out.
use insider_notification.Base.{pos, true, ◌+◌, suc, ◌≡◌, refl}
use insider_notification.Errors.{other}
use insider_notification.Effect.{ok, err}
use insider_notification.Processor.Pipeline.{NotificationDeliveryPipeline, run}
use insider_notification.Startup.Metrics.{Instruments, metrics}
use insider_notification.Startup.Metrics.Tallies.{Tally, metered, TallyLaws, expected, run-Tallies}
use insider_notification.Tests.Processor.{answer, event}

abbrev instruments : Instruments Tally
instruments = record {
  add_sent = λ n t. record t { sent = n + t.sent };
  add_failed = λ n t. record t { failed = n + t.failed };
  record_latency = λ l t. record t { observed = suc t.observed };
  x_len = λ name t. (t, ok 0);
  observe = λ depth priority t. t;
}

-- The provider accepts, and its answer cannot be published.
abbrev pipeline : NotificationDeliveryPipeline Tally
pipeline = record {
  publisher = record { publish = λ t m s. (s, err (other "nats: timeout")) };
  delivery_client = record { send = λ to ch content s. (s, answer 0) };
  limiter = record { is_allowed = λ ch s. (s, ok (true, pos 0)) };
  locker = record { try_lock = λ id s. (s, ok true); unlock = λ id s. (s, ok tt) };
  metrics = metrics instruments;
  randomness = record { to_duration = pos; draw = λ s. (s, 0); product = λ f b num den. pos 0 };
}

abbrev laws : TallyLaws pipeline instruments
laws = record {
  tally = λ t. t;
  add_sent_tally = λ n t. refl;
  add_failed_tally = λ n t. refl;
  record_tally = λ l t. refl;
  lock_same = λ id t. refl;
  unlock_same = λ id t. refl;
  limit_same = λ ch t. refl;
  send_same = λ to ch content t. refl;
  publish_same = λ name m t. refl;
  draw_same = λ t. refl;
}

abbrev start : Tally
start = record { sent = 4; failed = 1; observed = 5 }

run-Tallies_example :
    (run (metered pipeline instruments) event 1 start).0
    ≡ expected event 1 (ok true) (ok (true, pos 0)) (answer 0) start
run-Tallies_example = run-Tallies laws event 1 start
