-- ===== src/Tests/Processor.antt =====
-- A scripted environment of the processor, and the theorems about it at concrete inputs.
use insider_notification.Base.{
  ℕ, pos, suc, String, true, false, List, [], ◌∷◌, ◌++◌, ◌≡◌, ◌≤◌, ◌*◌, ◌-◌, ◌/◌, refl, ap, sym,
  zero, arith, pos_part, ◌∙◌, ◌+◌, Bool, Option, none, some,
}
use insider_notification.Effect.{Result, ok}
use insider_notification.Lock.Exclusion.{RedisLaws}
use insider_notification.Lock.{Redis, new_redis_locker, try_lock, unlock}
use insider_notification.Public.Events.{NotificationReadyEvent, Payload}
use insider_notification.Processor.Retry.{Randomness, retry_delay}
use insider_notification.Processor.Retry.Bounds.{
  ConvertsInRange, DrawsBelowOne, ScalesDown, backoff, retry_delay-bounds,
}
use insider_notification.Processor.Client.{DeliveryResult}
use insider_notification.Processor.Pipeline.{NotificationDeliveryPipeline, run, max_attempts_for}
use insider_notification.Processor.Pipeline.Laws.{Lawful}
use insider_notification.Processor.Pipeline.Runs.{Runs, run-Runs}
use insider_notification.Processor.Consumer.Redelivery.{
  Healthy, SettlesBy, redeliver, redeliver-SettlesBy,
}

-- The messages, the requests, how many more requests the provider answers with 503, and the key of
-- the lock in Redis with its duration.
pub record World : Type 0 where
  pub sent : List (String × Payload)
  pub requests : ℕ
  pub outages : ℕ
  pub key : Option ℕ

abbrev pub answer : ℕ → DeliveryResult
answer zero = record {
  success = true;
  retryable = false;
  status_code = 202;
  latency_ms = 3;
  provider_msg_id = "";
  error_message = "";
}
answer (suc n) = record {
  success = false;
  retryable = true;
  status_code = 503;
  latency_ms = 3;
  provider_msg_id = "";
  error_message = "retryable provider error: 503";
}

abbrev randomness : Randomness World
randomness = record {
  to_duration = pos;
  draw = λ s. (s, 7);
  product = λ f b num den. pos (pos_part b * num / den);
}

abbrev pub key_after : Option ℕ → ℕ → Option ℕ
key_after none ttl = some ttl
key_after (some t) ttl = some t

abbrev pub is_free : Option ℕ → Bool
is_free none = true
is_free (some t) = false

-- A Redis with one key.
abbrev pub redis : Redis World
redis = record {
  set_nx = λ k ttl s. (record s { key = key_after s.key ttl }, ok (is_free s.key));
  del = λ k s. (record s { key = none }, ok tt);
}

set_when_free : (o : Option ℕ) (ttl : ℕ) → is_free o ≡ true → key_after o ttl ≡ some (0 + ttl)
set_when_free none ttl h = ap some (omega arith)
set_when_free (some t) ttl h = cc

-- It is a Redis as the lock relies on it, at whose time no key expires.
redis_laws : RedisLaws redis
redis_laws = record {
  now = λ s. 0;
  expiry = λ s k. s.key;
  set_nx_now = λ s k ttl. refl;
  del_now = λ s k. refl;
  set_nx_set = λ s s' k ttl h.
      let answer : ok (is_free s.key) ≡ ok true = ap (λ (y : World × Result Bool). y.1) h in
      let free : is_free s.key ≡ true = cc in
      ap (λ (y : World × Result Bool). y.0.key) (sym h) ∙ set_when_free s.key ttl free;
  set_nx_keeps = λ s k ttl t h lt. ap (λ o. key_after o ttl) h;
  set_nx_taken = λ s k ttl t h lt same.
      let refused : ok (is_free s.key) ≡ ok false = ap (λ (o : Option ℕ). ok (is_free o)) h in cc;
}

-- `f` answers by the number of outages that are left.
abbrev pub pipeline_of : (ℕ → DeliveryResult) → NotificationDeliveryPipeline World
pipeline_of f = record {
  publisher = record { publish = λ t m s. (record s { sent = s.sent ++ (t, m) ∷ [] }, ok tt) };
  delivery_client = record {
    send = λ to ch content s.
        (record s { requests = suc s.requests; outages = s.outages - 1 }, f s.outages);
  };
  limiter = record { is_allowed = λ ch s. (s, ok (true, pos 0)) };
  locker = new_redis_locker redis;
  metrics = record { record_notification_sent = λ l s. s; record_notification_failed = λ l s. s };
  randomness = randomness;
}

abbrev pipeline : NotificationDeliveryPipeline World
pipeline = pipeline_of answer

abbrev pub laws_of : (f : ℕ → DeliveryResult) → Lawful (pipeline_of f)
unfolding new_redis_locker try_lock unlock
laws_of f = record {
  sent = λ s. s.sent;
  requests = λ s. s.requests;
  lock_sent = λ s id. refl;
  lock_requests = λ s id. refl;
  lock_error = λ s id e h. cc;
  unlock_sent = λ s id. refl;
  unlock_requests = λ s id. refl;
  limit_sent = λ s ch. refl;
  limit_requests = λ s ch. refl;
  limit_error = λ s ch e h. cc;
  send_sent = λ s to ch content. refl;
  send_requests = λ s to ch content. refl;
  sent_metric_sent = λ s l. refl;
  sent_metric_requests = λ s l. refl;
  failed_metric_sent = λ s l. refl;
  failed_metric_requests = λ s l. refl;
  draw_sent = λ s. refl;
  draw_requests = λ s. refl;
  publish_ok = λ s s' t m h. ap (λ x. x.0.sent) (sym h);
  publish_requests = λ s t m. refl;
  publish_error = λ s t m e h. cc;
}

abbrev laws : Lawful pipeline
laws = laws_of answer

abbrev pub event : NotificationReadyEvent
event = record {
  notification_id = "1";
  channel = "sms";
  recipient = "+905551112233";
  content = "hi";
  priority = "high";
  max_attempts = pos 3;
}

-- The message finds its lock free when nobody has its key.
abbrev pub health_of :
    (f : ℕ → DeliveryResult) (evt : NotificationReadyEvent) → Healthy (pipeline_of f) evt (λ s. s)
unfolding new_redis_locker try_lock unlock
health_of f evt = record {
  ready = λ s. s.key ≡ none;
  lock_free = λ s free. ap (λ (k : Option ℕ). ok (is_free k)) free;
  allowed = λ s free. (pos 0, refl);
  rested = λ s. refl;
  accepts = λ s t m. refl;
}

abbrev health : Healthy pipeline event (λ s. s)
health = health_of answer event

-- The provider is out for two requests.
abbrev pub start : World
start = record { sent = []; requests = 0; outages = 2; key = none }

pub start-ready :
    (f : ℕ → DeliveryResult) (evt : NotificationReadyEvent) → (health_of f evt).ready start
unfolding health_of
start-ready f evt = refl

run-Runs_example :
    Runs laws event 1 start
      (laws.sent (run pipeline event 1 start).0)
      (laws.requests (run pipeline event 1 start).0)
      (run pipeline event 1 start).1
run-Runs_example = run-Runs laws event 1 start

pub event_max : max_attempts_for event ≡ pos 3
unfolding max_attempts_for
event_max = refl

redeliver-SettlesBy_example :
    SettlesBy laws event 1 3 start (redeliver pipeline event (λ s. s) 4 1 start)
redeliver-SettlesBy_example =
    redeliver-SettlesBy laws health 3 4 1 start (λ u. (refl, refl)) event_max (omega arith)
      (omega arith) (start-ready answer event)

converts : ConvertsInRange randomness
converts n h = refl

draws : DrawsBelowOne randomness
draws s = omega arith

share_below : (a den : ℕ) → 1 ≤ den → den * (a / den) ≤ a
share_below a den some_parts = omega arith

scales : ScalesDown randomness
scales f b num den small fits some_parts share =
    let below = share_below (b * num) den some_parts in (b * num / den, refl, ground arith)

retry_delay-bounds_example :
    (d : ℕ) × ((retry_delay randomness 3 start).1 ≡ pos d)
    × (backoff 3 ≤ d)
    × (5 * d ≤ 6 * backoff 3)
retry_delay-bounds_example =
    retry_delay-bounds randomness 3 start converts draws scales (omega arith) (omega arith)
