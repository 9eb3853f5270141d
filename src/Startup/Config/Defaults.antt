-- ===== src/Startup/Config/Defaults.antt =====
-- What the processor runs with where only its two required variables are set: processor/internal/
-- config/config.go and shared/config/config.go.
use insider_notification.Base.{
  ℤ, pos, String, Bool, false, Option, none, some, [], ◌∷◌, ◌++◌, ◌≡◌, ◌≢◌, refl, subst, sym, ◌==◌,
  if◌then◌else◌, ne_of_test, test_ne,
}
use insider_notification.Startup.{World, Run, ◌>>◌, returned, follow, give}
use insider_notification.Startup.Config.{
  Value, text, number, flag, Viper, ProcessorConfig, Defaults, base_defaults, processor_defaults,
  set_defaults, new_viper, load_base, processor_config, require, load_processor,
}

abbrev pub later_or : Option Value → Option Value → Option Value
later_or (some v) o = some v
later_or none o = o

-- The default that was set last for a key.
unfoldable pub default_of : String → Defaults → Option Value
default_of key [] = none
default_of key ((k, v) ∷ ds) = later_or (default_of key ds) (if k == key then some v else none)

-- What viper documents of the getters after these defaults: a variable of the environment that is
-- set and not empty comes first, then the default. `parse` reads the text of a duration.
pub record Behaves {V : Type 0} (viper : Viper V) (ds : Defaults) : Type 0 where
  pub environment : String → Option String
  pub parse : String → ℤ
  pub string_set :
      (key t : String)
      → environment key ≡ some t
      → viper.get_string (set_defaults viper ds viper.new_) key ≡ t
  pub string_unset :
      (key t : String)
      → environment key ≡ none
      → default_of key ds ≡ some (text t)
      → viper.get_string (set_defaults viper ds viper.new_) key ≡ t
  pub string_missing :
      (key : String)
      → environment key ≡ none
      → default_of key ds ≡ none
      → viper.get_string (set_defaults viper ds viper.new_) key ≡ ""
  pub int_unset :
      (key : String) (n : ℤ)
      → environment key ≡ none
      → default_of key ds ≡ some (number n)
      → viper.get_int (set_defaults viper ds viper.new_) key ≡ n
  pub bool_unset :
      (key : String) (b : Bool)
      → environment key ≡ none
      → default_of key ds ≡ some (flag b)
      → viper.get_bool (set_defaults viper ds viper.new_) key ≡ b
  pub duration_unset :
      (key t : String)
      → environment key ≡ none
      → default_of key ds ≡ some (text t)
      → viper.get_duration (set_defaults viper ds viper.new_) key ≡ parse t

-- The defaults that are in force in the processor.
abbrev pub processor_all : Defaults
processor_all = base_defaults ++ processor_defaults

-- No telemetry, ten workers, four attempts, and the weights and the rates of the table.
abbrev pub default_config : (nats_addr redis_addr : String) (timeout : ℤ) → ProcessorConfig
default_config nats redis timeout = record {
  base = record {
    log_level = "info";
    otel_enabled = false;
    otel_service_name = "";
    otel_endpoint = "";
  };
  nats_addr = nats;
  redis_addr = redis;
  worker_concurrency = pos 10;
  max_attempts = pos 4;
  ntfn_delivery_client_url = "http://localhost:8080";
  ntfn_delivery_client_timeout = timeout;
  high_weight = pos 3;
  normal_weight = pos 2;
  low_weight = pos 1;
  sms_rate_per_second = pos 10;
  sms_burst = pos 15;
  email_rate_per_second = pos 100;
  email_burst = pos 120;
  push_rate_per_second = pos 500;
  push_burst = pos 600;
}

module _ {S V : Type 0} (w : World S) (viper : Viper V) where
  require-set :
      (v : V) (key : String) (s : S)
      → (viper.get_string v key == "") ≡ false
      → require viper w v key s ≡ (s, ([], returned tt))
  unfolding require
  require-set v key s h = rw h refl

  -- What the getters give then.
  processor_config-defaults :
      (laws : Behaves viper processor_all) (nats redis : String)
      → laws.environment "NATS_ADDR" ≡ some nats
      → laws.environment "REDIS_ADDR" ≡ some redis
      → ((key : String) → key ≢ "NATS_ADDR" → key ≢ "REDIS_ADDR" → laws.environment key ≡ none)
      → processor_config viper (set_defaults viper processor_all viper.new_)
        ≡ default_config nats redis (laws.parse "10s")
  unfolding set_defaults default_of processor_config load_base
  processor_config-defaults laws nats redis nats_set redis_set others =
      let unset =
        λ (key : String) (a : (key == "NATS_ADDR") ≡ false) (b : (key == "REDIS_ADDR") ≡ false).
          others key (ne_of_test key "NATS_ADDR" a) (ne_of_test key "REDIS_ADDR" b) in
      λ i. record {
        base = record {
          log_level = laws.string_unset "LOG_LEVEL" "info" (unset _ refl refl) refl i;
          otel_enabled = laws.bool_unset "OTEL_ENABLED" false (unset _ refl refl) refl i;
          otel_service_name = laws.string_missing "OTEL_SERVICE_NAME" (unset _ refl refl) refl i;
          otel_endpoint = laws.string_missing "OTEL_ENDPOINT" (unset _ refl refl) refl i;
        };
        nats_addr = laws.string_set "NATS_ADDR" nats nats_set i;
        redis_addr = laws.string_set "REDIS_ADDR" redis redis_set i;
        worker_concurrency =
            laws.int_unset "WORKER_CONCURRENCY" (pos 10) (unset _ refl refl) refl i;
        max_attempts = laws.int_unset "MAX_ATTEMPTS" (pos 4) (unset _ refl refl) refl i;
        ntfn_delivery_client_url =
            laws.string_unset "NTFN_DELIVERY_CLIENT_URL" "http://localhost:8080" (unset _ refl refl)
              refl i;
        ntfn_delivery_client_timeout =
            laws.duration_unset "NTFN_DELIVERY_CLIENT_TIMEOUT" "10s" (unset _ refl refl) refl i;
        high_weight = laws.int_unset "HIGH_WEIGHT" (pos 3) (unset _ refl refl) refl i;
        normal_weight = laws.int_unset "NORMAL_WEIGHT" (pos 2) (unset _ refl refl) refl i;
        low_weight = laws.int_unset "LOW_WEIGHT" (pos 1) (unset _ refl refl) refl i;
        sms_rate_per_second =
            laws.int_unset "SMS_RATE_PER_SECOND" (pos 10) (unset _ refl refl) refl i;
        sms_burst = laws.int_unset "SMS_BURST" (pos 15) (unset _ refl refl) refl i;
        email_rate_per_second =
            laws.int_unset "EMAIL_RATE_PER_SECOND" (pos 100) (unset _ refl refl) refl i;
        email_burst = laws.int_unset "EMAIL_BURST" (pos 120) (unset _ refl refl) refl i;
        push_rate_per_second =
            laws.int_unset "PUSH_RATE_PER_SECOND" (pos 500) (unset _ refl refl) refl i;
        push_burst = laws.int_unset "PUSH_BURST" (pos 600) (unset _ refl refl) refl i;
      }

  -- With its two required variables set and no other, the processor is configured with the
  -- defaults of its `Load` and of the shared ones, each read under its own variable, among them 500
  -- push messages a second with bursts of 600; and `Load` calls nothing.
  pub load_processor-defaults :
      (laws : Behaves viper processor_all) (nats redis : String) (s : S)
      → laws.environment "NATS_ADDR" ≡ some nats
      → laws.environment "REDIS_ADDR" ≡ some redis
      → nats ≢ ""
      → redis ≢ ""
      → ((key : String) → key ≢ "NATS_ADDR" → key ≢ "REDIS_ADDR" → laws.environment key ≡ none)
      → load_processor viper w s
        ≡ (s, ([], returned (default_config nats redis (laws.parse "10s"))))
  unfolding load_processor new_viper set_defaults ◌>>◌
  load_processor-defaults laws nats redis s nats_set redis_set some_nats some_redis others =
      let v = set_defaults viper processor_all viper.new_ in
      let configured = processor_config-defaults laws nats redis nats_set redis_set others in
      let is_set = λ (key t : String) (set : laws.environment key ≡ some t) (full : t ≢ "").
        require-set v key s
          (subst (λ x. (x == "") ≡ false) (sym (laws.string_set key t set)) (test_ne t "" full)) in
      let result : Run S ProcessorConfig =
        (s, ([], returned (default_config nats redis (laws.parse "10s")))) in
      subst
        (λ (y : Run S (Unit {0})).
          follow (λ _. give (processor_config viper v))
            (follow (λ _. require viper w v "REDIS_ADDR") y)
          ≡ result)
        (sym (is_set "NATS_ADDR" nats nats_set some_nats))
        (subst (λ (y : Run S (Unit {0})). follow (λ _. give (processor_config viper v)) y ≡ result)
          (sym (is_set "REDIS_ADDR" redis redis_set some_redis))
          (λ i. (s, ([], returned (configured i)))))
