-- ===== src/Startup/Config.antt =====
-- The configuration: shared/config/config.go and internal/config/config.go of the three services.
pub mod Defaults
use Prim.Native.String.{◌++◌}
use insider_notification.Base.{
  ℕ, ℤ, pos, String, Bool, true, false, List, [], ◌∷◌, ◌==◌, if◌then◌else◌,
}
use insider_notification.Startup.{
  Level, error, Call, log, World, Process, ◌>>=◌, ◌>>◌, give, exit, make,
}
use insider_notification.Processor.Retry.{max_attempts}

-- A default of viper. Those of durations are texts.
pub data Value : Type 0 where
  text : String → Value
  number : ℤ → Value
  flag : Bool → Value

-- An instance of viper that reads the environment: the calls that set a default, and what the
-- getters give.
pub record Viper (V : Type 0) : Type 0 where
  pub new_ : V
  pub set_default : (key : String) → Value → V → V
  pub get_string : V → (key : String) → String
  pub get_int : V → (key : String) → ℤ
  pub get_bool : V → (key : String) → Bool
  pub get_duration : V → (key : String) → ℤ

-- `Base`
pub record BaseConfig : Type 0 where
  pub log_level : String
  pub otel_enabled : Bool
  pub otel_service_name : String
  pub otel_endpoint : String

pub record ProcessorConfig : Type 0 where
  pub base : BaseConfig
  pub nats_addr : String
  pub redis_addr : String
  pub worker_concurrency : ℤ
  pub max_attempts : ℤ
  pub ntfn_delivery_client_url : String
  pub ntfn_delivery_client_timeout : ℤ
  pub high_weight : ℤ
  pub normal_weight : ℤ
  pub low_weight : ℤ
  pub sms_rate_per_second : ℤ
  pub sms_burst : ℤ
  pub email_rate_per_second : ℤ
  pub email_burst : ℤ
  pub push_rate_per_second : ℤ
  pub push_burst : ℤ

pub record ApiConfig : Type 0 where
  pub base : BaseConfig
  pub database_url : String
  pub nats_addr : String
  pub port : ℤ
  pub scheduler_interval : ℤ

pub record SchedulerConfig : Type 0 where
  pub base : BaseConfig
  pub database_url : String
  pub nats_addr : String
  pub poll_batch_size : ℤ
  pub poll_interval : ℤ

abbrev pub Defaults : Type 0
Defaults = List (String × Value)

-- The defaults of `NewViper`, and those that each `Load` sets.
abbrev pub base_defaults : Defaults
base_defaults = ("LOG_LEVEL", text "info") ∷ ("OTEL_ENABLED", flag false) ∷ []

abbrev pub processor_defaults : Defaults
processor_defaults =
    ("WORKER_CONCURRENCY", number (pos 10))
    ∷ ("MAX_ATTEMPTS", number (pos max_attempts))
    ∷ ("NTFN_DELIVERY_CLIENT_URL", text "http://localhost:8080")
    ∷ ("NTFN_DELIVERY_CLIENT_TIMEOUT", text "10s")
    ∷ ("HIGH_WEIGHT", number (pos 3))
    ∷ ("NORMAL_WEIGHT", number (pos 2))
    ∷ ("LOW_WEIGHT", number (pos 1))
    ∷ ("SMS_RATE_PER_SECOND", number (pos 10))
    ∷ ("SMS_BURST", number (pos 15))
    ∷ ("EMAIL_RATE_PER_SECOND", number (pos 100))
    ∷ ("EMAIL_BURST", number (pos 120))
    ∷ ("PUSH_RATE_PER_SECOND", number (pos 500))
    ∷ ("PUSH_BURST", number (pos 600))
    ∷ []

abbrev pub api_defaults : Defaults
api_defaults = ("PORT", number (pos 8080)) ∷ ("SCHEDULER_INTERVAL", text "5s") ∷ []

abbrev pub scheduler_defaults : Defaults
scheduler_defaults =
    ("POLL_BATCH_SIZE", number (pos 100))
    ∷ ("POLL_INTERVAL", text "5s")
    ∷ ("OTEL_SERVICE_NAME", text "deliveryscheduler")
    ∷ []

module _ {V : Type 0} (viper : Viper V) where
  open viper use {new_, set_default, get_string, get_int, get_bool, get_duration}

  unfoldable pub set_defaults : Defaults → V → V
  set_defaults [] v = v
  set_defaults ((key, value) ∷ ds) v = set_defaults ds (set_default key value v)

  -- `NewViper`
  unfoldable pub new_viper : V
  new_viper = set_defaults base_defaults new_

  -- `LoadBase`
  unfoldable pub load_base : V → BaseConfig
  load_base v = record {
    log_level = get_string v "LOG_LEVEL";
    otel_enabled = get_bool v "OTEL_ENABLED";
    otel_service_name = get_string v "OTEL_SERVICE_NAME";
    otel_endpoint = get_string v "OTEL_ENDPOINT";
  }

  unfoldable pub processor_config : V → ProcessorConfig
  processor_config v = record {
    base = load_base v;
    nats_addr = get_string v "NATS_ADDR";
    redis_addr = get_string v "REDIS_ADDR";
    worker_concurrency = get_int v "WORKER_CONCURRENCY";
    max_attempts = get_int v "MAX_ATTEMPTS";
    ntfn_delivery_client_url = get_string v "NTFN_DELIVERY_CLIENT_URL";
    ntfn_delivery_client_timeout = get_duration v "NTFN_DELIVERY_CLIENT_TIMEOUT";
    high_weight = get_int v "HIGH_WEIGHT";
    normal_weight = get_int v "NORMAL_WEIGHT";
    low_weight = get_int v "LOW_WEIGHT";
    sms_rate_per_second = get_int v "SMS_RATE_PER_SECOND";
    sms_burst = get_int v "SMS_BURST";
    email_rate_per_second = get_int v "EMAIL_RATE_PER_SECOND";
    email_burst = get_int v "EMAIL_BURST";
    push_rate_per_second = get_int v "PUSH_RATE_PER_SECOND";
    push_burst = get_int v "PUSH_BURST";
  }

  unfoldable pub api_config : V → ApiConfig
  api_config v = record {
    base = load_base v;
    database_url = get_string v "DATABASE_URL";
    nats_addr = get_string v "NATS_ADDR";
    port = get_int v "PORT";
    scheduler_interval = get_duration v "SCHEDULER_INTERVAL";
  }

  unfoldable pub scheduler_config : V → SchedulerConfig
  scheduler_config v = record {
    base = load_base v;
    database_url = get_string v "DATABASE_URL";
    nats_addr = get_string v "NATS_ADDR";
    poll_batch_size = get_int v "POLL_BATCH_SIZE";
    poll_interval = get_duration v "POLL_INTERVAL";
  }

module _ {V S : Type 0} (viper : Viper V) (w : World S) where
  open viper use {get_string}

  -- A variable that must be set.
  unfoldable pub require : V → (key : String) → Process S (Unit {0})
  require v key =
      if get_string v key == ""
      then make w (log error ("missing required env var: " ++ key)) >> exit 1
      else give tt

  -- `Load` of the processor, of the API service and of the scheduler.
  unfoldable pub load_processor : Process S ProcessorConfig
  load_processor =
      let v = set_defaults viper processor_defaults (new_viper viper) in
      require v "NATS_ADDR" >> require v "REDIS_ADDR" >> give (processor_config viper v)

  unfoldable pub load_api : Process S ApiConfig
  load_api =
      let v = set_defaults viper api_defaults (new_viper viper) in
      require v "DATABASE_URL" >> require v "NATS_ADDR" >> give (api_config viper v)

  unfoldable pub load_scheduler : Process S SchedulerConfig
  load_scheduler =
      let v = set_defaults viper scheduler_defaults (new_viper viper) in
      require v "DATABASE_URL" >> require v "NATS_ADDR" >> give (scheduler_config viper v)
