-- ===== src/Tests/Startup.antt =====
-- The start and the end of the services, with an environment and libraries in memory.
use insider_notification.Base.{
  ℤ, pos, String, Bool, true, false, Option, none, some, [], ◌∷◌, ◌≡◌, ◌≢◌, refl, ap, ◌∙◌, ◌==◌,
  if◌then◌else◌, ne_of_test, test_ne,
}
use insider_notification.Errors.{Error, other}
use insider_notification.Startup.{
  StreamConfig, Call, stream_info, add_stream, update_stream, World, returned,
}
use insider_notification.Startup.Config.{
  Value, text, number, flag, Viper, ProcessorConfig, Defaults, set_defaults, load_processor,
}
use insider_notification.Startup.Config.Defaults.{
  later_or, default_of, Behaves, processor_all, default_config, load_processor-defaults,
}
use insider_notification.Processor.Router.{new_priority_router}
use insider_notification.Startup.Connections.{stream_of, ensure_stream}
use insider_notification.Startup.Connections.Stream.{StreamTable, Sets, ensure_stream-Sets}
use insider_notification.Startup.Services.Processor
use insider_notification.Startup.Services.Scheduler
use insider_notification.Startup.Services.Api
use insider_notification.Startup.Ledger.{redis, nats}
use insider_notification.Startup.Ledger.Runs.{Or, Explains}
use insider_notification.Startup.Ledger.Rules.{Holds}
use insider_notification.Startup.Ledger.Connected.{idle}
use insider_notification.Startup.Ledger.Opened.{
  Unweighted, RefusedProcessor, processor_loops, processor_new-Holds,
}
use insider_notification.Tests.Memory.{platform}

-- The environment of a processor.
abbrev environment : String → Option String
environment key =
    if key == "NATS_ADDR"
    then some "nats://nats:4222"
    else if key == "REDIS_ADDR"
    then some "redis:6379"
    else none

abbrev first_of : String → Defaults → Option Value
first_of key [] = none
first_of key ((k, v) ∷ ds) = if k == key then some v else first_of key ds

abbrev string_at : Option String → Option Value → String
string_at (some t) o = t
string_at none (some (text t)) = t
string_at none o = ""

abbrev int_at : Option String → Option Value → ℤ
int_at none (some (number n)) = n
int_at e o = pos 0

abbrev bool_at : Option String → Option Value → Bool
bool_at none (some (flag b)) = b
bool_at e o = false

abbrev parse : String → ℤ
parse t = if t == "10s" then pos 10000000000 else pos 5000000000

-- The default that was set last stands first.
abbrev viper : Viper Defaults
viper = record {
  new_ = [];
  set_default = λ key v ds. (key, v) ∷ ds;
  get_string = λ ds key. string_at (environment key) (first_of key ds);
  get_int = λ ds key. int_at (environment key) (first_of key ds);
  get_bool = λ ds key. bool_at (environment key) (first_of key ds);
  get_duration = λ ds key. parse (string_at (environment key) (first_of key ds));
}

or_later :
    (o : Option Value) (b : Bool) (v : Value) (rest : Option Value)
    → later_or o (if b then some v else rest)
      ≡ later_or (later_or o (if b then some v else none)) rest
or_later (some x) b v rest = refl
or_later none true v rest = refl
or_later none false v rest = refl

first_of-set_defaults :
    (key : String) (ds v : Defaults)
    → first_of key (set_defaults viper ds v) ≡ later_or (default_of key ds) (first_of key v)
unfolding set_defaults default_of
first_of-set_defaults key [] v = refl
first_of-set_defaults key ((k, x) ∷ ds) v =
    first_of-set_defaults key ds ((k, x) ∷ v)
    ∙ or_later (default_of key ds) (k == key) x (first_of key v)

-- The default in force.
in_force :
    (key : String) (o : Option Value)
    → default_of key processor_all ≡ o
    → first_of key (set_defaults viper processor_all []) ≡ later_or o none
in_force key o h = first_of-set_defaults key processor_all [] ∙ ap (λ d. later_or d none) h

behaves : Behaves viper processor_all
behaves = record {
  environment = environment;
  parse = parse;
  string_set =
      λ key t e. ap (λ o. string_at o (first_of key (set_defaults viper processor_all []))) e;
  string_unset = λ key t e h i. string_at (e i) (in_force key (some (text t)) h i);
  string_missing = λ key e h i. string_at (e i) (in_force key none h i);
  int_unset = λ key n e h i. int_at (e i) (in_force key (some (number n)) h i);
  bool_unset = λ key b e h i. bool_at (e i) (in_force key (some (flag b)) h i);
  duration_unset = λ key t e h i. parse (string_at (e i) (in_force key (some (text t)) h i));
}

others : (key : String) → key ≢ "NATS_ADDR" → key ≢ "REDIS_ADDR" → environment key ≡ none
others key a b = rw (test_ne key "NATS_ADDR" a) (rw (test_ne key "REDIS_ADDR" b) refl)

-- Calls that all succeed.
abbrev quiet : World (Unit {0})
quiet = record { answer = λ c s. (s, none); is_stream_not_found = λ e. false }

load_processor-defaults_example :
    load_processor viper quiet tt
    ≡ (tt, ([], returned (default_config "nats://nats:4222" "redis:6379" (pos 10000000000))))
unfolding behaves
load_processor-defaults_example =
    load_processor-defaults quiet viper behaves "nats://nats:4222" "redis:6379" tt refl refl
      (ne_of_test _ _ refl) (ne_of_test _ _ refl) others

-- JetStream is out.
abbrev answer_down : Call → Option Error
answer_down (stream_info n) = some (other "nats: no responders available for request")
answer_down c = none

abbrev down : World (Unit {0})
down = record { answer = λ c s. (s, answer_down c); is_stream_not_found = λ e. false }

abbrev Failing : Type 0
Failing = (c : Call) × (s : Unit {0}) × (e : Error) × ((down.answer c s).1 ≡ some e)

explains : Explains down Failing
explains c s e h = (c, s, e, h)

abbrev config : ProcessorConfig
config = default_config "nats://nats:4222" "redis:6379" (pos 10000000000)

weighted_well : Unweighted config → Failing
unfolding new_priority_router
weighted_well bad = cc

processor_new-Holds_example :
    Holds Failing
      (idle [] [])
      (Or
        (RefusedProcessor platform down explains [] [])
        (idle (processor_loops []) (nats ∷ redis ∷ [])))
      (Processor.new_ platform down config)
processor_new-Holds_example = processor_new-Holds platform down explains config [] [] weighted_well

-- The streams of JetStream.
abbrev Streams : Type 0
Streams = String → Option StreamConfig

abbrev put : StreamConfig → Streams → Streams
put cfg f n = if cfg.name == n then some cfg else f n

abbrev info : Option StreamConfig → Option Error
info (some cfg) = none
info none = some (other "nats: stream not found")

-- Only a missing stream is added, and only one that is there is updated.
abbrev added : Option StreamConfig → StreamConfig → Streams → Streams × Option Error
added none cfg f = (put cfg f, none)
added (some old) cfg f = (f, some (other "nats: stream name already in use"))

abbrev updated : Option StreamConfig → StreamConfig → Streams → Streams × Option Error
updated none cfg f = (f, some (other "nats: stream not found"))
updated (some old) cfg f = (put cfg f, none)

abbrev store : Call → Streams → Streams × Option Error
store (stream_info n) f = (f, info (f n))
store (add_stream cfg) f = added (f cfg.name) cfg f
store (update_stream cfg) f = updated (f cfg.name) cfg f
store c f = (f, none)

abbrev broker : World Streams
broker = record { answer = store; is_stream_not_found = λ e. true }

table : StreamTable broker
table = record {
  streams = λ f. f;
  info_same = λ f name n. refl;
  info_there = λ f name cfg h. ap info h;
  info_missing = λ f name h. (_, ap info h, refl);
  add_missing = λ f cfg h. (ap (λ o. (added o cfg f).1) h, λ n. ap (λ o. (added o cfg f).0 n) h);
  update_there =
      λ f cfg old h. (ap (λ o. (updated o cfg f).1) h, λ n. ap (λ o. (updated o cfg f).0 n) h);
}

abbrev no_streams : Streams
no_streams n = none

ensure_stream-Sets_example :
    Sets platform table no_streams
      (stream_of platform broker "NOTIFICATIONS" ("notify.>" ∷ []))
      (ensure_stream platform broker "NOTIFICATIONS" ("notify.>" ∷ []) no_streams)
ensure_stream-Sets_example =
    ensure_stream-Sets platform table "NOTIFICATIONS" ("notify.>" ∷ []) no_streams
