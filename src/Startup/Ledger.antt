-- ===== src/Startup/Ledger.antt =====
-- What a process holds: the connections, the providers, the signals and the timer that it has to
-- give back, and the goroutines that run: those that it waits for, and those of its subscriptions,
-- for which it has no wait.
pub mod Runs
pub mod Rules
pub mod Connected
pub mod Opened
pub mod Released
pub mod Mains
use insider_notification.Base.{
  Bool, true, false, not, Option, none, some, List, [], ◌∷◌, ◌++◌, ◌≡◌, refl, sym, ap, subst, ◌∙◌,
  if◌then◌else◌, select,
}
use insider_notification.Errors.{Error}
use insider_notification.Effect.{Result, ok, err}
use insider_notification.Startup.{
  Signal, traces, metrics, logs, Task, server, fetching, Call, open_db, close_db, open_redis,
  close_redis, connect_nats, drain_nats, set_provider, shutdown_provider, notify_context,
  stop_signal, with_timeout, cancel_timeout, go_, shutdown_server, wait_tasks, World, Outcome,
  returned, failed, panicked, exited, Run, Process, after, follow, caught, keeping, finish, call,
  make, or_fail, or_panic, check, must,
}

pub data Resource : Type 0 where
  db redis nats signals timer : Resource
  provider : Signal → Resource

pub record Ledger : Type 0 where
  pub tasks : List Task
  pub loops : List Task
  pub held : List Resource

abbrev pub same_signal : Signal → Signal → Bool
same_signal traces traces = true
same_signal metrics metrics = true
same_signal logs logs = true
same_signal a b = false

abbrev pub same : Resource → Resource → Bool
same db db = true
same redis redis = true
same nats nats = true
same signals signals = true
same timer timer = true
same (provider a) (provider b) = same_signal a b
same a b = false

-- One of the resources less, or none if it is not there.
unfoldable pub remove : Resource → List Resource → Option (List Resource)
remove r [] = none
remove r (x ∷ xs) = elim (same r x) [
  | true ↦ some xs
  | false ↦ elim (remove r xs) [ none ↦ none | some ys ↦ some (x ∷ ys) ]
]

abbrev pub with_held : (loops : List Task) → Option (List Resource) → Option Ledger
with_held ls none = none
with_held ls (some rs) = some (record { tasks = []; loops = ls; held = rs })

-- A resource may be given back only when it is held and no goroutine runs, but for those of the
-- subscriptions.
abbrev pub release_from : Resource → (tasks loops : List Task) → List Resource → Option Ledger
release_from r [] ls rs = with_held ls (remove r rs)
release_from r (t ∷ ts) ls rs = none

abbrev pub release : Resource → Ledger → Option Ledger
release r l = release_from r l.tasks l.loops l.held

-- A goroutine has been started.
abbrev pub started : Task → Ledger → Ledger
started (fetching subject) l = record l { loops = fetching subject ∷ l.loops }
started t l = record l { tasks = t ∷ l.tasks }

abbrev pub acquire : Resource → Ledger → Option Ledger
acquire r l = some (record l { held = r ∷ l.held })

-- `ListenAndServe` returns once the server is shut down; the others are waited for.
abbrev pub is_server : Task → Bool
is_server server = true
is_server t = false

-- The ledger after a call, or none where the call is not allowed.
unfoldable pub step : Call → Ledger → Option Ledger
step (open_db url) l = acquire db l
step (open_redis addr) l = acquire redis l
step (connect_nats url) l = acquire nats l
step (set_provider g) l = acquire (provider g) l
step notify_context l = acquire signals l
step (with_timeout n) l = acquire timer l
step close_db l = release db l
step close_redis l = release redis l
step drain_nats l = release nats l
step (shutdown_provider g) l = release (provider g) l
step stop_signal l = release signals l
step cancel_timeout l = release timer l
step (go_ t) l = some (started t l)
step shutdown_server l = some (record l { tasks = select (λ t. not (is_server t)) l.tasks })
step wait_tasks l = some (record l { tasks = select is_server l.tasks })
step c l = some l

-- What follows a step that is allowed.
abbrev pub go_on : Option Ledger → (Ledger → Option Ledger) → Option Ledger
go_on none k = none
go_on (some m) k = k m

unfoldable pub steps : List Call → Ledger → Option Ledger
steps [] l = some l
steps (c ∷ cs) l = go_on (step c l) (steps cs)
