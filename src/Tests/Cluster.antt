-- ===== src/Tests/Cluster.antt =====
-- The table of the scheduler and the stream in memory, with a switch that makes the wait for the
-- acknowledgements and the inserts fail.
use insider_notification.Base.{
  ◌+◌, ◌<◌, pos, String, Bool, true, false, none, some, List, [], ◌∷◌, ◌++◌, ◌≡◌, ◌⊎◌, refl, sym,
  ap, subst, ◌∙◌, inl, inr, length, arith, ◌==◌, eq_iff, eq_refl, Bool-cases,
}
use insider_notification.Errors.{Error, other}
use insider_notification.Effect.{Result, ok, err, pure}
use insider_notification.Public.Events.{Payload, due}
use insider_notification.Nats.{JetStream, Marshaller}
use insider_notification.Nats.Publisher.Acks.{StreamLaws}
use insider_notification.Nats.Publisher.Order.{LogLaws}
use insider_notification.Scheduler.{ScheduledNotification, new_dispatcher, tick, tick_pass}
use insider_notification.Scheduler.Shutdown.{Ended, tick_pass-Drops}
use insider_notification.Scheduler.Postgres.{
  Bun, InsertQuery, upsert_all, new_scheduled_notification_repository,
  delete_by_scheduled_at_before_returning,
}
use insider_notification.Scheduler.Conservation.{HasId, StoresAlways, EndsWithAll}
use insider_notification.Scheduler.Deployed.{
  upserted, ClusterLaws, dispatcher, dispatcher_laws, deployed-EndsWithAll,
}
use insider_notification.Tests.Table.{
  lookup, ins, kept, claimed, lookup-ins, lookup-kept_self, lookup-kept, count_both, HasId-claimed,
}
use insider_notification.Tests.Memory.{platform}

pub record Cluster : Type 0 where
  pub table : List ScheduledNotification
  pub stream : List (String × String)
  pub log : List (String × String)

-- The rows with the id of the first one are due.
unfoldable pub claim :
    List ScheduledNotification → Cluster → Cluster × Result (List ScheduledNotification)
claim [] s = (s, ok [])
claim (n ∷ ns) s =
    (record s { table = kept n.notification_id (n ∷ ns) }, ok (claimed n.notification_id (n ∷ ns)))

unfoldable pub insert : Bool → InsertQuery → Cluster → Cluster × Result (Unit {0})
insert true q s = (s, err (other "context canceled"))
insert false q s = (record s { table = ins q.model s.table }, ok tt)

unfoldable pub complete : Bool → Cluster → Cluster × Result (Unit {0})
complete true s = (s, err (other "context canceled"))
complete false s = (s, ok tt)

abbrev pub Stored : List (String × String) → String → String → Type 0
Stored [] t b = ⊥
Stored (x ∷ xs) t b = (x ≡ (t, b)) ⊎ Stored xs t b

unfoldable pub db : Bool → Bun Cluster
unfolding claim insert
db over = record {
  insert = insert over;
  delete_where_id = λ id. pure tt;
  raw = λ sql t l s. claim s.table s;
}

-- A message is stored when its future is awaited.
abbrev pub store : String × String → Cluster → Cluster × Result (Unit {0})
store x s = (record s { stream = x ∷ s.stream }, ok tt)

unfoldable pub js : Bool → JetStream Cluster (String × String)
unfolding complete
js over = record {
  publish_msg = λ t b. store (t, b);
  publish_msg_async = λ t b s. (record s { log = s.log ++ (t, b) ∷ [] }, ok (t, b));
  complete = complete over;
  outcome = store;
}

pub complete_same : (over : Bool) (s : Cluster) → (complete over s).0 ≡ s
unfolding complete
complete_same true s = refl
complete_same false s = refl

unfoldable pub stream_laws : (over : Bool) → StreamLaws (js over)
unfolding js
stream_laws over = record {
  stored = λ s t b. Stored s.stream t b;
  refers = λ f t b. f ≡ (t, b);
  publish_ok =
      λ s s' t b h. subst (λ (y : Cluster × Result (Unit {0})). Stored y.0.stream t b) h (inl refl);
  async_refers = λ s s' t b f h. cc;
  outcome_ok = λ s s' f t b h same.
      subst (λ (y : Cluster × Result (Unit {0})). Stored y.0.stream t b) h (inl same);
  publish_keeps = λ s u c t b h. inr h;
  async_keeps = λ s u c t b h. h;
  complete_keeps =
      λ s t b h. subst (λ (x : Cluster). Stored x.stream t b) (sym (complete_same over s)) h;
  outcome_keeps = λ s f t b h. inr h;
}

complete_log : (over : Bool) (s : Cluster) → (complete over s).0.log ≡ s.log
complete_log over s = ap (λ (x : Cluster). x.log) (complete_same over s)

pub log_laws : (over : Bool) → LogLaws (js over)
unfolding js
log_laws over = record {
  log = λ s. s.log;
  async_log = λ s s' t b f h. ap (λ (y : Cluster × Result (String × String)). y.0.log) (sym h);
  complete_log = complete_log over;
  outcome_log = λ s f. refl;
}

inserted_row :
    (over : Bool) (s s' : Cluster) (q : InsertQuery) (id : String)
    → insert over q s ≡ (s', ok tt)
    → lookup s'.table id ≡ upserted q.model id (lookup s.table id)
unfolding insert
inserted_row true s s' q id h = cc
inserted_row false s s' q id h =
    ap (λ (y : Cluster × Result (Unit {0})). lookup y.0.table id) (sym h)
    ∙ lookup-ins q.model s.table id

inserted_error :
    (over : Bool) (s s' : Cluster) (q : InsertQuery) (e : Error) (id : String)
    → insert over q s ≡ (s', err e)
    → lookup s'.table id ≡ lookup s.table id
unfolding insert
inserted_error true s s' q e id h =
    ap (λ (y : Cluster × Result (Unit {0})). lookup y.0.table id) (sym h)
inserted_error false s s' q e id h = cc

inserted_stream :
    (over : Bool) (s : Cluster) (q : InsertQuery) → (insert over q s).0.stream ≡ s.stream
unfolding insert
inserted_stream true s q = refl
inserted_stream false s q = refl

claimed_stream :
    (rows : List ScheduledNotification) (s : Cluster) → (claim rows s).0.stream ≡ s.stream
unfolding claim
claimed_stream [] s = refl
claimed_stream (n ∷ ns) s = refl

-- What the claim has done.
abbrev Claims : Cluster → Cluster × Result (List ScheduledNotification) → Type 0
Claims s (u, err e) = ⊥
Claims s (u, ok ns) =
    ((id : String)
      → (lookup u.table id ≡ lookup s.table id) ⊎ ((lookup u.table id ≡ none) × HasId id ns))
    × ((id : String) → HasId id ns → lookup u.table id ≡ none)
    × (length u.table + length ns ≡ length s.table)

claim-Claims :
    (rows : List ScheduledNotification) (s : Cluster) → s.table ≡ rows → Claims s (claim rows s)
unfolding claim
claim-Claims [] s at = (λ id. inl refl, λ id h. absurd h, omega arith)
claim-Claims (n ∷ ns) s at =
    let k = n.notification_id in
    (
      λ id. elim (Bool-cases (k == id)) [
        | inl same ↦
            let one : k ≡ id = ground (arith, eq_iff k id) in
            let mine : HasId id (claimed k (n ∷ ns)) = rw (eq_refl k) (inl one) in
            inr (
              subst (λ i. lookup (kept k (n ∷ ns)) i ≡ none) one (lookup-kept_self k (n ∷ ns)),
              mine,
            )
        | inr apart ↦ inl (lookup-kept k id (n ∷ ns) apart ∙ ap (λ rows. lookup rows id) (sym at))
      ],
      λ id listed.
          let one = HasId-claimed k id (n ∷ ns) listed in
          subst (λ i. lookup (kept k (n ∷ ns)) i ≡ none) (sym one) (lookup-kept_self k (n ∷ ns)),
      count_both k (n ∷ ns) ∙ ap length (sym at),
    )

pub laws : (over : Bool) → ClusterLaws (db over) (js over) (λ s. (s, 7))
unfolding db js stream_laws
laws over = record {
  stream = stream_laws over;
  row = λ s id. lookup s.table id;
  rows = λ s. length s.table;
  insert_row = λ s s' q id h. inserted_row over s s' q id h;
  insert_error = λ s s' q e id h. inserted_error over s s' q e id h;
  claim_row = λ s s' t l ns id h. (subst (Claims s) h (claim-Claims s.table s refl)).0 id;
  claim_gone = λ s s' t l ns id h. (subst (Claims s) h (claim-Claims s.table s refl)).1 id;
  claim_rows = λ s s' t l ns h. (subst (Claims s) h (claim-Claims s.table s refl)).2;
  claim_error = λ s s' t l e id h. absurd (subst (Claims s) h (claim-Claims s.table s refl));
  insert_stored = λ s q t b h. subst (λ ms. Stored ms t b) (sym (inserted_stream over s q)) h;
  claim_stored = λ s n l t b h. subst (λ ms. Stored ms t b) (sym (claimed_stream s.table s)) h;
  clock_stored = λ s t b h. h;
  clock_row = λ s id. refl;
  clock_rows = λ s. refl;
  async_row = λ s t b id. refl;
  async_rows = λ s t b. refl;
  complete_row = λ s id. ap (λ (x : Cluster). lookup x.table id) (complete_same over s);
  complete_rows = λ s. ap (λ (x : Cluster). length x.table) (complete_same over s);
  outcome_row = λ s f id. refl;
  outcome_rows = λ s f. refl;
}

pub laws_row : (s : Cluster) (id : String) → (laws false).row s id ≡ lookup s.table id
unfolding laws
laws_row s id = refl

pub laws_rows : (s : Cluster) → (laws false).rows s ≡ length s.table
unfolding laws
laws_rows s = refl

-- A payload of a due event is marshalled to its id.
abbrev pub marshal_due : Payload → Result String
marshal_due (due e) = ok e.notification_id
marshal_due m = err (other "json: unsupported type")

abbrev pub json : Marshaller
json = record { marshal = marshal_due }

abbrev pub row : String → ScheduledNotification
row id = record { notification_id = id; scheduled_at = some 5; trace_metadata = [] }

abbrev pub start : Cluster
start = record { table = row "1" ∷ row "2" ∷ []; stream = []; log = [] }

stores : StoresAlways (dispatcher platform json (pos 0) (laws false))
unfolding db new_dispatcher new_scheduled_notification_repository upsert_all insert
stores s [] = refl
stores s (n ∷ ns) = refl

pub few : (laws false).rows start < 3
unfolding laws
few = omega arith

deployed-EndsWithAll_example :
    EndsWithAll
      (dispatcher_laws platform json (pos 0) (laws false))
      start
      (tick (dispatcher platform json (pos 0) (laws false)) 3 start)
deployed-EndsWithAll_example =
    deployed-EndsWithAll platform json (pos 0) (laws false) 3 start stores few

ended : Ended platform json (pos 0) (laws true)
unfolding db js insert complete
ended = record {
  cut = λ s. (other "context canceled", refl);
  refused = λ s q. (other "context canceled", refl);
}

after_claim : Cluster
after_claim = record { table = row "2" ∷ []; stream = []; log = [] }

claims_first :
    (dispatcher platform json (pos 0) (laws true)).repo.delete_by_scheduled_at_before_returning 7
      (dispatcher platform json (pos 0) (laws true)).batch
      start
    ≡ (after_claim, ok (row "1" ∷ []))
unfolding after_claim db new_dispatcher new_scheduled_notification_repository
    delete_by_scheduled_at_before_returning claim
claims_first = refl

tick_pass-Drops_example :
    ((laws true).row (tick_pass (dispatcher platform json (pos 0) (laws true)) start).0 "1" ≡ none)
    × ((tick_pass (dispatcher platform json (pos 0) (laws true)) start).1 ≡ false)
tick_pass-Drops_example =
    tick_pass-Drops platform json (pos 0) (laws true) start after_claim (row "1" ∷ []) "1" ended
      claims_first (inl refl)
