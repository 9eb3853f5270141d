-- ===== src/Scheduler/Deployed.antt =====
-- The dispatcher on its table in Postgres and with the publisher of NATS, as
-- deliveryscheduler/internal/app/app.go puts them together.
use insider_notification.Base.{
  ℕ, ◌+◌, ◌<◌, ℤ, String, Bool, true, false, Option, none, some, List, [], ◌∷◌, length, ◌≡◌, ◌⊎◌,
  inl, inr, refl, sym, ap, subst, ◌∙◌, ◌==◌, eq_refl, if◌then◌else◌,
}
use insider_notification.Errors.{Error, wrap}
use insider_notification.Effect.{ok, err, on_error-ok, on_error-err}
use insider_notification.Platform.{Platform}
use insider_notification.Public.Topic
use insider_notification.Public.Events.{Payload}
use insider_notification.Nats.{JetStream, Marshaller}
use insider_notification.Nats.Publisher.{publish_batch, new_batch_publisher}
use insider_notification.Nats.Publisher.States.{publish_batch-state}
use insider_notification.Nats.Publisher.Acks.{
  StreamLaws, Announced, publish_batch-Announced, publish_batch_keeps,
}
use insider_notification.Scheduler.{
  ScheduledNotification, ScheduledNotificationDispatcher, new_dispatcher, tick,
}
use insider_notification.Scheduler.Postgres.{
  due_statement, InsertQuery, Bun, at_least_one, upsert_all,
  delete_by_scheduled_at_before_returning, new_scheduled_notification_repository,
}
use insider_notification.Scheduler.Conservation.{
  HasId, Lawful, StoresAlways, EndsWithAll, tick-EndsWithAll,
}

abbrev pub trace_of : ScheduledNotification → Option ScheduledNotification → List (String × String)
trace_of n none = n.trace_metadata
trace_of n (some old) = old.trace_metadata

-- The row under its id after an insert of `n`, of which a conflict sets the time alone.
abbrev pub merge : ScheduledNotification → Option ScheduledNotification → ScheduledNotification
merge n old = record n { trace_metadata = trace_of n old }

abbrev pub upserted :
    List ScheduledNotification
    → String
    → Option ScheduledNotification
    → Option ScheduledNotification
upserted [] id o = o
upserted (n ∷ ns) id o = upserted ns id (if n.notification_id == id then some (merge n o) else o)

abbrev pub Stands : Option ScheduledNotification → Type 0
Stands o = (n : ScheduledNotification) × (o ≡ some n)

-- What the database, JetStream and the clock do, by their documentation: an insert that succeeds
-- writes its rows, or sets the time where there is one; the statement that claims removes exactly
-- the rows that it returns; a statement that fails changes nothing. None of the three touches the
-- state of another.
pub record ClusterLaws {S F : Type 0} (db : Bun S) (js : JetStream S F) (clock : S → S × ℕ)
    : Type 1 where
  pub stream : StreamLaws js
  pub row : S → String → Option ScheduledNotification
  pub rows : S → ℕ
  pub insert_row :
      (s s' : S) (q : InsertQuery) (id : String)
      → db.insert q s ≡ (s', ok tt)
      → row s' id ≡ upserted q.model id (row s id)
  pub insert_error :
      (s s' : S) (q : InsertQuery) (e : Error) (id : String)
      → db.insert q s ≡ (s', err e)
      → row s' id ≡ row s id
  pub claim_row :
      (s s' : S) (t : ℕ) (l : ℤ) (ns : List ScheduledNotification) (id : String)
      → db.raw due_statement t l s ≡ (s', ok ns)
      → (row s' id ≡ row s id) ⊎ ((row s' id ≡ none) × HasId id ns)
  pub claim_gone :
      (s s' : S) (t : ℕ) (l : ℤ) (ns : List ScheduledNotification) (id : String)
      → db.raw due_statement t l s ≡ (s', ok ns)
      → HasId id ns
      → row s' id ≡ none
  pub claim_rows :
      (s s' : S) (t : ℕ) (l : ℤ) (ns : List ScheduledNotification)
      → db.raw due_statement t l s ≡ (s', ok ns)
      → rows s' + length ns ≡ rows s
  pub claim_error :
      (s s' : S) (t : ℕ) (l : ℤ) (e : Error) (id : String)
      → db.raw due_statement t l s ≡ (s', err e)
      → row s' id ≡ row s id
  pub insert_stored :
      (s : S) (q : InsertQuery) (t b : String)
      → stream.stored s t b
      → stream.stored (db.insert q s).0 t b
  pub claim_stored :
      (s : S) (n : ℕ) (l : ℤ) (t b : String)
      → stream.stored s t b
      → stream.stored (db.raw due_statement n l s).0 t b
  pub clock_stored : (s : S) (t b : String) → stream.stored s t b → stream.stored (clock s).0 t b
  pub clock_row : (s : S) (id : String) → row (clock s).0 id ≡ row s id
  pub clock_rows : (s : S) → rows (clock s).0 ≡ rows s
  pub async_row : (s : S) (t b id : String) → row (js.publish_msg_async t b s).0 id ≡ row s id
  pub async_rows : (s : S) (t b : String) → rows (js.publish_msg_async t b s).0 ≡ rows s
  pub complete_row : (s : S) (id : String) → row (js.complete s).0 id ≡ row s id
  pub complete_rows : (s : S) → rows (js.complete s).0 ≡ rows s
  pub outcome_row : (s : S) (f : F) (id : String) → row (js.outcome f s).0 id ≡ row s id
  pub outcome_rows : (s : S) (f : F) → rows (js.outcome f s).0 ≡ rows s

if-Stands :
    (b : Bool) (n : ScheduledNotification) (o : Option ScheduledNotification)
    → Stands o
    → Stands (if b then some n else o)
if-Stands true n o h = (n, refl)
if-Stands false n o h = h

upserted-Stands :
    (ns : List ScheduledNotification) (id : String) (o : Option ScheduledNotification)
    → Stands o
    → Stands (upserted ns id o)
upserted-Stands [] id o h = h
upserted-Stands (n ∷ ns) id o h =
    upserted-Stands ns id _ (if-Stands (n.notification_id == id) (merge n o) o h)

upserted-listed :
    (ns : List ScheduledNotification) (id : String) (o : Option ScheduledNotification)
    → HasId id ns
    → Stands (upserted ns id o)
upserted-listed [] id o h = absurd h
upserted-listed (n ∷ ns) id o (inl same) =
    let hit : (n.notification_id == id) ≡ true =
      ap (◌==◌ n.notification_id) (sym same) ∙ eq_refl n.notification_id in
    rw hit (upserted-Stands ns id (some (merge n o)) (merge n o, refl))
upserted-listed (n ∷ ns) id o (inr later) = upserted-listed ns id _ later

module _ {S F : Type 0} (p : Platform) (json : Marshaller) {db : Bun S} {js : JetStream S F}
    {clock : S → S × ℕ} (batch : ℤ) (laws : ClusterLaws db js clock) where
  open laws use {row, rows, stream}

  -- `New`: the dispatcher of the service.
  abbrev pub dispatcher : ScheduledNotificationDispatcher S
  dispatcher =
      new_dispatcher (new_scheduled_notification_repository p db) (new_batch_publisher p json js)
        batch clock

  pub batch_row :
      (t : String) (ms : List Payload) (s : S) (id : String)
      → row (publish_batch p json js t ms s).0 id ≡ row s id
  batch_row t ms s id =
      publish_batch-state p json js (λ z. row z id ≡ row s id)
        (λ v u c h. laws.async_row v u c id ∙ h) (λ v h. laws.complete_row v id ∙ h)
        (λ v f h. laws.outcome_row v f id ∙ h) t ms s refl

  pub batch_rows :
      (t : String) (ms : List Payload) (s : S) → rows (publish_batch p json js t ms s).0 ≡ rows s
  batch_rows t ms s =
      publish_batch-state p json js (λ z. rows z ≡ rows s) (λ v u c h. laws.async_rows v u c ∙ h)
        (λ v h. laws.complete_rows v ∙ h) (λ v f h. laws.outcome_rows v f ∙ h) t ms s refl

  pub claimed-Stands :
      (s s' : S) (t : ℕ) (l : ℤ) (ns : List ScheduledNotification) (id : String)
      → db.raw due_statement t l s ≡ (s', ok ns)
      → Stands (row s id)
      → Stands (row s' id) ⊎ HasId id ns
  claimed-Stands s s' t l ns id h (n, there) = elim (laws.claim_row s s' t l ns id h) [
    | inl same ↦ inl (n, same ∙ there)
    | inr (gone, claimed) ↦ inr claimed
  ]

  pub upsert-Stands :
      (ns : List ScheduledNotification) (s s' : S) (id : String)
      → upsert_all p db ns s ≡ (s', ok tt)
      → Stands (row s id) ⊎ HasId id ns
      → Stands (row s' id)
  unfolding upsert_all
  upsert-Stands [] s s' id h (inl there) = subst (λ x. Stands (row x id)) (ap (λ x. x.0) h) there
  upsert-Stands [] s s' id h (inr listed) = absurd listed
  upsert-Stands (n ∷ ns) s s' id h there =
      let stored =
        on_error-ok (wrap p "pg batch upsert scheduled notifications: ") (db.insert _) s h in
      subst Stands (sym (laws.insert_row s s' _ id stored)) (go there)
    where
      go : Stands (row s id) ⊎ HasId id (n ∷ ns) → Stands (upserted (n ∷ ns) id (row s id))
      go (inl old) = upserted-Stands (n ∷ ns) id (row s id) old
      go (inr listed) = upserted-listed (n ∷ ns) id (row s id) listed

  pub upsert_stored :
      (ns : List ScheduledNotification) (s : S) (t b : String)
      → stream.stored s t b
      → stream.stored (upsert_all p db ns s).0 t b
  unfolding upsert_all
  upsert_stored [] s t b h = h
  upsert_stored (n ∷ ns) s t b h = laws.insert_stored s _ t b h

  pub claim-ok :
      (s s' : S) (t : ℕ) (l : ℤ) (ns : List ScheduledNotification)
      → delete_by_scheduled_at_before_returning p db t l s ≡ (s', ok ns)
      → db.raw due_statement t (at_least_one l) s ≡ (s', ok ns)
  unfolding delete_by_scheduled_at_before_returning
  claim-ok s s' t l ns h =
      on_error-ok (wrap p "pg find and delete due scheduled notifications: ")
        (db.raw due_statement t (at_least_one l)) s h

  pub claim-err :
      (s s' : S) (t : ℕ) (l : ℤ) (e : Error)
      → delete_by_scheduled_at_before_returning p db t l s ≡ (s', err e)
      → (e' : Error) × (db.raw due_statement t (at_least_one l) s ≡ (s', err e'))
  unfolding delete_by_scheduled_at_before_returning
  claim-err s s' t l e h =
      on_error-err (wrap p "pg find and delete due scheduled notifications: ")
        (db.raw due_statement t (at_least_one l)) s h

  pub claim_stored :
      (n : ℕ) (l : ℤ) (s : S) (t b : String)
      → stream.stored s t b
      → stream.stored (delete_by_scheduled_at_before_returning p db n l s).0 t b
  unfolding delete_by_scheduled_at_before_returning
  claim_stored n l s t b h = laws.claim_stored s n (at_least_one l) t b h

  -- The table in Postgres and the publisher of NATS meet the contract of the dispatcher.
  unfoldable pub dispatcher_laws : Lawful dispatcher
  unfolding new_dispatcher new_scheduled_notification_repository new_batch_publisher
  dispatcher_laws = record {
    waiting = λ s id. Stands (row s id);
    announced = λ s m. Announced p json stream s Topic.scheduled_notification_due m;
    rows = rows;
    clock_waiting = λ s id h. subst Stands (sym (laws.clock_row s id)) h;
    clock_announced = λ s m (b, marshalled, there). (b, marshalled, laws.clock_stored s _ b there);
    clock_rows = laws.clock_rows;
    claim_announced = λ s t m (b, marshalled, there).
        (b, marshalled, claim_stored t dispatcher.batch s _ b there);
    claim_ok = λ s s' t ns id h there.
        claimed-Stands s s' t _ ns id (claim-ok s s' t dispatcher.batch ns h) there;
    claim_rows = λ s s' t ns h. laws.claim_rows s s' t _ ns (claim-ok s s' t dispatcher.batch ns h);
    claim_error = λ s s' t e id h there.
        subst Stands
          (sym (laws.claim_error s s' t _ _ id (claim-err s s' t dispatcher.batch e h).1)) there;
    publish_waiting = λ s t ms id there. subst Stands (sym (batch_row t ms s id)) there;
    publish_rows = λ s t ms. batch_rows t ms s;
    publish_announced = λ s t ms m (b, marshalled, there).
        (b, marshalled, publish_batch_keeps p json stream t ms s _ b there);
    publish_ok = λ s s' ms m h listed.
        publish_batch-Announced p json stream Topic.scheduled_notification_due ms s s' m h listed;
    upsert_announced =
        λ s ns m (b, marshalled, there). (b, marshalled, upsert_stored ns s _ b there);
    upsert_ok = λ s s' ns id h there. upsert-Stands ns s s' id h there;
  }

  -- Over a database, a JetStream and a clock that behave as documented: a tick of the dispatcher of
  -- the service ends within as many passes as the table has rows and one more, if nobody else adds
  -- any meanwhile. Then each notification that had a row, or whose message was in the stream, has a
  -- row or a message in the stream, provided that every write of the table succeeds.
  pub deployed-EndsWithAll :
      (fuel : ℕ) (s : S)
      → StoresAlways dispatcher
      → rows s < fuel
      → EndsWithAll dispatcher_laws s (tick dispatcher fuel s)
  unfolding dispatcher_laws
  deployed-EndsWithAll fuel s stores enough = tick-EndsWithAll dispatcher_laws fuel s stores enough
