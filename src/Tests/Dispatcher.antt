-- ===== src/Tests/Dispatcher.antt =====
-- The dispatcher on an in-memory table, with a broker that may be out.
use insider_notification.Base.{
  ◌+◌, pos, String, Bool, true, false, some, List, [], ◌∷◌, ◌++◌, ◌≡◌, ◌<◌, refl, sym, ap, subst,
  ◌⊎◌, inl, inr, length, arith,
}
use insider_notification.Errors.{Error, other}
use insider_notification.Effect.{Result, ok, err}
use insider_notification.Public.Events.{Payload}
use insider_notification.Ports.{Listed}
use insider_notification.Scheduler.{ScheduledNotification, ScheduledNotificationDispatcher, tick}
use insider_notification.Scheduler.Conservation.{
  HasId, Lawful, StoresAlways, EndsWithAll, tick-EndsWithAll,
}

record Table : Type 0 where
  stored : List ScheduledNotification
  told : List Payload
  out : Bool

-- The first row is due.
claim : List ScheduledNotification → Table → Table × Result (List ScheduledNotification)
claim [] s = (s, ok [])
claim (n ∷ ns) s = (record s { stored = ns }, ok (n ∷ []))

send : Bool → List Payload → Table → Table × Result (Unit {0})
send true ms s = (s, err (other "nats: timeout"))
send false ms s = (record s { told = ms ++ s.told }, ok tt)

unfoldable dispatcher : ScheduledNotificationDispatcher Table
unfolding claim send
dispatcher = record {
  repo = record {
    upsert_all = λ ns s. (record s { stored = ns ++ s.stored }, ok tt);
    delete_by_scheduled_at_before_returning = λ t l s. claim s.stored s;
    delete_by_notification_id = λ id s. (s, ok tt);
  };
  publisher = record { publish_batch = λ t ms s. send s.out ms s };
  batch = pos 100;
  clock = λ s. (s, 7);
}

Listed-right : (m : Payload) (xs ys : List Payload) → Listed m ys → Listed m (xs ++ ys)
Listed-right m [] ys h = h
Listed-right m (x ∷ xs) ys h = inr (Listed-right m xs ys h)

Listed-left : (m : Payload) (xs ys : List Payload) → Listed m xs → Listed m (xs ++ ys)
Listed-left m [] ys h = absurd h
Listed-left m (x ∷ xs) ys (inl h) = inl h
Listed-left m (x ∷ xs) ys (inr h) = inr (Listed-left m xs ys h)

HasId-append :
    (id : String) (xs ys : List ScheduledNotification)
    → HasId id ys ⊎ HasId id xs
    → HasId id (xs ++ ys)
HasId-append id [] ys (inl h) = h
HasId-append id [] ys (inr h) = absurd h
HasId-append id (x ∷ xs) ys (inl h) = inr (HasId-append id xs ys (inl h))
HasId-append id (x ∷ xs) ys (inr (inl h)) = inl h
HasId-append id (x ∷ xs) ys (inr (inr h)) = inr (HasId-append id xs ys (inr h))

claim_keeps :
    (rows : List ScheduledNotification) (s s' : Table) (ns : List ScheduledNotification)
    (id : String)
    → s.stored ≡ rows
    → claim rows s ≡ (s', ok ns)
    → HasId id rows
    → HasId id s'.stored ⊎ HasId id ns
unfolding claim
claim_keeps [] s s' ns id at h waits = absurd waits
claim_keeps (n ∷ rest) s s' ns id at h (inl same) =
    let one : n ∷ [] ≡ ns = cc in inr (subst (λ l. HasId id l) one (inl same))
claim_keeps (n ∷ rest) s s' ns id at h (inr later) =
    inl (subst (λ l. HasId id l) (ap (λ x. x.0.stored) h) later)

claim_count :
    (rows : List ScheduledNotification) (s s' : Table) (ns : List ScheduledNotification)
    → s.stored ≡ rows
    → claim rows s ≡ (s', ok ns)
    → length s'.stored + length ns ≡ length rows
unfolding claim
claim_count [] s s' ns at h =
    let none_ : [] ≡ ns = cc in
    let same = ap (λ x. length x.0.stored) h in
    let empty = ap length at in let none_length = ap length none_ in omega arith
claim_count (n ∷ rest) s s' ns at h =
    let one : n ∷ [] ≡ ns = cc in
    let same = ap (λ x. length x.0.stored) h in let one_length = ap length one in omega arith

claim_told : (rows : List ScheduledNotification) (s : Table) → (claim rows s).0.told ≡ s.told
unfolding claim
claim_told [] s = refl
claim_told (n ∷ rest) s = refl

claim_fine :
    (rows : List ScheduledNotification) (s s' : Table) (e : Error) → ¬ (claim rows s ≡ (s', err e))
unfolding claim
claim_fine [] s s' e h = cc
claim_fine (n ∷ rest) s s' e h = cc

send_stored : (b : Bool) (ms : List Payload) (s : Table) → (send b ms s).0.stored ≡ s.stored
unfolding send
send_stored true ms s = refl
send_stored false ms s = refl

send_told :
    (b : Bool) (ms : List Payload) (s : Table) (m : Payload)
    → Listed m s.told
    → Listed m (send b ms s).0.told
unfolding send
send_told true ms s m h = h
send_told false ms s m h = Listed-right m ms s.told h

send_all :
    (b : Bool) (ms : List Payload) (s s' : Table) (m : Payload)
    → send b ms s ≡ (s', ok tt)
    → Listed m ms
    → Listed m s'.told
unfolding send
send_all true ms s s' m h listed = cc
send_all false ms s s' m h listed =
    subst (λ l. Listed m l) (ap (λ x. x.0.told) h) (Listed-left m ms s.told listed)

unfoldable laws : Lawful dispatcher
unfolding dispatcher
laws = record {
  waiting = λ s id. HasId id s.stored;
  announced = λ s m. Listed m s.told;
  rows = λ s. length s.stored;
  clock_waiting = λ s id h. h;
  clock_announced = λ s m h. h;
  clock_rows = λ s. refl;
  claim_announced = λ s t m h. subst (λ l. Listed m l) (sym (claim_told s.stored s)) h;
  claim_ok = λ s s' t ns id h w. claim_keeps s.stored s s' ns id refl h w;
  claim_rows = λ s s' t ns h. claim_count s.stored s s' ns refl h;
  claim_error = λ s s' t e id h w. absurd (claim_fine s.stored s s' e h);
  publish_waiting = λ s t ms id w. subst (λ l. HasId id l) (sym (send_stored s.out ms s)) w;
  publish_rows = λ s t ms. ap length (send_stored s.out ms s);
  publish_announced = λ s t ms m h. send_told s.out ms s m h;
  publish_ok = λ s s' ms m h l. send_all s.out ms s s' m h l;
  upsert_announced = λ s ns m h. h;
  upsert_ok = λ s s' ns id h w.
      subst (λ l. HasId id l) (ap (λ x. x.0.stored) h) (HasId-append id ns s.stored w);
}

stores : StoresAlways dispatcher
unfolding dispatcher
stores s ns = refl

abbrev row : String → ScheduledNotification
row id = record { notification_id = id; scheduled_at = some 5; trace_metadata = [] }

abbrev start : Table
start = record { stored = row "1" ∷ row "2" ∷ []; told = []; out = true }

enough : laws.rows start < 3
unfolding laws
enough = omega arith

tick-EndsWithAll_example : EndsWithAll laws start (tick dispatcher 3 start)
tick-EndsWithAll_example = tick-EndsWithAll laws 3 start stores enough
