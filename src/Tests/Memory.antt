-- ===== src/Tests/Memory.antt =====
-- An in-memory repository, publisher and source of ids, which meet the contract of the service.
use insider_notification.Base.{
  ℕ, String, Bool, true, false, Option, none, some, List, [], ◌∷◌, ◌++◌, ◌≡◌, refl, ap, sym, ◌∙◌,
  arith, eqb, eqb_iff, if◌then◌else◌, ◌==◌, suc, pos,
}
use insider_notification.Errors.{Error, other, db_not_found}
use insider_notification.Effect.{Result, ok, err, then_on, then_on-state, pure, fail}
use insider_notification.Platform.{Platform}
use insider_notification.Public.Events.{Payload}
use insider_notification.Store.{DbNotification, Ids, NotificationRepository}
use insider_notification.Ports.{Publisher}
use insider_notification.Service.Contract.{Table, update, HasStatus, Lawful}

abbrev pub platform : Platform
platform = record {
  parse_uuid = λ s. if s == "1" then some 1 else if s == "2" then some 2 else none;
  uuid_text = λ n. if eqb n 1 then "1" else if eqb n 2 then "2" else "0";
  parse_address = λ s. s == "a@b.c";
  parse_rfc3339 = λ s. if s == "2030-01-01T00:00:00Z" then some 7 else none;
  format_rfc3339 = λ n. "2030-01-01T00:00:00Z";
  quote = λ s. s;
  atoi = λ s. if s == "3" then some (pos 3) else none;
  itoa = λ n. "n";
  format_duration = λ d. "1s";
  equal_fold = λ a b. a == b;
}

-- `next` is the next id; `failing` makes the publications fail.
pub record Memory : Type 0 where
  pub table : Table
  pub sent : List (String × Payload)
  pub next : ℕ
  pub failing : Bool

abbrev pub fresh_id : Memory → Memory × Result ℕ
fresh_id s = (s, elim (s.table s.next) [ none ↦ ok s.next | some e ↦ err (other "id in use") ])

abbrev pub insert_at :
    Option DbNotification → DbNotification → Memory → Memory × Result DbNotification
insert_at none e s =
    let e' = record e { created_at = 5; updated_at = 5 } in
    (record s { table = update s.table e.id e'; next = suc s.next }, ok e')
insert_at (some old) e s = (s, err (other "duplicate key"))

abbrev pub insert : DbNotification → Memory → Memory × Result DbNotification
insert e s = insert_at (s.table e.id) e s

pub insert_all : List DbNotification → Memory → Memory × Result (List DbNotification)
insert_all [] s = (s, ok [])
insert_all (e ∷ es) s =
    then_on (λ e' s'. then_on (λ es'. pure (e' ∷ es')) (insert_all es s')) (insert e s)

-- A statement that fails changes nothing.
abbrev pub atomic : {A : Type 0} → Memory → Memory × Result A → Memory × Result A
atomic s (s', ok a) = (s', ok a)
atomic s (s', err x) = (s, err x)

abbrev pub found : {A : Type 0} → Option A → Result A
found (some a) = ok a
found none = err db_not_found

abbrev pub write_at : ℕ → Option DbNotification → String → Memory → Memory × Result DbNotification
write_at id none status s = (s, err (other "sql: no rows in result set"))
write_at id (some e) status s =
    let e' = record e { status = status; updated_at = 6 } in
    (record s { table = update s.table id e' }, ok e')

abbrev pub send : Bool → String → Payload → Memory → Memory × Result (Unit {0})
send true t m s = (s, err (other "nats: timeout"))
send false t m s = (record s { sent = s.sent ++ (t, m) ∷ [] }, ok tt)

abbrev pub ids : Ids Memory
ids = record { new_v7 = fresh_id; new = λ s. (s, 9) }

unfoldable pub repository : NotificationRepository Memory
unfolding insert_all
repository = record {
  create = insert;
  create_batch = λ es s. atomic s (insert_all es s);
  get_by_id = λ id s. (s, found (s.table id));
  get_by_ids = λ ids. fail (other "not supported");
  list = λ f. fail (other "not supported");
  update_status = λ id status s. write_at id (s.table id) status s;
  find_scheduled_due = fail (other "not supported");
}

abbrev pub publisher : Publisher Memory
publisher = record { publish = λ t m s. send s.failing t m s }

pub insert_keeps :
    (o : Option DbNotification) (s : Memory) (e old : DbNotification) (id : ℕ)
    → s.table e.id ≡ o
    → s.table id ≡ some old
    → (insert_at o e s).0.table id ≡ some old
insert_keeps none s e old id here there = ground (arith, eqb_iff e.id id)
insert_keeps (some d) s e old id here there = there

pub insert_all_keeps :
    (es : List DbNotification) (s : Memory) (old : DbNotification) (id : ℕ)
    → s.table id ≡ some old
    → (insert_all es s).0.table id ≡ some old
unfolding insert_all
insert_all_keeps [] s old id h = h
insert_all_keeps (e ∷ es) s old id h =
    let there = insert_keeps (s.table e.id) s e old id refl h in
    let kept = insert_all_keeps es (insert e s).0 old id there in
    then_on-state (λ (t : Memory). t.table id ≡ some old)
      (λ e' s'. then_on (λ es'. pure (e' ∷ es')) (insert_all es s')) (insert e s)
      (λ e' _.
        then_on-state {B = List DbNotification} (λ (t : Memory). t.table id ≡ some old)
          (λ es'. pure (e' ∷ es')) (insert_all es (insert e s).0) (λ _ _. kept) kept)
      there

pub atomic_keeps :
    {A : Type 0} (x : Memory × Result A) (s : Memory) (old : DbNotification) (id : ℕ)
    → s.table id ≡ some old
    → x.0.table id ≡ some old
    → (atomic s x).0.table id ≡ some old
atomic_keeps (s', ok a) s old id h k = k
atomic_keeps (s', err e) s old id h k = h

pub fresh_id_fresh :
    (o : Option DbNotification) (s : Memory) (id : ℕ)
    → s.table s.next ≡ o
    → (fresh_id s).1 ≡ ok id
    → s.table id ≡ none
fresh_id_fresh none s id here h = ground arith
fresh_id_fresh (some e) s id here h = ground arith

pub insert_ok :
    (o : Option DbNotification) (s s' : Memory) (e e' : DbNotification)
    → insert_at o e s ≡ (s', ok e')
    → (e' ≡ record e { created_at = e'.created_at; updated_at = e'.updated_at })
      × (s'.table ≡ update s.table e.id e')
insert_ok none s s' e e' h =
    let one : record e { created_at = 5; updated_at = 5 } ≡ e' = ground arith in
    (
      ground arith,
      ap (λ (x : Memory). x.table) (sym (ap (λ x. x.0) h)) ∙ ap (update s.table e.id) one,
    )
insert_ok (some old) s s' e e' h = (cc, cc)

pub write_ok :
    (o : Option DbNotification) (s s' : Memory) (id : ℕ) (status : String) (e' : DbNotification)
    → write_at id o status s ≡ (s', ok e')
    → (e : DbNotification) × (o ≡ some e)
      × HasStatus status e e'
      × (s'.table ≡ update s.table id e')
write_ok none s s' id status e' h = cc
write_ok (some e) s s' id status e' h =
    let one : record e { status = status; updated_at = 6 } ≡ e' = ground arith in
    (
      e,
      refl,
      ground arith,
      ap (λ (x : Memory). x.table) (sym (ap (λ x. x.0) h)) ∙ ap (update s.table id) one,
    )

pub write_err :
    (o : Option DbNotification) (s s' : Memory) (id : ℕ) (status : String) (x : Error)
    → write_at id o status s ≡ (s', err x)
    → s'.table ≡ s.table
write_err none s s' id status x h = ap (λ (t : Memory). t.table) (sym (ap (λ x. x.0) h))
write_err (some e) s s' id status x h = cc

pub write_sent :
    (o : Option DbNotification) (s : Memory) (id : ℕ) (status : String)
    → (write_at id o status s).0.sent ≡ s.sent
write_sent none s id status = refl
write_sent (some e) s id status = refl

pub insert_sent :
    (o : Option DbNotification) (s : Memory) (e : DbNotification)
    → (insert_at o e s).0.sent ≡ s.sent
insert_sent none s e = refl
insert_sent (some d) s e = refl

pub send_table :
    (b : Bool) (s : Memory) (t : String) (m : Payload) → (send b t m s).0.table ≡ s.table
send_table true s t m = refl
send_table false s t m = refl

pub send_ok :
    (b : Bool) (s s' : Memory) (t : String) (m : Payload)
    → send b t m s ≡ (s', ok tt)
    → s'.sent ≡ s.sent ++ (t, m) ∷ []
send_ok true s s' t m h = cc
send_ok false s s' t m h = ap (λ (x : Memory). x.sent) (sym (ap (λ x. x.0) h))

pub found_ok : (o : Option DbNotification) (e : DbNotification) → found o ≡ ok e → o ≡ some e
found_ok (some d) e h = ground arith
found_ok none e h = cc

pub found_missing : (o : Option DbNotification) (x : Error) → found o ≡ err x → o ≡ none
found_missing none x h = refl
found_missing (some d) x h = cc

unfoldable pub laws : Lawful ids repository publisher
unfolding repository
laws = record {
  row = λ s. s.table;
  sent = λ s. s.sent;
  new_row = λ s. refl;
  new_v7_row = λ s. refl;
  new_v7_sent = λ s. refl;
  new_v7_fresh = λ s s' id h. fresh_id_fresh (s.table s.next) s id refl (ap (λ x. x.1) h);
  create_stamped = λ s s' e e' h. (insert_ok (s.table e.id) s s' e e' h).0;
  create_row = λ s s' e e' h. (insert_ok (s.table e.id) s s' e e' h).1;
  create_keeps = λ s e old id h. insert_keeps (s.table e.id) s e old id refl h;
  create_batch_keeps =
      λ s es old id h. atomic_keeps (insert_all es s) s old id h (insert_all_keeps es s old id h);
  create_sent = λ s e. insert_sent (s.table e.id) s e;
  get_row = λ s id. refl;
  get_sent = λ s id. refl;
  get_ok = λ s s' id e h. found_ok (s.table id) e (ap (λ x. x.1) h);
  get_missing = λ s s' id x h _. found_missing (s.table id) x (ap (λ x. x.1) h);
  update_old = λ s s' id status e' h.
      let (e, there, same, _) = write_ok (s.table id) s s' id status e' h in (e, there, same);
  update_row = λ s s' id status e' h. (write_ok (s.table id) s s' id status e' h).3;
  update_err = λ s s' id status x h. write_err (s.table id) s s' id status x h;
  update_sent = λ s id status. write_sent (s.table id) s id status;
  publish_row = λ s t m. send_table s.failing s t m;
  publish_ok = λ s s' t m h. send_ok s.failing s s' t m h;
}
