-- ===== src/Store/Postgres/Contract.antt =====
-- The repository in Postgres under the contract that the service relies on.
use insider_notification.Base.{
  ℕ, zero, ℤ, pos, String, true, false, Option, none, some, List, [], ◌∷◌, ◌++◌, ◌≡◌, ◌≢◌, refl,
  sym, ap, subst, ◌==◌, eqb, Bool-cases, inl, inr, if◌then◌else◌, test_of_ne,
}
use insider_notification.Errors.{Error, is_db_not_found, is_no_rows}
use insider_notification.Effect.{Result, ok, err, on_error, on_error-ok, map_error}
use insider_notification.Platform.{Platform}
use insider_notification.Public.Events.{Payload}
use insider_notification.Store.{DbNotification, Ids}
use insider_notification.Ports.{Publisher}
use insider_notification.Store.Postgres.{
  Bun, blank, not_found, create_batch, get_by_id, new_notification_repository,
}
use insider_notification.Service.Contract.{Table, update, IsStamped, HasStatus, Lawful}
use insider_notification.Service.Evolution.{Evolves}
use insider_notification.History.{Operation, perform_all, perform_all-Evolves}

abbrev pub or_text : String → String → String
or_text new old = if new == "" then old else new

abbrev pub or_some : Option ℕ → Option ℕ → Option ℕ
or_some none old = old
or_some (some v) old = some v

abbrev pub or_number : ℤ → ℤ → ℤ
or_number (pos zero) old = old
or_number v old = v

-- The row after an update that omits the zero fields of `n`, but for the time of the update.
abbrev pub merge : DbNotification → DbNotification → DbNotification
merge n e = record e {
  created_at = if eqb n.created_at 0 then e.created_at else n.created_at;
  batch_id = or_some n.batch_id e.batch_id;
  recipient = or_text n.recipient e.recipient;
  channel = or_text n.channel e.channel;
  content = or_text n.content e.content;
  priority = or_text n.priority e.priority;
  status = or_text n.status e.status;
  deliver_after = or_some n.deliver_after e.deliver_after;
  max_attempts = or_number n.max_attempts e.max_attempts;
}

-- What bun and the database do, by their documentation: an insert adds its row, or fails; a select
-- by primary key reads its row and says `sql.ErrNoRows` where there is none; an update by primary
-- key sets the fields that are not zero, fails where nothing is to be set, and changes nothing
-- where it fails.
pub record DatabaseLaws {S : Type 0} (ids : Ids S) (db : Bun S) (publisher : Publisher S)
    : Type 0 where
  pub row : S → Table
  pub sent : S → List (String × Payload)
  pub new_row : (s : S) → row (ids.new s).0 ≡ row s
  pub new_v7_row : (s : S) → row (ids.new_v7 s).0 ≡ row s
  pub new_v7_sent : (s : S) → sent (ids.new_v7 s).0 ≡ sent s
  pub new_v7_fresh : (s s' : S) (id : ℕ) → ids.new_v7 s ≡ (s', ok id) → row s id ≡ none
  pub insert_stamped :
      (s s' : S) (e e' : DbNotification) → db.insert e s ≡ (s', ok e') → IsStamped e e'
  pub insert_row :
      (s s' : S) (e e' : DbNotification)
      → db.insert e s ≡ (s', ok e')
      → row s' ≡ update (row s) e.id e'
  pub insert_keeps :
      (s : S) (e old : DbNotification) (id : ℕ)
      → row s id ≡ some old
      → row (db.insert e s).0 id ≡ some old
  pub insert_sent : (s : S) (e : DbNotification) → sent (db.insert e s).0 ≡ sent s
  pub insert_all_keeps :
      (s : S) (es : List DbNotification) (old : DbNotification) (id : ℕ)
      → row s id ≡ some old
      → row (db.insert_all es s).0 id ≡ some old
  pub select_row : (s : S) (id : ℕ) → row (db.select_pk id s).0 ≡ row s
  pub select_sent : (s : S) (id : ℕ) → sent (db.select_pk id s).0 ≡ sent s
  pub select_ok :
      (s s' : S) (id : ℕ) (e : DbNotification) → db.select_pk id s ≡ (s', ok e) → row s id ≡ some e
  pub select_none :
      (s s' : S) (id : ℕ) (x : Error)
      → db.select_pk id s ≡ (s', err x)
      → is_no_rows x ≡ true
      → row s id ≡ none
  pub select_foreign :
      (s s' : S) (id : ℕ) (x : Error) → db.select_pk id s ≡ (s', err x) → is_db_not_found x ≡ false
  pub update_merges :
      (s s' : S) (n e' : DbNotification)
      → db.update_pk n s ≡ (s', ok e')
      → (e : DbNotification) × (row s n.id ≡ some e)
        × (e' ≡ record (merge n e) { updated_at = e'.updated_at })
        × (row s' ≡ update (row s) n.id e')
  pub update_empty :
      (s s' : S) (id : ℕ) (e' : DbNotification) → ¬ (db.update_pk (blank id "") s ≡ (s', ok e'))
  pub update_error :
      (s s' : S) (n : DbNotification) (x : Error) → db.update_pk n s ≡ (s', err x) → row s' ≡ row s
  pub update_sent : (s : S) (n : DbNotification) → sent (db.update_pk n s).0 ≡ sent s
  pub publish_row : (s : S) (t : String) (m : Payload) → row (publisher.publish t m s).0 ≡ row s
  pub publish_ok :
      (s s' : S) (t : String) (m : Payload)
      → publisher.publish t m s ≡ (s', ok tt)
      → sent s' ≡ sent s ++ (t, m) ∷ []

-- An update of the status alone.
pub merge-blank :
    (id : ℕ) (status : String) (e e' : DbNotification)
    → status ≢ ""
    → e' ≡ record (merge (blank id status) e) { updated_at = e'.updated_at }
    → HasStatus status e e'
merge-blank id status e e' filled h =
    let set : or_text status e.status ≡ status = rw (test_of_ne status "" filled) refl in
    subst (λ t. e' ≡ record e { updated_at = e'.updated_at; status = t }) set h

-- What `GetByID` makes of an error of the database: the error of the program stands for
-- `sql.ErrNoRows` alone.
not_found-no_rows :
    (x : Error)
    → is_db_not_found x ≡ false
    → is_db_not_found (not_found x) ≡ true
    → is_no_rows x ≡ true
not_found-no_rows x foreign missing = elim (Bool-cases (is_no_rows x)) [
  | inl none_ ↦ none_
  | inr some_ ↦ cc (foreign, rw some_ at missing)
]

module _ {S : Type 0} (p : Platform) {ids : Ids S} {db : Bun S} {publisher : Publisher S}
    (laws : DatabaseLaws ids db publisher) where
  open laws use {row, sent}

  -- An update that succeeds had a status to set.
  pub status_set :
      (s s' : S) (id : ℕ) (status : String) (e' : DbNotification)
      → db.update_pk (blank id status) s ≡ (s', ok e')
      → status ≢ ""
  status_set s s' id status e' h same =
      laws.update_empty s s' id e' (subst (λ t. db.update_pk (blank id t) s ≡ (s', ok e')) same h)

  pub missing-row :
      (s s' : S) (id : ℕ) (x : Error)
      → on_error not_found (db.select_pk id) s ≡ (s', err x)
      → is_db_not_found x ≡ true
      → row s id ≡ none
  missing-row s s' id x h missing = go (db.select_pk id s) refl (ap (λ y. y.1) h)
    where
      go :
          (y : S × Result DbNotification)
          → db.select_pk id s ≡ y
          → map_error not_found y.1 ≡ err x
          → row s id ≡ none
      go (u, ok e) read same = cc
      go (u, err z) read same =
          let error : not_found z ≡ x = cc in
          laws.select_none s u id z read (
            not_found-no_rows z (laws.select_foreign s u id z read)
              (subst (λ w. is_db_not_found w ≡ true) (sym error) missing))

  pub create_batch_keeps :
      (s : S) (es : List DbNotification) (old : DbNotification) (id : ℕ)
      → row s id ≡ some old
      → row (create_batch p db es s).0 id ≡ some old
  unfolding create_batch
  create_batch_keeps s [] old id h = h
  create_batch_keeps s (e ∷ es) old id h = laws.insert_all_keeps s (e ∷ es) old id h

  -- The repository meets the contract.
  unfoldable pub repository_laws : Lawful ids (new_notification_repository p db) publisher
  unfolding new_notification_repository get_by_id
  repository_laws = record {
    row = row;
    sent = sent;
    new_row = laws.new_row;
    new_v7_row = laws.new_v7_row;
    new_v7_sent = laws.new_v7_sent;
    new_v7_fresh = laws.new_v7_fresh;
    create_stamped = laws.insert_stamped;
    create_row = laws.insert_row;
    create_keeps = laws.insert_keeps;
    create_batch_keeps = create_batch_keeps;
    create_sent = laws.insert_sent;
    get_row = laws.select_row;
    get_sent = laws.select_sent;
    get_ok = λ s s' id e h. laws.select_ok s s' id e (on_error-ok not_found (db.select_pk id) s h);
    get_missing = missing-row;
    update_old = λ s s' id status e' h.
        let (e, there, same, _) = laws.update_merges s s' (blank id status) e' h in
        (e, there, merge-blank id status e e' (status_set s s' id status e' h) same);
    update_row = λ s s' id status e' h. (laws.update_merges s s' (blank id status) e' h).3;
    update_err = λ s s' id status x h. laws.update_error s s' (blank id status) x h;
    update_sent = λ s id status. laws.update_sent s (blank id status);
    publish_row = laws.publish_row;
    publish_ok = laws.publish_ok;
  }

  -- Over a database that behaves as documented, the service with the repository in Postgres keeps
  -- its rows through any series of calls, those that fail included: the status of each moves only
  -- along edges of the diagram, and its other fields, but for the time of the update, stay.
  pub postgres-Evolves :
      (os : List Operation) (s : S)
      → Evolves (row s) (row (perform_all p ids (new_notification_repository p db) publisher os s))
  unfolding repository_laws
  postgres-Evolves os s = perform_all-Evolves p repository_laws os s
