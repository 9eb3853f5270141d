-- ===== src/Service/Contract.antt =====
-- What the service relies on in its repository and its publisher: an insert adds rows and changes
-- none that is there, an update of a primary key changes that row's status or fails and changes
-- nothing, reads and publications leave the table alone, UUIDs are new, and a publication that is
-- acknowledged is stored by the broker.
use insider_notification.Base.{
  ℕ, String, true, Option, none, some, List, [], ◌∷◌, ◌++◌, ◌≡◌, ◌∙◌, ap, sym, eqb, if◌then◌else◌,
}
use insider_notification.Errors.{Error, is_db_not_found}
use insider_notification.Effect.{ok, err, on_error, on_error-ok}
use insider_notification.Public.Events.{Payload}
use insider_notification.Store.{DbNotification, Ids, NotificationRepository}
use insider_notification.Ports.{Publisher}

-- The table as a function of the primary key.
abbrev pub Table : Type 0
Table = ℕ → Option DbNotification

abbrev pub update : Table → ℕ → DbNotification → Table
update t k e j = if eqb k j then some e else t j

-- The same row, but for the times that the database sets.
abbrev pub IsStamped : DbNotification → DbNotification → Type 0
IsStamped e e' = e' ≡ record e { created_at = e'.created_at; updated_at = e'.updated_at }

-- The same row with another status, but for the time of the update.
abbrev pub HasStatus : String → DbNotification → DbNotification → Type 0
HasStatus status e e' = e' ≡ record e { status = status; updated_at = e'.updated_at }

pub record Lawful {S : Type 0} (ids : Ids S) (repo : NotificationRepository S)
    (publisher : Publisher S) : Type 0 where
  -- the table and the messages that the broker has acknowledged, oldest first
  pub row : S → Table
  pub sent : S → List (String × Payload)
  pub new_row : (s : S) → row (ids.new s).0 ≡ row s
  pub new_v7_row : (s : S) → row (ids.new_v7 s).0 ≡ row s
  pub new_v7_sent : (s : S) → sent (ids.new_v7 s).0 ≡ sent s
  pub new_v7_fresh : (s s' : S) (id : ℕ) → ids.new_v7 s ≡ (s', ok id) → row s id ≡ none
  pub create_stamped :
      (s s' : S) (e e' : DbNotification) → repo.create e s ≡ (s', ok e') → IsStamped e e'
  pub create_row :
      (s s' : S) (e e' : DbNotification)
      → repo.create e s ≡ (s', ok e')
      → row s' ≡ update (row s) e.id e'
  pub create_keeps :
      (s : S) (e old : DbNotification) (id : ℕ)
      → row s id ≡ some old
      → row (repo.create e s).0 id ≡ some old
  pub create_batch_keeps :
      (s : S) (es : List DbNotification) (old : DbNotification) (id : ℕ)
      → row s id ≡ some old
      → row (repo.create_batch es s).0 id ≡ some old
  pub create_sent : (s : S) (e : DbNotification) → sent (repo.create e s).0 ≡ sent s
  pub get_row : (s : S) (id : ℕ) → row (repo.get_by_id id s).0 ≡ row s
  pub get_sent : (s : S) (id : ℕ) → sent (repo.get_by_id id s).0 ≡ sent s
  pub get_ok :
      (s s' : S) (id : ℕ) (e : DbNotification)
      → repo.get_by_id id s ≡ (s', ok e)
      → row s id ≡ some e
  pub get_missing :
      (s s' : S) (id : ℕ) (x : Error)
      → repo.get_by_id id s ≡ (s', err x)
      → is_db_not_found x ≡ true
      → row s id ≡ none
  pub update_old :
      (s s' : S) (id : ℕ) (status : String) (e' : DbNotification)
      → repo.update_status id status s ≡ (s', ok e')
      → (e : DbNotification) × (row s id ≡ some e) × HasStatus status e e'
  pub update_row :
      (s s' : S) (id : ℕ) (status : String) (e' : DbNotification)
      → repo.update_status id status s ≡ (s', ok e')
      → row s' ≡ update (row s) id e'
  pub update_err :
      (s s' : S) (id : ℕ) (status : String) (x : Error)
      → repo.update_status id status s ≡ (s', err x)
      → row s' ≡ row s
  pub update_sent :
      (s : S) (id : ℕ) (status : String) → sent (repo.update_status id status s).0 ≡ sent s
  pub publish_row : (s : S) (t : String) (m : Payload) → row (publisher.publish t m s).0 ≡ row s
  pub publish_ok :
      (s s' : S) (t : String) (m : Payload)
      → publisher.publish t m s ≡ (s', ok tt)
      → sent s' ≡ sent s ++ (t, m) ∷ []

module _ {S : Type 0} {ids : Ids S} {repo : NotificationRepository S} {publisher : Publisher S}
    (laws : Lawful ids repo publisher) where
  open laws use {row, sent}

  -- A publication that succeeds adds its message and leaves the table alone.
  pub announced :
      (f : Error → Error) (t : String) (m : Payload) (s s' : S)
      → on_error f (publisher.publish t m) s ≡ (s', ok tt)
      → (row s' ≡ row s) × (sent s' ≡ sent s ++ (t, m) ∷ [])
  announced f t m s s' h =
      let e = on_error-ok f (publisher.publish t m) s h in
      (ap row (sym (ap (λ x. x.0) e)) ∙ laws.publish_row s t m, laws.publish_ok s s' t m e)

  -- Whether it succeeds or not, the table is the same.
  pub publishing-row :
      (f : Error → Error) (t : String) (m : Payload) (s : S)
      → row (on_error f (publisher.publish t m) s).0 ≡ row s
  publishing-row f t m s = laws.publish_row s t m
