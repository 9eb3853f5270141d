-- ===== src/History.antt =====
-- Series of operations of the API service, each run to its end before the next one begins.
use insider_notification.Base.{ℕ, String, List, [], ◌∷◌, ◌≡◌, refl, some, sym}
use insider_notification.Platform.{Platform}
use insider_notification.Domain.{Notification}
use insider_notification.Domain.Lifecycle.{IsTerminal, Reach-terminal}
use insider_notification.Store.{DbNotification, Ids, NotificationRepository}
use insider_notification.Ports.{Publisher}
use insider_notification.Service.{create, get_by_id, cancel, update_status}
use insider_notification.Batch.{create_batch}
use insider_notification.Service.Contract.{Lawful}
use insider_notification.Service.Evolution.{
  Evolves, Evolves-of_eq, Evolves-trans, create-Evolves, cancel-Evolves, update_status-Evolves,
}
use insider_notification.Batch.Evolution.{create_batch-Evolves}

-- A call of the service's interface that may change state or read a row.
pub data Operation : Type 0 where
  creating : Notification → Operation
  batch : List Notification → Operation
  reading : (id : ℕ) → Operation
  cancelling : (id : ℕ) → Operation
  updating : (id : ℕ) (status : String) → Operation

module _ {S : Type 0} (p : Platform) (ids : Ids S) (repo : NotificationRepository S)
    (publisher : Publisher S) where
  -- The state after a call, whatever it returns.
  pub perform : Operation → S → S
  perform (creating n) s = (create p ids repo publisher n s).0
  perform (batch ns) s = (create_batch p ids repo publisher ns s).0
  perform (reading id) s = (get_by_id p ids repo publisher id s).0
  perform (cancelling id) s = (cancel p ids repo publisher id s).0
  perform (updating id status) s = (update_status p ids repo publisher id status s).0

  unfoldable pub perform_all : List Operation → S → S
  perform_all [] s = s
  perform_all (o ∷ os) s = perform_all os (perform o s)

module _ {S : Type 0} (p : Platform) {ids : Ids S} {repo : NotificationRepository S}
    {publisher : Publisher S} (laws : Lawful ids repo publisher) where
  open laws use {row}

  perform-Evolves :
      (o : Operation) (s : S) → Evolves (row s) (row (perform p ids repo publisher o s))
  unfolding perform get_by_id
  perform-Evolves (creating n) s = create-Evolves p laws s n
  perform-Evolves (batch ns) s = create_batch-Evolves p laws ns s
  perform-Evolves (reading id) s = Evolves-of_eq (laws.get_row s id)
  perform-Evolves (cancelling id) s = cancel-Evolves p laws s id
  perform-Evolves (updating id status) s = update_status-Evolves p laws s id status

  -- With lawful ports: through any series of service calls, those that fail included, a row that
  -- exists stays in the table; its status moves only along edges of the diagram, and its other
  -- fields, but for the time of the update, stay as they are.
  pub perform_all-Evolves :
      (os : List Operation) (s : S) → Evolves (row s) (row (perform_all p ids repo publisher os s))
  unfolding perform_all
  perform_all-Evolves [] s = Evolves-of_eq refl
  perform_all-Evolves (o ∷ os) s =
      Evolves-trans (perform-Evolves o s)
        (perform_all-Evolves os (perform p ids repo publisher o s))

  -- A notification that is delivered or cancelled keeps that status through any series of calls.
  pub perform_all-terminal :
      (os : List Operation) (s : S) (id : ℕ) (e : DbNotification)
      → row s id ≡ some e
      → IsTerminal e.status
      → (e' : DbNotification) × (row (perform_all p ids repo publisher os s) id ≡ some e')
        × (e'.status ≡ e.status)
  perform_all-terminal os s id e found final =
      let (e', there, became) = perform_all-Evolves os s id e found in
      (e', there, sym (Reach-terminal became.moved final))
