-- ===== src/Reports/Settled.antt =====
-- How a delivery result is settled, by the status of its notification.
use insider_notification.Base.{ℕ, Option, none, some, ◌≡◌, refl, ap, sym, ◌∙◌}
use insider_notification.Effect.{Result, ok, err, then_on}
use insider_notification.Platform.{Platform}
use insider_notification.Public.Events.{NotificationDeliveryResultEvent}
use insider_notification.Domain.Lifecycle.{IsAllowed, transition-refused}
use insider_notification.Store.{DbNotification, Ids, NotificationRepository, to_domain}
use insider_notification.Ports.{Publisher, acked, nacked, reply_to}
use insider_notification.Service.{update_status, update_entity, write_status, check_transition}
use insider_notification.Service.Contract.{Lawful, HasStatus, update}
use insider_notification.Service.Cancel.{update_status-ok}
use insider_notification.Reports.{process_id, process_result}

module _ {S : Type 0} (p : Platform) {ids : Ids S} {repo : NotificationRepository S}
    {publisher : Publisher S} (laws : Lawful ids repo publisher) where
  open laws use {row, sent}

  -- The report has been written: of a notification whose status allowed it, and nothing else.
  abbrev pub Written : NotificationDeliveryResultEvent → S → S → Type 0
  Written evt s s' =
      (id : ℕ) × (p.parse_uuid evt.notification_id ≡ some id)
      × ((e e' : DbNotification) × (row s id ≡ some e)
          × IsAllowed e.status evt.status
          × HasStatus evt.status e e'
          × (row s' ≡ update (row s) id e')
          × (sent s' ≡ sent s))

  updated-Written :
      (evt : NotificationDeliveryResultEvent) (id : ℕ) (s : S) (x : S × Result (Unit {0}))
      → p.parse_uuid evt.notification_id ≡ some id
      → update_status p ids repo publisher id evt.status s ≡ x
      → (reply_to x).1 ≡ acked
      → Written evt s (reply_to x).0
  updated-Written evt id s (s', ok _) parsed run done =
      (id, parsed, update_status-ok p laws s s' id evt.status run)
  updated-Written evt id s (s', err e) parsed run done = cc

  process_id-Written :
      (evt : NotificationDeliveryResultEvent) (o : Option ℕ) (s : S)
      → p.parse_uuid evt.notification_id ≡ o
      → (process_id p ids repo publisher evt o s).1 ≡ acked
      → Written evt s (process_id p ids repo publisher evt o s).0
  process_id-Written evt none s parsed done = cc
  process_id-Written evt (some id) s parsed done = updated-Written evt id s _ parsed refl done

  -- With lawful ports: a delivery result is acknowledged only if its id is valid, its notification
  -- is stored with a status that allows the reported one, and exactly that status has been written.
  pub process_result-Written :
      (evt : NotificationDeliveryResultEvent) (s : S)
      → (process_result p ids repo publisher evt s).1 ≡ acked
      → Written evt s (process_result p ids repo publisher evt s).0
  unfolding process_result
  process_result-Written evt s done = process_id-Written evt _ s refl done

  -- With lawful ports: a delivery result for a notification, by a valid id, whose status as read
  -- does not allow the reported one is negatively acknowledged, and no row has changed.
  pub process_result-refused :
      (evt : NotificationDeliveryResultEvent) (id : ℕ) (s t : S) (e : DbNotification)
      → p.parse_uuid evt.notification_id ≡ some id
      → repo.get_by_id id s ≡ (t, ok e)
      → ¬ IsAllowed e.status evt.status
      → (process_result p ids repo publisher evt s ≡ (t, nacked)) × (row t ≡ row s)
  unfolding process_result update_status update_entity check_transition to_domain
  process_result-refused evt id s t e parsed found barred =
      let (x, refused, why) = transition-refused p evt.status (to_domain e) barred in
      (
        ap (λ o. process_id p ids repo publisher evt o s) parsed
            ∙ ap (λ y. reply_to (then_on (update_entity p ids repo publisher id evt.status) y))
                found
            ∙ ap
                (λ y.
                  reply_to
                    (then_on (λ _. write_status p ids repo publisher id evt.status) (t, y.1)))
                refused,
        ap row (sym (ap (λ y. y.0) found)) ∙ laws.get_row s id,
      )
