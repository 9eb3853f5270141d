-- ===== src/Tests/Due.antt =====
-- A batch of due notifications with one that is stored, one that is not, and one without an id.
use insider_notification.Base.{String, List, [], ◌∷◌, All, ◌≡◌, refl, ap, subst, ◌⊎◌, inl, inr}
use insider_notification.Errors.{other}
use insider_notification.Effect.{ok, fail}
use insider_notification.Public.Events.{Payload, ScheduledNotificationDueEvent}
use insider_notification.Store.{NotificationRepository}
use insider_notification.Ports.{Publisher}
use insider_notification.Due.{handle_batch}
use insider_notification.Due.Acknowledged.{Announces, VisitsEntries, IsSound, handle_batch-IsSound}
use insider_notification.Tests.Memory.{platform}
use insider_notification.Tests.Api.{stored}

abbrev Broker : Type 0
Broker = List (String × Payload)

abbrev Holds : String × Payload → Broker → Type 0
Holds x [] = ⊥
Holds x (y ∷ ys) = (y ≡ x) ⊎ Holds x ys

abbrev one_stored : NotificationRepository Broker
one_stored = record {
  create = λ e. fail (other "read only");
  create_batch = λ es. fail (other "read only");
  get_by_id = λ id s. (s, ok stored);
  get_by_ids = λ ids s. (s, ok (stored ∷ []));
  list = λ f. fail (other "not supported");
  update_status = λ id status. fail (other "read only");
  find_scheduled_due = fail (other "not supported");
}

abbrev broker : Publisher Broker
broker = record { publish = λ t m s. ((t, m) ∷ s, ok tt) }

announces : Announces one_stored broker
announces = record {
  announced = λ s x. Holds x s;
  publish_ok = λ s s' t m h. subst (λ l. Holds (t, m) l) (ap (λ x. x.0) h) (inl refl);
  publish_keeps = λ s t m x h. inr h;
}

in_order : VisitsEntries (λ m. m)
in_order P m all = all

abbrev event : String → ScheduledNotificationDueEvent
event id = record { notification_id = id }

abbrev batch : List ScheduledNotificationDueEvent
batch = event "1" ∷ event "2" ∷ event "x" ∷ []

handle_batch-IsSound_example :
    All
      (IsSound platform
        (λ m. m)
        announces
        batch
        (handle_batch platform one_stored broker (λ m. m) batch []).0)
      (handle_batch platform one_stored broker (λ m. m) batch []).1
handle_batch-IsSound_example = handle_batch-IsSound platform (λ m. m) announces batch [] in_order
