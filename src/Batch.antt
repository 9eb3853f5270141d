-- ===== src/Batch.antt =====
-- `CreateBatch` of api/internal/service/notification.go.
pub mod Evolution
pub mod Results
use Prim.Native.String
use insider_notification.Base.{
  ℕ, String, Bool, true, false, Option, none, some, List, [], ◌∷◌, ◌+◌, map, if◌then◌else◌,
}
use insider_notification.Errors.{Error, message}
use insider_notification.Effect.{M, Result, ok, err, pure, ◌>>◌, wrapping}
use insider_notification.Platform.{Platform}
use insider_notification.Public.Topic
use insider_notification.Public.Topic.{topic_by_priority}
use insider_notification.Public.Events.{ScheduledNotificationItem}
use insider_notification.Domain.{Notification}
use insider_notification.Store.{DbNotification, Ids, from, NotificationRepository}
use insider_notification.Ports.{Publisher}
use insider_notification.Service.{scheduled_item, scheduled_payload, publish_ready}

-- `BatchResult`
pub record BatchResult : Type 0 where
  pub index : ℕ
  pub status : String
  pub id : Option ℕ
  pub error : Option String

-- One pass of the first loop of `CreateBatch`: the entity, if it could be made, and its result.
abbrev pub slot_of :
    ℕ → Result DbNotification → (rejection : Error → String) → Option DbNotification × BatchResult
slot_of i (ok e) text =
    (some e, record { index = i; status = "accepted"; id = some e.id; error = none })
slot_of i (err x) text =
    (none, record { index = i; status = "rejected"; id = none; error = some (text x) })

-- `acceptedEntities`
accepted_entities : List (Option DbNotification × BatchResult) → List DbNotification
accepted_entities [] = []
accepted_entities ((none, r) ∷ rest) = accepted_entities rest
accepted_entities ((some e, r) ∷ rest) = e ∷ accepted_entities rest

-- The results after a failed insert: those of the accepted indices are rejected.
abbrev pub reject_slot : String → Option DbNotification × BatchResult → BatchResult
reject_slot msg (none, r) = r
reject_slot msg (some e, r) = record r { status = "rejected"; error = some msg; id = none }

abbrev is_empty : List DbNotification → Bool
is_empty [] = true
is_empty (e ∷ es) = false

-- The results after the insert: `fmt.Sprintf("create notifications: %v", err)` where it failed.
insert_done :
    {S : Type 0}
    → Platform
    → List (Option DbNotification × BatchResult)
    → S × Result (List DbNotification)
    → S × (List DbNotification × List BatchResult)
insert_done p slots (s, ok stored) = (s, (stored, map (λ x. x.1) slots))
insert_done p slots (s, err e) =
    (s, ([], map (reject_slot (String.◌++◌ "create notifications: " (message p e))) slots))

scheduled_items : Platform → List DbNotification → List ScheduledNotificationItem
scheduled_items p [] = []
scheduled_items p (e ∷ es) = elim e.deliver_after [
  | none ↦ scheduled_items p es
  | some t ↦ scheduled_item p e t ∷ scheduled_items p es
]

immediate_entities : List DbNotification → List DbNotification
immediate_entities [] = []
immediate_entities (e ∷ es) = elim e.deliver_after [
  | none ↦ e ∷ immediate_entities es
  | some t ↦ immediate_entities es
]

module _ {S : Type 0} (p : Platform) (ids : Ids S) (repo : NotificationRepository S)
    (publisher : Publisher S) where
  -- The first loop of `CreateBatch`; `i` counts the notifications before these.
  make_slots : ℕ → ℕ → List Notification → S → S × List (Option DbNotification × BatchResult)
  make_slots batch_id i [] s = (s, [])
  make_slots batch_id i (n ∷ ns) s =
      let (s1, made) = from ids n (some batch_id) s in
      let (s2, rest) = make_slots batch_id (i + 1) ns s1 in (s2, slot_of i made (message p) ∷ rest)

  -- The insert of the accepted entities: those that were stored, and the results.
  insert_slots :
      List (Option DbNotification × BatchResult) → S → S × (List DbNotification × List BatchResult)
  unfolding accepted_entities insert_done
  insert_slots slots s =
      let entities = accepted_entities slots in
      let stored = insert_done p slots (repo.create_batch entities s) in
      if is_empty entities then (s, ([], map (λ x. x.1) slots)) else stored

  -- `if len(scheduled) > 0`
  publish_scheduled : List ScheduledNotificationItem → M S (Unit {0})
  publish_scheduled [] = pure tt
  publish_scheduled (i ∷ is) =
      wrapping p "publish scheduled events: "
        (publisher.publish Topic.notification_scheduled (scheduled_payload (i ∷ is)))

  publish_immediate : List DbNotification → M S (Unit {0})
  unfolding publish_ready
  publish_immediate [] = pure tt
  publish_immediate (e ∷ es) =
      publish_ready p publisher "publish ready event: " e >> publish_immediate es

  publish_stored : List DbNotification → M S (Unit {0})
  unfolding publish_scheduled publish_immediate scheduled_items immediate_entities
  publish_stored entities =
      publish_scheduled (scheduled_items p entities)
      >> publish_immediate (immediate_entities entities)

  -- The batch id, the results, and the error.
  unfoldable pub create_batch :
      List Notification → S → S × (ℕ × List BatchResult × Result (Unit {0}))
  unfolding make_slots insert_slots publish_stored
  create_batch ns s =
      let (s1, batch_id) = ids.new s in
      let (s2, slots) = make_slots batch_id 0 ns s1 in
      let (s3, inserted) = insert_slots slots s2 in
      let (s4, published) = publish_stored inserted.0 s3 in (s4, (batch_id, inserted.1, published))
