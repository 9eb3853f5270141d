-- ===== src/Batch/Evolution.antt =====
-- The rows that exist through a call of `CreateBatch`.
use insider_notification.Base.{
  ℕ, Option, some, List, [], ◌∷◌, ◌≡◌, ◌∙◌, refl, Bool-cases, ◌+◌, inl, inr,
}
use insider_notification.Effect.{Result, ok, err, seq-state}
use insider_notification.Platform.{Platform}
use insider_notification.Domain.{Notification}
use insider_notification.Public.Events.{ScheduledNotificationItem}
use insider_notification.Store.{DbNotification, Ids, NotificationRepository}
use insider_notification.Ports.{Publisher}
use insider_notification.Service.{publish_ready}
use insider_notification.Service.Contract.{Lawful}
use insider_notification.Service.Evolution.{
  Evolves, Evolves-of_eq, Evolves-trans, Became-refl, from-Evolves,
}
use insider_notification.Batch.{
  BatchResult, make_slots, insert_done, insert_slots, is_empty, accepted_entities,
  publish_scheduled, publish_immediate, publish_stored, create_batch, scheduled_items,
  immediate_entities,
}

insert_done-state :
    {S : Type 0} (p : Platform) (slots : List (Option DbNotification × BatchResult))
    (x : S × Result (List DbNotification))
    → (insert_done p slots x).0 ≡ x.0
unfolding insert_done
insert_done-state p slots (s, ok stored) = refl
insert_done-state p slots (s, err e) = refl

module _ {S : Type 0} (p : Platform) {ids : Ids S} {repo : NotificationRepository S}
    {publisher : Publisher S} (laws : Lawful ids repo publisher) where
  open laws use {row}

  abbrev Kept : S → S → Type 0
  Kept s s' = Evolves (row s) (row s')

  make_slots-Evolves :
      (b i : ℕ) (ns : List Notification) (s : S)
      → Kept s (make_slots p ids repo publisher b i ns s).0
  unfolding make_slots
  make_slots-Evolves b i [] s = Evolves-of_eq refl
  make_slots-Evolves b i (n ∷ ns) s =
      Evolves-trans (from-Evolves p laws s n (some b)) (make_slots-Evolves b (i + 1) ns _)

  insert_slots-Evolves :
      (slots : List (Option DbNotification × BatchResult)) (s : S)
      → Kept s (insert_slots p ids repo publisher slots s).0
  unfolding insert_slots
  insert_slots-Evolves slots s = elim (Bool-cases (is_empty (accepted_entities slots))) [
    | inl nothing ↦ rw nothing (Evolves-of_eq refl)
    | inr some_rows ↦
        rw (some_rows, insert_done-state)
          (λ id old found. (
            old,
            laws.create_batch_keeps s (accepted_entities slots) old id found,
            Became-refl old,
          ))
  ]

  publish_scheduled-row :
      (items : List ScheduledNotificationItem) (s : S)
      → row (publish_scheduled p ids repo publisher items s).0 ≡ row s
  unfolding publish_scheduled
  publish_scheduled-row [] s = refl
  publish_scheduled-row (i ∷ is) s = laws.publish_row s _ _

  publish_immediate-row :
      (es : List DbNotification) (s : S)
      → row (publish_immediate p ids repo publisher es s).0 ≡ row s
  unfolding publish_immediate publish_ready
  publish_immediate-row [] s = refl
  publish_immediate-row (e ∷ es) s =
      seq-state (λ t. row t ≡ row s) (publish_immediate p ids repo publisher es) _
        (λ _. publish_immediate-row es _ ∙ laws.publish_row s _ _) (laws.publish_row s _ _)

  publish_stored-row :
      (es : List DbNotification) (s : S) → row (publish_stored p ids repo publisher es s).0 ≡ row s
  unfolding publish_stored
  publish_stored-row es s =
      let first = publish_scheduled-row (scheduled_items p es) s in
      seq-state (λ t. row t ≡ row s)
        (publish_immediate p ids repo publisher (immediate_entities es))
        (publish_scheduled p ids repo publisher (scheduled_items p es) s)
        (λ _. publish_immediate-row (immediate_entities es) _ ∙ first) first

  pub create_batch-Evolves :
      (ns : List Notification) (s : S)
      → Evolves (row s) (row (create_batch p ids repo publisher ns s).0)
  unfolding create_batch
  create_batch-Evolves ns s =
      let drawn = ids.new s in
      let made = make_slots p ids repo publisher drawn.1 0 ns drawn.0 in
      let stored = insert_slots p ids repo publisher made.1 made.0 in
      Evolves-trans (Evolves-of_eq (laws.new_row s)) (
        Evolves-trans (make_slots-Evolves drawn.1 0 ns drawn.0) (
          Evolves-trans (insert_slots-Evolves made.1 made.0)
            (Evolves-of_eq (publish_stored-row stored.1.0 stored.0))))
