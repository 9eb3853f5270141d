-- ===== src/Batch/Results.antt =====
-- The number of results of `CreateBatch`.
use insider_notification.Base.{
  ℕ, String, Option, none, some, All, map, ◌⊎◌, List, [], ◌∷◌, length, length-map, ◌≡◌, refl, ap,
  ◌∙◌, ◌+◌, suc, Bool-cases, inl, inr,
}
use insider_notification.Errors.{Error, message}
use insider_notification.Effect.{Result, ok, err}
use insider_notification.Platform.{Platform}
use insider_notification.Domain.{Notification}
use insider_notification.Store.{DbNotification, Ids, NotificationRepository}
use insider_notification.Ports.{Publisher}
use insider_notification.Batch.{
  BatchResult, slot_of, reject_slot, make_slots, insert_done, insert_slots, accepted_entities,
  is_empty, create_batch,
}

-- A result is an accepted one with an id, or a rejected one with an error.
abbrev pub Fits : BatchResult → Type 0
Fits r =
    ((r.status ≡ "accepted") × ((id : ℕ) × (r.id ≡ some id)) × (r.error ≡ none))
    ⊎ ((r.status ≡ "rejected") × (r.id ≡ none) × ((text : String) × (r.error ≡ some text)))

-- A slot, the second part of which is rejected where there is no entity.
abbrev FitsSlot : Option DbNotification × BatchResult → Type 0
FitsSlot (none, r) = (r.status ≡ "rejected") × (r.id ≡ none) × ((t : String) × (r.error ≡ some t))
FitsSlot (some e, r) = Fits r

slots-Fit :
    (slots : List (Option DbNotification × BatchResult))
    → All FitsSlot slots
    → All Fits (map (λ x. x.1) slots)
slots-Fit [] h = tt
slots-Fit ((none, r) ∷ slots) (h, hs) = (inr h, slots-Fit slots hs)
slots-Fit ((some e, r) ∷ slots) (h, hs) = (h, slots-Fit slots hs)

rejected-Fit :
    (msg : String) (slots : List (Option DbNotification × BatchResult))
    → All FitsSlot slots
    → All Fits (map (reject_slot msg) slots)
rejected-Fit msg [] h = tt
rejected-Fit msg ((none, r) ∷ slots) (h, hs) = (inr h, rejected-Fit msg slots hs)
rejected-Fit msg ((some e, r) ∷ slots) (h, hs) =
    (inr (refl, refl, (msg, refl)), rejected-Fit msg slots hs)

insert_done-Fit :
    {S : Type 0} (p : Platform) (slots : List (Option DbNotification × BatchResult))
    (x : S × Result (List DbNotification))
    → All FitsSlot slots
    → All Fits (insert_done p slots x).1.1
unfolding insert_done
insert_done-Fit p slots (s, ok stored) h = slots-Fit slots h
insert_done-Fit p slots (s, err e) h = rejected-Fit _ slots h

slot_of-FitsSlot :
    (i : ℕ) (made : Result DbNotification) (text : Error → String) → FitsSlot (slot_of i made text)
slot_of-FitsSlot i (ok e) text = inl (refl, (e.id, refl), refl)
slot_of-FitsSlot i (err x) text = (refl, refl, (text x, refl))

length-insert_done :
    {S : Type 0} (p : Platform) (slots : List (Option DbNotification × BatchResult))
    (x : S × Result (List DbNotification))
    → length (insert_done p slots x).1.1 ≡ length slots
unfolding insert_done
length-insert_done p slots (s, ok stored) = length-map _ slots
length-insert_done p slots (s, err e) = length-map _ slots

module _ {S : Type 0} (p : Platform) (ids : Ids S) (repo : NotificationRepository S)
    (publisher : Publisher S) where
  length-make_slots :
      (b i : ℕ) (ns : List Notification) (s : S)
      → length (make_slots p ids repo publisher b i ns s).1 ≡ length ns
  unfolding make_slots
  length-make_slots b i [] s = refl
  length-make_slots b i (n ∷ ns) s = ap suc (length-make_slots b (i + 1) ns _)

  length-insert_slots :
      (slots : List (Option DbNotification × BatchResult)) (s : S)
      → length (insert_slots p ids repo publisher slots s).1.1 ≡ length slots
  unfolding insert_slots
  length-insert_slots slots s = elim (Bool-cases (is_empty (accepted_entities slots))) [
    | inl nothing ↦ rw nothing (length-map _ slots)
    | inr some_rows ↦ rw some_rows (length-insert_done p slots _)
  ]

  make_slots-FitSlots :
      (b i : ℕ) (ns : List Notification) (s : S)
      → All FitsSlot (make_slots p ids repo publisher b i ns s).1
  unfolding make_slots
  make_slots-FitSlots b i [] s = tt
  make_slots-FitSlots b i (n ∷ ns) s =
      (slot_of-FitsSlot i _ (message p), make_slots-FitSlots b (i + 1) ns _)

  insert_slots-Fit :
      (slots : List (Option DbNotification × BatchResult)) (s : S)
      → All FitsSlot slots
      → All Fits (insert_slots p ids repo publisher slots s).1.1
  unfolding insert_slots
  insert_slots-Fit slots s h = elim (Bool-cases (is_empty (accepted_entities slots))) [
    | inl nothing ↦ rw nothing (slots-Fit slots h)
    | inr some_rows ↦ rw some_rows (insert_done-Fit p slots _ h)
  ]

  -- Whatever fails, each result is accepted with an id or rejected with an error.
  pub create_batch-Fit :
      (ns : List Notification) (s : S) → All Fits (create_batch p ids repo publisher ns s).1.1
  unfolding create_batch
  create_batch-Fit ns s =
      insert_slots-Fit (make_slots p ids repo publisher (ids.new s).1 0 ns (ids.new s).0).1 _
        (make_slots-FitSlots _ 0 ns _)

  -- Whatever fails, the results are as many as the notifications.
  pub length-create_batch :
      (ns : List Notification) (s : S)
      → length (create_batch p ids repo publisher ns s).1.1 ≡ length ns
  unfolding create_batch
  length-create_batch ns s =
      length-insert_slots (make_slots p ids repo publisher (ids.new s).1 0 ns (ids.new s).0).1 _
      ∙ length-make_slots _ 0 ns _
