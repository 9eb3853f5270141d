-- ===== src/Due.antt =====
-- The consumer of due notifications in the API service:
-- api/internal/transport/messaging/scheduled_due_consumer.go. A message of a batch is its position.
pub mod Acknowledged
use insider_notification.Base.{
  ℕ, suc, String, Bool, true, false, Option, none, some, List, [], ◌∷◌, ◌++◌, map, eqb,
  if◌then◌else◌,
}
use insider_notification.Effect.{Result, ok, err}
use insider_notification.Platform.{Platform}
use insider_notification.Public.Topic.{topic_by_priority}
use insider_notification.Public.Events.{ScheduledNotificationDueEvent, ready}
use insider_notification.Store.{DbNotification, NotificationRepository, ready_event}
use insider_notification.Ports.{Publisher, Reply, acked, nacked, reply_to}

-- The ids that parse, with the positions of their messages, and the positions of the others.
abbrev pub sort_event : Option ℕ → ℕ → List (ℕ × ℕ) × List ℕ → List (ℕ × ℕ) × List ℕ
sort_event none i (valid, bad) = (valid, i ∷ bad)
sort_event (some id) i (valid, bad) = ((id, i) ∷ valid, bad)

unfoldable pub parse_batch :
    Platform → ℕ → List ScheduledNotificationDueEvent → List (ℕ × ℕ) × List ℕ
parse_batch p i [] = ([], [])
parse_batch p i (e ∷ es) = sort_event (p.parse_uuid e.notification_id) i (parse_batch p (suc i) es)

-- The assignment `resultByID[id] = result`: a second message of one id takes the place of the
-- first.
unfoldable pub put : ℕ × ℕ → List (ℕ × ℕ) → List (ℕ × ℕ)
put (id, i) [] = (id, i) ∷ []
put (id, i) ((id', j) ∷ m) =
    let rest = put (id, i) m in if eqb id id' then (id, i) ∷ m else (id', j) ∷ rest

-- `resultByID`, filled in the order of the batch.
unfoldable pub result_by_id : List (ℕ × ℕ) → List (ℕ × ℕ) → List (ℕ × ℕ)
result_by_id m [] = m
result_by_id m (r ∷ rs) = result_by_id (put r m) rs

abbrev pub later_or : Option DbNotification → DbNotification → ℕ → Option DbNotification
later_or (some found) n id = some found
later_or none n id = if eqb n.id id then some n else none

-- `notifByID[id]`: the last row with the id.
unfoldable pub notif_by_id : List DbNotification → ℕ → Option DbNotification
notif_by_id [] id = none
notif_by_id (n ∷ ns) id = later_or (notif_by_id ns id) n id

abbrev pub nack_all : List (ℕ × ℕ) → List (ℕ × Reply)
nack_all [] = []
nack_all ((id, i) ∷ m) = (i, nacked) ∷ nack_all m

abbrev pub nack_bad : List ℕ → List (ℕ × Reply)
nack_bad [] = []
nack_bad (i ∷ is) = (i, nacked) ∷ nack_bad is

-- `order` is the order in which Go runs through a map.
module _ {S : Type 0} (p : Platform) (repo : NotificationRepository S) (publisher : Publisher S)
    (order : List (ℕ × ℕ) → List (ℕ × ℕ)) where
  -- The body of the last loop of `handleBatch`.
  abbrev pub dispatch : Option DbNotification → S → S × Reply
  dispatch none s = (s, nacked)
  dispatch (some n) s =
      reply_to (publisher.publish (topic_by_priority n.priority) (ready (ready_event p n)) s)

  unfoldable pub dispatch_all : List DbNotification → List (ℕ × ℕ) → S → S × List (ℕ × Reply)
  dispatch_all ns [] s = (s, [])
  dispatch_all ns ((id, i) ∷ m) s =
      let (s1, r) = dispatch (notif_by_id ns id) s in
      let (s2, rest) = dispatch_all ns m s1 in (s2, (i, r) ∷ rest)

  -- `handleBatch` after the fetch.
  unfoldable pub after_fetch :
      List (ℕ × ℕ) → S × Result (List DbNotification) → S × List (ℕ × Reply)
  after_fetch m (s, err e) = (s, nack_all (order m))
  after_fetch m (s, ok ns) = dispatch_all ns (order m) s

  -- `handleBatch` after the parsing of the ids.
  unfoldable pub handle_parsed : List (ℕ × ℕ) → S → S × List (ℕ × Reply)
  handle_parsed [] s = (s, [])
  handle_parsed (r ∷ rs) s =
      after_fetch (result_by_id [] (r ∷ rs)) (repo.get_by_ids (map (λ x. x.0) (r ∷ rs)) s)

  -- `handleBatch`: how each message is settled, in the order in which that happens.
  unfoldable pub handle_batch : List ScheduledNotificationDueEvent → S → S × List (ℕ × Reply)
  handle_batch batch s =
      let (s', replies) = handle_parsed (parse_batch p 0 batch).0 s in
      (s', nack_bad (parse_batch p 0 batch).1 ++ replies)
