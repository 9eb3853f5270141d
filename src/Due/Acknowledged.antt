-- ===== src/Due/Acknowledged.antt =====
-- Which messages of a batch of due notifications are acknowledged.
use insider_notification.Base.{
  ℕ, suc, ◌+◌, String, Option, none, some, List, [], ◌∷◌, ◌++◌, All, ◌≡◌, refl, sym, ap, subst, ◌∙◌,
  inl, inr, eqb, eqb_iff, get_elem?, Bool-cases, arith,
}
use insider_notification.Effect.{Result, ok, err}
use insider_notification.Platform.{Platform}
use insider_notification.Public.Topic.{topic_by_priority}
use insider_notification.Public.Events.{ScheduledNotificationDueEvent, Payload, ready}
use insider_notification.Store.{DbNotification, NotificationRepository, ready_event}
use insider_notification.Ports.{Publisher, Reply, acked, nacked, reply_to}
use insider_notification.Due.{
  sort_event, parse_batch, later_or, put, result_by_id, notif_by_id, nack_all, nack_bad, dispatch,
  dispatch_all, after_fetch, handle_parsed, handle_batch,
}

-- The messages that the broker has accepted: a publication adds its own where it succeeds, and
-- none is taken back.
pub record Announces {S : Type 0} (repo : NotificationRepository S) (publisher : Publisher S)
    : Type 1 where
  pub announced : S → String × Payload → Type 0
  pub publish_ok :
      (s s' : S) (t : String) (m : Payload)
      → publisher.publish t m s ≡ (s', ok tt)
      → announced s' (t, m)
  pub publish_keeps :
      (s : S) (t : String) (m : Payload) (x : String × Payload)
      → announced s x
      → announced (publisher.publish t m s).0 x

-- A walk through a map visits entries of the map only.
abbrev pub VisitsEntries : (List (ℕ × ℕ) → List (ℕ × ℕ)) → Type 1
VisitsEntries order = (P : ℕ × ℕ → Type 0) (m : List (ℕ × ℕ)) → All P m → All P (order m)

later_or-id :
    (o : Option DbNotification) (m : DbNotification) (id : ℕ) (n : DbNotification)
    → (o ≡ some n → n.id ≡ id)
    → later_or o m id ≡ some n
    → n.id ≡ id
later_or-id (some found) m id n later h = later h
later_or-id none m id n later h = elim (Bool-cases (eqb m.id id)) [
  | inl same ↦
      let it : some m ≡ some n = rw same at h in
      let same_row : m ≡ n = cc in
      sym (ap (λ (x : DbNotification). x.id) same_row) ∙ (eqb_iff m.id id).0 same
  | inr other ↦ cc (rw other at h)
]

notif_by_id-id :
    (ns : List DbNotification) (id : ℕ) (n : DbNotification)
    → notif_by_id ns id ≡ some n
    → n.id ≡ id
unfolding notif_by_id
notif_by_id-id [] id n h = cc
notif_by_id-id (m ∷ ns) id n h =
    later_or-id (notif_by_id ns id) m id n (λ found. notif_by_id-id ns id n found) h

reply_to-state : {S : Type 0} (x : S × Result (Unit {0})) → (reply_to x).0 ≡ x.0
reply_to-state (s, ok _) = refl
reply_to-state (s, err e) = refl

-- The message at position `base` + k of the batch has an id that parses to the entry's.
abbrev pub InBatch : Platform → ℕ → List ScheduledNotificationDueEvent → ℕ × ℕ → Type 0
InBatch p base es (id, i) =
    (k : ℕ) × (e : ScheduledNotificationDueEvent) × (i ≡ base + k)
    × (get_elem? es k ≡ some e)
    × (p.parse_uuid e.notification_id ≡ some id)

shift-InBatch :
    (p : Platform) (base : ℕ) (e : ScheduledNotificationDueEvent)
    (es : List ScheduledNotificationDueEvent) (m : List (ℕ × ℕ))
    → All (InBatch p (suc base) es) m
    → All (InBatch p base (e ∷ es)) m
shift-InBatch p base e es [] all = all
shift-InBatch p base e es ((id, i) ∷ m) ((k, e', at, found, parsed), all) =
    ((suc k, e', omega arith, found, parsed), shift-InBatch p base e es m all)

sort_event-InBatch :
    (p : Platform) (base : ℕ) (e : ScheduledNotificationDueEvent)
    (es : List ScheduledNotificationDueEvent) (o : Option ℕ) (x : List (ℕ × ℕ) × List ℕ)
    → p.parse_uuid e.notification_id ≡ o
    → All (InBatch p (suc base) es) x.0
    → All (InBatch p base (e ∷ es)) (sort_event o base x).0
sort_event-InBatch p base e es none (valid, bad) parsed all = shift-InBatch p base e es valid all
sort_event-InBatch p base e es (some id) (valid, bad) parsed all =
    ((0, e, omega arith, refl, parsed), shift-InBatch p base e es valid all)

parse_batch-InBatch :
    (p : Platform) (base : ℕ) (es : List ScheduledNotificationDueEvent)
    → All (InBatch p base es) (parse_batch p base es).0
unfolding parse_batch
parse_batch-InBatch p base [] = tt
parse_batch-InBatch p base (e ∷ es) =
    sort_event-InBatch p base e es _ _ refl (parse_batch-InBatch p (suc base) es)

module _ (P : ℕ × ℕ → Type 0) where
  put-All : (r : ℕ × ℕ) (m : List (ℕ × ℕ)) → P r → All P m → All P (put r m)
  unfolding put
  put-All (id, i) [] here all = (here, all)
  put-All (id, i) ((id', j) ∷ m) here (one, all) = elim (Bool-cases (eqb id id')) [
    | inl same ↦ rw same (here, all)
    | inr other ↦ rw other (one, put-All (id, i) m here all)
  ]

  result_by_id-All : (m rs : List (ℕ × ℕ)) → All P m → All P rs → All P (result_by_id m rs)
  unfolding result_by_id
  result_by_id-All m [] all rest = all
  result_by_id-All m (r ∷ rs) all (here, rest) =
      result_by_id-All (put r m) rs (put-All r m here all) rest

module _ {S : Type 0} (p : Platform) {repo : NotificationRepository S} {publisher : Publisher S}
    (order : List (ℕ × ℕ) → List (ℕ × ℕ)) (laws : Announces repo publisher)
    (batch : List ScheduledNotificationDueEvent) where
  open laws use {announced}

  -- An acknowledged message asks for a notification whose ready event has been announced.
  abbrev pub IsSound : S → ℕ × Reply → Type 0
  IsSound s (i, nacked) = Unit {0}
  IsSound s (i, acked) =
      (e : ScheduledNotificationDueEvent) × (n : DbNotification) × (get_elem? batch i ≡ some e)
      × (p.parse_uuid e.notification_id ≡ some n.id)
      × announced s (topic_by_priority n.priority, ready (ready_event p n))

  dispatch_keeps :
      (o : Option DbNotification) (s : S) (x : String × Payload)
      → announced s x
      → announced (dispatch p repo publisher order o s).0 x
  dispatch_keeps none s x h = h
  dispatch_keeps (some n) s x h =
      subst (λ u. announced u x) (sym (reply_to-state (publisher.publish _ _ s)))
        (laws.publish_keeps s _ _ x h)

  nack_all-IsSound : (s : S) (m : List (ℕ × ℕ)) → All (IsSound s) (nack_all m)
  nack_all-IsSound s [] = tt
  nack_all-IsSound s ((id, i) ∷ m) = (tt, nack_all-IsSound s m)

  nack_bad-IsSound :
      (s : S) (is : List ℕ) (rest : List (ℕ × Reply))
      → All (IsSound s) rest
      → All (IsSound s) (nack_bad is ++ rest)
  nack_bad-IsSound s [] rest all = all
  nack_bad-IsSound s (i ∷ is) rest all = (tt, nack_bad-IsSound s is rest all)

  dispatch_all_keeps :
      (ns : List DbNotification) (m : List (ℕ × ℕ)) (s : S) (x : String × Payload)
      → announced s x
      → announced (dispatch_all p repo publisher order ns m s).0 x
  unfolding dispatch_all
  dispatch_all_keeps ns [] s x h = h
  dispatch_all_keeps ns ((id, i) ∷ m) s x h =
      dispatch_all_keeps ns m _ x (dispatch_keeps (notif_by_id ns id) s x h)

  published-IsSound :
      (id i : ℕ) (n : DbNotification) (s t : S) (x : S × Result (Unit {0}))
      → publisher.publish (topic_by_priority n.priority) (ready (ready_event p n)) s ≡ x
      → InBatch p 0 batch (id, i)
      → n.id ≡ id
      → ((y : String × Payload) → announced x.0 y → announced t y)
      → IsSound t (i, (reply_to x).1)
  published-IsSound id i n s t (u, err e) h inside same keeps = tt
  published-IsSound id i n s t (u, ok _) h (k, e, at, found, parsed) same keeps = (
    e,
    n,
    ap (get_elem? batch) (at ∙ omega arith) ∙ found,
    parsed ∙ ap some (sym same),
    keeps _ (laws.publish_ok s u _ _ h),
  )

  dispatch-IsSound :
      (id i : ℕ) (o : Option DbNotification) (s t : S)
      → InBatch p 0 batch (id, i)
      → ((n : DbNotification) → o ≡ some n → n.id ≡ id)
      → ((y : String × Payload)
          → announced (dispatch p repo publisher order o s).0 y
          → announced t y)
      → IsSound t (i, (dispatch p repo publisher order o s).1)
  dispatch-IsSound id i none s t inside same keeps = tt
  dispatch-IsSound id i (some n) s t inside same keeps =
      published-IsSound id i n s t _ refl inside (same n refl)
        (λ y h. keeps y (subst (λ u. announced u y) (sym (reply_to-state _)) h))

  dispatch_all-IsSound :
      (ns : List DbNotification) (m : List (ℕ × ℕ)) (s : S)
      → All (InBatch p 0 batch) m
      → All
          (IsSound (dispatch_all p repo publisher order ns m s).0)
          (dispatch_all p repo publisher order ns m s).1
  unfolding dispatch_all
  dispatch_all-IsSound ns [] s all = tt
  dispatch_all-IsSound ns ((id, i) ∷ m) s (here, all) = (
    dispatch-IsSound id i (notif_by_id ns id) s _ here (notif_by_id-id ns id)
        (λ y h. dispatch_all_keeps ns m _ y h),
    dispatch_all-IsSound ns m _ all,
  )

  after_fetch-IsSound :
      (m : List (ℕ × ℕ)) (x : S × Result (List DbNotification))
      → VisitsEntries order
      → All (InBatch p 0 batch) m
      → All
          (IsSound (after_fetch p repo publisher order m x).0)
          (after_fetch p repo publisher order m x).1
  unfolding after_fetch
  after_fetch-IsSound m (s, err e) visits all = nack_all-IsSound s (order m)
  after_fetch-IsSound m (s, ok ns) visits all = dispatch_all-IsSound ns (order m) s (visits _ m all)

  handle_parsed-IsSound :
      (rs : List (ℕ × ℕ)) (s : S)
      → VisitsEntries order
      → All (InBatch p 0 batch) rs
      → All
          (IsSound (handle_parsed p repo publisher order rs s).0)
          (handle_parsed p repo publisher order rs s).1
  unfolding handle_parsed
  handle_parsed-IsSound [] s visits all = tt
  handle_parsed-IsSound (r ∷ rs) s visits all =
      after_fetch-IsSound (result_by_id [] (r ∷ rs)) _ visits
        (result_by_id-All (InBatch p 0 batch) [] (r ∷ rs) tt all)

  -- Where a publication that succeeds is accepted by the broker and none is taken back, and a walk
  -- through a map visits its entries only: each message of a batch that is acknowledged is one of
  -- the batch whose id is valid, and the ready event of a notification with that id has been
  -- published on the topic of the notification's priority.
  pub handle_batch-IsSound :
      (s : S)
      → VisitsEntries order
      → All
          (IsSound (handle_batch p repo publisher order batch s).0)
          (handle_batch p repo publisher order batch s).1
  unfolding handle_batch
  handle_batch-IsSound s visits =
      nack_bad-IsSound _ (parse_batch p 0 batch).1 _
        (handle_parsed-IsSound (parse_batch p 0 batch).0 s visits (parse_batch-InBatch p 0 batch))
