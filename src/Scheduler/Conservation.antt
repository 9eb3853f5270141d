-- ===== src/Scheduler/Conservation.antt =====
-- The notifications through a tick of deliveryscheduler/internal/scheduled_notification_dispatcher/
-- dispatcher.go.
use insider_notification.Base.{
  ℕ, zero, suc, String, Bool, true, false, Option, some, List, [], ◌∷◌, map, length, ◌≡◌, ◌<◌, ◌+◌,
  refl, sym, ap, ◌∙◌, subst, ◌⊎◌, inl, inr, arith,
}
use insider_notification.Effect.{Result, ok, err}
use insider_notification.Errors.{Error}
use insider_notification.Public.Topic
use insider_notification.Public.Events.{Payload, due}
use insider_notification.Ports.{Listed}
use insider_notification.Scheduler.{
  ScheduledNotification, ScheduledNotificationDispatcher, due_payload, after_publish, after_claim,
  tick_pass, tick, go_round,
}

-- A row for the notification is in the list.
abbrev pub HasId : String → List ScheduledNotification → Type 0
HasId id [] = ⊥
HasId id (n ∷ ns) = (n.notification_id ≡ id) ⊎ HasId id ns

abbrev pub due_of : String → Payload
due_of id = due (record { notification_id = id })

-- What the dispatcher relies on. `waiting` says that the table holds a row for the notification,
-- `announced` that the broker has accepted the payload, `rows` counts the rows of the table.
-- Claiming removes exactly the rows that it returns; a failed call of the broker changes nothing in
-- the table; nothing that is announced is taken back.
pub record Lawful {S : Type 0} (d : ScheduledNotificationDispatcher S) : Type 1 where
  pub waiting : S → String → Type 0
  pub announced : S → Payload → Type 0
  pub rows : S → ℕ
  pub clock_waiting : (s : S) (id : String) → waiting s id → waiting (d.clock s).0 id
  pub clock_announced : (s : S) (m : Payload) → announced s m → announced (d.clock s).0 m
  pub clock_rows : (s : S) → rows (d.clock s).0 ≡ rows s
  pub claim_announced :
      (s : S) (t : ℕ) (m : Payload)
      → announced s m
      → announced (d.repo.delete_by_scheduled_at_before_returning t d.batch s).0 m
  pub claim_ok :
      (s s' : S) (t : ℕ) (ns : List ScheduledNotification) (id : String)
      → d.repo.delete_by_scheduled_at_before_returning t d.batch s ≡ (s', ok ns)
      → waiting s id
      → waiting s' id ⊎ HasId id ns
  pub claim_rows :
      (s s' : S) (t : ℕ) (ns : List ScheduledNotification)
      → d.repo.delete_by_scheduled_at_before_returning t d.batch s ≡ (s', ok ns)
      → rows s' + length ns ≡ rows s
  pub claim_error :
      (s s' : S) (t : ℕ) (e : Error) (id : String)
      → d.repo.delete_by_scheduled_at_before_returning t d.batch s ≡ (s', err e)
      → waiting s id
      → waiting s' id
  pub publish_waiting :
      (s : S) (t : String) (ms : List Payload) (id : String)
      → waiting s id
      → waiting (d.publisher.publish_batch t ms s).0 id
  pub publish_rows :
      (s : S) (t : String) (ms : List Payload) → rows (d.publisher.publish_batch t ms s).0 ≡ rows s
  pub publish_announced :
      (s : S) (t : String) (ms : List Payload) (m : Payload)
      → announced s m
      → announced (d.publisher.publish_batch t ms s).0 m
  pub publish_ok :
      (s s' : S) (ms : List Payload) (m : Payload)
      → d.publisher.publish_batch Topic.scheduled_notification_due ms s ≡ (s', ok tt)
      → Listed m ms
      → announced s' m
  pub upsert_announced :
      (s : S) (ns : List ScheduledNotification) (m : Payload)
      → announced s m
      → announced (d.repo.upsert_all ns s).0 m
  pub upsert_ok :
      (s s' : S) (ns : List ScheduledNotification) (id : String)
      → d.repo.upsert_all ns s ≡ (s', ok tt)
      → waiting s id ⊎ HasId id ns
      → waiting s' id

-- Every write of the table succeeds.
abbrev pub StoresAlways : {S : Type 0} → ScheduledNotificationDispatcher S → Type 0
StoresAlways {S} d = (s : S) (ns : List ScheduledNotification) → (d.repo.upsert_all ns s).1 ≡ ok tt

pub HasId-Mem :
    (id : String) (ns : List ScheduledNotification)
    → HasId id ns
    → Listed (due_of id) (map due_payload ns)
HasId-Mem id [] h = absurd h
HasId-Mem id (n ∷ ns) (inl same) = inl (ap due_of same)
HasId-Mem id (n ∷ ns) (inr later) = inr (HasId-Mem id ns later)

module _ {S : Type 0} {d : ScheduledNotificationDispatcher S} (laws : Lawful d) where
  open laws use {waiting, announced, rows}
  open d use {repo, publisher, batch, clock}

  -- The notification waits in the table or has been announced.
  abbrev pub Kept : S → String → Type 0
  Kept s id = waiting s id ⊎ announced s (due_of id)

  -- After a publication from a state in which the notification waits, was claimed or is announced.
  after_publish-Kept :
      (ns : List ScheduledNotification) (s s' : S) (r : Result (Unit {0})) (id : String)
      → publisher.publish_batch Topic.scheduled_notification_due (map due_payload ns) s ≡ (s', r)
      → StoresAlways d
      → (waiting s' id ⊎ announced s' (due_of id)) ⊎ HasId id ns
      → Kept (after_publish d ns (s', r)).0 id
  unfolding after_publish
  after_publish-Kept ns s s' (ok _) id h stores (inl kept) = kept
  after_publish-Kept ns s s' (ok _) id h stores (inr claimed) =
      inr (laws.publish_ok s s' _ (due_of id) h (HasId-Mem id ns claimed))
  after_publish-Kept ns s s' (err e) id h stores (inl (inl waits)) =
      inl (laws.upsert_ok s' _ ns id (λ i. ((repo.upsert_all ns s').0, stores s' ns i)) (inl waits))
  after_publish-Kept ns s s' (err e) id h stores (inl (inr told)) =
      inr (laws.upsert_announced s' ns _ told)
  after_publish-Kept ns s s' (err e) id h stores (inr claimed) =
      inl
        (laws.upsert_ok s' _ ns id (λ i. ((repo.upsert_all ns s').0, stores s' ns i)) (inr claimed))

  published_waits :
      (s : S) (ms : List Payload) (id : String)
      → Kept s id
      → Kept (publisher.publish_batch Topic.scheduled_notification_due ms s).0 id
  published_waits s ms id (inl waits) = inl (laws.publish_waiting s _ ms id waits)
  published_waits s ms id (inr told) = inr (laws.publish_announced s _ ms _ told)

  after_claim-Kept :
      (s s' : S) (t : ℕ) (r : Result (List ScheduledNotification)) (id : String)
      → repo.delete_by_scheduled_at_before_returning t batch s ≡ (s', r)
      → StoresAlways d
      → Kept s id
      → Kept (after_claim d (s', r)).0 id
  unfolding after_claim
  after_claim-Kept s s' t (err e) id h stores (inl waits) =
      inl (laws.claim_error s s' t e id h waits)
  after_claim-Kept s s' t (err e) id h stores (inr told) =
      inr (subst (λ x. announced x.0 (due_of id)) h (laws.claim_announced s t _ told))
  after_claim-Kept s s' t (ok []) id h stores (inl waits) =
      elim (laws.claim_ok s s' t [] id h waits) [ inl still ↦ inl still | inr gone ↦ absurd gone ]
  after_claim-Kept s s' t (ok []) id h stores (inr told) =
      inr (subst (λ x. announced x.0 (due_of id)) h (laws.claim_announced s t _ told))
  after_claim-Kept s s' t (ok (n ∷ ns)) id h stores (inl waits) =
      after_publish-Kept (n ∷ ns) s' _ _ id refl stores
        (elim (laws.claim_ok s s' t (n ∷ ns) id h waits) [
          | inl still ↦ inl (published_waits s' _ id (inl still))
          | inr claimed ↦ inr claimed
        ])
  after_claim-Kept s s' t (ok (n ∷ ns)) id h stores (inr told) =
      after_publish-Kept (n ∷ ns) s' _ _ id refl stores (
        inl (
          published_waits s' _ id
            (inr (subst (λ x. announced x.0 (due_of id)) h (laws.claim_announced s t _ told)))))

  tick_pass-Kept : (s : S) (id : String) → StoresAlways d → Kept s id → Kept (tick_pass d s).0 id
  unfolding tick_pass
  tick_pass-Kept s id stores kept =
      after_claim-Kept (clock s).0 _ (clock s).1 _ id refl stores (at_clock kept)
    where
      at_clock : Kept s id → Kept (clock s).0 id
      at_clock (inl waits) = inl (laws.clock_waiting s id waits)
      at_clock (inr told) = inr (laws.clock_announced s _ told)

  -- The loop goes on only after it has removed a row.
  after_publish-rows :
      (ns : List ScheduledNotification) (s s' : S) (r : Result (Unit {0}))
      → publisher.publish_batch Topic.scheduled_notification_due (map due_payload ns) s ≡ (s', r)
      → (after_publish d ns (s', r)).1 ≡ true
      → rows (after_publish d ns (s', r)).0 ≡ rows s
  unfolding after_publish
  after_publish-rows ns s s' (ok _) h on = ap (λ x. rows x.0) (sym h) ∙ laws.publish_rows s _ _
  after_publish-rows ns s s' (err x) h on = cc

  after_claim-rows :
      (s s' : S) (t : ℕ) (r : Result (List ScheduledNotification))
      → repo.delete_by_scheduled_at_before_returning t batch s ≡ (s', r)
      → (after_claim d (s', r)).1 ≡ true
      → rows (after_claim d (s', r)).0 < rows s
  unfolding after_claim
  after_claim-rows s s' t (err e) h on = cc
  after_claim-rows s s' t (ok []) h on = cc
  after_claim-rows s s' t (ok (n ∷ ns)) h on =
      let same = after_publish-rows (n ∷ ns) s' _ _ refl on in
      let less = laws.claim_rows s s' t (n ∷ ns) h in omega arith

  tick_pass-rows : (s : S) → (tick_pass d s).1 ≡ true → rows (tick_pass d s).0 < rows s
  unfolding tick_pass
  tick_pass-rows s on =
      subst (λ k. rows (tick_pass d s).0 < k) (laws.clock_rows s)
        (after_claim-rows (clock s).0 _ (clock s).1 _ refl on)

  -- A run of the loop from `s` that ends, and keeps every notification.
  abbrev pub EndsWithAll : S → Option S → Type 0
  EndsWithAll s result = (s' : S) × (result ≡ some s') × ((id : String) → Kept s id → Kept s' id)

  after_pass-EndsWithAll :
      (fuel : ℕ) (s : S) (x : S × Bool)
      → ((id : String) → Kept s id → Kept x.0 id)
      → (x.1 ≡ true → rows x.0 < rows s)
      → rows s < suc fuel
      → ((u : S) → rows u < fuel → EndsWithAll u (tick d fuel u))
      → EndsWithAll s (go_round d (tick d fuel) x)
  after_pass-EndsWithAll fuel s (u, false) keeps less enough rest = (u, refl, keeps)
  after_pass-EndsWithAll fuel s (u, true) keeps less enough rest =
      let fewer = less refl in
      let (s', ends, later) = rest u (omega arith) in
      (s', ends, λ id kept. later id (keeps id kept))

  -- With a lawful table and broker: a tick ends within as many passes as the table has rows and one
  -- more, if nobody else adds any meanwhile. Then each notification that waited or had been
  -- announced before it waits or has been announced after it, provided the table takes every write:
  -- a failed publication gives the claimed rows back.
  pub tick-EndsWithAll :
      (fuel : ℕ) (s : S) → StoresAlways d → rows s < fuel → EndsWithAll s (tick d fuel s)
  unfolding tick
  tick-EndsWithAll zero s stores enough = absurd (omega arith)
  tick-EndsWithAll (suc fuel) s stores enough =
      after_pass-EndsWithAll fuel s (tick_pass d s) (λ id kept. tick_pass-Kept s id stores kept)
        (tick_pass-rows s) enough (λ u small. tick-EndsWithAll fuel u stores small)
