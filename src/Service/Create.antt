-- ===== src/Service/Create.antt =====
-- `Create`: what is stored and what is announced.
use insider_notification.Base.{
  ℕ, String, Option, none, some, [], ◌∷◌, ◌++◌, ◌≡◌, ap, ap₂, subst, sym, ◌∙◌, arith,
}
use insider_notification.Effect.{ok, then_on-ok, seq-ok, pure, wrapping, on_error-ok, ◌>>◌}
use insider_notification.Platform.{Platform}
use insider_notification.Public.Status
use insider_notification.Public.Topic
use insider_notification.Public.Topic.{topic_by_priority}
use insider_notification.Public.Events.{Payload, ready}
use insider_notification.Domain.{Notification, get_max_attempts}
use insider_notification.Store.{
  DbNotification, Ids, from, entity_of, ready_event, NotificationRepository,
}
use insider_notification.Ports.{Publisher}
use insider_notification.Service.{
  persist, publish, publish_at, publish_ready, create, scheduled_payload, scheduled_item,
}
use insider_notification.Service.Contract.{update, IsStamped, Lawful, announced}

-- The message that announces a stored notification: a scheduled one goes to the delivery scheduler
-- with its time, any other one to the processor on the topic of its priority.
abbrev pub announcement_at : Platform → DbNotification → Option ℕ → String × Payload
announcement_at p e none = (topic_by_priority e.priority, ready (ready_event p e))
announcement_at p e (some t) =
    (Topic.notification_scheduled, scheduled_payload (scheduled_item p e t ∷ []))

abbrev pub announcement : Platform → DbNotification → String × Payload
announcement p e = announcement_at p e e.deliver_after

-- The row holds what the notification asks for, and is pending.
pub record IsRowOf (n : Notification) (e : DbNotification) : Type 0 where
  pub channel : e.channel ≡ n.channel
  pub recipient : e.recipient ≡ n.recipient
  pub content : e.content ≡ n.content
  pub priority : e.priority ≡ n.priority
  pub deliver_after : e.deliver_after ≡ n.deliver_after
  pub max_attempts : e.max_attempts ≡ get_max_attempts n
  pub batch : e.batch_id ≡ none
  pub pending : e.status ≡ Status.pending

IsRowOf-stamped :
    (n : Notification) (built e : DbNotification)
    → built ≡ entity_of n none built.id
    → IsStamped built e
    → IsRowOf n e
IsRowOf-stamped n built e h k = record {
  channel = ground arith;
  recipient = ground arith;
  content = ground arith;
  priority = ground arith;
  deliver_after = ground arith;
  max_attempts = ground arith;
  batch = ground arith;
  pending = ground arith;
}

module _ {S : Type 0} (p : Platform) {ids : Ids S} {repo : NotificationRepository S}
    {publisher : Publisher S} (laws : Lawful ids repo publisher) where
  open laws use {row, sent}

  publish_at-ok :
      (s s' : S) (e : DbNotification) (d : Option ℕ)
      → publish_at p ids repo publisher e d s ≡ (s', ok tt)
      → (row s' ≡ row s) × (sent s' ≡ sent s ++ announcement_at p e d ∷ [])
  unfolding publish_at publish_ready
  publish_at-ok s s' e none h = announced laws _ _ _ s s' h
  publish_at-ok s s' e (some t) h = announced laws _ _ _ s s' h

  publish_at-row :
      (s : S) (e : DbNotification) (d : Option ℕ)
      → row (publish_at p ids repo publisher e d s).0 ≡ row s
  unfolding publish_at publish_ready
  publish_at-row s e none = laws.publish_row s _ _
  publish_at-row s e (some t) = laws.publish_row s _ _

  publish-ok :
      (s s' : S) (e : DbNotification)
      → publish p ids repo publisher e s ≡ (s', ok tt)
      → (row s' ≡ row s) × (sent s' ≡ sent s ++ announcement p e ∷ [])
  unfolding publish
  publish-ok s s' e h = publish_at-ok s s' e e.deliver_after h

  -- A new entity is pending and has the notification's fields and a fresh id.
  from-ok :
      (s s' : S) (n : Notification) (b : Option ℕ) (e : DbNotification)
      → from ids n b s ≡ (s', ok e)
      → (e ≡ entity_of n b e.id) × (row s e.id ≡ none) × (row s' ≡ row s) × (sent s' ≡ sent s)
  unfolding from
  from-ok s s' n b e h =
      let (s1, id, drawn, same) = then_on-ok (λ id. pure (entity_of n b id)) (ids.new_v7 s) h in
      let here : s1 ≡ s' = ap (λ x. x.0) same in
      let built : entity_of n b id ≡ e = ground arith in
      let there : (ids.new_v7 s).0 ≡ s' = ap (λ x. x.0) drawn ∙ here in
      let key : id ≡ e.id = ap (λ x. x.id) built in
      (
        sym built ∙ ap (entity_of n b) key,
        subst (λ k. row s k ≡ none) key (laws.new_v7_fresh s s1 id drawn),
        ap row (sym there) ∙ laws.new_v7_row s,
        ap sent (sym there) ∙ laws.new_v7_sent s,
      )

  -- What `persist` does when it succeeds: one new row, pending, with a new id.
  persist-ok :
      (s s' : S) (n : Notification) (e : DbNotification)
      → persist p ids repo publisher n none s ≡ (s', ok e)
      → (row s e.id ≡ none) × IsRowOf n e × (row s' ≡ update (row s) e.id e) × (sent s' ≡ sent s)
  unfolding persist
  persist-ok s s' n e h =
      let (s1, built, made, h1) =
        then_on-ok (λ entity. wrapping p "create notification: " (repo.create entity))
          (from ids n none s) h in
      let stored = on_error-ok _ (repo.create built) s1 h1 in
      let stamped = laws.create_stamped s1 s' built e stored in
      let (fields, fresh, kept, quiet) = from-ok s s1 n none built made in
      let key : e.id ≡ built.id = ap (λ x. x.id) stamped in
      let table = laws.create_row s1 s' built e stored in
      let told = ap sent (sym (ap (λ x. x.0) stored)) ∙ laws.create_sent s1 built in
      (
        subst (λ k. row s k ≡ none) (sym key) fresh,
        IsRowOf-stamped n built e fields stamped,
        table ∙ ap₂ (λ t k. update t k e) kept (sym key),
        told ∙ quiet,
      )

  -- With lawful ports: `Create` on success stores one new pending row with the notification's
  -- fields under a fresh id, changes no other row, and sends exactly the announcement of that row.
  pub create-ok :
      (s s' : S) (n : Notification) (e : DbNotification)
      → create p ids repo publisher n s ≡ (s', ok e)
      → (row s e.id ≡ none)
        × IsRowOf n e
        × (row s' ≡ update (row s) e.id e)
        × (sent s' ≡ sent s ++ announcement p e ∷ [])
  unfolding create publish
  create-ok s s' n e h =
      let (s1, entity, persisted, h1) =
        then_on-ok (λ entity. publish p ids repo publisher entity >> pure entity)
          (persist p ids repo publisher n none s) h in
      let (s2, published, same) =
        seq-ok (pure entity) (publish p ids repo publisher entity s1) h1 in
      let (fresh, fields, stored, quiet) = persist-ok s s1 n entity persisted in
      let (kept, told) = publish-ok s1 s2 entity published in
      let one : entity ≡ e = ground arith in
      let last : s2 ≡ s' = ap (λ x. x.0) same in
      rw (← one, ← last) (fresh, fields, kept ∙ stored, rw quiet at told)
