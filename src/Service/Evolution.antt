-- ===== src/Service/Evolution.antt =====
-- What any series of service operations, failed ones included, does to a row that exists.
use insider_notification.Base.{
  ℕ, String, Option, none, some, ◌≡◌, refl, ap, subst, sym, ◌∙◌, inl, inr, arith, eqb, eqb_iff,
  Bool-cases,
}
use insider_notification.Errors.{message, conflict_error}
use insider_notification.Effect.{
  Result, ok, err, then_on-state, seq-state, map_error-ok, on_error, wrapping, pure, ◌>>◌, lift,
}
use insider_notification.Platform.{Platform}
use insider_notification.Public.Status
use insider_notification.Public.Events.{Payload, schedule_cancelled}
use insider_notification.Public.Topic
use insider_notification.Domain.{Notification}
use insider_notification.Domain.Lifecycle.{
  IsAllowed, Reach, stay, Reach-trans, Reach-of_IsAllowed, transition-ok,
}
use insider_notification.Store.{
  DbNotification, Ids, from, entity_of, to_domain, NotificationRepository,
}
use insider_notification.Ports.{Publisher}
use insider_notification.Service.{
  publish, persist, create, cancel, cancel_entity, mark_cancelled, update_status, update_entity,
  write_status, check_transition, cancel_error, publish_at, publish_ready,
}
use insider_notification.Service.Contract.{Table, update, HasStatus, Lawful}

-- The row `e` became `e'`: the status moved along the diagram, and nothing else changed but the
-- time of the update.
pub record Became (e e' : DbNotification) : Type 0 where
  pub moved : Reach e.status e'.status
  pub same : e' ≡ record e { status = e'.status; updated_at = e'.updated_at }

abbrev pub Evolves : Table → Table → Type 0
Evolves t t' =
    (id : ℕ) (e : DbNotification)
    → t id ≡ some e
    → (e' : DbNotification) × (t' id ≡ some e') × Became e e'

pub Became-refl : (e : DbNotification) → Became e e
Became-refl e = record { moved = stay; same = refl }

Became-trans : {a b c : DbNotification} → Became a b → Became b c → Became a c
Became-trans {a} {b} {c} p q = record {
  moved = Reach-trans p.moved q.moved;
  same =
      q.same
      ∙ ap (λ (x : DbNotification). record x { status = c.status; updated_at = c.updated_at })
          p.same;
}

pub Evolves-of_eq : {t t' : Table} → t' ≡ t → Evolves t t'
Evolves-of_eq h id e found = (e, ap (λ f. f id) h ∙ found, Became-refl e)

pub Evolves-trans : {t u v : Table} → Evolves t u → Evolves u v → Evolves t v
Evolves-trans p q id e found =
    let (e1, found1, b1) = p id e found in
    let (e2, found2, b2) = q id e1 found1 in (e2, found2, Became-trans b1 b2)

-- A row that takes an allowed status.
Evolves-update :
    (t : Table) (id : ℕ) (status : String) (e e' : DbNotification)
    → t id ≡ some e
    → IsAllowed e.status status
    → HasStatus status e e'
    → Evolves t (update t id e')
Evolves-update t id status e e' found allowed same j d at_j = elim (Bool-cases (eqb id j)) [
  | inl here ↦
      let key : t id ≡ some d = ap t ((eqb_iff id j).0 here) ∙ at_j in
      let old : e ≡ d = ground arith in
      let now : status ≡ e'.status = sym (ap (λ (x : DbNotification). x.status) same) in
      (
        e',
        rw here,
        subst (λ x. Became x e') old
            (record {
              moved = subst (Reach e.status) now (Reach-of_IsAllowed allowed);
              same =
                  subst (λ st. e' ≡ record e { status = st; updated_at = e'.updated_at }) now same;
            }),
      )
  | inr other ↦ (d, rw other at_j, Became-refl d)
]

module _ {S : Type 0} (p : Platform) {ids : Ids S} {repo : NotificationRepository S}
    {publisher : Publisher S} (laws : Lawful ids repo publisher) where
  open laws use {row}

  abbrev Kept : S → S → Type 0
  Kept s s' = Evolves (row s) (row s')

  -- A write of a status that is allowed from the row as it is.
  write-Evolves :
      (s : S) (id : ℕ) (status : String) (e : DbNotification)
      → row s id ≡ some e
      → IsAllowed e.status status
      → Kept s (repo.update_status id status s).0
  write-Evolves s id status e found allowed = go (repo.update_status id status s) refl
    where
      go : (x : S × Result DbNotification) → repo.update_status id status s ≡ x → Kept s x.0
      go (s', ok e') done =
          let (old, read, same) = laws.update_old s s' id status e' done in
          let one : old ≡ e = ground arith in
          rw (laws.update_row s s' id status e' done) (
            Evolves-update (row s) id status e e' found allowed
              (subst (λ x. HasStatus status x e') one same))
      go (s', err x) failed = Evolves-of_eq (laws.update_err s s' id status x failed)

  publish-Evolves :
      (s s1 : S) (t : String) (m : Payload) → Kept s s1 → Kept s (publisher.publish t m s1).0
  publish-Evolves s s1 t m kept = Evolves-trans kept (Evolves-of_eq (laws.publish_row s1 t m))

  mark_cancelled-Evolves :
      (s : S) (id : ℕ) (e : DbNotification)
      → row s id ≡ some e
      → IsAllowed e.status Status.cancelled
      → Kept s (mark_cancelled p ids repo publisher id s).0
  unfolding mark_cancelled
  mark_cancelled-Evolves s id e found allowed =
      let written = write-Evolves s id Status.cancelled e found allowed in
      then_on-state (Kept s)
        (λ updated.
          wrapping p "publish cancel event: " (
            publisher.publish Topic.notification_schedule_cancelled
              (schedule_cancelled (record { notification_id = p.uuid_text id })))
          >> pure updated)
        (repo.update_status id Status.cancelled s)
        (λ updated _.
          seq-state (Kept s) (pure updated) _ (λ _. publish-Evolves s _ _ _ written)
            (publish-Evolves s _ _ _ written))
        written

  cancel_entity-Evolves :
      (s : S) (id : ℕ) (e : DbNotification)
      → row s id ≡ some e
      → Kept s (cancel_entity p ids repo publisher id e s).0
  unfolding cancel_entity check_transition to_domain
  cancel_entity-Evolves s id e found =
      seq-state (Kept s) (mark_cancelled p ids repo publisher id)
        (on_error (λ x. conflict_error (message p x)) (lift (check_transition p Status.cancelled e))
          s)
        (λ checked. mark_cancelled-Evolves s id e found (
          transition-ok p Status.cancelled (to_domain e)
            (map_error-ok (λ x. conflict_error (message p x)) _ checked)))
        (Evolves-of_eq refl)

  write_status-Evolves :
      (s : S) (id : ℕ) (status : String) (e : DbNotification)
      → row s id ≡ some e
      → IsAllowed e.status status
      → Kept s (write_status p ids repo publisher id status s).0
  unfolding write_status
  write_status-Evolves s id status e found allowed =
      let written = write-Evolves s id status e found allowed in
      then_on-state (Kept s) (λ updated. pure tt) (repo.update_status id status s) (λ _ _. written)
        written

  update_entity-Evolves :
      (s : S) (id : ℕ) (status : String) (e : DbNotification)
      → row s id ≡ some e
      → Kept s (update_entity p ids repo publisher id status e s).0
  unfolding update_entity check_transition to_domain
  update_entity-Evolves s id status e found =
      seq-state (Kept s) (write_status p ids repo publisher id status)
        (lift (check_transition p status e) s)
        (λ checked.
          write_status-Evolves s id status e found (transition-ok p status (to_domain e) checked))
        (Evolves-of_eq refl)

  -- A row that a read has returned stands in the table after the read.
  read_row :
      (s : S) (id : ℕ) (e : DbNotification)
      → (repo.get_by_id id s).1 ≡ ok e
      → row (repo.get_by_id id s).0 id ≡ some e
  read_row s id e got =
      ap (λ t. t id) (laws.get_row s id)
      ∙ laws.get_ok s (repo.get_by_id id s).0 id e (λ i. ((repo.get_by_id id s).0, got i))

  after_read : (s : S) (id : ℕ) {s' : S} → Kept (repo.get_by_id id s).0 s' → Kept s s'
  after_read s id kept = Evolves-trans (Evolves-of_eq (laws.get_row s id)) kept

  pub update_status-Evolves :
      (s : S) (id : ℕ) (status : String)
      → Evolves (row s) (row (update_status p ids repo publisher id status s).0)
  unfolding update_status
  update_status-Evolves s id status =
      then_on-state (Kept s) (update_entity p ids repo publisher id status) (repo.get_by_id id s)
        (λ e got. after_read s id (update_entity-Evolves _ id status e (read_row s id e got)))
        (Evolves-of_eq (laws.get_row s id))

  pub cancel-Evolves : (s : S) (id : ℕ) → Evolves (row s) (row (cancel p ids repo publisher id s).0)
  unfolding cancel
  cancel-Evolves s id =
      then_on-state (Kept s) (cancel_entity p ids repo publisher id)
        (on_error cancel_error (repo.get_by_id id) s)
        (λ e got.
          after_read s id
            (cancel_entity-Evolves _ id e (read_row s id e (map_error-ok cancel_error _ got))))
        (Evolves-of_eq (laws.get_row s id))

  insert-Evolves : (s : S) (e : DbNotification) → Kept s (repo.create e s).0
  insert-Evolves s e id old found = (old, laws.create_keeps s e old id found, Became-refl old)

  pub from-Evolves : (s : S) (n : Notification) (b : Option ℕ) → Kept s (from ids n b s).0
  unfolding from
  from-Evolves s n b =
      then_on-state (Kept s) (λ id. pure (entity_of n b id)) (ids.new_v7 s)
        (λ _ _. Evolves-of_eq (laws.new_v7_row s)) (Evolves-of_eq (laws.new_v7_row s))

  persist-Evolves :
      (s : S) (n : Notification) (b : Option ℕ) → Kept s (persist p ids repo publisher n b s).0
  unfolding persist
  persist-Evolves s n b =
      then_on-state (Kept s) (λ entity. wrapping p "create notification: " (repo.create entity))
        (from ids n b s) (λ e _. Evolves-trans (from-Evolves s n b) (insert-Evolves _ e))
        (from-Evolves s n b)

  publish_at-Evolves :
      (s : S) (e : DbNotification) (d : Option ℕ) → Kept s (publish_at p ids repo publisher e d s).0
  unfolding publish_at publish_ready
  publish_at-Evolves s e none = Evolves-of_eq (laws.publish_row s _ _)
  publish_at-Evolves s e (some t) = Evolves-of_eq (laws.publish_row s _ _)

  pub create-Evolves :
      (s : S) (n : Notification) → Evolves (row s) (row (create p ids repo publisher n s).0)
  unfolding create publish
  create-Evolves s n =
      then_on-state (Kept s) (λ e. publish p ids repo publisher e >> pure e)
        (persist p ids repo publisher n none s)
        (λ e _.
          let sent =
            Evolves-trans (persist-Evolves s n none) (publish_at-Evolves _ e e.deliver_after) in
          seq-state (Kept s) (pure e) _ (λ _. sent) sent)
        (persist-Evolves s n none)
