-- ===== src/Service/Cancel.antt =====
-- `Cancel` and `UpdateStatus`: what they change and announce when they succeed, and when they
-- refuse.
use insider_notification.Base.{ℕ, String, some, [], ◌∷◌, ◌++◌, ◌≡◌, ap, subst, sym, ◌∙◌, arith}
use insider_notification.Errors.{message, conflict_error}
use insider_notification.Effect.{
  ok, err, pure, lift, ◌>>◌, wrapping, on_error, on_error-ok, then_on-ok, seq-ok,
}
use insider_notification.Platform.{Platform}
use insider_notification.Public.Status
use insider_notification.Public.Topic
use insider_notification.Public.Events.{Payload, schedule_cancelled}
use insider_notification.Domain.Lifecycle.{IsAllowed, transition-ok, transition-refused}
use insider_notification.Store.{DbNotification, Ids, to_domain, NotificationRepository}
use insider_notification.Ports.{Publisher}
use insider_notification.Service.{
  cancel, cancel_entity, mark_cancelled, cancel_error, update_status, update_entity, write_status,
  check_transition,
}
use insider_notification.Service.Contract.{update, HasStatus, Lawful, announced}

-- What is sent when a notification is cancelled.
abbrev pub cancellation : Platform → ℕ → String × Payload
cancellation p id = (
  Topic.notification_schedule_cancelled,
  schedule_cancelled (record { notification_id = p.uuid_text id }),
)

module _ {S : Type 0} (p : Platform) {ids : Ids S} {repo : NotificationRepository S}
    {publisher : Publisher S} (laws : Lawful ids repo publisher) where
  open laws use {row, sent}

  -- A write of a status: the row had some other content, and now has the status.
  written :
      (s s' : S) (id : ℕ) (status : String) (e' : DbNotification)
      → repo.update_status id status s ≡ (s', ok e')
      → (e : DbNotification) × (row s id ≡ some e)
        × HasStatus status e e'
        × (row s' ≡ update (row s) id e')
        × (sent s' ≡ sent s)
  written s s' id status e' done =
      let (e, found, same) = laws.update_old s s' id status e' done in
      (
        e,
        found,
        same,
        laws.update_row s s' id status e' done,
        ap sent (sym (ap (λ x. x.0) done)) ∙ laws.update_sent s id status,
      )

  -- The read at the start of both operations.
  read :
      (s s' : S) (id : ℕ) (e : DbNotification)
      → repo.get_by_id id s ≡ (s', ok e)
      → (row s id ≡ some e) × (row s' ≡ row s) × (sent s' ≡ sent s)
  read s s' id e got =
      let there : (repo.get_by_id id s).0 ≡ s' = ap (λ x. x.0) got in
      (
        laws.get_ok s s' id e got,
        ap row (sym there) ∙ laws.get_row s id,
        ap sent (sym there) ∙ laws.get_sent s id,
      )

  pub mark_cancelled-ok :
      (s s' : S) (id : ℕ) (e' : DbNotification)
      → mark_cancelled p ids repo publisher id s ≡ (s', ok e')
      → (e : DbNotification) × (row s id ≡ some e)
        × HasStatus Status.cancelled e e'
        × (row s' ≡ update (row s) id e')
        × (sent s' ≡ sent s ++ cancellation p id ∷ [])
  unfolding mark_cancelled
  mark_cancelled-ok s s' id e' h =
      let (s1, updated, done, h1) =
        then_on-ok
          (λ updated.
            wrapping p "publish cancel event: "
              (publisher.publish (cancellation p id).0 (cancellation p id).1)
            >> pure updated)
          (repo.update_status id Status.cancelled s) h in
      let (s2, told, same) =
        seq-ok (pure updated)
          (wrapping p "publish cancel event: "
            (publisher.publish (cancellation p id).0 (cancellation p id).1) s1)
          h1 in
      let (e, found, kept, table, quiet) = written s s1 id Status.cancelled updated done in
      let (still, more) = announced laws _ _ _ s1 s2 told in
      let one : updated ≡ e' = ground arith in
      let last : s2 ≡ s' = ap (λ x. x.0) same in
      (
        e,
        found,
        subst (HasStatus Status.cancelled e) one kept,
        ap row (sym last) ∙ still ∙ table ∙ ap (update (row s) id) one,
        ap sent (sym last) ∙ more ∙ ap (λ l. l ++ cancellation p id ∷ []) quiet,
      )

  -- With lawful ports: `Cancel` on success found the row pending or already cancelled, sets its
  -- status to cancelled and changes nothing else of the table, and sends exactly one cancellation
  -- of that id.
  pub cancel-ok :
      (s s' : S) (id : ℕ) (e' : DbNotification)
      → cancel p ids repo publisher id s ≡ (s', ok e')
      → (e : DbNotification) × (row s id ≡ some e)
        × IsAllowed e.status Status.cancelled
        × HasStatus Status.cancelled e e'
        × (row s' ≡ update (row s) id e')
        × (sent s' ≡ sent s ++ cancellation p id ∷ [])
  unfolding cancel cancel_entity check_transition to_domain
  cancel-ok s s' id e' h =
      let (s1, e, got, h1) =
        then_on-ok (cancel_entity p ids repo publisher id)
          (on_error cancel_error (repo.get_by_id id) s) h in
      let (found, kept, quiet) =
        read s s1 id e (on_error-ok cancel_error (repo.get_by_id id) s got) in
      let (s2, checked, h2) =
        seq-ok (mark_cancelled p ids repo publisher id)
          (on_error (λ x. conflict_error (message p x))
            (lift (check_transition p Status.cancelled e)) s1)
          h1 in
      let passed =
        on_error-ok (λ x. conflict_error (message p x))
          (lift (check_transition p Status.cancelled e)) s1 checked in
      let allowed = transition-ok p Status.cancelled (to_domain e) (ap (λ x. x.1) passed) in
      let here : s1 ≡ s2 = ap (λ x. x.0) passed in
      let (d, found2, same, table, told) = mark_cancelled-ok s2 s' id e' h2 in
      let rows : row s2 ≡ row s = ap row (sym here) ∙ kept in
      let one : d ≡ e = ground (arith, ap (λ t. t id) rows) in
      (
        e,
        found,
        allowed,
        subst (λ x. HasStatus Status.cancelled x e') one same,
        table ∙ ap (λ t. update t id e') rows,
        told ∙ ap (λ l. l ++ cancellation p id ∷ []) (ap sent (sym here) ∙ quiet),
      )

  -- With lawful ports: `UpdateStatus` on success found a row whose status may move to the new one,
  -- sets it and changes nothing else of the table, and sends nothing.
  pub update_status-ok :
      (s s' : S) (id : ℕ) (status : String)
      → update_status p ids repo publisher id status s ≡ (s', ok tt)
      → (e : DbNotification) × (e' : DbNotification) × (row s id ≡ some e)
        × IsAllowed e.status status
        × HasStatus status e e'
        × (row s' ≡ update (row s) id e')
        × (sent s' ≡ sent s)
  unfolding update_status update_entity write_status check_transition to_domain
  update_status-ok s s' id status h =
      let (s1, e, got, h1) =
        then_on-ok (update_entity p ids repo publisher id status) (repo.get_by_id id s) h in
      let (found, kept, quiet) = read s s1 id e got in
      let (s2, checked, h2) =
        seq-ok (write_status p ids repo publisher id status) (lift (check_transition p status e) s1)
          h1 in
      let allowed = transition-ok p status (to_domain e) (ap (λ x. x.1) checked) in
      let here : s1 ≡ s2 = ap (λ x. x.0) checked in
      let (s3, e', done, same_s) = then_on-ok (λ _. pure tt) (repo.update_status id status s2) h2 in
      let (d, found2, same, table, told) = written s2 s3 id status e' done in
      let rows : row s2 ≡ row s = ap row (sym here) ∙ kept in
      let one : d ≡ e = ground (arith, ap (λ t. t id) rows) in
      let last : s3 ≡ s' = ap (λ x. x.0) same_s in
      (
        e,
        e',
        found,
        allowed,
        subst (λ x. HasStatus status x e') one same,
        ap row (sym last) ∙ table ∙ ap (λ t. update t id e') rows,
        ap sent (sym last) ∙ told ∙ ap sent (sym here) ∙ quiet,
      )

  -- With lawful ports: a cancellation that the diagram does not allow (of a delivered or a failed
  -- notification, or of an unknown status) ends with a conflict right after its read: it writes and
  -- sends nothing.
  pub cancel-refused :
      (s s' : S) (id : ℕ) (e : DbNotification)
      → repo.get_by_id id s ≡ (s', ok e)
      → ¬ IsAllowed e.status Status.cancelled
      → (text : String) × (cancel p ids repo publisher id s ≡ (s', err (conflict_error text)))
        × (row s' ≡ row s)
        × (sent s' ≡ sent s)
  unfolding cancel cancel_entity check_transition to_domain
  cancel-refused s s' id e got barred =
      let (found, kept, quiet) = read s s' id e got in
      let (x, refused, why) = transition-refused p Status.cancelled (to_domain e) barred in
      (message p x, rw (got, refused), kept, quiet)
