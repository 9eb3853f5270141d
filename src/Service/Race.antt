-- ===== src/Service/Race.antt =====
-- Two calls on one notification at the same time. `Cancel` and `UpdateStatus` of
-- api/internal/service/notification.go, interleaved between the read and the write of the first.
use insider_notification.Base.{ℕ, Option, ◌≡◌, ap, some, ◌∙◌, eqb_refl}
use insider_notification.Effect.{ok, lift, on_error, seq-ok}
use insider_notification.Errors.{conflict_error, message}
use insider_notification.Platform.{Platform}
use insider_notification.Public.Status
use insider_notification.Store.{DbNotification, Ids, NotificationRepository}
use insider_notification.Ports.{Publisher}
use insider_notification.Service.{cancel_entity, mark_cancelled, update_status, check_transition}
use insider_notification.Service.Contract.{update, Lawful}
use insider_notification.Service.Cancel.{mark_cancelled-ok, update_status-ok}

update_self :
    (t : ℕ → Option DbNotification) (id : ℕ) (e : DbNotification) → update t id e id ≡ some e
update_self t id e = rw (eqb_refl id)

module _ {S : Type 0} (p : Platform) {ids : Ids S} {repo : NotificationRepository S}
    {publisher : Publisher S} (laws : Lawful ids repo publisher) where
  open laws use {row}

  -- With lawful ports: if `UpdateStatus` to delivered succeeds, and the part of `Cancel` that
  -- follows its read then succeeds on whatever entity `e` it has read, the row was delivered in
  -- between and ends as cancelled.
  pub cancel-overwrites :
      (s s1 s2 : S) (id : ℕ) (e e' : DbNotification)
      → update_status p ids repo publisher id Status.delivered s ≡ (s1, ok tt)
      → cancel_entity p ids repo publisher id e s1 ≡ (s2, ok e')
      → (d : DbNotification) × (row s1 id ≡ some d)
        × (d.status ≡ Status.delivered)
        × (row s2 id ≡ some e')
        × (e'.status ≡ Status.cancelled)
  unfolding cancel_entity
  cancel-overwrites s s1 s2 id e e' delivering cancelling =
      let (old, d, found, allowed, now, table, quiet) =
        update_status-ok p laws s s1 id Status.delivered delivering in
      let (s3, checked, h) =
        seq-ok (mark_cancelled p ids repo publisher id)
          (on_error (λ x. conflict_error (message p x))
            (lift (check_transition p Status.cancelled e)) s1)
          cancelling in
      let (d2, found2, then_now, table2, told) = mark_cancelled-ok p laws s3 s2 id e' h in
      (
        d,
        ap (λ t. t id) table ∙ update_self (row s) id d,
        ap (λ (x : DbNotification). x.status) now,
        ap (λ t. t id) table2 ∙ update_self (row s3) id e',
        ap (λ (x : DbNotification). x.status) then_now,
      )
