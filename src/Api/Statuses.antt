-- ===== src/Api/Statuses.antt =====
-- The HTTP status of the requests for one notification, errors included.
use insider_notification.Base.{ℕ, String, Option, none, some, ◌≡◌, refl, sym, subst}
use insider_notification.Errors.{
  db_not_found, as_domain, as_not_found, as_conflict, as_validation, as_json, is_db_not_found,
}
use insider_notification.Effect.{M, ok, err, then_on, map_error}
use insider_notification.Platform.{Platform}
use insider_notification.Public.Status
use insider_notification.Store.{DbNotification, Ids, NotificationRepository}
use insider_notification.Ports.{Publisher}
use insider_notification.Domain.Lifecycle.{IsAllowed}
use insider_notification.Service.{cancel, get_by_id, cancel_entity, cancel_error}
use insider_notification.Service.Contract.{Lawful}
use insider_notification.Service.Cancel.{cancel-refused}
use insider_notification.Api.Responses.{HttpResponse, err_handler, error_response}
use insider_notification.Api.{
  id_or_invalid, notification_reply, cancel_answer, get_at, cancel_at, get_notification,
  cancel_notification,
}

module _ {S : Type 0} (p : Platform) (ids : Ids S) (repo : NotificationRepository S)
    (publisher : Publisher S) where
  -- The whole request, through `errHandler`.
  abbrev pub get_reply : String → S → S × HttpResponse
  get_reply text s = err_handler p (get_notification p ids repo publisher text s)

  abbrev pub cancel_reply : String → S → S × HttpResponse
  cancel_reply text s = err_handler p (cancel_notification p ids repo publisher text s)

  -- A reply has a status, and leaves the state.
  abbrev pub Replies : S × HttpResponse → S → ℕ → Type 0
  Replies x t code = (x.0 ≡ t) × (x.1.status ≡ code)

  by_id :
      (at : ℕ → M S HttpResponse) (o o' : Option ℕ) (s t : S) (code : ℕ)
      → o ≡ o'
      → Replies (err_handler p (then_on at (s, id_or_invalid o'))) t code
      → Replies (err_handler p (then_on at (s, id_or_invalid o))) t code
  by_id at o o' s t code same h =
      subst (λ x. Replies (err_handler p (then_on at (s, id_or_invalid x))) t code) (sym same) h

  -- A text that is no UUID is answered with 422 by the requests that get and cancel a notification,
  -- and the state is as it was.
  pub bad_id-Replies :
      (text : String) (s : S)
      → p.parse_uuid text ≡ none
      → Replies (get_reply text s) s 422 × Replies (cancel_reply text s) s 422
  unfolding get_notification cancel_notification err_handler error_response as_not_found as_conflict
      as_domain as_validation
  bad_id-Replies text s bad = (
    by_id (get_at p ids repo publisher) _ none s s 422 bad (refl, refl),
    by_id (cancel_at p ids repo publisher) _ none s s 422 bad (refl, refl),
  )

  -- Where the id is valid and the repository does not find the notification, the request to cancel
  -- it is answered with 404, and the request to get it with 500.
  pub missing-Replies :
      (text : String) (id : ℕ) (s t : S)
      → p.parse_uuid text ≡ some id
      → repo.get_by_id id s ≡ (t, err db_not_found)
      → Replies (cancel_reply text s) t 404 × Replies (get_reply text s) t 500
  unfolding get_notification cancel_notification err_handler error_response get_by_id cancel
      cancel_error as_not_found as_conflict as_domain as_validation as_json is_db_not_found
  missing-Replies text id s t good gone = (
    by_id (cancel_at p ids repo publisher) _ (some id) s t 404 good (
        subst
          (λ x.
            Replies
              (err_handler p (
                then_on (λ e u. (u, ok (cancel_answer p e)))
                  (then_on (cancel_entity p ids repo publisher id)
                    (x.0, map_error cancel_error x.1))))
              t 404)
          (sym gone) (refl, refl)),
    by_id (get_at p ids repo publisher) _ (some id) s t 500 good (
        subst
          (λ x.
            Replies (err_handler p (then_on (λ e u. (u, ok (notification_reply p 200 e))) x)) t 500)
          (sym gone) (refl, refl)),
  )

  -- With lawful ports: a request to cancel a notification, by a valid id, whose status as read does
  -- not allow it is answered with 409 in the state that the read left, and no row has changed.
  pub refused-Replies :
      (laws : Lawful ids repo publisher) (text : String) (id : ℕ) (s t : S) (e : DbNotification)
      → p.parse_uuid text ≡ some id
      → repo.get_by_id id s ≡ (t, ok e)
      → ¬ IsAllowed e.status Status.cancelled
      → Replies (cancel_reply text s) t 409 × (laws.row t ≡ laws.row s)
  unfolding cancel_notification err_handler error_response as_not_found as_conflict
  refused-Replies laws text id s t e good found refused =
      let (why, conflict, kept, quiet) = cancel-refused p laws s t id e found refused in
      (
        by_id (cancel_at p ids repo publisher) _ (some id) s t 409 good (
            subst
              (λ x. Replies (err_handler p (then_on (λ e u. (u, ok (cancel_answer p e))) x)) t 409)
              (sym conflict) (refl, refl)),
        kept,
      )
