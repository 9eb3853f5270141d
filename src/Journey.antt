-- ===== src/Journey.antt =====
-- A notification from the processor back to the API service:
-- processor/internal/transport/messaging/ notification_ready_consumer.go,
-- processor/internal/delivery/pipeline.go and api/internal/transport/
-- messaging/delivery_result_consumer.go, with the states of the two services apart.
pub mod Created
use insider_notification.Base.{
  ℕ, pos, ◌+◌, ◌≤◌, ◌<◌, String, Bool, true, some, [], ◌∷◌, ◌++◌, ◌≡◌, refl, sym, ap, subst, ◌∙◌,
  inl, inr, Bool-cases, eqb, eqb_refl, arith, if◌then◌else◌,
}
use insider_notification.Effect.{Result, ok}
use insider_notification.Platform.{Platform}
use insider_notification.Public.Status
use insider_notification.Public.Topic
use insider_notification.Public.Events.{
  NotificationReadyEvent, NotificationDeliveryResultEvent, delivery_result,
}
use insider_notification.Domain.Lifecycle.{IsAllowed, transition-allowed, deliver, give_up}
use insider_notification.Store.{DbNotification, Ids, NotificationRepository, to_domain}
use insider_notification.Ports.{Publisher, Reply, acked}
use insider_notification.Service.{update_status, update_entity, write_status, check_transition}
use insider_notification.Service.Contract.{HasStatus, update}
use insider_notification.Service.Contract
use insider_notification.Reports.{process_result}
use insider_notification.Reports.Settled.{process_result-Written}
use insider_notification.Processor.Client.{DeliveryResult}
use insider_notification.Processor.Pipeline.{NotificationDeliveryPipeline, max_attempts_for}
use insider_notification.Processor.Pipeline.Laws
use insider_notification.Processor.Pipeline.Attempt.{verdict}
use insider_notification.Processor.Consumer.Redelivery.{Healthy, redeliver, redeliver-SettlesBy}

module _ {S : Type 0} (p : Platform) {ids : Ids S} {repo : NotificationRepository S}
    {publisher : Publisher S} (laws : Contract.Lawful ids repo publisher) where
  open laws use {row}

  -- The repository answers: a row that is there is read, and its status can be written.
  pub record Answers : Type 0 where
    pub reads :
        (s : S) (id : ℕ) (e : DbNotification)
        → row s id ≡ some e
        → (t : S) × (repo.get_by_id id s ≡ (t, ok e))
    pub writes :
        (s : S) (id : ℕ) (status : String) (e : DbNotification)
        → row s id ≡ some e
        → (t : S) × (e' : DbNotification) × (repo.update_status id status s ≡ (t, ok e'))

  checks :
      (status : String) (e : DbNotification)
      → IsAllowed e.status status
      → check_transition p status e ≡ ok tt
  unfolding check_transition to_domain
  checks status e allowed = ap (λ x. x.1) (transition-allowed p status (to_domain e) allowed)

  -- A report that the status allows is written.
  report_acked :
      (evt : NotificationDeliveryResultEvent) (id : ℕ) (s : S) (e : DbNotification)
      → Answers
      → p.parse_uuid evt.notification_id ≡ some id
      → row s id ≡ some e
      → IsAllowed e.status evt.status
      → (process_result p ids repo publisher evt s).1 ≡ acked
  unfolding process_result update_status update_entity write_status
  report_acked evt id s e answers parsed there allowed =
      let (t, read) = answers.reads s id e there in
      let still : row t id ≡ some e =
        ap (λ (y : S × Result DbNotification). row y.0 id) (sym read)
        ∙ ap (λ f. f id) (laws.get_row s id)
        ∙ there in
      let (u, e', written) = answers.writes t id evt.status e still in
      rw (parsed, read, checks evt.status e allowed, written) refl

  -- The row after the report.
  abbrev pub Reported : ℕ → NotificationDeliveryResultEvent → DbNotification → S × Reply → Type 0
  Reported id evt e (s, reply) =
      (reply ≡ acked) × ((e' : DbNotification) × (row s id ≡ some e') × HasStatus evt.status e e')

  report-Reported :
      (evt : NotificationDeliveryResultEvent) (id : ℕ) (s : S) (e : DbNotification)
      → Answers
      → p.parse_uuid evt.notification_id ≡ some id
      → row s id ≡ some e
      → IsAllowed e.status evt.status
      → Reported id evt e (process_result p ids repo publisher evt s)
  report-Reported evt id s e answers parsed there allowed =
      let done = report_acked evt id s e answers parsed there allowed in
      let (id', parsed', (d, e', found, _, same, table, _)) =
        process_result-Written p laws evt s done in
      let one : id' ≡ id = ground arith in
      let old : d ≡ e = ground (arith, subst (λ i. row s i ≡ some d) one found) in
      let now : row (process_result p ids repo publisher evt s).0 id ≡ some e' =
        ap (λ f. f id) table
        ∙ ap (λ b. if b then some e' else row s id) (ap (λ i. eqb i id) one ∙ eqb_refl id) in
      (done, (e', now, subst (λ x. HasStatus evt.status x e') old same))

  verdict-IsAllowed :
      (evt : NotificationReadyEvent) (dr : DeliveryResult) (k : ℕ) (status : String)
      → status ≡ Status.pending
      → IsAllowed status (verdict evt dr k).status
  verdict-IsAllowed evt dr k status pending = elim (Bool-cases dr.success) [
    | inl good ↦ rw good (inr (deliver pending refl))
    | inr bad ↦ rw bad (inr (give_up pending refl))
  ]

  verdict-id :
      (evt : NotificationReadyEvent) (dr : DeliveryResult) (k : ℕ)
      → (verdict evt dr k).notification_id ≡ evt.notification_id
  verdict-id evt dr k = elim (Bool-cases dr.success) [
    | inl good ↦ rw good refl
    | inr bad ↦ rw bad refl
  ]

  module _ {T : Type 0} {q : NotificationDeliveryPipeline T} (works : Laws.Lawful q) where
    open works use {sent}

    -- One verdict is published, of some attempt from 1 to m, and the API service that gets it
    -- acknowledges it and has its status in the row.
    abbrev pub Arrives :
        NotificationReadyEvent → (id m : ℕ) → DbNotification → S → T → T × Bool → Type 0
    Arrives evt id m e s t x =
        (x.1 ≡ true)
        × ((dr : DeliveryResult) × (k : ℕ) × (1 ≤ k)
            × (k ≤ m)
            × (sent x.0 ≡ sent t ++ (Topic.status, delivery_result (verdict evt dr k)) ∷ [])
            × Reported id (verdict evt dr k) e
                (process_result p ids repo publisher (verdict evt dr k) s))

    -- With a processor that is healthy for the message: a message whose maximum is m and that can
    -- be delivered up to attempt m is acknowledged, and one report is published for it, of an
    -- attempt k ≤ m. If the API service, with a repository that answers, is handed that report
    -- while the notification with its id is pending, it acknowledges it, and the status of the row
    -- is then the reported one, with the other fields as before but for the time of the update.
    pub redeliver-Arrives :
        (evt : NotificationReadyEvent) (idle : T → T) (health : Healthy q evt idle) (id m left : ℕ)
        (e : DbNotification) (s : S) (t : T)
        → ((u : T) → (sent (idle u) ≡ sent u) × (works.requests (idle u) ≡ works.requests u))
        → max_attempts_for evt ≡ pos m
        → 1 ≤ m
        → m < 1 + left
        → health.ready t
        → Answers
        → p.parse_uuid evt.notification_id ≡ some id
        → row s id ≡ some e
        → e.status ≡ Status.pending
        → Arrives evt id m e s t (redeliver q evt idle left 1 t)
    redeliver-Arrives evt idle health id m left e s t quiet max some_attempt enough live answers
          parsed there pending =
        let (done, (dr, k, low, high, _, published)) =
          redeliver-SettlesBy works health m left 1 t quiet max some_attempt enough live in
        (
          done,
          (
            dr,
            k,
            low,
            high,
            published,
            report-Reported (verdict evt dr k) id s e answers
                (ap p.parse_uuid (verdict-id evt dr k) ∙ parsed) there
                (verdict-IsAllowed evt dr k e.status pending),
          ),
        )
