-- ===== src/Nats/Publisher/Order.antt =====
-- The order in which a batch is sent: shared/messaging/nats/publisher.go.
use mathlib.Core.List.{append-nil, append_assoc}
use insider_notification.Base.{String, List, [], ◌∷◌, ◌++◌, map, ◌≡◌, refl, sym, ap, ap₂, ◌∙◌}
use insider_notification.Effect.{
  Result, ok, then_on-ok, seq-ok, on_error-ok, pure, lift, ◌>>◌, ◌>>=◌,
}
use insider_notification.Errors.{wrap}
use insider_notification.Platform.{Platform}
use insider_notification.Public.Events.{Payload}
use insider_notification.Nats.{JetStream, Marshaller}
use insider_notification.Nats.Publisher.{
  send_all, collect, settle, publish_batch, encode, send_async, and_then,
}

-- The messages that went out to the server, with their subjects, in the order in which they did: an
-- asynchronous publication that gives a future sends its message, and the waits send none.
pub record LogLaws {S F : Type 0} (js : JetStream S F) : Type 0 where
  pub log : S → List (String × String)
  pub async_log :
      (s s' : S) (t b : String) (f : F)
      → js.publish_msg_async t b s ≡ (s', ok f)
      → log s' ≡ log s ++ (t, b) ∷ []
  pub complete_log : (s : S) → log (js.complete s).0 ≡ log s
  pub outcome_log : (s : S) (f : F) → log (js.outcome f s).0 ≡ log s

module _ {S F : Type 0} (p : Platform) (json : Marshaller) {js : JetStream S F}
    (sends : LogLaws js) where
  open sends use {log}

  abbrev under : (subject : String) → List String → List (String × String)
  under t bs = map (λ b. (t, b)) bs

  -- The JSON of each payload, once and in their order, went out under the subject.
  abbrev pub Sent : String → List Payload → List String → S → S → Type 0
  Sent t ms bs s s' =
      (map json.marshal ms ≡ map (λ b. ok b) bs) × (log s' ≡ log s ++ map (λ b. (t, b)) bs)

  send_all-Sent :
      (t : String) (ms : List Payload) (s s' : S) (fs : List F)
      → send_all p json js t ms s ≡ (s', ok fs)
      → (bs : List String) × Sent t ms bs s s'
  unfolding send_all
  send_all-Sent t [] s s' fs h =
      let same : s ≡ s' = ap (λ (y : S × Result (List F)). y.0) h in
      ([], (refl, ap log (sym same) ∙ sym (append-nil (log s))))
  send_all-Sent t (m ∷ ms) s s' fs h =
      let rest = send_all p json js t ms in
      let (u, b, marshalled, h1) =
        then_on-ok (λ b. send_async p json js t b >>= and_then p json js rest)
          (encode p json js m s) h in
      let (v, f, sent, h2) = then_on-ok (and_then p json js rest) (send_async p json js t b u) h1 in
      let (w, later, others, h3) = then_on-ok (λ fs. pure (f ∷ fs)) (rest v) h2 in
      let fine =
        on_error-ok (wrap p "nats marshal payload: ") (lift (json.marshal m)) s marshalled in
      let same : s ≡ u = ap (λ (y : S × Result String). y.0) fine in
      let text : json.marshal m ≡ ok b = ap (λ (y : S × Result String). y.1) fine in
      let out =
        sends.async_log u v t b f
          (on_error-ok (wrap p "nats async publish: ") (js.publish_msg_async t b) u sent) in
      let (bs, (texts, logged)) = send_all-Sent t ms v w later others in
      let end_ : w ≡ s' = ap (λ (y : S × Result (List F)). y.0) h3 in
      (
        b ∷ bs,
        (
          ap₂ (λ x xs. x ∷ xs) text texts,
          ap log (sym end_)
              ∙ logged
              ∙ ap (λ l. l ++ under t bs) out
              ∙ append_assoc (log u) ((t, b) ∷ []) (under t bs)
              ∙ ap (λ l. l ++ (t, b) ∷ under t bs) (ap log (sym same)),
        ),
      )

  collect_log : (fs : List F) (s : S) → log (collect p json js fs s).0 ≡ log s
  unfolding collect
  collect_log [] s = refl
  collect_log (f ∷ fs) s = collect_log fs (js.outcome f s).0 ∙ sends.outcome_log s f

  -- A batch that is published with success went out message by message, each once and in the order
  -- of the batch, and nothing else did.
  pub publish_batch-Sent :
      (t : String) (ms : List Payload) (s s' : S)
      → publish_batch p json js t ms s ≡ (s', ok tt)
      → (bs : List String) × Sent t ms bs s s'
  unfolding publish_batch
  publish_batch-Sent t [] s s' h =
      let same : s ≡ s' = ap (λ (y : S × Result (Unit {0})). y.0) h in
      ([], (refl, ap log (sym same) ∙ sym (append-nil (log s))))
  publish_batch-Sent t (x ∷ ms) s s' h =
      let (u, fs, sent, h1) =
        then_on-ok (λ fs. js.complete >> settle p json js fs) (send_all p json js t (x ∷ ms) s) h in
      let (v, completed, h2) = seq-ok (settle p json js fs) (js.complete u) h1 in
      let (bs, (texts, logged)) = send_all-Sent t (x ∷ ms) s u fs sent in
      let waited : v ≡ (js.complete u).0 =
        ap (λ (y : S × Result (Unit {0})). y.0) (sym completed) in
      let end_ : (collect p json js fs v).0 ≡ s' = ap (λ (y : S × Result (Unit {0})). y.0) h2 in
      (
        bs,
        (
          texts,
          ap log (sym end_) ∙ collect_log fs v ∙ ap log waited ∙ sends.complete_log u ∙ logged,
        ),
      )
