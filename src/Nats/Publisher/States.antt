-- ===== src/Nats/Publisher/States.antt =====
-- What a batch of publications keeps of the state: shared/messaging/nats/publisher.go.
use insider_notification.Base.{String, List, [], ◌∷◌, ◌≡◌, refl}
use insider_notification.Errors.{Error}
use insider_notification.Effect.{
  Result, ok, err, then_on, pure, then_on-state, seq-state, ◌>>=◌, ◌>>◌,
}
use insider_notification.Platform.{Platform}
use insider_notification.Public.Events.{Payload}
use insider_notification.Nats.{JetStream, Marshaller}
use insider_notification.Nats.Publisher.{
  send_all, collect, settle, publish_batch, encode, send_async, and_then,
}

-- `P` is kept by each call of JetStream.
module _ {ℓ} {S F : Type 0} (p : Platform) (json : Marshaller) (js : JetStream S F) (P : S → Type ℓ)
    (async_keeps : (s : S) (u c : String) → P s → P (js.publish_msg_async u c s).0)
    (complete_keeps : (s : S) → P s → P (js.complete s).0)
    (outcome_keeps : (s : S) (f : F) → P s → P (js.outcome f s).0) where
  and_then-state :
      (rest : S → S × Result (List F)) (f : F) (s : S)
      → P (rest s).0
      → P (and_then p json js rest f s).0
  and_then-state rest f s h = then_on-state P (λ fs. pure (f ∷ fs)) (rest s) (λ _ _. h) h

  send_all-state : (u : String) (ms : List Payload) (s : S) → P s → P (send_all p json js u ms s).0
  unfolding send_all
  send_all-state u [] s h = h
  send_all-state u (m ∷ ms) s h =
      let rest = send_all p json js u ms in
      then_on-state P (λ c. send_async p json js u c >>= and_then p json js rest)
        (encode p json js m s)
        (λ c _.
          let sent = async_keeps s u c h in
          then_on-state P (and_then p json js rest) (send_async p json js u c s)
            (λ f _. and_then-state rest f _ (send_all-state u ms _ sent)) sent)
        h

  pub collect-state : (fs : List F) (s : S) → P s → P (collect p json js fs s).0
  unfolding collect
  collect-state [] s h = h
  collect-state (f ∷ fs) s h = collect-state fs (js.outcome f s).0 (outcome_keeps s f h)

  pub publish_batch-state :
      (u : String) (ms : List Payload) (s : S) → P s → P (publish_batch p json js u ms s).0
  unfolding publish_batch
  publish_batch-state u [] s h = h
  publish_batch-state u (m ∷ ms) s h =
      let sent = send_all-state u (m ∷ ms) s h in
      then_on-state P (λ fs. js.complete >> settle p json js fs) (send_all p json js u (m ∷ ms) s)
        (λ fs _.
          let completed = complete_keeps _ sent in
          seq-state P (settle p json js fs) (js.complete (send_all p json js u (m ∷ ms) s).0)
            (λ _. collect-state fs _ completed) completed)
        sent

-- Where the wait for the acknowledgements is cut off, the batch fails.
pub publish_batch-fails :
    {S F : Type 0} (p : Platform) (json : Marshaller) (js : JetStream S F) (u : String)
    (m : Payload) (ms : List Payload) (s : S)
    → ((v : S) → (e : Error) × ((js.complete v).1 ≡ err e))
    → (e : Error) × ((publish_batch p json js u (m ∷ ms) s).1 ≡ err e)
unfolding publish_batch
publish_batch-fails {S} {F} p json js u m ms s cut = after_send (send_all p json js u (m ∷ ms) s)
  where
    after_wait :
        (fs : List F) (y : S × Result (Unit {0}))
        → (e : Error) × (y.1 ≡ err e)
        → (e : Error) × ((then_on (λ _. settle p json js fs) y).1 ≡ err e)
    after_wait fs (v, ok _) (e, h) = cc
    after_wait fs (v, err x) h = (x, refl)

    after_send :
        (y : S × Result (List F))
        → (e : Error) × ((then_on (λ fs. js.complete >> settle p json js fs) y).1 ≡ err e)
    after_send (v, err x) = (x, refl)
    after_send (v, ok fs) = after_wait fs (js.complete v) (cut v)
