-- ===== src/Nats/Publisher/Acks.antt =====
-- What a publication that succeeds has achieved: shared/messaging/nats/publisher.go.
use insider_notification.Base.{String, List, [], ◌∷◌, ◌≡◌, refl, sym, ap, subst, ◌∙◌, inl, inr}
use insider_notification.Errors.{Error, join, wrap}
use insider_notification.Effect.{
  Result, ok, err, then_on-ok, seq-ok, on_error-ok, pure, lift, ◌>>◌, ◌>>=◌,
}
use insider_notification.Platform.{Platform}
use insider_notification.Public.Events.{Payload}
use insider_notification.Ports.{Listed}
use insider_notification.Nats.{JetStream, Marshaller}
use insider_notification.Nats.Publisher.States.{collect-state, publish_batch-state}
use insider_notification.Nats.Publisher.{
  send_all, collect, settle, publish_batch, to_result, add_error, encode, send_async, and_then,
}

-- What JetStream documents: a publication that is acknowledged, by the call or by its future, is in
-- the stream, and nothing that is there is taken out by a publication. `refers` relates a future to
-- the subject and the data that it was made for.
pub record StreamLaws {S F : Type 0} (js : JetStream S F) : Type 1 where
  pub stored : S → (subject data_ : String) → Type 0
  pub refers : F → (subject data_ : String) → Type 0
  pub publish_ok : (s s' : S) (t b : String) → js.publish_msg t b s ≡ (s', ok tt) → stored s' t b
  pub async_refers :
      (s s' : S) (t b : String) (f : F) → js.publish_msg_async t b s ≡ (s', ok f) → refers f t b
  pub outcome_ok :
      (s s' : S) (f : F) (t b : String)
      → js.outcome f s ≡ (s', ok tt)
      → refers f t b
      → stored s' t b
  pub publish_keeps :
      (s : S) (u c t b : String) → stored s t b → stored (js.publish_msg u c s).0 t b
  pub async_keeps :
      (s : S) (u c t b : String) → stored s t b → stored (js.publish_msg_async u c s).0 t b
  pub complete_keeps : (s : S) (t b : String) → stored s t b → stored (js.complete s).0 t b
  pub outcome_keeps : (s : S) (f : F) (t b : String) → stored s t b → stored (js.outcome f s).0 t b

module _ {S F : Type 0} (p : Platform) (json : Marshaller) {js : JetStream S F}
    (laws : StreamLaws js) where
  open laws use {stored, refers}

  -- The stream has a message with the payload under the subject.
  abbrev pub Announced : S → String → Payload → Type 0
  Announced s t m = (b : String) × (json.marshal m ≡ ok b) × stored s t b

  -- The futures are those of the payloads, in their order.
  abbrev pub Refers : String → List Payload → List F → Type 0
  Refers t [] [] = Unit
  Refers t [] (f ∷ fs) = ⊥
  Refers t (m ∷ ms) [] = ⊥
  Refers t (m ∷ ms) (f ∷ fs) =
      ((b : String) × (json.marshal m ≡ ok b) × refers f t b) × Refers t ms fs

  send_all-Refers :
      (t : String) (ms : List Payload) (s s' : S) (fs : List F)
      → send_all p json js t ms s ≡ (s', ok fs)
      → Refers t ms fs
  unfolding send_all
  send_all-Refers t [] s s' fs h = let same : [] ≡ fs = cc in subst (Refers t []) same tt
  send_all-Refers t (m ∷ ms) s s' fs h =
      let rest = send_all p json js t ms in
      let (u, b, marshalled, h1) =
        then_on-ok (λ b. send_async p json js t b >>= and_then p json js rest)
          (encode p json js m s) h in
      let (v, f, sent, h2) = then_on-ok (and_then p json js rest) (send_async p json js t b u) h1 in
      let (w, later, others, h3) = then_on-ok (λ fs. pure (f ∷ fs)) (rest v) h2 in
      let same : f ∷ later ≡ fs = cc in
      let fine =
        on_error-ok (wrap p "nats marshal payload: ") (lift (json.marshal m)) s marshalled in
      subst (Refers t (m ∷ ms)) same (
        (
          b,
          ap (λ x. x.1) fine,
          laws.async_refers u v t b f
              (on_error-ok (wrap p "nats async publish: ") (js.publish_msg_async t b) u sent),
        ),
        send_all-Refers t ms v w later others,
      )

  collect_keeps :
      (fs : List F) (s : S) (t b : String) → stored s t b → stored (collect p json js fs s).0 t b
  collect_keeps fs s t b =
      collect-state p json js (λ z. stored z t b) (λ v w c. laws.async_keeps v w c t b)
        (λ v. laws.complete_keeps v t b) (λ v f. laws.outcome_keeps v f t b) fs s

  no_error :
      (r : Result (Unit {0})) (es : List Error) → add_error r es ≡ [] → (r ≡ ok tt) × (es ≡ [])
  no_error (ok _) es h = (refl, h)
  no_error (err e) es h = cc

  -- With no error among the outcomes, every payload is in the stream.
  collect-Announced :
      (t : String) (m : Payload) (ms : List Payload) (fs : List F) (s : S)
      → Refers t ms fs
      → (collect p json js fs s).1 ≡ []
      → Listed m ms
      → Announced (collect p json js fs s).0 t m
  unfolding collect
  collect-Announced t m [] [] s refers h listed = absurd listed
  collect-Announced t m [] (f ∷ fs) s refers h listed = absurd refers
  collect-Announced t m (x ∷ ms) [] s refers h listed = absurd refers
  collect-Announced t m (x ∷ ms) (f ∷ fs) s ((b, marshalled, mine), others) h (inl same) =
      let (fine, rest) =
        no_error (js.outcome f s).1 (collect p json js fs (js.outcome f s).0).1 h in
      (
        b,
        ap json.marshal (sym same) ∙ marshalled,
        collect_keeps fs (js.outcome f s).0 t b
            (laws.outcome_ok s _ f t b (λ i. ((js.outcome f s).0, fine i)) mine),
      )
  collect-Announced t m (x ∷ ms) (f ∷ fs) s (mine, others) h (inr later) =
      let (fine, rest) =
        no_error (js.outcome f s).1 (collect p json js fs (js.outcome f s).0).1 h in
      collect-Announced t m ms fs (js.outcome f s).0 others rest later

  joined_none : (es : List Error) → to_result (join es) ≡ ok tt → es ≡ []
  unfolding join
  joined_none [] h = refl
  joined_none (e ∷ es) h = cc

  -- A batch whose publication succeeds is in the stream, every message of it.
  pub publish_batch-Announced :
      (t : String) (ms : List Payload) (s s' : S) (m : Payload)
      → publish_batch p json js t ms s ≡ (s', ok tt)
      → Listed m ms
      → Announced s' t m
  unfolding publish_batch
  publish_batch-Announced t [] s s' m h listed = absurd listed
  publish_batch-Announced t (x ∷ ms) s s' m h listed =
      let (u, fs, sent, h1) =
        then_on-ok (λ fs. js.complete >> settle p json js fs) (send_all p json js t (x ∷ ms) s) h in
      let (v, completed, h2) = seq-ok (settle p json js fs) (js.complete u) h1 in
      let none_ = joined_none (collect p json js fs v).1 (ap (λ y. y.1) h2) in
      subst (λ z. Announced z t m) (ap (λ y. y.0) h2)
        (collect-Announced t m (x ∷ ms) fs v (send_all-Refers t (x ∷ ms) s u fs sent) none_ listed)

  -- A batch takes nothing out of the stream, also where it fails.
  pub publish_batch_keeps :
      (u : String) (ms : List Payload) (s : S) (t b : String)
      → stored s t b
      → stored (publish_batch p json js u ms s).0 t b
  publish_batch_keeps u ms s t b =
      publish_batch-state p json js (λ z. stored z t b) (λ v w c. laws.async_keeps v w c t b)
        (λ v. laws.complete_keeps v t b) (λ v f. laws.outcome_keeps v f t b) u ms s
