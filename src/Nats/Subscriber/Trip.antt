-- ===== src/Nats/Subscriber/Trip.antt =====
-- Events from a publisher to a subscription: shared/messaging/nats/publisher.go and subscriber.go.
use insider_notification.Base.{
  ℕ, String, Option, some, List, [], ◌∷◌, map, All, ◌≡◌, refl, ap, subst, ◌∙◌, inl, inr,
}
use insider_notification.Effect.{ok}
use insider_notification.Platform.{Platform}
use insider_notification.Public.Events.{Payload}
use insider_notification.Ports.{Listed}
use insider_notification.Nats.{Msg, JetStream, Marshaller}
use insider_notification.Nats.Publisher.{publish_batch}
use insider_notification.Nats.Publisher.Acks.{StreamLaws, Announced, publish_batch-Announced}
use insider_notification.Nats.Publisher.Order.{LogLaws, Sent, publish_batch-Sent}
use insider_notification.Nats.Subscriber.{
  Received, Pull, received, decode, decoded, decode_all, after_decode,
}

-- What `json.Unmarshal` makes of what `json.Marshal` gave.
abbrev pub ReadsBack : {S A B : Type 0} → Marshaller → (A → Payload) → Pull S A B → Type 0
ReadsBack {A = A} json payload c =
    (e : A) (b : String) → json.marshal (payload e) ≡ ok b → c.unmarshal b ≡ ok e

-- A message with the given data that was delivered as often as `n` says.
abbrev pub message_of : (String → Option ℕ) → String → Msg
message_of n b = record { data_ = b; num_delivered = n b }

abbrev pub receipt : {A : Type 0} → (String → Option ℕ) → String → A → Received A
receipt n b e = received (message_of n b) e

abbrev pub receipts : {A : Type 0} → (String → Option ℕ) → List String → List A → List (Received A)
receipts n [] es = []
receipts n (b ∷ bs) [] = []
receipts n (b ∷ bs) (e ∷ es) = receipt n b e ∷ receipts n bs es

module _ {S F T A B : Type 0} (p : Platform) (json : Marshaller) {js : JetStream S F}
    (laws : StreamLaws js) (sends : LogLaws js) (payload : A → Payload) (c : Pull T A B)
    (n : String → Option ℕ) where
  -- The data of the events, as they are in the stream, and what a subscription decodes from it.
  abbrev pub Travels : S → String → T → List A → List String → Type 0
  Travels s t u es bs =
      All (laws.stored s t) bs
      × (decode_all c (map (message_of n) bs) u ≡ (u, receipts n bs es))
      × (map (λ (r : Received A). r.event) (receipts n bs es) ≡ es)

  travels :
      (es : List A) (bs : List String) (s : S) (t : String) (u : T)
      → ReadsBack json payload c
      → map json.marshal (map payload es) ≡ map (λ b. ok b) bs
      → ((e : Payload) → Listed e (map payload es) → Announced p json laws s t e)
      → Travels s t u es bs
  unfolding decode_all decode
  travels [] [] s t u reads texts announced = (tt, refl, refl)
  travels [] (b ∷ bs) s t u reads texts announced = cc
  travels (e ∷ es) [] s t u reads texts announced = cc
  travels (e ∷ es) (b ∷ bs) s t u reads texts announced =
      let (b', marshalled, there) = announced (payload e) (inl refl) in
      let text : json.marshal (payload e) ≡ ok b = cc in
      let one : b' ≡ b = cc in
      let later_texts : map json.marshal (map payload es) ≡ map (λ b. ok b) bs = cc in
      let (others, same, events) =
        travels es bs s t u reads later_texts (λ x later. announced x (inr later)) in
      let decodes : decoded c (message_of n b) (c.unmarshal b) u ≡ (u, some (receipt n b e)) =
        ap (λ r. decoded c (message_of n b) r u) (reads e b text) in
      (
        (subst (laws.stored s t) one there, others),
        ap (after_decode c (decode_all c (map (message_of n) bs))) decodes
            ∙ ap (λ (x : T × List (Received A)). (x.0, receipt n b e ∷ x.1)) same,
        ap (◌∷◌ e) events,
      )

  -- A batch of events that is published with success has sent the JSON of each event once, in the
  -- order of the batch, and nothing else; all of it is in the stream under its subject; and a
  -- subscription that is handed these messages in that order, however often each was delivered,
  -- decodes them to the events in their order and gives none back, provided that the JSON of an
  -- event reads back as that event.
  pub publish_batch-Travels :
      (es : List A) (t : String) (s s' : S) (u : T)
      → ReadsBack json payload c
      → publish_batch p json js t (map payload es) s ≡ (s', ok tt)
      → (bs : List String) × Sent p json sends t (map payload es) bs s s' × Travels s' t u es bs
  publish_batch-Travels es t s s' u reads done =
      let (bs, sent) = publish_batch-Sent p json sends t (map payload es) s s' done in
      (
        bs,
        sent,
        travels es bs s' t u reads sent.0
            (λ m listed. publish_batch-Announced p json laws t (map payload es) s s' m done listed),
      )
