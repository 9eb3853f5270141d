-- ===== src/Processor/Client/Outcome.antt =====
-- What a delivery attempt reports of the provider's answer.
use Prim.Native.String
use insider_notification.Base.{
  ℕ, String, true, false, List, [], ◌∷◌, ◌++◌, ◌≡◌, ◌≢◌, ◌↔◌, ◌⊎◌, inl, inr, refl, ap, ◌∙◌, arith,
}
use insider_notification.Errors.{Error}
use insider_notification.Effect.{Result, ok, err, ◌>>=◌, ◌>>◌, lift, wrapping}
use insider_notification.Platform.{Platform}
use insider_notification.Processor.Http.{HttpClient, request}
use insider_notification.Processor.Client.{
  DeliveryResult, NtfnDeliveryRequestBody, Clock, classify, result_of, send,
}

-- The provider has refused the request for good.
abbrev pub IsRefusal : ℕ → Type 0
IsRefusal code = (code ≡ 400) ⊎ (code ≡ 401) ⊎ (code ≡ 403)

-- What the documentation of the pipeline says of each answer, and of none; the provider's message
-- id, which it says is set on success, is empty in every case.
abbrev pub Reports : Result ℕ → DeliveryResult → Type 0
Reports (ok code) d =
    (d.status_code ≡ code)
    × ((d.success ≡ true) ↔ (code ≡ 202))
    × ((d.retryable ≡ true) ↔ ((code ≢ 202) × ¬ IsRefusal code))
    × (d.provider_msg_id ≡ "")
Reports (err e) d =
    (d.success ≡ false) × (d.retryable ≡ true) × (d.status_code ≡ 0) × (d.provider_msg_id ≡ "")

result_of-Reports : (p : Platform) (latency : ℕ) (r : Result ℕ) → Reports r (result_of p latency r)
unfolding result_of classify
result_of-Reports p latency (ok code) =
    (ground arith, (ground arith, ground arith), (ground arith, ground arith), ground arith)
result_of-Reports p latency (err e) = (refl, refl, refl, refl)

-- The provider's record of the requests that reached the network: method, address and body. Reading
-- the clock adds none, and a round trip adds its own.
pub record Network {S : Type 0} (clock : Clock S) (c : HttpClient S NtfnDeliveryRequestBody)
    : Type 0 where
  pub log : S → List (String × String × String)
  pub now_log : (s : S) → log (clock.now s).0 ≡ log s
  pub round_trip_log :
      (method url body : String) (s : S)
      → log (c.round_trip method url body s).0 ≡ log s ++ (method, url, body) ∷ []

module _ {S : Type 0} {clock : Clock S} {c : HttpClient S NtfnDeliveryRequestBody}
    (net : Network clock c) where
  open net use {log}

  -- One POST of the payload to the base address, or none where no request could be made of it.
  abbrev pub Posts : NtfnDeliveryRequestBody → S → S × DeliveryResult → Type 0
  Posts payload s (s', d) =
      ((body : String) × (c.marshal payload ≡ ok body)
        × (log s' ≡ log s ++ ("POST", String.◌++◌ c.base_url "", body) ∷ []))
      ⊎ ((log s' ≡ log s) × (d.success ≡ false) × (d.status_code ≡ 0))

  -- The log of a request, by its steps.
  abbrev Requested : NtfnDeliveryRequestBody → S → S × Result ℕ → Type 0
  Requested payload s (s', r) =
      ((body : String) × (c.marshal payload ≡ ok body)
        × (log s' ≡ log s ++ ("POST", String.◌++◌ c.base_url "", body) ∷ []))
      ⊎ ((log s' ≡ log s) × ((e : Error) × (r ≡ err e)))

  request-Requested :
      (p : Platform) (payload : NtfnDeliveryRequestBody) (s : S)
      → Requested payload s (request p c "POST" "" payload s)
  unfolding request
  request-Requested p payload s = go (c.marshal payload) refl
    where
      url : String
      url = String.◌++◌ c.base_url ""

      tripped :
          (body : String) (x : S × Result ℕ)
          → c.marshal payload ≡ ok body
          → log x.0 ≡ log s ++ ("POST", url, body) ∷ []
          → Requested payload s
              (wrapping p (String.◌++◌ "POST" (String.◌++◌ " " (String.◌++◌ url ": "))) (λ _. x) s)
      tripped body (s', ok code) made told = inl (body, made, told)
      tripped body (s', err e) made told = inl (body, made, told)

      built :
          (body : String) (r : Result (Unit {0}))
          → c.marshal payload ≡ ok body
          → Requested payload s (
              (do
                wrapping p "build request: " (lift r)
                wrapping p
                    (String.◌++◌ "POST" (String.◌++◌ " " (String.◌++◌ url ": ")))
                    (c.round_trip "POST" url body))
                s)
      built body (ok _) made =
          tripped body (c.round_trip "POST" url body s) made (net.round_trip_log _ _ _ s)
      built body (err e) made = inr (refl, (_, refl))

      go :
          (m : Result String)
          → c.marshal payload ≡ m
          → Requested payload s (
              (do
                body ← wrapping p "marshal payload: " (lift m)
                wrapping p "build request: " (lift (c.new_request "POST" url body))
                wrapping p
                    (String.◌++◌ "POST" (String.◌++◌ " " (String.◌++◌ url ": ")))
                    (c.round_trip "POST" url body))
                s)
      go (ok body) made = built body (c.new_request "POST" url body) made
      go (err e) made = inr (refl, (_, refl))

  posted :
      (p : Platform) (latency : ℕ) (payload : NtfnDeliveryRequestBody) (s s1 : S) (x : S × Result ℕ)
      → log s1 ≡ log s
      → Requested payload s1 x
      → Posts payload s ((clock.now x.0).0, result_of p latency x.1)
  unfolding result_of
  posted p latency payload s s1 (s2, r) same (inl (body, made, told)) = inl (
    body,
    made,
    net.now_log s2 ∙ told ∙ ap (λ l. l ++ ("POST", String.◌++◌ c.base_url "", body) ∷ []) same,
  )
  posted p latency payload s s1 (s2, ok code) same (inr (quiet, (e, failed))) = cc
  posted p latency payload s s1 (s2, err _) same (inr (quiet, (e, failed))) =
      inr (net.now_log s2 ∙ quiet ∙ same, refl, refl)

  -- A delivery attempt is one POST of the payload to the base address, or none where no request
  -- could be made of it. It succeeds exactly on 202; after another answer it is retryable unless
  -- the code is 400, 401 or 403; with no answer it is retryable. The result carries the code and
  -- never a message id.
  pub send-Reports :
      (p : Platform) (to channel content : String) (s : S)
      → let payload : NtfnDeliveryRequestBody = record {
        to = to;
        channel = channel;
        content = content;
      } in
        Reports
          (request p c "POST" "" payload (clock.now s).0).1
          (send p clock c to channel content s).1
        × Posts payload s (send p clock c to channel content s)
  unfolding send
  send-Reports p to channel content s =
      let payload : NtfnDeliveryRequestBody = record {
        to = to;
        channel = channel;
        content = content;
      } in
      let s1 = (clock.now s).0 in
      (
        result_of-Reports p _ _,
        posted p _ payload s s1 _ (net.now_log s) (request-Requested p payload s1),
      )
