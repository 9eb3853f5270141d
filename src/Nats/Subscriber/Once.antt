-- ===== src/Nats/Subscriber/Once.antt =====
-- Each message of a subscription goes one way: shared/messaging/nats/subscriber.go.
use insider_notification.Base.{
  count, ℕ, zero, suc, ◌+◌, Bool, true, false, Option, none, some, List, [], ◌∷◌, ◌||◌, ◌≡◌, refl,
  subst, arith,
}
use insider_notification.Effect.{Result, ok, err}
use insider_notification.Nats.{Msg}
use insider_notification.Nats.Subscriber.{
  Received, Pull, received, decode, decoded, decode_all, add, nak_all, passes, pass, unless_done,
  fetched, go_on, hand_batch, after_batch, batch_body, subscribe_batch, single_body, hand_one,
  after_one, subscribe,
}
use insider_notification.Nats.Subscriber.Accounts.{
  msgs_of, PullLaws, Owes, done-Owes, close-Owes, nak-Owes, send_ok-Owes, send_done-Owes,
  fetch_ok-Owes, fetch_error-Owes,
}

module _ {S A B : Type 0} {c : Pull S A B} {of : B → List Msg} (laws : PullLaws c of)
    (q : Msg → Bool) where
  -- What a loop comes to: while it goes on, and at its end where it is exact, no message is owed.
  abbrev pub Settles : Bool → S × Bool → Type 0
  Settles exact (s, on) = (k : ℕ) × Owes laws q s k × (on || exact ≡ true → k ≡ 0)

  -- What `decode` comes to, with `k` owed for other messages.
  pub decoded-Owes :
      (m : Msg) (ms : List Msg) (r : Result A) (s : S) (k : ℕ)
      → Owes laws q s (count q (m ∷ ms) + k)
      → Owes laws q
          (decoded c m r s).0
          (count q ms + (count q (msgs_of (add c (decoded c m r s).1 [])) + k))
  decoded-Owes m ms (ok e) s k h = omega arith
  decoded-Owes m ms (err x) s k h = nak-Owes laws q m s (count q ms + (0 + k)) (omega arith)

  pub count-add :
      (o : Option (Received A)) (rs : List (Received A))
      → count q (msgs_of (add c o rs)) ≡ count q (msgs_of (add c o [])) + count q (msgs_of rs)
  count-add none rs = omega arith
  count-add (some r) rs = omega arith

  module _ (exact : Bool) (body : List Msg → S → S × Bool)
      (settles : (ms : List Msg) (s : S)
        → Owes laws q s (count q ms)
        → Settles exact (body ms s)) where
    fetched-Settles :
        (s : S) (y : S × Result (List Msg))
        → c.fetch s ≡ y
        → Owes laws q s 0
        → Settles exact (fetched c body y)
    fetched-Settles s (u, err e) h owes = (0, fetch_error-Owes laws q s u e 0 h owes, λ _. refl)
    fetched-Settles s (u, ok ms) h owes =
        let given = fetch_ok-Owes laws q s u ms 0 h owes in settles ms u (omega arith)

    unless_done-Settles :
        (y : S × Bool)
        → Owes laws q y.0 0
        → Settles exact (unless_done c (λ u. fetched c body (c.fetch u)) y)
    unless_done-Settles (s, true) owes = (0, owes, λ _. refl)
    unless_done-Settles (s, false) owes = fetched-Settles s (c.fetch s) refl owes

    go_on-Settles :
        (again : S → S × Bool) (y : S × Bool)
        → ((s : S) → Owes laws q s 0 → Settles exact (again s))
        → Settles exact y
        → Settles exact (go_on c again y)
    go_on-Settles again (s, true) rest (k, owes, on) =
        rest s (subst (λ x. Owes laws q s x) (on refl) owes)
    go_on-Settles again (s, false) rest (k, owes, on) = (k, close-Owes laws q s k owes, on)

    pub passes-Settles : (n : ℕ) (s : S) → Owes laws q s 0 → Settles exact (passes c body n s)
    unfolding passes
    passes-Settles zero s owes = (0, owes, λ _. refl)
    passes-Settles (suc n) s owes =
        go_on-Settles (passes c body n) (pass c body s) (passes-Settles n)
          (unless_done-Settles (c.is_done s) (done-Owes laws q s 0 owes))

module _ {S A : Type 0} {c : Pull S A (List (Received A))} (laws : PullLaws c msgs_of)
    (q : Msg → Bool) where
  nak_all-Owes :
      (rs : List (Received A)) (s : S)
      → Owes laws q s (count q (msgs_of rs))
      → Owes laws q (nak_all c rs s) 0
  unfolding nak_all
  nak_all-Owes [] s h = h
  nak_all-Owes (r ∷ rs) s h =
      nak_all-Owes rs (c.nak r.msg s) (nak-Owes laws q r.msg s (count q (msgs_of rs)) (omega arith))

  decode_all-Owes :
      (ms : List Msg) (s : S) (k : ℕ)
      → Owes laws q s (count q ms + k)
      → Owes laws q (decode_all c ms s).0 (count q (msgs_of (decode_all c ms s).1) + k)
  unfolding decode_all decode
  decode_all-Owes [] s k h = h
  decode_all-Owes (m ∷ ms) s k h =
      let (u, o) = decode c m s in
      let all = count-add laws q o (decode_all c ms u).1 in
      let rest =
        decode_all-Owes ms u (count q (msgs_of (add c o [])) + k)
          (decoded-Owes laws q m ms (c.unmarshal m.data_) s k h) in
      omega arith

  hand_batch-Owes :
      (s : S) (rs : List (Received A))
      → Owes laws q s (count q (msgs_of rs))
      → Owes laws q (hand_batch c (s, rs)).0 0
  unfolding hand_batch
  hand_batch-Owes s [] h = h
  hand_batch-Owes s (r ∷ rs) h = sent (c.send (r ∷ rs) s) refl
    where
      sent : (y : S × Bool) → c.send (r ∷ rs) s ≡ y → Owes laws q (after_batch c (r ∷ rs) y).0 0
      sent (u, true) eq = send_ok-Owes laws q (r ∷ rs) s u 0 eq (omega arith)
      sent (u, false) eq = nak_all-Owes (r ∷ rs) u (send_done-Owes laws q (r ∷ rs) s u _ eq h)

  or_true : (b : Bool) → b || true ≡ true
  or_true true = refl
  or_true false = refl

  batch_body-Settles :
      (ms : List Msg) (s : S) → Owes laws q s (count q ms) → Settles laws q true (batch_body c ms s)
  unfolding batch_body
  batch_body-Settles ms s owes =
      let decoded_ = decode_all-Owes ms s 0 (omega arith) in
      let (u, rs) = decode_all c ms s in (0, hand_batch-Owes u rs (omega arith), λ _. refl)

  -- After any number of passes of `SubscribeBatch`, the one in which the context ends included: of
  -- the messages that were fetched, any kind counts as many as it does among those that were handed
  -- on in a batch and those that were given back to the broker, as it did at the start. None is
  -- lost, handed on twice, or both handed on and given back.
  pub subscribe_batch-Owes :
      (n : ℕ) (s : S) → Owes laws q s 0 → Owes laws q (subscribe_batch c n s).0 0
  subscribe_batch-Owes n s owes =
      let (k, owed, none_) =
        passes-Settles laws q true (batch_body c) batch_body-Settles n s owes in
      subst (Owes laws q (subscribe_batch c n s).0) (none_ (or_true (subscribe_batch c n s).1)) owed

module _ {S A : Type 0} {c : Pull S A (Received A)} (laws : PullLaws c (λ r. r.msg ∷ []))
    (q : Msg → Bool) where
  after_one-Owes :
      (m : Msg) (ms : List Msg) (r : Received A) (s : S) (rest : S → S × Bool)
      → r.msg ≡ m
      → Owes laws q s (count q ms + (count q (r.msg ∷ []) + 0))
      → ((u : S) → Owes laws q u (count q ms) → Settles laws q false (rest u))
      → (y : S × Bool) → c.send r s ≡ y
      → Settles laws q false (after_one c m rest y)
  after_one-Owes m ms r s rest of_m h others (u, true) sent =
      others u (send_ok-Owes laws q r s u (count q ms) sent (omega arith))
  after_one-Owes m ms r s rest of_m h others (u, false) sent = (
    count q ms,
    nak-Owes laws q m u (count q ms) (
        send_done-Owes laws q r s u _ sent
          (subst (λ x. Owes laws q s (count q (x ∷ []) + count q ms)) of_m (omega arith))),
    λ going. cc,
  )

  decoded_one-Owes :
      (m : Msg) (ms : List Msg) (r : Result A) (s : S) (rest : S → S × Bool)
      → Owes laws q
          (decoded c m r s).0
          (count q ms + (count q (msgs_of (add c (decoded c m r s).1 [])) + 0))
      → ((u : S) → Owes laws q u (count q ms) → Settles laws q false (rest u))
      → Settles laws q false (hand_one c m rest (decoded c m r s))
  decoded_one-Owes m ms (err x) s rest h others = others (c.nak m s) (omega arith)
  decoded_one-Owes m ms (ok e) s rest h others =
      after_one-Owes m ms (received m e) s rest refl h others (c.send (received m e) s) refl

  single_body-Settles :
      (ms : List Msg) (s : S)
      → Owes laws q s (count q ms)
      → Settles laws q false (single_body c ms s)
  unfolding single_body decode
  single_body-Settles [] s owes = (0, owes, λ _. refl)
  single_body-Settles (m ∷ ms) s owes =
      decoded_one-Owes m ms (c.unmarshal m.data_) s (single_body c ms)
        (decoded-Owes laws q m ms (c.unmarshal m.data_) s 0 (omega arith)) (single_body-Settles ms)

  -- After any number of passes of `Subscribe`: of the messages that were fetched, any kind counts
  -- at least as many as it does among those that were handed on and those that were given back to
  -- the broker, and exactly as many while the loop goes on, if it does at the start. Until the
  -- context ends none is lost, and none is ever handed on twice, or both handed on and given back.
  pub subscribe-Settles : (n : ℕ) (s : S) → Owes laws q s 0 → Settles laws q false (subscribe c n s)
  subscribe-Settles n s owes =
      passes-Settles laws q false (single_body c) single_body-Settles n s owes

  -- A fetch of `Subscribe` in which the context ends while a decoded message waits for its place on
  -- the channel: that message is given back to the broker and the loop ends, and all the messages
  -- after it in the fetch are owed, neither handed on nor given back.
  pub single_body-Owes :
      (m : Msg) (ms : List Msg) (e : A) (s u : S)
      → c.unmarshal m.data_ ≡ ok e
      → c.send (received m e) s ≡ (u, false)
      → Owes laws q s (count q (m ∷ ms))
      → ((single_body c (m ∷ ms) s).1 ≡ false)
        × Owes laws q (single_body c (m ∷ ms) s).0 (count q ms)
  unfolding single_body decode
  single_body-Owes m ms e s u read done owes =
      rw (read, done)
        (
          refl,
          nak-Owes laws q m u (count q ms)
              (send_done-Owes laws q (received m e) s u _ done (omega arith)),
        )
