-- ===== src/Nats/Subscriber.antt =====
-- The subscriptions: shared/messaging/nats/subscriber.go. A goroutine that feeds a channel is a
-- loop over the state of the broker and the channel; traces and logs are left out.
pub mod Accounts
pub mod Once
pub mod Trip
pub mod Loop
use insider_notification.Base.{
  ℕ, zero, suc, ◌-◌, ◌^◌, min, String, Bool, true, false, Option, none, some, List, [], ◌∷◌, eqb,
  if◌then◌else◌,
}
use insider_notification.Effect.{Result, ok, err}
use insider_notification.Nats.{Msg}

-- `Result`: the event, its message and the number of the attempt.
pub record Received (A : Type 0) : Type 0 where
  pub event : A
  pub msg : Msg
  pub attempt_number : ℕ

-- What the loops call: `json.Unmarshal` into the type of the event, `ctx.Err() != nil`, `Fetch`,
-- `Nak`, the select that sends a value on the channel (true) or finds the context done (false), and
-- `Drain` with the closing of the channel.
pub record Pull (S A B : Type 0) : Type 0 where
  pub unmarshal : String → Result A
  pub is_done : S → S × Bool
  pub fetch : S → S × Result (List Msg)
  pub nak : Msg → S → S
  pub send : B → S → S × Bool
  pub close : S → S

-- The attempt number of a message: the count of its deliveries, at most `math.MaxInt`.
unfoldable pub attempt_of : Option ℕ → ℕ
attempt_of none = 1
attempt_of (some n) = min n (2 ^ 63 - 1)

abbrev pub received : {A : Type 0} → Msg → A → Received A
received m e = record { event = e; msg = m; attempt_number = attempt_of m.num_delivered }

module _ {S A B : Type 0} (c : Pull S A B) where
  open c use {unmarshal, is_done, fetch, nak, send, close}

  abbrev pub decoded : Msg → Result A → S → S × Option (Received A)
  decoded m (ok e) s = (s, some (received m e))
  decoded m (err x) s = (nak m s, none)

  -- `decode`: a message that is no event is given back to the broker.
  unfoldable pub decode : Msg → S → S × Option (Received A)
  decode m s = decoded m (unmarshal m.data_) s

  abbrev pub add : Option (Received A) → List (Received A) → List (Received A)
  add none rs = rs
  add (some r) rs = r ∷ rs

  abbrev pub after_decode :
      (S → S × List (Received A)) → S × Option (Received A) → S × List (Received A)
  after_decode rest (s, o) = ((rest s).0, add o (rest s).1)

  -- The loop of `SubscribeBatch` that decodes what was fetched.
  unfoldable pub decode_all : List Msg → S → S × List (Received A)
  decode_all [] s = (s, [])
  decode_all (m ∷ ms) s = after_decode (decode_all ms) (decode m s)

  -- Each message of the batch is given back.
  unfoldable pub nak_all : List (Received A) → S → S
  nak_all [] s = s
  nak_all (r ∷ rs) s = nak_all rs (nak r.msg s)

  -- The loops: a pass gives the state and whether the loop goes on, `passes` is at most the given
  -- number of them, and true says that the goroutine has not ended.
  abbrev pub go_on : (S → S × Bool) → S × Bool → S × Bool
  go_on again (s, true) = again s
  go_on again (s, false) = (close s, false)

  abbrev pub unless_done : (S → S × Bool) → S × Bool → S × Bool
  unless_done body (s, true) = (s, false)
  unless_done body (s, false) = body s

  abbrev pub fetched : (List Msg → S → S × Bool) → S × Result (List Msg) → S × Bool
  fetched body (s, err e) = (s, true)
  fetched body (s, ok ms) = body ms s

  abbrev pub pass : (List Msg → S → S × Bool) → S → S × Bool
  pass body s = unless_done (λ u. fetched body (fetch u)) (is_done s)

  unfoldable pub passes : (List Msg → S → S × Bool) → ℕ → S → S × Bool
  passes body zero s = (s, true)
  passes body (suc n) s = go_on (passes body n) (pass body s)

module _ {S A : Type 0} (c : Pull S A (List (Received A))) where
  abbrev pub after_batch : List (Received A) → S × Bool → S × Bool
  after_batch rs (s, true) = (s, true)
  after_batch rs (s, false) = (nak_all c rs s, false)

  unfoldable pub hand_batch : S × List (Received A) → S × Bool
  hand_batch (s, []) = (s, true)
  hand_batch (s, r ∷ rs) = after_batch (r ∷ rs) (c.send (r ∷ rs) s)

  -- The body of the loop of `SubscribeBatch` after a fetch.
  unfoldable pub batch_body : List Msg → S → S × Bool
  batch_body ms s = hand_batch (decode_all c ms s)

  -- `SubscribeBatch`
  abbrev pub subscribe_batch : ℕ → S → S × Bool
  subscribe_batch = passes c batch_body

module _ {S A : Type 0} (c : Pull S A (Received A)) where
  abbrev pub after_one : Msg → (S → S × Bool) → S × Bool → S × Bool
  after_one m rest (s, true) = rest s
  after_one m rest (s, false) = (c.nak m s, false)

  abbrev pub hand_one : Msg → (S → S × Bool) → S × Option (Received A) → S × Bool
  hand_one m rest (s, none) = rest s
  hand_one m rest (s, some r) = after_one m rest (c.send r s)

  -- The body of the loop of `Subscribe` after a fetch.
  unfoldable pub single_body : List Msg → S → S × Bool
  single_body [] s = (s, true)
  single_body (m ∷ ms) s = hand_one m (single_body ms) (decode c m s)

  -- `Subscribe`
  abbrev pub subscribe : ℕ → S → S × Bool
  subscribe = passes c single_body
