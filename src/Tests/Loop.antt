-- ===== src/Tests/Loop.antt =====
-- The loops over a channel in memory.
use insider_notification.Base.{String, Option, none, some, List, [], ◌∷◌, ◌≡◌, refl, arith}
use insider_notification.Nats.Subscriber.Loop.{
  Receiver, ReceiverLaws, for_each_batch, onto_all, HandlesAll, for_each_batch-HandlesAll,
}

record Feed (B : Type 0) : Type 0 where
  values : List B
  handled : List B
  ended : List String

abbrev receive_from : {B : Type 0} → List B → Feed B → Feed B × Option B
receive_from [] s = (s, none)
receive_from (b ∷ bs) s = (record s { values = bs }, some b)

abbrev receiver : (B : Type 0) → Receiver (Feed B) String B
receiver B = record {
  receive = λ s. receive_from s.values s;
  handler = λ b s. record s { handled = b ∷ s.handled };
  end_span = λ a s. record s { ended = a ∷ s.ended };
}

at_end : {B : Type 0} (bs : List B) (s : Feed B) → bs ≡ [] → (receive_from bs s).1 ≡ none
at_end [] s h = refl
at_end (b ∷ bs) s h = cc

at_next :
    {B : Type 0} (xs : List B) (s : Feed B) (b : B) (bs : List B)
    → xs ≡ b ∷ bs
    → ((receive_from xs s).1 ≡ some b) × ((receive_from xs s).0.values ≡ bs)
at_next [] s b bs h = (cc, cc)
at_next (x ∷ xs) s b bs h = (cc, cc)

received_handled :
    {B : Type 0} (xs : List B) (s : Feed B) → (receive_from xs s).0.handled ≡ s.handled
received_handled [] s = refl
received_handled (x ∷ xs) s = refl

received_ended : {B : Type 0} (xs : List B) (s : Feed B) → (receive_from xs s).0.ended ≡ s.ended
received_ended [] s = refl
received_ended (x ∷ xs) s = refl

abbrev laws : (B : Type 0) → ReceiverLaws (receiver B)
laws B = record {
  waiting = λ s. s.values;
  handled = λ s. s.handled;
  ended = λ s. s.ended;
  receive_end = λ s h. at_end s.values s h;
  receive_next = λ s b bs h. at_next s.values s b bs h;
  receive_handled = λ s. received_handled s.values s;
  receive_ended = λ s. received_ended s.values s;
  handler_waiting = λ b s. refl;
  handler_handled = λ b s. refl;
  handler_ended = λ b s. refl;
  span_waiting = λ a s. refl;
  span_handled = λ a s. refl;
  span_ended = λ a s. refl;
}

abbrev three : Feed String
three = record { values = "a" ∷ "b" ∷ "c" ∷ []; handled = []; ended = [] }

abbrev batches : Feed (List String)
batches = record { values = ("a" ∷ "b" ∷ []) ∷ ("c" ∷ []) ∷ []; handled = []; ended = [] }

for_each_batch-HandlesAll_example :
    HandlesAll
      (laws (List String))
      (onto_all (("a" ∷ "b" ∷ []) ∷ ("c" ∷ []) ∷ []) [])
      batches
      (for_each_batch (receiver (List String)) 3 batches)
for_each_batch-HandlesAll_example =
    for_each_batch-HandlesAll (laws (List String)) 3 batches (omega arith)
