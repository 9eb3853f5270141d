-- ===== src/Tests/Nats.antt =====
-- A subscription in memory, and a batch from a publisher to it.
use insider_notification.Base.{
  ℕ, zero, suc, String, Bool, true, false, some, List, [], ◌∷◌, ◌++◌, map, ◌≡◌, refl, sym, ap, ◌∙◌,
  eqb, ◌==◌, if◌then◌else◌,
}
use insider_notification.Errors.{Error, other}
use insider_notification.Effect.{Result, ok, err}
use insider_notification.Public.Events.{due, ScheduledNotificationDueEvent}
use insider_notification.Nats.{Msg}
use insider_notification.Errors.{join}
use insider_notification.Nats.Publisher.{publish_batch, send_all, collect}
use insider_notification.Nats.Subscriber.{Pull, Received, subscribe, subscribe_batch, single_body}
use insider_notification.Nats.Subscriber.Accounts.{msgs_of, PullLaws, Owes}
use insider_notification.Nats.Subscriber.Once.{
  Settles, subscribe_batch-Owes, subscribe-Settles, single_body-Owes,
}
use insider_notification.Nats.Publisher.Order.{Sent}
use insider_notification.Nats.Subscriber.Trip.{ReadsBack, Travels, publish_batch-Travels}
use insider_notification.Tests.Memory.{platform}
use insider_notification.Tests.Cluster.{Cluster, js, stream_laws, log_laws, json, complete}

-- The context is done when no `sends` are left.
record Channel : Type 0 where
  incoming : List (List Msg)
  taken : List Msg
  handed : List Msg
  given_back : List Msg
  sends : ℕ

abbrev fetch_from : List (List Msg) → Channel → Channel × Result (List Msg)
fetch_from [] s = (s, err (other "nats: timeout"))
fetch_from (ms ∷ mss) s = (record s { incoming = mss; taken = s.taken ++ ms }, ok ms)

abbrev send_at : ℕ → List Msg → Channel → Channel × Bool
send_at zero ms s = (s, false)
send_at (suc n) ms s = (record s { handed = s.handed ++ ms; sends = n }, true)

abbrev read_due : String → Result ScheduledNotificationDueEvent
read_due b =
    if b == "{"
    then err (other "unexpected end of JSON input")
    else ok (record { notification_id = b })

abbrev pull : {B : Type 0} → (B → List Msg) → Pull Channel ScheduledNotificationDueEvent B
pull of = record {
  unmarshal = read_due;
  is_done = λ s. (s, eqb s.sends 0);
  fetch = λ s. fetch_from s.incoming s;
  nak = λ m s. record s { given_back = s.given_back ++ m ∷ [] };
  send = λ b s. send_at s.sends (of b) s;
  close = λ s. s;
}

fetch_taken :
    (mss : List (List Msg)) (s s' : Channel) (ms : List Msg)
    → fetch_from mss s ≡ (s', ok ms)
    → s'.taken ≡ s.taken ++ ms
fetch_taken [] s s' ms h = cc
fetch_taken (x ∷ mss) s s' ms h =
    let one : x ≡ ms = cc in
    ap (λ (y : Channel × Result (List Msg)). y.0.taken) (sym h) ∙ ap (λ l. s.taken ++ l) one

fetch_failed :
    (mss : List (List Msg)) (s s' : Channel) (e : Error)
    → fetch_from mss s ≡ (s', err e)
    → s'.taken ≡ s.taken
fetch_failed [] s s' e h = ap (λ (y : Channel × Result (List Msg)). y.0.taken) (sym h)
fetch_failed (x ∷ mss) s s' e h = cc

fetch_handed : (mss : List (List Msg)) (s : Channel) → (fetch_from mss s).0.handed ≡ s.handed
fetch_handed [] s = refl
fetch_handed (x ∷ mss) s = refl

fetch_given_back :
    (mss : List (List Msg)) (s : Channel) → (fetch_from mss s).0.given_back ≡ s.given_back
fetch_given_back [] s = refl
fetch_given_back (x ∷ mss) s = refl

send_taken : (n : ℕ) (ms : List Msg) (s : Channel) → (send_at n ms s).0.taken ≡ s.taken
send_taken zero ms s = refl
send_taken (suc n) ms s = refl

send_given_back :
    (n : ℕ) (ms : List Msg) (s : Channel) → (send_at n ms s).0.given_back ≡ s.given_back
send_given_back zero ms s = refl
send_given_back (suc n) ms s = refl

sent_ok :
    (n : ℕ) (ms : List Msg) (s s' : Channel)
    → send_at n ms s ≡ (s', true)
    → s'.handed ≡ s.handed ++ ms
sent_ok zero ms s s' h = cc
sent_ok (suc n) ms s s' h = ap (λ (y : Channel × Bool). y.0.handed) (sym h)

sent_done :
    (n : ℕ) (ms : List Msg) (s s' : Channel) → send_at n ms s ≡ (s', false) → s'.handed ≡ s.handed
sent_done zero ms s s' h = ap (λ (y : Channel × Bool). y.0.handed) (sym h)
sent_done (suc n) ms s s' h = cc

abbrev laws : {B : Type 0} (of : B → List Msg) → PullLaws (pull of) of
laws of = record {
  taken = λ s. s.taken;
  handed = λ s. s.handed;
  given_back = λ s. s.given_back;
  done_taken = λ s. refl;
  done_handed = λ s. refl;
  done_given_back = λ s. refl;
  fetch_ok = λ s s' ms h. fetch_taken s.incoming s s' ms h;
  fetch_error = λ s s' e h. fetch_failed s.incoming s s' e h;
  fetch_handed = λ s. fetch_handed s.incoming s;
  fetch_given_back = λ s. fetch_given_back s.incoming s;
  nak_taken = λ m s. refl;
  nak_handed = λ m s. refl;
  nak_given_back = λ m s. refl;
  send_taken = λ b s. send_taken s.sends (of b) s;
  send_given_back = λ b s. send_given_back s.sends (of b) s;
  send_ok = λ b s s' h. sent_ok s.sends (of b) s s' h;
  send_done = λ b s s' h. sent_done s.sends (of b) s s' h;
  close_taken = λ s. refl;
  close_handed = λ s. refl;
  close_given_back = λ s. refl;
}

abbrev msg : String → Msg
msg b = record { data_ = b; num_delivered = some 1 }

-- Two fetches, with a message that is no JSON, and a context that ends after one send.
abbrev start : Channel
start = record {
  incoming = (msg "1" ∷ msg "{" ∷ msg "2" ∷ []) ∷ (msg "3" ∷ []) ∷ [];
  taken = [];
  handed = [];
  given_back = [];
  sends = 1;
}

abbrev any : Msg → Bool
any m = true

abbrev batch_msgs : List (Received ScheduledNotificationDueEvent) → List Msg
batch_msgs = msgs_of

subscribe_batch-Owes_example :
    Owes (laws batch_msgs) any (subscribe_batch (pull batch_msgs) 5 start).0 0
subscribe_batch-Owes_example = subscribe_batch-Owes (laws batch_msgs) any 5 start refl

abbrev one_msg : Received ScheduledNotificationDueEvent → List Msg
one_msg r = r.msg ∷ []

subscribe-Settles_example : Settles (laws one_msg) any false (subscribe (pull one_msg) 5 start)
subscribe-Settles_example = subscribe-Settles (laws one_msg) any 5 start refl

-- A fetch of two messages when no send is left.
abbrev ending : Channel
ending = record start { taken = msg "1" ∷ msg "2" ∷ []; sends = 0 }

single_body-Owes_example :
    ((single_body (pull one_msg) (msg "1" ∷ msg "2" ∷ []) ending).1 ≡ false)
    × Owes (laws one_msg) any (single_body (pull one_msg) (msg "1" ∷ msg "2" ∷ []) ending).0 1
single_body-Owes_example =
    single_body-Owes (laws one_msg) any (msg "1") (msg "2" ∷ []) (record { notification_id = "1" })
      ending ending refl refl refl

abbrev events : List ScheduledNotificationDueEvent
events = record { notification_id = "1" } ∷ record { notification_id = "2" } ∷ []

-- The same, with a text for every event.
abbrev reader :
    Pull Channel ScheduledNotificationDueEvent (List (Received ScheduledNotificationDueEvent))
reader = record (pull batch_msgs) { unmarshal = λ b. ok (record { notification_id = b }) }

reads_back : ReadsBack json due reader
reads_back e b h =
    let same : e.notification_id ≡ b = cc in
    ap (λ (i : String). ok (record { notification_id = i })) (sym same)

abbrev empty : Cluster
empty = record { table = []; stream = []; log = [] }

abbrev stored : Cluster
stored = record {
  table = [];
  stream = ("due", "2") ∷ ("due", "1") ∷ [];
  log = ("due", "1") ∷ ("due", "2") ∷ [];
}

published :
    publish_batch platform json
      (js false)
      "due"
      (due (record { notification_id = "1" }) ∷ due (record { notification_id = "2" }) ∷ [])
      empty
    ≡ (stored, ok tt)
unfolding publish_batch js send_all collect complete join
published = refl

publish_batch-Travels_example :
    (bs : List String) × Sent platform json (log_laws false) "due" (map due events) bs empty stored
    × Travels platform json
        (stream_laws false)
        (log_laws false)
        due
        reader
        (λ b. some 1)
        stored
        "due"
        start
        events
        bs
publish_batch-Travels_example =
    publish_batch-Travels platform json (stream_laws false) (log_laws false) due reader
      (λ b. some 1) events "due" empty stored start reads_back published
