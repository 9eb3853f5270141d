-- ===== src/Startup/Ledger/Connected.antt =====
-- What the connections, the subscriptions and the metrics hold once they are made.
use Prim.Native.String.{◌++◌}
use insider_notification.Base.{
  ℤ, String, Option, none, some, List, [], ◌∷◌, ◌≡◌, refl, Bool, true, false, if◌then◌else◌,
}
use insider_notification.Errors.{Error, wrap}
use insider_notification.Platform.{Platform}
use insider_notification.Startup.{World, Task, fetching, Call, add_stream, check, fail}
use insider_notification.Startup.Connections.{
  new_client, connect, new_handle, put_stream, ensure_stream, subscribe, subscribe_batch,
  pull_subscription, stream_of,
}
use insider_notification.Startup.Metrics.{new_metrics}
use insider_notification.Startup.Ledger.{Ledger, Resource, db, redis, nats, step}
use insider_notification.Startup.Ledger.Runs.{To, Or, Explains}
use insider_notification.Startup.Ledger.Rules.{
  Holds, make-Meets, bind-call, must-Meets, check-Meets, fail-Meets, weaken-Holds, then-To, then-Or,
}

-- No goroutine runs but those of subscriptions.
abbrev pub idle : (loops : List Task) → List Resource → Ledger
idle ls rs = record { tasks = []; loops = ls; held = rs }

-- A subscription more.
abbrev pub fetches : (subject : String) → Ledger → Ledger
fetches subject l = record l { loops = fetching subject ∷ l.loops }

-- An error that leaves the ledger as it is.
abbrev pub Same : Ledger → Error → Ledger → Type 0
Same l e m = m ≡ l

module _ {S : Type 0} (p : Platform) (w : World S) {X : Type 0} (fails : Explains w X) where
  pub new_client-Holds :
      (addr : String) (ls : List Task) (rs : List Resource)
      → Holds X (idle ls rs) (To (idle ls (redis ∷ rs))) (new_client p w addr)
  unfolding new_client step
  new_client-Holds addr ls rs =
      then-To
        (then-To
          (then-To (make-Meets w fails _ _ (idle ls (redis ∷ rs)) refl)
            (must-Meets w fails _ _ _ _ refl))
          (must-Meets w fails _ _ _ _ refl))
        (must-Meets w fails _ _ _ _ refl)

  pub connect-Holds :
      (url : String) (ls : List Task) (rs : List Resource)
      → Holds X (idle ls rs) (To (idle ls (db ∷ rs))) (connect p w url)
  unfolding connect step
  connect-Holds url ls rs =
      then-To
        (then-To (make-Meets w fails _ _ (idle ls (db ∷ rs)) refl)
          (must-Meets w fails _ _ _ _ refl))
        (make-Meets w fails _ _ _ refl)

  pub new_handle-Holds :
      (url : String) (ls : List Task) (rs : List Resource)
      → Holds X (idle ls rs) (To (idle ls (nats ∷ rs))) (new_handle p w url)
  unfolding new_handle step
  new_handle-Holds url ls rs =
      then-To (must-Meets w fails _ _ _ (idle ls (nats ∷ rs)) refl)
        (must-Meets w fails _ _ _ _ refl)

  put_stream-Holds :
      (name : String) (topics : List String) (l : Ledger) (o : Option Error)
      → ((e : Error) → o ≡ some e → X)
      → Holds X l (Or (Same l) l) (put_stream p w (stream_of p w name topics) o)
  unfolding step
  put_stream-Holds name topics l none why =
      weaken-Holds (λ e m q. q.1) (check-Meets w fails _ _ _ _ refl)
  put_stream-Holds name topics l (some e) why = go (w.is_stream_not_found e)
    where
      go :
          (b : Bool)
          → Holds {A = Unit} X l (Or (Same l) l) (
              if b
              then check w (add_stream (stream_of p w name topics)) (λ e. e)
              else fail (wrap p ("nats stream info " ++ name ++ ": ") e))
      go true = weaken-Holds (λ e m q. q.1) (check-Meets w fails _ _ _ _ refl)
      go false = fail-Meets _ _ _ _ (why e refl) refl

  pub ensure_stream-Holds :
      (name : String) (topics : List String) (l : Ledger)
      → Holds X l (Or (Same l) l) (ensure_stream p w name topics)
  unfolding ensure_stream step
  ensure_stream-Holds name topics l =
      bind-call w fails _ (put_stream p w (stream_of p w name topics)) refl
        (put_stream-Holds name topics l none (λ e h. cc))
        (λ e x. put_stream-Holds name topics l (some e) (λ _ _. x))

  pub subscribe-Holds :
      (subject durable : String) (n : ℤ) (l : Ledger)
      → Holds X l (To (fetches subject l)) (subscribe p w subject durable n)
  unfolding subscribe pull_subscription step
  subscribe-Holds subject durable n l =
      then-To (then-To (must-Meets w fails _ _ _ _ refl) (make-Meets w fails _ _ _ refl))
        (make-Meets w fails _ _ _ refl)

  pub subscribe_batch-Holds :
      (subject durable : String) (n : ℤ) (l : Ledger)
      → Holds X l (To (fetches subject l)) (subscribe_batch p w subject durable n)
  unfolding subscribe_batch pull_subscription step
  subscribe_batch-Holds subject durable n l =
      then-To (then-To (must-Meets w fails _ _ _ _ refl) (make-Meets w fails _ _ _ refl))
        (make-Meets w fails _ _ _ refl)

  pub new_metrics-Holds : (l : Ledger) → Holds X l (Or (Same l) l) (new_metrics w)
  unfolding new_metrics step
  new_metrics-Holds l =
      let instrument = λ (c : Call) (h : step c l ≡ some l).
        weaken-Holds {F = Same l} (λ e m q. q.1) (check-Meets w fails c (λ e. e) l l h) in
      let keep = λ (e : Error) (m : Ledger) (q : Same l e m). q in
      then-Or
        (then-Or (then-Or (instrument _ refl) (instrument _ refl) keep) (instrument _ refl) keep)
        (instrument _ refl) keep
