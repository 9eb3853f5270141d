-- ===== src/Nats/Subscriber/Accounts.antt =====
-- Where the messages of a subscription go: shared/messaging/nats/subscriber.go.
use insider_notification.Base.{
  count, count-append, ℕ, ◌+◌, Bool, true, false, List, [], ◌∷◌, ◌++◌, ◌≡◌, ap, subst, arith,
}
use insider_notification.Errors.{Error}
use insider_notification.Effect.{ok, err}
use insider_notification.Nats.{Msg}
use insider_notification.Nats.Subscriber.{Received, Pull}

abbrev pub msgs_of : {A : Type 0} → List (Received A) → List Msg
msgs_of [] = []
msgs_of (r ∷ rs) = r.msg ∷ msgs_of rs

-- What the client of NATS and the channel do: `taken` are the messages that were fetched so far,
-- `handed` those of the values that were sent on the channel, `given_back` those that `Nak` was
-- called on. A send that finds the context done sends nothing.
pub record PullLaws {S A B : Type 0} (c : Pull S A B) (of : B → List Msg) : Type 0 where
  pub taken : S → List Msg
  pub handed : S → List Msg
  pub given_back : S → List Msg
  pub done_taken : (s : S) → taken (c.is_done s).0 ≡ taken s
  pub done_handed : (s : S) → handed (c.is_done s).0 ≡ handed s
  pub done_given_back : (s : S) → given_back (c.is_done s).0 ≡ given_back s
  pub fetch_ok : (s s' : S) (ms : List Msg) → c.fetch s ≡ (s', ok ms) → taken s' ≡ taken s ++ ms
  pub fetch_error : (s s' : S) (e : Error) → c.fetch s ≡ (s', err e) → taken s' ≡ taken s
  pub fetch_handed : (s : S) → handed (c.fetch s).0 ≡ handed s
  pub fetch_given_back : (s : S) → given_back (c.fetch s).0 ≡ given_back s
  pub nak_taken : (m : Msg) (s : S) → taken (c.nak m s) ≡ taken s
  pub nak_handed : (m : Msg) (s : S) → handed (c.nak m s) ≡ handed s
  pub nak_given_back : (m : Msg) (s : S) → given_back (c.nak m s) ≡ given_back s ++ m ∷ []
  pub send_taken : (b : B) (s : S) → taken (c.send b s).0 ≡ taken s
  pub send_given_back : (b : B) (s : S) → given_back (c.send b s).0 ≡ given_back s
  pub send_ok : (b : B) (s s' : S) → c.send b s ≡ (s', true) → handed s' ≡ handed s ++ of b
  pub send_done : (b : B) (s s' : S) → c.send b s ≡ (s', false) → handed s' ≡ handed s
  pub close_taken : (s : S) → taken (c.close s) ≡ taken s
  pub close_handed : (s : S) → handed (c.close s) ≡ handed s
  pub close_given_back : (s : S) → given_back (c.close s) ≡ given_back s

module _ {S A B : Type 0} {c : Pull S A B} {of : B → List Msg} (laws : PullLaws c of)
    (q : Msg → Bool) where
  open laws use {taken, handed, given_back}

  -- Of the messages that were fetched, `k` that pass the test were neither handed on nor given
  -- back.
  abbrev pub Owes : S → ℕ → Type 0
  Owes s k = count q (handed s) + count q (given_back s) + k ≡ count q (taken s)

  pub done-Owes : (s : S) (k : ℕ) → Owes s k → Owes (c.is_done s).0 k
  done-Owes s k h = rw (laws.done_taken s, laws.done_handed s, laws.done_given_back s) h

  pub close-Owes : (s : S) (k : ℕ) → Owes s k → Owes (c.close s) k
  close-Owes s k h = rw (laws.close_taken s, laws.close_handed s, laws.close_given_back s) h

  pub nak-Owes : (m : Msg) (s : S) (k : ℕ) → Owes s (count q (m ∷ []) + k) → Owes (c.nak m s) k
  nak-Owes m s k h =
      let more = count-append q (given_back s) (m ∷ []) in
      rw (laws.nak_taken m s, laws.nak_handed m s, laws.nak_given_back m s) (omega arith)

  pub send_ok-Owes :
      (b : B) (s s' : S) (k : ℕ) → c.send b s ≡ (s', true) → Owes s (count q (of b) + k) → Owes s' k
  send_ok-Owes b s s' k h owes =
      let more = count-append q (handed s) (of b) in
      let state : (c.send b s).0 ≡ s' = ap (λ x. x.0) h in
      let t = subst (λ x. taken x ≡ taken s) state (laws.send_taken b s) in
      let g = subst (λ x. given_back x ≡ given_back s) state (laws.send_given_back b s) in
      rw (t, g, laws.send_ok b s s' h) (omega arith)

  pub send_done-Owes : (b : B) (s s' : S) (k : ℕ) → c.send b s ≡ (s', false) → Owes s k → Owes s' k
  send_done-Owes b s s' k h owes =
      let state : (c.send b s).0 ≡ s' = ap (λ x. x.0) h in
      let t = subst (λ x. taken x ≡ taken s) state (laws.send_taken b s) in
      let g = subst (λ x. given_back x ≡ given_back s) state (laws.send_given_back b s) in
      rw (t, g, laws.send_done b s s' h) owes

  pub fetch_ok-Owes :
      (s s' : S) (ms : List Msg) (k : ℕ)
      → c.fetch s ≡ (s', ok ms)
      → Owes s k
      → Owes s' (k + count q ms)
  fetch_ok-Owes s s' ms k h owes =
      let more = count-append q (taken s) ms in
      let state : (c.fetch s).0 ≡ s' = ap (λ x. x.0) h in
      let a = subst (λ x. handed x ≡ handed s) state (laws.fetch_handed s) in
      let g = subst (λ x. given_back x ≡ given_back s) state (laws.fetch_given_back s) in
      rw (a, g, laws.fetch_ok s s' ms h) (omega arith)

  pub fetch_error-Owes :
      (s s' : S) (e : Error) (k : ℕ) → c.fetch s ≡ (s', err e) → Owes s k → Owes s' k
  fetch_error-Owes s s' e k h owes =
      let state : (c.fetch s).0 ≡ s' = ap (λ x. x.0) h in
      let a = subst (λ x. handed x ≡ handed s) state (laws.fetch_handed s) in
      let g = subst (λ x. given_back x ≡ given_back s) state (laws.fetch_given_back s) in
      rw (a, g, laws.fetch_error s s' e h) owes
