-- ===== src/Processor/Workers/Accounts.antt =====
-- The messages in the hands of the pool of workers: `StartMessageProcessing` of processor/internal/
-- transport/messaging/notification_ready_consumer.go.
use insider_notification.Base.{
  ℕ, zero, suc, ◌+◌, Bool, true, false, Option, none, some, List, [], ◌∷◌, ◌++◌, get_elem?, count,
  count-append, ◌≡◌, refl, ap, arith,
}
use insider_notification.Processor.Router.{
  PriorityRouter, next, take_turn, scheduled, or_wait, or_else, receive_at, receive_first, behind,
}
use insider_notification.Processor.Pipeline.{NotificationDeliveryPipeline}
use insider_notification.Processor.Consumer.{Settlement, process_one}
use insider_notification.Processor.Workers.Replay.{messages, Replays, replay-one_more}
use insider_notification.Processor.Workers.{
  Message, Worker, idle, ended, working, Pool, put_at, after_scan, push, if_there, arrive,
  after_next, work, Move, arrives, steps, move, then_moves, run_moves,
}

module _ (q : Message → Bool) where
  -- How many messages that pass the test wait in the channels.
  abbrev pub waiting : List (List Message) → ℕ
  waiting [] = 0
  waiting (c ∷ cs) = count q c + waiting cs

  abbrev pub in_hands : Worker → ℕ
  in_hands idle = 0
  in_hands ended = 0
  in_hands (working m) = count q (m ∷ [])

  abbrev pub held : List Worker → ℕ
  held [] = 0
  held (w ∷ ws) = in_hands w + held ws

  abbrev pub taken : Option Message → ℕ
  taken none = 0
  taken (some m) = count q (m ∷ [])

  held-put_at :
      (ws : List Worker) (i : ℕ) (v w : Worker)
      → get_elem? ws i ≡ some v
      → held (put_at ws i w) + in_hands v ≡ held ws + in_hands w
  held-put_at [] i v w h = cc
  held-put_at (u ∷ ws) zero v w h =
      let same : u ≡ v = cc in let one = ap in_hands same in omega arith
  held-put_at (u ∷ ws) (suc i) v w h = let rest = held-put_at ws i v w h in omega arith

  waiting-push :
      (cs : List (List Message)) (i : ℕ) (m : Message)
      → waiting (push cs i m) ≡ waiting cs + count q (if_there (get_elem? cs i) m)
  waiting-push [] i m = omega arith
  waiting-push (c ∷ cs) zero m = let more = count-append q c (m ∷ []) in omega arith
  waiting-push (c ∷ cs) (suc i) m = let rest = waiting-push cs i m in omega arith

  -- What a receive has taken.
  abbrev Receives : List (List Message) → Option (Message × List (List Message)) → Type 0
  Receives cs none = Unit
  Receives cs (some (m, cs')) = waiting cs' + count q (m ∷ []) ≡ waiting cs

  behind-Receives :
      (c : List Message) (cs : List (List Message)) (o : Option (Message × List (List Message)))
      → Receives cs o
      → Receives (c ∷ cs) (behind c o)
  behind-Receives c cs none h = tt
  behind-Receives c cs (some (m, cs')) h = omega arith

  receive_at-Receives : (cs : List (List Message)) (i : ℕ) → Receives cs (receive_at cs i)
  receive_at-Receives [] i = tt
  receive_at-Receives ([] ∷ cs) zero = tt
  receive_at-Receives ((m ∷ ms) ∷ cs) zero = omega arith
  receive_at-Receives ([] ∷ cs) (suc i) = behind-Receives [] cs _ (receive_at-Receives cs i)
  receive_at-Receives ((m ∷ ms) ∷ cs) (suc i) =
      behind-Receives (m ∷ ms) cs _ (receive_at-Receives cs i)

  receive_first-Receives : (cs : List (List Message)) → Receives cs (receive_first cs)
  receive_first-Receives [] = tt
  receive_first-Receives ([] ∷ cs) = behind-Receives [] cs _ (receive_first-Receives cs)
  receive_first-Receives ((m ∷ ms) ∷ cs) = omega arith

  abbrev IsNone : {A : Type 0} → Option A → Type 0
  IsNone none = Unit
  IsNone (some a) = ⊥

  behind-IsNone :
      (c d : List Message) (o o' : Option (Message × List (List Message)))
      → (IsNone o → IsNone o')
      → IsNone (behind c o)
      → IsNone (behind d o')
  behind-IsNone c d none none h k = tt
  behind-IsNone c d none (some x) h k = h tt
  behind-IsNone c d (some x) o' h k = absurd k

  -- Where the scan finds nothing, no channel has a value.
  receive_at-IsNone :
      (cs : List (List Message)) (i : ℕ) → IsNone (receive_first cs) → IsNone (receive_at cs i)
  receive_at-IsNone [] i h = tt
  receive_at-IsNone ([] ∷ cs) zero h = tt
  receive_at-IsNone ((m ∷ ms) ∷ cs) i h = absurd h
  receive_at-IsNone ([] ∷ cs) (suc i) h =
      behind-IsNone [] [] (receive_first cs) (receive_at cs i) (receive_at-IsNone cs i) h

  scan-balance :
      (cs : List (List Message)) (waited : Option Message)
      (a b : Option (Message × List (List Message)))
      → Receives cs a
      → Receives cs b
      → (IsNone b → IsNone a)
      → waiting (or_wait cs waited (or_else a b)).0 + taken (or_wait cs waited (or_else a b)).1
        ≡ waiting cs + count q (after_scan b waited)
  scan-balance cs none none none h k only = omega arith
  scan-balance cs (some m) none none h k only = refl
  scan-balance cs waited none (some (m, cs')) h k only = omega arith
  scan-balance cs waited (some (m, cs')) none h k only = absurd (only tt)
  scan-balance cs waited (some (m, cs')) (some y) h k only = omega arith

  abbrev NextBalances :
      PriorityRouter Message
      → Option Message
      → Option (PriorityRouter Message × Option Message)
      → Type 0
  NextBalances r waited none = Unit
  NextBalances r waited (some (r', o)) =
      waiting r'.sources + taken o
      ≡ waiting r.sources + count q (after_scan (receive_first r.sources) waited)

  take_turn-NextBalances :
      (r : PriorityRouter Message) (waited : Option Message) (turn : Option ℕ)
      → NextBalances r waited (take_turn r waited turn)
  take_turn-NextBalances r waited none = tt
  take_turn-NextBalances r waited (some i) =
      scan-balance r.sources waited (receive_at r.sources i) (receive_first r.sources)
        (receive_at-Receives r.sources i) (receive_first-Receives r.sources)
        (receive_at-IsNone r.sources i)

  count-messages :
      (xs : List (Message × Settlement)) (m : Message) (r : Settlement)
      → count q (messages (xs ++ (m, r) ∷ [])) ≡ count q (messages xs) + count q (m ∷ [])
  count-messages [] m r = omega arith
  count-messages ((x, a) ∷ xs) m r = let rest = count-messages xs m r in omega arith

  -- Each message that has arrived waits in a channel, is in the hands of a worker or is settled.
  abbrev pub Balances : {S : Type 0} → Pool S → Type 0
  Balances x =
      waiting x.router.sources + held x.workers + count q (messages x.settled) ≡ count q x.arrived

  arrive-Balances :
      {S : Type 0} (i : ℕ) (m : Message) (x : Pool S) → Balances x → Balances (arrive i m x)
  arrive-Balances i m x h =
      let pushed = waiting-push x.router.sources i m in
      let more = count-append q x.arrived (if_there (get_elem? x.router.sources i) m) in omega arith

  module _ {S : Type 0} (p : NotificationDeliveryPipeline S) (start : S) where
    -- What a move comes to, unless a worker panics.
    abbrev pub StaysBalanced : Option (Pool S) → Type 0
    StaysBalanced none = Unit
    StaysBalanced (some x) = Balances x × Replays p start x

    after_next-StaysBalanced :
        (x : Pool S) (i : ℕ) (waited : Option Message)
        (o : Option (PriorityRouter Message × Option Message))
        → get_elem? x.workers i ≡ some idle
        → NextBalances x.router waited o
        → Balances x × Replays p start x
        → StaysBalanced (after_next p x i (after_scan (receive_first x.router.sources) waited) o)
    after_next-StaysBalanced x i waited none at next_ (h, k) = tt
    after_next-StaysBalanced x i waited (some (r, none)) at next_ (h, k) =
        let more = count-append q x.arrived (after_scan (receive_first x.router.sources) waited) in
        (omega arith, k)
    after_next-StaysBalanced x i waited (some (r, some m)) at next_ (h, k) =
        let more = count-append q x.arrived (after_scan (receive_first x.router.sources) waited) in
        let hands = held-put_at x.workers i idle (working m) at in (omega arith, k)

    work-StaysBalanced :
        (x : Pool S) (i : ℕ) (finished : Bool) (waited : Option Message) (o : Option Worker)
        → get_elem? x.workers i ≡ o
        → Balances x × Replays p start x
        → StaysBalanced (work p x i finished waited o)
    unfolding work next
    work-StaysBalanced x i finished waited none at h = h
    work-StaysBalanced x i finished waited (some ended) at h = h
    work-StaysBalanced x i true waited (some idle) at (h, k) =
        let hands = held-put_at x.workers i idle ended at in (omega arith, k)
    work-StaysBalanced x i false waited (some idle) at h =
        after_next-StaysBalanced x i waited _ at
          (take_turn-NextBalances x.router waited (scheduled x.router)) h
    work-StaysBalanced x i finished waited (some (working m)) at (h, k) =
        let hands = held-put_at x.workers i (working m) idle at in
        let more = count-messages x.settled m (process_one p m.event m.attempt_number x.state).1 in
        (omega arith, replay-one_more p start x.settled m _ start x.state k refl)

    move-StaysBalanced :
        (v : Move) (x : Pool S) → Balances x × Replays p start x → StaysBalanced (move p v x)
    unfolding move
    move-StaysBalanced (arrives i m) x (h, k) = (arrive-Balances i m x h, k)
    move-StaysBalanced (steps i finished waited) x h =
        work-StaysBalanced x i finished waited (get_elem? x.workers i) refl h

    then_moves-StaysBalanced :
        (again : Pool S → Option (Pool S)) (o : Option (Pool S))
        → ((x : Pool S) → Balances x × Replays p start x → StaysBalanced (again x))
        → StaysBalanced o
        → StaysBalanced (then_moves p again o)
    then_moves-StaysBalanced again none rest h = tt
    then_moves-StaysBalanced again (some x) rest h = rest x h

    -- Whatever the order in which messages arrive and the workers take their steps, and unless one
    -- of them panics: any kind of message counts as many among those that have arrived as among
    -- those in the channels, in the hands of a worker and settled, if it does at the start. The
    -- state and the answers to the broker are those of one call of `processOne` for each settled
    -- message, in the order in which they were settled, from the state of the start. So no message
    -- is dropped, taken by two workers or settled twice.
    pub run_moves-StaysBalanced :
        (vs : List Move) (x : Pool S)
        → Balances x × Replays p start x
        → StaysBalanced (run_moves p vs x)
    unfolding run_moves
    run_moves-StaysBalanced [] x h = h
    run_moves-StaysBalanced (v ∷ vs) x h =
        then_moves-StaysBalanced (run_moves p vs) (move p v x) (run_moves-StaysBalanced vs)
          (move-StaysBalanced v x h)
