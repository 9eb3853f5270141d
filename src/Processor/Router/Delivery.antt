-- ===== src/Processor/Router/Delivery.antt =====
-- Which value a call of `Next` of processor/internal/delivery/priorityrouter.go takes.
use insider_notification.Base.{
  ℕ, zero, suc, Option, none, some, List, [], ◌∷◌, ◌≡◌, refl, ap, ◌⊎◌, inl, inr, get_elem?,
}
use insider_notification.Processor.Router.{
  PriorityRouter, behind, receive_at, receive_first, or_else, or_wait, received, scheduled,
  take_turn, next, advance,
}

-- The channel of index i loses its first value v, the others keep theirs.
pub data TakesAt {A : Type 0} (v : A) : ℕ → List (List A) → List (List A) → Type 0 where
  here : {vs : List A} {rest : List (List A)} → TakesAt v 0 ((v ∷ vs) ∷ rest) (vs ∷ rest)
  there :
      {i : ℕ} {c : List A} {rest rest' : List (List A)}
      → TakesAt v i rest rest'
      → TakesAt v (suc i) (c ∷ rest) (c ∷ rest')

-- The first channel that is not empty loses its first value v.
pub data TakesFirst {A : Type 0} (v : A) : List (List A) → List (List A) → Type 0 where
  first : {vs : List A} {rest : List (List A)} → TakesFirst v ((v ∷ vs) ∷ rest) (vs ∷ rest)
  skip :
      {rest rest' : List (List A)} → TakesFirst v rest rest' → TakesFirst v ([] ∷ rest) ([] ∷ rest')

-- Every channel is empty.
pub data AllEmpty {A : Type 0} : List (List A) → Type 0 where
  no_channel : AllEmpty []
  one_more : {rest : List (List A)} → AllEmpty rest → AllEmpty ([] ∷ rest)

-- The channel of the index is empty, or there is none.
abbrev pub IdleAt : {A : Type 0} → List (List A) → ℕ → Type 0
IdleAt cs i = (get_elem? cs i ≡ none) ⊎ (get_elem? cs i ≡ some [])

abbrev AtResult : {A : Type 0} → List (List A) → ℕ → Option (A × List (List A)) → Type 0
AtResult cs i none = IdleAt cs i
AtResult cs i (some (v, cs')) = TakesAt v i cs cs'

abbrev FirstResult : {A : Type 0} → List (List A) → Option (A × List (List A)) → Type 0
FirstResult cs none = AllEmpty cs
FirstResult cs (some (v, cs')) = TakesFirst v cs cs'

behind-AtResult :
    {A : Type 0} (c : List A) (cs : List (List A)) (i : ℕ) (x : Option (A × List (List A)))
    → AtResult cs i x
    → AtResult (c ∷ cs) (suc i) (behind c x)
behind-AtResult c cs i none h = h
behind-AtResult c cs i (some (v, rest)) h = there h

behind-FirstResult :
    {A : Type 0} (cs : List (List A)) (x : Option (A × List (List A)))
    → FirstResult cs x
    → FirstResult ([] ∷ cs) (behind [] x)
behind-FirstResult cs none h = one_more h
behind-FirstResult cs (some (v, rest)) h = skip h

receive_at-AtResult : {A : Type 0} (cs : List (List A)) (i : ℕ) → AtResult cs i (receive_at cs i)
receive_at-AtResult [] i = inl refl
receive_at-AtResult ([] ∷ rest) zero = inr refl
receive_at-AtResult ((v ∷ vs) ∷ rest) zero = here
receive_at-AtResult ([] ∷ rest) (suc i) = behind-AtResult [] rest i _ (receive_at-AtResult rest i)
receive_at-AtResult ((v ∷ vs) ∷ rest) (suc i) =
    behind-AtResult (v ∷ vs) rest i _ (receive_at-AtResult rest i)

receive_first-FirstResult : {A : Type 0} (cs : List (List A)) → FirstResult cs (receive_first cs)
receive_first-FirstResult [] = no_channel
receive_first-FirstResult ([] ∷ rest) = behind-FirstResult rest _ (receive_first-FirstResult rest)
receive_first-FirstResult ((v ∷ vs) ∷ rest) = first

-- What a call whose turn is the channel `turn` does: from the channels `cs` it leaves `cs'`.
abbrev pub Serves : {A : Type 0} → List (List A) → ℕ → Option A → List (List A) → Option A → Type 0
Serves {A} cs turn waited cs' result =
    ((v : A) × (result ≡ some v) × TakesAt v turn cs cs')
    ⊎ ((v : A) × (result ≡ some v) × IdleAt cs turn × TakesFirst v cs cs')
    ⊎ (AllEmpty cs × (cs' ≡ cs) × (result ≡ waited))

received-Serves :
    {A : Type 0} (cs : List (List A)) (turn : ℕ) (waited : Option A)
    → Serves cs turn waited (received cs turn waited).0 (received cs turn waited).1
received-Serves {A} cs turn waited =
    go (receive_at cs turn) (receive_first cs) (receive_at-AtResult cs turn)
      (receive_first-FirstResult cs)
  where
    go :
        (x y : Option (A × List (List A)))
        → AtResult cs turn x
        → FirstResult cs y
        → Serves cs turn waited
            (or_wait cs waited (or_else x y)).0
            (or_wait cs waited (or_else x y)).1
    go (some (v, cs')) y h k = inl (v, refl, h)
    go none (some (v, cs')) h k = inr (inl (v, refl, h, k))
    go none none h k = inr (inr (k, refl, refl))

-- A call whose turn is the source i returns, and advances the cursor by one. It takes the first
-- value of source i; if there is none, the first value of the first source in priority order that
-- has one; and only if every source is empty, what the wait on the first source brings.
pub next-Serves :
    {A : Type 0} (r : PriorityRouter A) (waited : Option A) (i : ℕ)
    → scheduled r ≡ some i
    → (r' : PriorityRouter A) × (result : Option A) × (next r waited ≡ some (r', result))
      × Serves r.sources i waited r'.sources result
      × (r'.cursor ≡ advance r.cursor)
      × (r'.slots ≡ r.slots)
unfolding next
next-Serves r waited i turn = (
  record r { sources = (received r.sources i waited).0; cursor = advance r.cursor },
  (received r.sources i waited).1,
  ap (take_turn r waited) turn,
  received-Serves r.sources i waited,
  refl,
  refl,
)
