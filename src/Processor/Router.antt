-- ===== src/Processor/Router.antt =====
-- The weighted round robin of processor/internal/delivery/priorityrouter.go. A channel is the list
-- of the values that wait in it: a closed channel answers a receive that does not block like an
-- empty one. A panic is `none`.
pub mod Fairness
pub mod Delivery
use insider_notification.Base.{
  ℕ, zero, ℤ, pos, negsuc, suc, ◌+◌, ◌-◌, ◌%◌, ◌^◌, Bool, true, false, Option, none, some, List, [],
  ◌∷◌, ◌++◌, length, get_elem?, replicate, map, ltb, eqb, is_positive, pos_part, if◌then◌else◌,
}

pub record WeightedSource (A : Type 0) : Type 0 where
  pub ch : List A
  pub weight : ℤ

-- `cursor` is the bits of the atomic int64.
pub record PriorityRouter (A : Type 0) : Type 0 where
  pub sources : List (List A)
  pub slots : List ℕ
  pub cursor : ℕ

abbrev pub all_positive : {A : Type 0} → List (WeightedSource A) → Bool
all_positive [] = true
all_positive (s ∷ rest) =
    let others = all_positive rest in if is_positive s.weight then others else false

-- The slots of the sources from index i on.
abbrev pub expand : {A : Type 0} → ℕ → List (WeightedSource A) → List ℕ
expand i [] = []
expand i (s ∷ rest) = replicate (pos_part s.weight) i ++ expand (suc i) rest

-- `NewPriorityRouter`
unfoldable pub new_priority_router :
    {A : Type 0} → List (WeightedSource A) → Option (PriorityRouter A)
new_priority_router [] = none
new_priority_router (s ∷ rest) =
    if all_positive (s ∷ rest)
    then some
        (record { sources = map (λ x. x.ch) (s ∷ rest); slots = expand 0 (s ∷ rest); cursor = 0 })
    else none

-- `cursor.Add(1)`
abbrev pub advance : ℕ → ℕ
advance cursor = suc cursor % 2 ^ 64

-- Go's remainder of the signed cursor, as an index: a negative one is out of range.
abbrev pub slot_index : ℕ → ℕ → Option ℕ
slot_index cursor n =
    if ltb cursor (2 ^ 63)
    then some (cursor % n)
    else if eqb ((2 ^ 64 - cursor) % n) 0
    then some 0
    else none

abbrev slot : List ℕ → Option ℕ → Option ℕ
slot slots none = none
slot slots (some i) = get_elem? slots i

-- The index of the source whose turn the next call is.
unfoldable pub scheduled : {A : Type 0} → PriorityRouter A → Option ℕ
scheduled r = slot r.slots (slot_index (advance r.cursor) (length r.slots))

-- What a receive behind the first channel leaves.
abbrev pub behind : {A : Type 0} → List A → Option (A × List (List A)) → Option (A × List (List A))
behind c none = none
behind c (some (v, rest)) = some (v, c ∷ rest)

-- A receive that does not block, from the channel of the given index.
abbrev pub receive_at : {A : Type 0} → List (List A) → ℕ → Option (A × List (List A))
receive_at [] i = none
receive_at ([] ∷ rest) zero = none
receive_at ((v ∷ vs) ∷ rest) zero = some (v, vs ∷ rest)
receive_at (c ∷ rest) (suc i) = behind c (receive_at rest i)

-- The scan in priority order.
abbrev pub receive_first : {A : Type 0} → List (List A) → Option (A × List (List A))
receive_first [] = none
receive_first ([] ∷ rest) = behind [] (receive_first rest)
receive_first ((v ∷ vs) ∷ rest) = some (v, vs ∷ rest)

-- The scheduled source, then the scan, then the wait on the first source: `waited` is the value
-- that arrives there before the timer fires or the context ends.
abbrev pub or_wait :
    {A : Type 0} → List (List A) → Option A → Option (A × List (List A)) → List (List A) × Option A
or_wait cs waited (some (v, cs')) = (cs', some v)
or_wait cs waited none = (cs, waited)

abbrev pub or_else : {A : Type 0} → Option A → Option A → Option A
or_else (some a) b = some a
or_else none b = b

abbrev pub received :
    {A : Type 0} → List (List A) → (turn : ℕ) → Option A → List (List A) × Option A
received cs turn waited = or_wait cs waited (or_else (receive_at cs turn) (receive_first cs))

-- `Next` once it knows whose turn it is.
abbrev pub take_turn :
    {A : Type 0}
    → PriorityRouter A
    → (waited : Option A) → Option ℕ
    → Option (PriorityRouter A × Option A)
take_turn r waited none = none
take_turn r waited (some turn) =
    let (cs, v) = received r.sources turn waited in
    some (record r { sources = cs; cursor = advance r.cursor }, v)

-- `Next`
unfoldable pub next :
    {A : Type 0} → PriorityRouter A → (waited : Option A) → Option (PriorityRouter A × Option A)
next r waited = take_turn r waited (scheduled r)
