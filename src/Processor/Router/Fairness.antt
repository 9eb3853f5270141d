-- ===== src/Processor/Router/Fairness.antt =====
-- The share of the calls of `Next` that each source gets.
use insider_notification.Base.{
  ℕ, zero, suc, ℤ, pos, ◌+◌, ◌%◌, ◌^◌, ◌<◌, ◌≤◌, Bool, true, false, Option, none, some, List, [],
  ◌∷◌, ◌≡◌, refl, sym, ap, ap₂, lt→ltb, is_positive, negsuc, subst, ◌∙◌, length, get_elem?,
  get_elem?-below, replicate, count, count-append, eqb, arith, if◌then◌else◌, pos_part,
}
use native.Mathlib.Nat.{add-mod_right, mod-eq_of_lt, mod-lt}
use insider_notification.Processor.Router.{
  WeightedSource, PriorityRouter, expand, slot_index, advance, slot, scheduled, take_turn, next,
  new_priority_router, all_positive,
}

-- 1 if the entry is the source i.
abbrev hit : ℕ → Option ℕ → ℕ
hit i none = 0
hit i (some j) = if eqb j i then 1 else 0

-- How often source i comes in the k slots from position c on, round and round.
picks : ℕ → List ℕ → (c k : ℕ) → ℕ
picks i slots c zero = 0
picks i slots c (suc k) = hit i (get_elem? slots (c % length slots)) + picks i slots (suc c) k

picks_last :
    (i : ℕ) (slots : List ℕ) (c k : ℕ)
    → picks i slots c (suc k) ≡ picks i slots c k + hit i (get_elem? slots ((c + k) % length slots))
unfolding picks
picks_last i slots c zero = grind arith
picks_last i slots c (suc k) = let rest = picks_last i slots (suc c) k in grind arith

-- A round meets the same slots from wherever it starts.
picks_shift :
    (i : ℕ) (slots : List ℕ) (c : ℕ)
    → picks i slots (suc c) (length slots) ≡ picks i slots c (length slots)
unfolding picks
picks_shift i slots c =
    let last = picks_last i slots c (length slots) in
    let round : hit i (get_elem? slots ((c + length slots) % length slots))
        ≡ hit i (get_elem? slots (c % length slots)) =
      ap (λ m. hit i (get_elem? slots m)) (add-mod_right c (length slots)) in
    omega arith

picks_round :
    (i : ℕ) (slots : List ℕ) (c : ℕ)
    → picks i slots c (length slots) ≡ picks i slots 0 (length slots)
picks_round i slots zero = refl
picks_round i slots (suc c) = picks_shift i slots c ∙ picks_round i slots c

-- The slots from position c on, where they are those of the list `suf`.
picks_suffix :
    (i : ℕ) (slots suf : List ℕ) (c : ℕ)
    → c + length suf ≤ length slots
    → ((k : ℕ) → get_elem? slots (c + k) ≡ get_elem? suf k)
    → picks i slots c (length suf) ≡ count (λ j. eqb j i) suf
unfolding picks
picks_suffix i slots [] c le same = refl
picks_suffix i slots (x ∷ suf) c le same =
    let rest =
      picks_suffix i slots suf (suc c) (omega arith)
        (λ k. ap (get_elem? slots) (omega arith) ∙ same (suc k)) in
    let here : get_elem? slots (c % length slots) ≡ some x =
      ap (get_elem? slots) (mod-eq_of_lt (omega arith) ∙ omega arith) ∙ same 0 in
    rw (here, rest) (ground arith)

count-replicate : (t u w : ℕ) → count (λ j. eqb j t) (replicate w u) ≡ (if eqb u t then w else 0)
count-replicate t u zero = ground arith
count-replicate t u (suc w) = let rest = count-replicate t u w in ground arith

-- An index below those of the slots does not occur in them.
count-expand_below :
    {A : Type 0} (t j : ℕ) (srcs : List (WeightedSource A))
    → t < j
    → count (λ x. eqb x t) (expand j srcs) ≡ 0
count-expand_below t j [] below = refl
count-expand_below t j (s ∷ rest) below =
    let here = count-replicate t j (pos_part s.weight) in
    let after = count-expand_below t (suc j) rest (omega arith) in
    count-append (λ x. eqb x t) (replicate (pos_part s.weight) j) _ ∙ ground arith

-- The slots hold each source as often as its weight says.
count-expand :
    {A : Type 0} (i j : ℕ) (srcs : List (WeightedSource A)) (s : WeightedSource A)
    → get_elem? srcs i ≡ some s
    → count (λ x. eqb x (j + i)) (expand j srcs) ≡ pos_part s.weight
count-expand i j [] s found = cc
count-expand zero j (s' ∷ rest) s found =
    let here = count-replicate (j + 0) j (pos_part s'.weight) in
    let after = count-expand_below (j + 0) (suc j) rest (omega arith) in
    let same : pos_part s'.weight ≡ pos_part s.weight = cc in
    count-append (λ x. eqb x (j + 0)) (replicate (pos_part s'.weight) j) _ ∙ ground arith
count-expand (suc i) j (s' ∷ rest) s found =
    let here = count-replicate (j + suc i) j (pos_part s'.weight) in
    let after : count (λ x. eqb x (j + suc i)) (expand (suc j) rest) ≡ pos_part s.weight =
      subst (λ t. count (λ x. eqb x t) (expand (suc j) rest) ≡ pos_part s.weight) (omega arith)
        (count-expand i (suc j) rest s found) in
    count-append (λ x. eqb x (j + suc i)) (replicate (pos_part s'.weight) j) _ ∙ ground arith

-- What surrounds a call: what arrives in the channels before it, and in the wait on the first one.
pub record Surrounding (A : Type 0) : Type 0 where
  pub arrive : List (List A) → List (List A)
  pub waited : Option A

-- A call that panics is the last one.
abbrev after_call : {A : Type 0} → (PriorityRouter A → ℕ) → Option (PriorityRouter A × Option A) → ℕ
after_call f none = 0
after_call f (some (r, v)) = f r

-- In how many of the next k calls it is the turn of source i.
unfoldable pub turns : {A : Type 0} → ℕ → (ℕ → Surrounding A) → ℕ → PriorityRouter A → ℕ
turns i env zero r = 0
turns i env (suc k) r =
    let r' = record r { sources = (env k).arrive r.sources } in
    hit i (scheduled r') + after_call (turns i env k) (next r' (env k).waited)

advance-small : (c : ℕ) → suc c < 2 ^ 63 → advance c ≡ suc c
advance-small c small = mod-eq_of_lt (omega arith)

slot_index-small : (c n : ℕ) → suc c < 2 ^ 63 → slot_index (advance c) n ≡ some (suc c % n)
slot_index-small c n small =
    ap (λ m. slot_index m n) (advance-small c small) ∙ rw (lt→ltb (suc c) (2 ^ 63) small) refl

turns-picks :
    {A : Type 0} (i : ℕ) (env : ℕ → Surrounding A) (k c : ℕ) (r : PriorityRouter A)
    → r.cursor ≡ c
    → c + k < 2 ^ 63
    → 0 < length r.slots
    → turns i env k r ≡ picks i r.slots (suc c) k
unfolding turns picks scheduled next
turns-picks i env zero c r at small some_slot = refl
turns-picks i env (suc k) c r at small some_slot =
    let r' = record r { sources = (env k).arrive r.sources } in
    let (j, at_j) = get_elem?-below r.slots (suc c % length r.slots) (mod-lt (suc c) some_slot) in
    let turn : scheduled r' ≡ some j =
      ap (slot r.slots) (
        ap (λ m. slot_index (advance m) (length r.slots)) at
        ∙ slot_index-small c (length r.slots) (omega arith))
      ∙ at_j in
    ap₂ ◌+◌ (ap (hit i) (turn ∙ sym at_j)) (
      ap (after_call (turns i env k)) (ap (take_turn r' (env k).waited) turn)
      ∙ turns-picks i env k (suc c) _ (ap advance at ∙ advance-small c (omega arith)) (omega arith)
          some_slot)

built_if :
    {A : Type 0} (b : Bool) (q r : PriorityRouter A)
    → (if b then some q else none) ≡ some r
    → (b ≡ true) × (r.slots ≡ q.slots)
built_if true q r h = (refl, cc)
built_if false q r h = cc

-- What the constructor accepts.
made_from :
    {A : Type 0} (srcs : List (WeightedSource A)) (r : PriorityRouter A)
    → new_priority_router srcs ≡ some r
    → (all_positive srcs ≡ true) × (r.slots ≡ expand 0 srcs)
unfolding new_priority_router
made_from [] r made = cc
made_from (s ∷ rest) r made = built_if (all_positive (s ∷ rest)) _ r made

weight-positive :
    {A : Type 0} (srcs : List (WeightedSource A)) (i : ℕ) (s : WeightedSource A)
    → all_positive srcs ≡ true
    → get_elem? srcs i ≡ some s
    → is_positive s.weight ≡ true
weight-positive [] i s good found = cc
weight-positive (s' ∷ rest) zero s good found = ground arith
weight-positive (s' ∷ rest) (suc i) s good found = weight-positive rest i s (ground arith) found

pos_part-positive : (w : ℤ) → is_positive w ≡ true → (pos (pos_part w) ≡ w) × (0 < pos_part w)
pos_part-positive (pos zero) h = cc
pos_part-positive (pos (suc n)) h = (refl, omega arith)
pos_part-positive (negsuc n) h = cc

count-le : (t : ℕ) (xs : List ℕ) → count (λ x. eqb x t) xs ≤ length xs
count-le t [] = omega arith
count-le t (x ∷ xs) = let rest = count-le t xs in ground arith

-- A router made from sources whose weights are positive, wherever its cursor stands and whatever
-- has been received and sent: among as many consecutive calls as there are slots, it is the turn of
-- each source as often as its weight says, whatever arrives between them. The cursor must not wrap
-- around in these calls.
pub turns-weight :
    {A : Type 0} (srcs : List (WeightedSource A)) (r now : PriorityRouter A) (i : ℕ)
    (s : WeightedSource A) (env : ℕ → Surrounding A)
    → new_priority_router srcs ≡ some r
    → get_elem? srcs i ≡ some s
    → now.slots ≡ r.slots
    → now.cursor + length r.slots < 2 ^ 63
    → pos (turns i env (length r.slots) now) ≡ s.weight
turns-weight srcs r now i s env made found same small =
    let (good, slots) = made_from srcs r made in
    let (back, nonzero) = pos_part-positive s.weight (weight-positive srcs i s good found) in
    let share : count (λ x. eqb x i) now.slots ≡ pos_part s.weight =
      ap (count (λ x. eqb x i)) (same ∙ slots)
      ∙ subst (λ t. count (λ x. eqb x t) (expand 0 srcs) ≡ pos_part s.weight) (omega arith)
          (count-expand i 0 srcs s found) in
    let long = count-le i now.slots in
    rw⁻¹ same (
      ap pos (
        turns-picks i env (length now.slots) now.cursor now refl (rw same small) (omega arith)
        ∙ picks_round i now.slots (suc now.cursor)
        ∙ picks_suffix i now.slots now.slots 0 (omega arith)
            (λ k. ap (get_elem? now.slots) (omega arith))
        ∙ share)
      ∙ back)
