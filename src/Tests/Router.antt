-- ===== src/Tests/Router.antt =====
-- The router of the processor on two sources of weights 2 and 1.
use insider_notification.Base.{
  ℕ, pos, String, Option, none, some, List, [], ◌∷◌, ◌≡◌, refl, length, arith,
}
use insider_notification.Processor.Router.{
  WeightedSource, PriorityRouter, new_priority_router, scheduled, next, advance,
}
use insider_notification.Processor.Router.Delivery.{Serves, next-Serves}
use insider_notification.Processor.Router.Fairness.{Surrounding, turns, turns-weight}

abbrev sources : List (WeightedSource String)
sources =
    record { ch = "a" ∷ []; weight = pos 2 } ∷ record { ch = "b" ∷ "c" ∷ []; weight = pos 1 } ∷ []

abbrev router : PriorityRouter String
router = record { sources = ("a" ∷ []) ∷ ("b" ∷ "c" ∷ []) ∷ []; slots = 0 ∷ 0 ∷ 1 ∷ []; cursor = 0 }

made : new_priority_router sources ≡ some router
unfolding new_priority_router
made = refl

-- The second slot of the first source comes first.
turn : scheduled router ≡ some 0
unfolding scheduled
turn = refl

abbrev quiet : ℕ → Surrounding String
quiet k = record { arrive = λ cs. cs; waited = none }

next-Serves_example :
    (r' : PriorityRouter String) × (result : Option String) × (next router none ≡ some (r', result))
    × Serves router.sources 0 none r'.sources result
    × (r'.cursor ≡ advance router.cursor)
    × (r'.slots ≡ router.slots)
next-Serves_example = next-Serves router none 0 turn

turns-weight_example : pos (turns 1 quiet (length router.slots) router) ≡ pos 1
turns-weight_example =
    turns-weight sources router router 1 (record { ch = "b" ∷ "c" ∷ []; weight = pos 1 }) quiet made
      refl refl (omega arith)
