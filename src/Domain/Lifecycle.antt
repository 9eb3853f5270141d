-- ===== src/Domain/Lifecycle.antt =====
-- The status of a notification over its life: `Transition` of
-- api/internal/domain/notification/models.go against the diagram of its comment and map.
use insider_notification.Base.{
  String, ◌≡◌, refl, subst, ◌⊎◌, inl, inr, List, [], ◌∷◌, ◌==◌, some, none, eq_iff, arith, true,
  false, Bool-cases, Option-cases, ◌≢◌,
}
use insider_notification.Errors.{Error, as_domain}
use insider_notification.Effect.{ok, err}
use insider_notification.Platform.{Platform}
use insider_notification.Public.Status
use insider_notification.Domain.{
  Notification, valid_transitions, contains, transition, unknown_status_error,
  invalid_transition_error,
}

-- The edges of the diagram.
pub data Edge (a b : String) : Type 0 where
  deliver : a ≡ Status.pending → b ≡ Status.delivered → Edge a b
  give_up : a ≡ Status.pending → b ≡ Status.failed → Edge a b
  cancel : a ≡ Status.pending → b ≡ Status.cancelled → Edge a b
  retry : a ≡ Status.failed → b ≡ Status.pending → Edge a b

abbrev pub IsKnown : String → Type 0
IsKnown s =
    (s ≡ Status.pending) ⊎ (s ≡ Status.failed) ⊎ (s ≡ Status.delivered) ⊎ (s ≡ Status.cancelled)

abbrev pub IsTerminal : String → Type 0
IsTerminal s = (s ≡ Status.delivered) ⊎ (s ≡ Status.cancelled)

-- What a move that stays or follows an edge is.
abbrev pub IsAllowed : String → String → Type 0
IsAllowed a b = (a ≡ b) ⊎ Edge a b

allowed_edge :
    (a b : String) {allowed : List String}
    → valid_transitions a ≡ some allowed
    → contains allowed b ≡ true
    → Edge a b
unfolding valid_transitions
allowed_edge a b h k = grind (
  arith,
  deliver,
  give_up,
  cancel,
  retry,
  eq_iff a Status.pending,
  eq_iff a Status.failed,
  eq_iff a Status.delivered,
  eq_iff a Status.cancelled,
  eq_iff Status.pending b,
  eq_iff Status.delivered b,
  eq_iff Status.failed b,
  eq_iff Status.cancelled b,
)

edge_allowed :
    (a b : String)
    → Edge a b
    → (allowed : List String) × (valid_transitions a ≡ some allowed) × (contains allowed b ≡ true)
unfolding valid_transitions
edge_allowed a b (deliver p q) = rw (p, q) (_, refl, refl)
edge_allowed a b (give_up p q) = rw (p, q) (_, refl, refl)
edge_allowed a b (cancel p q) = rw (p, q) (_, refl, refl)
edge_allowed a b (retry p q) = rw (p, q) (_, refl, refl)

known_transitions : (a : String) → IsKnown a → valid_transitions a ≢ none
unfolding valid_transitions
known_transitions a k = ground (
  arith,
  eq_iff a Status.pending,
  eq_iff a Status.failed,
  eq_iff a Status.delivered,
  eq_iff a Status.cancelled,
)

transitions-IsKnown : (a : String) {l : List String} → valid_transitions a ≡ some l → IsKnown a
unfolding valid_transitions
transitions-IsKnown a h = ground (
  arith,
  eq_iff a Status.pending,
  eq_iff a Status.failed,
  eq_iff a Status.delivered,
  eq_iff a Status.cancelled,
)

same_or_not : (a b : String) → (a ≡ b) ⊎ ((a == b) ≡ false)
same_or_not a b = ground (arith, eq_iff a b)

-- A move that stays or follows an edge of the diagram succeeds and sets the status alone.
pub transition-allowed :
    (p : Platform) (to : String) (n : Notification)
    → IsAllowed n.status to
    → transition p to n ≡ (record n { status = to }, ok tt)
unfolding transition
transition-allowed p to n (inl same) = ground (arith, eq_iff n.status to)
transition-allowed p to n (inr edge) =
    let (l, found, listed) = edge_allowed _ _ edge in
    elim (same_or_not n.status to) [
      | inl same ↦ ground (arith, eq_iff n.status to)
      | inr differs ↦ rw (differs, found, listed)
    ]

-- Any other move leaves the notification as it was, and the error tells an unknown present status
-- from a known one with no such edge.
pub transition-refused :
    (p : Platform) (to : String) (n : Notification)
    → ¬ IsAllowed n.status to
    → (e : Error) × (transition p to n ≡ (n, err e))
      × ((IsKnown n.status
            × (as_domain e ≡ some ("INVALID_TRANSITION", "invalid status transition")))
          ⊎ (¬ IsKnown n.status × (as_domain e ≡ some ("UNKNOWN_STATUS", "unknown status"))))
unfolding transition as_domain
transition-refused p to n no_edge = elim (same_or_not n.status to) [
  | inl same ↦ absurd (no_edge (inl same))
  | inr differs ↦ elim (Option-cases (valid_transitions n.status)) [
    | inl missing ↦ (
      unknown_status_error p n.status,
      rw (differs, missing),
      inr ((λ k. known_transitions _ k missing), refl),
    )
    | inr (l, found) ↦ elim (Bool-cases (contains l to)) [
      | inl listed ↦ absurd (no_edge (inr (allowed_edge _ _ found listed)))
      | inr missing ↦ (
        invalid_transition_error p n.status to,
        rw (differs, found, missing),
        inl (transitions-IsKnown _ found, refl),
      )
    ]
  ]
]

-- Any series of attempted moves, errors ignored.
pub attempts : Platform → List String → Notification → Notification
attempts p [] n = n
attempts p (to ∷ rest) n = attempts p rest (transition p to n).0

transitions-terminal : (a : String) → IsTerminal a → valid_transitions a ≡ some []
unfolding valid_transitions
transitions-terminal a (inl h) = rw h
transitions-terminal a (inr h) = rw h

terminal_move :
    (p : Platform) (to : String) (n : Notification)
    → IsTerminal n.status
    → (transition p to n).0 ≡ n
unfolding transition
terminal_move p to n h = elim (Bool-cases (n.status == to)) [
  | inl same ↦ rw same
  | inr differs ↦ rw (differs, transitions-terminal _ h)
]

-- A delivered or cancelled notification stays exactly as it is under every series of moves.
pub attempts-terminal :
    (p : Platform) (moves : List String) (n : Notification)
    → IsTerminal n.status
    → attempts p moves n ≡ n
unfolding attempts
attempts-terminal p [] n h = refl
attempts-terminal p (to ∷ rest) n h = rw (terminal_move p to n h) (attempts-terminal p rest n h)

-- A move that succeeds is one that stays or follows an edge.
pub transition-ok :
    (p : Platform) (to : String) (n : Notification)
    → (transition p to n).1 ≡ ok tt
    → IsAllowed n.status to
unfolding transition
transition-ok p to n h = elim (same_or_not n.status to) [
  | inl same ↦ inl same
  | inr differs ↦ elim (Option-cases (valid_transitions n.status)) [
    | inl missing ↦ cc (rw (differs, missing) at h)
    | inr (l, found) ↦ elim (Bool-cases (contains l to)) [
      | inl listed ↦ inr (allowed_edge _ _ found listed)
      | inr missing ↦ cc (rw (differs, found, missing) at h)
    ]
  ]
]

-- Any number of moves along edges of the diagram.
pub data Reach (a : String) : String → Type 0 where
  stay : Reach a a
  step : {b c : String} → Reach a b → Edge b c → Reach a c

pub Reach-trans : {a b c : String} → Reach a b → Reach b c → Reach a c
Reach-trans r stay = r
Reach-trans r (step q e) = step (Reach-trans r q) e

pub Reach-of_IsAllowed : {a b : String} → IsAllowed a b → Reach a b
Reach-of_IsAllowed {a} (inl same) = subst (Reach a) same stay
Reach-of_IsAllowed (inr e) = step stay e

edge-IsTerminal : {a b : String} → Edge a b → ¬ IsTerminal a
edge-IsTerminal {a} {b} e t =
    let kept : valid_transitions a ≡ some [] = transitions-terminal a t in
    let (l, found, listed) = edge_allowed _ _ e in
    let same : l ≡ [] = ground arith in cc (subst (λ m. contains m b ≡ true) same listed)

-- Nothing is reached from a delivered or cancelled notification but itself.
pub Reach-terminal : {a b : String} → Reach a b → IsTerminal a → a ≡ b
Reach-terminal stay t = refl
Reach-terminal (step r e) t = absurd (edge-IsTerminal e (subst IsTerminal (Reach-terminal r t) t))
