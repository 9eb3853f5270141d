-- ===== src/Tests/Table.antt =====
-- A table of the scheduler as a list of rows, of which the first under an id counts.
use insider_notification.Base.{
  ◌+◌, String, Bool, true, false, not, Option, none, some, List, [], ◌∷◌, ◌≡◌, refl, sym, ap, ◌∙◌,
  inl, inr, select, length, arith, ◌==◌, eq_iff, Bool-cases, if◌then◌else◌,
}
use insider_notification.Scheduler.{ScheduledNotification}
use insider_notification.Scheduler.Conservation.{HasId}
use insider_notification.Scheduler.Deployed.{merge, upserted}

unfoldable pub lookup : List ScheduledNotification → String → Option ScheduledNotification
lookup [] id = none
lookup (n ∷ ns) id = if n.notification_id == id then some n else lookup ns id

unfoldable pub ins :
    List ScheduledNotification → List ScheduledNotification → List ScheduledNotification
ins [] rows = rows
ins (n ∷ ns) rows = ins ns (merge n (lookup rows n.notification_id) ∷ rows)

abbrev pub kept : String → List ScheduledNotification → List ScheduledNotification
kept id = select (λ n. not (n.notification_id == id))

abbrev pub claimed : String → List ScheduledNotification → List ScheduledNotification
claimed id = select (λ n. n.notification_id == id)

pub lookup-head :
    (n : ScheduledNotification) (ns : List ScheduledNotification) (id : String) (b : Bool)
    → (n.notification_id == id) ≡ b
    → lookup (n ∷ ns) id ≡ (if b then some n else lookup ns id)
unfolding lookup
lookup-head n ns id b h = rw h refl

pub lookup-insert :
    (n : ScheduledNotification) (rows : List ScheduledNotification) (id : String)
    → lookup (merge n (lookup rows n.notification_id) ∷ rows) id
      ≡ (if n.notification_id == id then some (merge n (lookup rows id)) else lookup rows id)
lookup-insert n rows id = elim (Bool-cases (n.notification_id == id)) [
  | inl same ↦
      let one : n.notification_id ≡ id = ground (arith, eq_iff n.notification_id id) in
      lookup-head (merge n (lookup rows n.notification_id)) rows id true same
      ∙ ap (λ k. some (merge n (lookup rows k))) one
      ∙ sym (ap (λ b. if b then some (merge n (lookup rows id)) else lookup rows id) same)
  | inr other_ ↦
      lookup-head (merge n (lookup rows n.notification_id)) rows id false other_
      ∙ sym (ap (λ b. if b then some (merge n (lookup rows id)) else lookup rows id) other_)
]

pub lookup-ins :
    (ns rows : List ScheduledNotification) (id : String)
    → lookup (ins ns rows) id ≡ upserted ns id (lookup rows id)
unfolding ins
lookup-ins [] rows id = refl
lookup-ins (n ∷ ns) rows id =
    lookup-ins ns (merge n (lookup rows n.notification_id) ∷ rows) id
    ∙ ap (upserted ns id) (lookup-insert n rows id)

pub lookup-kept_self :
    (id : String) (rows : List ScheduledNotification) → lookup (kept id rows) id ≡ none
unfolding lookup
lookup-kept_self id [] = refl
lookup-kept_self id (n ∷ ns) = elim (Bool-cases (n.notification_id == id)) [
  | inl same ↦ rw same (lookup-kept_self id ns)
  | inr other_ ↦ rw (other_, other_) (lookup-kept_self id ns)
]

pub lookup-kept :
    (k id : String) (rows : List ScheduledNotification)
    → (k == id) ≡ false
    → lookup (kept k rows) id ≡ lookup rows id
unfolding lookup
lookup-kept k id [] apart = refl
lookup-kept k id (n ∷ ns) apart =
    let rest = lookup-kept k id ns apart in
    elim (Bool-cases (n.notification_id == k)) [
      | inl same ↦
          let one : n.notification_id ≡ k = ground (arith, eq_iff n.notification_id k) in
          rw (same, ap (λ x. x == id) one ∙ apart) rest
      | inr other_ ↦ rw other_ (ap (λ o. if n.notification_id == id then some n else o) rest)
    ]

pub count_both :
    (k : String) (rows : List ScheduledNotification)
    → length (kept k rows) + length (claimed k rows) ≡ length rows
count_both k [] = refl
count_both k (n ∷ ns) =
    let rest = count_both k ns in
    elim (Bool-cases (n.notification_id == k)) [
      | inl same ↦ rw same (omega arith)
      | inr other_ ↦ rw other_ (omega arith)
    ]

pub HasId-claimed_step :
    (k id : String) (n : ScheduledNotification) (rest : List ScheduledNotification) (b : Bool)
    → (n.notification_id == k) ≡ b
    → (HasId id rest → id ≡ k)
    → HasId id (if b then n ∷ rest else rest)
    → id ≡ k
HasId-claimed_step k id n rest true hit later (inl same) =
    let one : n.notification_id ≡ k = ground (arith, eq_iff n.notification_id k) in sym same ∙ one
HasId-claimed_step k id n rest true hit later (inr listed) = later listed
HasId-claimed_step k id n rest false miss later listed = later listed

pub HasId-claimed :
    (k id : String) (rows : List ScheduledNotification) → HasId id (claimed k rows) → id ≡ k
HasId-claimed k id [] h = absurd h
HasId-claimed k id (n ∷ ns) h =
    HasId-claimed_step k id n (claimed k ns) (n.notification_id == k) refl (HasId-claimed k id ns) h
