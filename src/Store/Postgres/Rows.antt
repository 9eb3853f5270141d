-- ===== src/Store/Postgres/Rows.antt =====
-- Rows in the order of their ids, and what a condition of a query says of a row.
use insider_notification.Base.{
  ℕ, zero, suc, ◌≤◌, ◌<◌, Bool, true, false, ◌&&◌, Option, none, some, List, [], ◌∷◌, ◌++◌, select,
  drop, get_elem?, All, ◌==◌, leb, ltb, eqb, ◌≡◌, refl, ap, subst, inl, inr, Bool-cases, arith,
  le→ltb, lt→ltb, ltb→lt, ◌||◌,
}
use insider_notification.Store.{DbNotification}
use insider_notification.Store.Postgres.{
  Condition, status_is, channel_is, batch_is, created_from, created_until, id_below, id_in,
  deliver_after_set, deliver_after_passed,
}

abbrev pub is_value : Option ℕ → ℕ → Bool
is_value none v = false
is_value (some w) v = eqb w v

abbrev pub is_set : Option ℕ → Bool
is_set none = false
is_set (some w) = true

abbrev pub is_until : Option ℕ → ℕ → Bool
is_until none t = false
is_until (some w) t = leb w t

abbrev pub is_listed : List ℕ → ℕ → Bool
is_listed [] v = false
is_listed (w ∷ ws) v = eqb w v || is_listed ws v

-- Whether the row meets the condition, at the time `now`.
unfoldable pub meets : (now : ℕ) → Condition → DbNotification → Bool
meets now (status_is s) e = e.status == s
meets now (channel_is s) e = e.channel == s
meets now (batch_is b) e = is_value e.batch_id b
meets now (created_from t) e = leb t e.created_at
meets now (created_until t) e = leb e.created_at t
meets now (id_below c) e = ltb e.id c
meets now (id_in ids) e = is_listed ids e.id
meets now deliver_after_set e = is_set e.deliver_after
meets now deliver_after_passed e = is_until e.deliver_after now

abbrev pub meets_all : (now : ℕ) → List Condition → DbNotification → Bool
meets_all now [] e = true
meets_all now (c ∷ cs) e = meets now c e && meets_all now cs e

-- Each id is above those that follow.
abbrev pub IsDescending : List DbNotification → Type 0
IsDescending [] = Unit
IsDescending (e ∷ es) = All (λ (x : DbNotification). x.id < e.id) es × IsDescending es

-- The rows with an id below the given one.
abbrev pub below : ℕ → List DbNotification → List DbNotification
below c = select (λ e. ltb e.id c)

meets_all-id_below :
    (now c : ℕ) (cs : List Condition) (e : DbNotification)
    → meets_all now (cs ++ id_below c ∷ []) e ≡ (meets_all now cs e && ltb e.id c)
unfolding meets
meets_all-id_below now c [] e = ground arith
meets_all-id_below now c (d ∷ cs) e =
    let rest = meets_all-id_below now c cs e in
    elim (Bool-cases (meets now d e)) [
      | inl true_ ↦ rw (true_, rest) refl
      | inr false_ ↦ rw false_ refl
    ]

-- A query with a bound on the id selects the rows below it of those that meet the rest.
pub select-below :
    (now c : ℕ) (cs : List Condition) (es : List DbNotification)
    → select (meets_all now (cs ++ id_below c ∷ [])) es ≡ below c (select (meets_all now cs) es)
select-below now c cs [] = refl
select-below now c cs (e ∷ es) =
    let rest = select-below now c cs es in
    let split = meets_all-id_below now c cs e in
    elim (Bool-cases (meets_all now cs e)) [
      | inl here ↦ rw (split, here, rest) refl
      | inr gone ↦ rw (split, gone, rest) refl
    ]

select-All :
    (P : DbNotification → Type 0) (t : DbNotification → Bool) (es : List DbNotification)
    → All P es
    → All P (select t es)
select-All P t [] all = all
select-All P t (e ∷ es) (one, all) = elim (Bool-cases (t e)) [
  | inl here ↦ rw here (one, select-All P t es all)
  | inr gone ↦ rw gone (select-All P t es all)
]

pub select-IsDescending :
    (t : DbNotification → Bool) (es : List DbNotification)
    → IsDescending es
    → IsDescending (select t es)
select-IsDescending t [] h = h
select-IsDescending t (e ∷ es) (first, rest) = elim (Bool-cases (t e)) [
  | inl here ↦ rw here (select-All _ t es first, select-IsDescending t es rest)
  | inr gone ↦ rw gone (select-IsDescending t es rest)
]

below_every :
    (c : ℕ) (es : List DbNotification) → All (λ (x : DbNotification). x.id < c) es → below c es ≡ es
below_every c [] all = refl
below_every c (e ∷ es) (one, all) = rw (lt→ltb e.id c one) (ap (◌∷◌ e) (below_every c es all))

pub All-get_elem? :
    (P : DbNotification → Type 0) (es : List DbNotification) (k : ℕ) (e : DbNotification)
    → All P es
    → get_elem? es k ≡ some e
    → P e
All-get_elem? P [] k e all h = cc
All-get_elem? P (x ∷ es) zero e (one, all) h = let same : x ≡ e = cc in subst P same one
All-get_elem? P (x ∷ es) (suc k) e (one, all) h = All-get_elem? P es k e all h

pub below-All :
    (c : ℕ) (es : List DbNotification) → All (λ (x : DbNotification). x.id < c) (below c es)
below-All c [] = tt
below-All c (x ∷ xs) = elim (Bool-cases (ltb x.id c)) [
  | inl low ↦ rw low (ltb→lt x.id c low, below-All c xs)
  | inr high ↦ rw high (below-All c xs)
]

-- A row that is found below a bound has a lower id.
pub below-bound :
    (c k : ℕ) (es : List DbNotification) (e : DbNotification)
    → get_elem? (below c es) k ≡ some e
    → e.id < c
below-bound c k es e h =
    All-get_elem? (λ (x : DbNotification). x.id < c) (below c es) k e (below-All c es) h

-- The rows below the one at position k are those after it.
pub below-drop :
    (es : List DbNotification) (k : ℕ) (e : DbNotification)
    → IsDescending es
    → get_elem? es k ≡ some e
    → below e.id es ≡ drop (suc k) es
below-drop [] k e sorted h = cc
below-drop (x ∷ es) zero e (first, rest) h =
    let same : x ≡ e = cc in
    subst (λ y. below y.id (x ∷ es) ≡ es) same
      (rw (le→ltb x.id x.id (omega arith)) (below_every x.id es first))
below-drop (x ∷ es) (suc k) e (first, rest) h =
    let low = All-get_elem? (λ (y : DbNotification). y.id < x.id) es k e first h in
    rw (le→ltb x.id e.id (omega arith)) (below-drop es k e rest h)

-- A lower bound on top of a higher one.
pub below-below : (d c : ℕ) (es : List DbNotification) → d ≤ c → below d (below c es) ≡ below d es
below-below d c [] le = refl
below-below d c (e ∷ es) le = let rest = below-below d c es le in ground arith
