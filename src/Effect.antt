-- ===== src/Effect.antt =====
-- A call that may fail and may change the state of what it calls: Go's `(T, error)` results, with
-- the state of the dependencies (database, broker, Redis) passed along.
use insider_notification.Base.{String, ◌≡◌, refl, ap, ◌⊎◌, inl, inr}
use insider_notification.Errors.{Error, wrap}
use insider_notification.Platform.{Platform}

pub data Result {ℓ} (A : Type ℓ) : Type ℓ where
  ok : A → Result A
  err : Error → Result A

-- A state change is kept when the call fails.
abbrev pub M : Type 0 → Type 0 → Type 0
M S A = S → S × Result A

abbrev pub pure : {S A : Type 0} → A → M S A
pure a s = (s, ok a)

abbrev pub fail : {S A : Type 0} → Error → M S A
fail e s = (s, err e)

-- `if err != nil { return err }` after each call.
abbrev pub then_on : {S A B : Type 0} → (A → M S B) → S × Result A → S × Result B
then_on f (s, ok a) = f a s
then_on f (s, err e) = (s, err e)

infixl 5 ◌>>=◌ ◌>>◌
abbrev pub ◌>>=◌ : {S A B : Type 0} → M S A → (A → M S B) → M S B
◌>>=◌ m f s = then_on f (m s)

abbrev pub ◌>>◌ : {S B : Type 0} → M S (Unit {0}) → M S B → M S B
m >> k = m >>= λ _. k

-- A step that cannot fail (a result that the code discards, a metric).
abbrev pub effect : {S : Type 0} → (S → S) → M S (Unit {0})
effect f s = (f s, ok tt)

-- The error of a call, replaced by another one.
abbrev pub map_error : {A : Type 0} → (Error → Error) → Result A → Result A
map_error f (ok a) = ok a
map_error f (err e) = err (f e)

abbrev pub on_error : {S A : Type 0} → (Error → Error) → M S A → M S A
on_error f m s = let (s', r) = m s in (s', map_error f r)

-- `if err := m; err != nil { return fmt.Errorf(prefix + "%w", err) }`.
abbrev pub wrapping : {S A : Type 0} → Platform → String → M S A → M S A
wrapping p prefix m = on_error (wrap p prefix) m

-- A result that needs no state.
abbrev pub lift : {S A : Type 0} → Result A → M S A
lift r s = (s, r)

pub Result-cases :
    {A : Type 0} (r : Result A) → ((a : A) × (r ≡ ok a)) ⊎ ((e : Error) × (r ≡ err e))
Result-cases (ok a) = inl (a, refl)
Result-cases (err e) = inr (e, refl)

-- A chain of calls succeeds exactly if its first call does and the rest does after it.
pub then_on-ok :
    {S A B : Type 0} (f : A → M S B) (x : S × Result A) {t : S} {b : B}
    → then_on f x ≡ (t, ok b)
    → (u : S) × (a : A) × (x ≡ (u, ok a)) × (f a u ≡ (t, ok b))
then_on-ok f (u, ok a) h = (u, a, refl, h)
then_on-ok f (u, err e) h = cc

pub seq-ok :
    {S B : Type 0} (k : M S B) (x : S × Result (Unit {0})) {t : S} {b : B}
    → then_on (λ _. k) x ≡ (t, ok b)
    → (u : S) × (x ≡ (u, ok tt)) × (k u ≡ (t, ok b))
seq-ok k (u, ok a) h = (u, refl, h)
seq-ok k (u, err e) h = cc

pub map_error-ok :
    {A : Type 0} (f : Error → Error) (r : Result A) {a : A} → map_error f r ≡ ok a → r ≡ ok a
map_error-ok f (ok a) h = h
map_error-ok f (err e) h = cc

-- A call succeeds with its error replaced exactly if it succeeds.
pub on_error-ok :
    {S A : Type 0} (f : Error → Error) (m : M S A) (s : S) {t : S} {a : A}
    → on_error f m s ≡ (t, ok a)
    → m s ≡ (t, ok a)
on_error-ok f m s h = λ i. ((ap (λ x. x.0) h) i, (map_error-ok f (m s).1 (ap (λ x. x.1) h)) i)

pub map_error-err :
    {A : Type 0} (f : Error → Error) (r : Result A) {e : Error}
    → map_error f r ≡ err e
    → (e' : Error) × (r ≡ err e')
map_error-err f (ok a) h = cc
map_error-err f (err e') h = (e', refl)

-- It fails exactly where it fails.
pub on_error-err :
    {S A : Type 0} (f : Error → Error) (m : M S A) (s : S) {t : S} {e : Error}
    → on_error f m s ≡ (t, err e)
    → (e' : Error) × (m s ≡ (t, err e'))
on_error-err f m s h =
    let (e', same) = map_error-err f (m s).1 (ap (λ x. x.1) h) in
    (e', λ i. ((ap (λ x. x.0) h) i, same i))

-- What holds of the state after a chain of calls: it holds after the first call, and is kept by the
-- rest where that call succeeds.
pub then_on-state {ℓ} :
    {S A B : Type 0} (P : S → Type ℓ) (f : A → M S B) (x : S × Result A)
    → ((a : A) → x.1 ≡ ok a → P (f a x.0).0)
    → P x.0
    → P (then_on f x).0
then_on-state P f (s, ok a) h k = h a refl
then_on-state P f (s, err e) h k = k

pub seq-state {ℓ} :
    {S B : Type 0} (P : S → Type ℓ) (k : M S B) (x : S × Result (Unit {0}))
    → (x.1 ≡ ok tt → P (k x.0).0)
    → P x.0
    → P (then_on (λ _. k) x).0
seq-state P k (s, ok a) h k' = h refl
seq-state P k (s, err e) h k' = k'
