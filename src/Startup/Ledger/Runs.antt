-- ===== src/Startup/Ledger/Runs.antt =====
-- What is shown of the end of a process by what is shown of its parts.
use insider_notification.Base.{
  String, Option, none, some, List, [], ◌∷◌, ◌++◌, ◌≡◌, sym, ap, subst, ◌∙◌,
}
use insider_notification.Errors.{Error}
use insider_notification.Effect.{Result, ok, err}
use insider_notification.Startup.{
  Call, World, returned, failed, panicked, exited, Run, Process, after, follow, caught, keeping,
  finish,
}
use insider_notification.Startup.Ledger.{Ledger, step, steps, go_on}

-- The calls are allowed from the ledger `l`, and lead to one that is as `Q` says.
abbrev pub Leads : {A : Type 0} → Ledger → (A → Ledger → Type 0) → List Call → A → Type 0
Leads l Q xs a = (m : Ledger) × (steps xs l ≡ some m) × Q a m

-- A process that returns, with or without an error, leads there. One that panics, and one that
-- ends in `os.Exit`, takes the whole program down. All but a return without an error have a reason.
abbrev pub Meets :
    {S A : Type 0} → Type 0 → Ledger → (Result A → Ledger → Type 0) → Run S A → Type 0
Meets X l Q (s, (xs, returned a)) = Leads l Q xs (ok a)
Meets X l Q (s, (xs, failed e)) = X × Leads l Q xs (err e)
Meets X l Q (s, (xs, panicked t)) = X
Meets X l Q (s, (xs, exited n)) = X

-- A call that fails is a reason.
abbrev pub Explains : {S : Type 0} → World S → Type 0 → Type 0
Explains {S = S} w X = (c : Call) (s : S) (e : Error) → (w.answer c s).1 ≡ some e → X

-- It returns without an error, with that ledger.
abbrev pub To : {A : Type 0} → Ledger → Result A → Ledger → Type 0
To n (ok a) m = m ≡ n
To n (err e) m = ⊥

-- It may return an error, with a ledger as `E` says.
abbrev pub Or : {A : Type 0} → (Error → Ledger → Type 0) → Ledger → Result A → Ledger → Type 0
Or E n (ok a) m = m ≡ n
Or E n (err e) m = E e m

go_on-append :
    (xs ys : List Call) (m : Ledger) (o : Option Ledger)
    → ((n : Ledger) → steps xs n ≡ some m → steps (xs ++ ys) n ≡ steps ys m)
    → go_on o (steps xs) ≡ some m
    → go_on o (steps (xs ++ ys)) ≡ steps ys m
go_on-append xs ys m none rest h = cc
go_on-append xs ys m (some n) rest h = rest n h

pub steps-append :
    (xs ys : List Call) (l m : Ledger) → steps xs l ≡ some m → steps (xs ++ ys) l ≡ steps ys m
unfolding steps
steps-append [] ys l m h = ap (λ o. go_on o (steps ys)) h
steps-append (x ∷ xs) ys l m h = go_on-append xs ys m (step x l) (λ n. steps-append xs ys n m) h

module _ (X : Type 0) where
  -- Calls before a process.
  pub after-Meets :
      {S A : Type 0} (xs : List Call) (l n : Ledger) (Q : Result A → Ledger → Type 0) (r : Run S A)
      → steps xs l ≡ some n
      → Meets X n Q r
      → Meets X l Q (after xs r)
  after-Meets xs l n Q (s, (ys, returned a)) h (m, k, q) = (m, steps-append xs ys l n h ∙ k, q)
  after-Meets xs l n Q (s, (ys, failed e)) h (x, (m, k, q)) =
      (x, (m, steps-append xs ys l n h ∙ k, q))
  after-Meets xs l n Q (s, (ys, panicked t)) h x = x
  after-Meets xs l n Q (s, (ys, exited c)) h x = x

  -- A process, and what goes on where it returns.
  pub follow-Meets :
      {S A B : Type 0} (k : A → Process S B) (l : Ledger) (Q : Result A → Ledger → Type 0)
      (R : Result B → Ledger → Type 0) (r : Run S A)
      → Meets X l Q r
      → ((a : A) (m : Ledger) (s : S) → Q (ok a) m → Meets X m R (k a s))
      → (X → (e : Error) (m : Ledger) → Q (err e) m → R (err e) m)
      → Meets X l R (follow k r)
  follow-Meets k l Q R (s, (xs, returned a)) (m, h, q) rest refused =
      after-Meets xs l m R (k a s) h (rest a m s q)
  follow-Meets k l Q R (s, (xs, failed e)) (x, (m, h, q)) rest refused =
      (x, (m, h, refused x e m q))
  follow-Meets k l Q R (s, (xs, panicked t)) x rest refused = x
  follow-Meets k l Q R (s, (xs, exited n)) x rest refused = x

  -- One that returns no errors.
  pub seq-Meets :
      {S A B : Type 0} (k : A → Process S B) (l n : Ledger) (R : Result B → Ledger → Type 0)
      (r : Run S A)
      → Meets X l (To n) r
      → ((a : A) (s : S) → Meets X n R (k a s))
      → Meets X l R (follow k r)
  seq-Meets k l n R r h rest =
      follow-Meets k l (To n) R r h
        (λ a m s same. subst (λ m. Meets X m R (k a s)) (sym same) (rest a s))
        (λ x e m never. absurd never)

  pub weaken-Meets :
      {S A : Type 0} (l : Ledger) (Q R : Result A → Ledger → Type 0) (r : Run S A)
      → ((x : Result A) (m : Ledger) → Q x m → R x m)
      → Meets X l Q r
      → Meets X l R r
  weaken-Meets l Q R (s, (xs, returned a)) f (m, h, q) = (m, h, f (ok a) m q)
  weaken-Meets l Q R (s, (xs, failed e)) f (x, (m, h, q)) = (x, (m, h, f (err e) m q))
  weaken-Meets l Q R (s, (xs, panicked t)) f x = x
  weaken-Meets l Q R (s, (xs, exited n)) f x = x

  -- The error of a process as a value.
  pub attempt-Meets :
      {S A : Type 0} (l : Ledger) (Q : Result A → Ledger → Type 0)
      (R : Result (Result A) → Ledger → Type 0) (r : Run S A)
      → ((a : A) (m : Ledger) → Q (ok a) m → R (ok (ok a)) m)
      → (X → (e : Error) (m : Ledger) → Q (err e) m → R (ok (err e)) m)
      → Meets X l Q r
      → Meets X l R (caught r)
  attempt-Meets l Q R (s, (xs, returned a)) f g (m, h, q) = (m, h, f a m q)
  attempt-Meets l Q R (s, (xs, failed e)) f g (x, (m, h, q)) = (m, h, g x e m q)
  attempt-Meets l Q R (s, (xs, panicked t)) f g x = x
  attempt-Meets l Q R (s, (xs, exited n)) f g x = x

  keeping-Meets :
      {S A : Type 0} (l n : Ledger) (a : A) (r : Run S (Unit {0}))
      → Meets X l (To n) r
      → Meets X l (To n) (keeping (returned a) r)
  keeping-Meets l n a (s, (xs, returned u)) h = h
  keeping-Meets l n a (s, (xs, failed e)) (x, (m, k, never)) = absurd never
  keeping-Meets l n a (s, (xs, panicked t)) h = h
  keeping-Meets l n a (s, (xs, exited c)) h = h

  panicked-Meets :
      {S A : Type 0} (l : Ledger) (Q : Result A → Ledger → Type 0) (xs : List Call) (t : String)
      (r : Run S (Unit {0}))
      → X
      → Meets X l Q (after xs (keeping (panicked t) r))
  panicked-Meets l Q xs t (s, (ys, returned u)) x = x
  panicked-Meets l Q xs t (s, (ys, failed e)) x = x
  panicked-Meets l Q xs t (s, (ys, panicked t')) x = x
  panicked-Meets l Q xs t (s, (ys, exited n)) x = x

  -- A process with a deferred call.
  pub deferring-Meets :
      {S A : Type 0} (l m n : Ledger) (d : Process S (Unit {0})) (r : Run S A)
      → Meets X l (To m) r
      → ((s : S) → Meets X m (To n) (d s))
      → Meets X l (To n) (finish d r)
  deferring-Meets l m n d (s, (xs, returned a)) (m', h, same) last =
      after-Meets xs l m (To n) (keeping (returned a) (d s)) (h ∙ ap some same)
        (keeping-Meets m n a (d s) (last s))
  deferring-Meets l m n d (s, (xs, failed e)) (x, (m', h, never)) last = absurd never
  deferring-Meets l m n d (s, (xs, panicked t)) x last = panicked-Meets l (To n) xs t (d s) x
  deferring-Meets l m n d (s, (xs, exited c)) x last = x
