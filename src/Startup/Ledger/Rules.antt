-- ===== src/Startup/Ledger/Rules.antt =====
-- What is shown of a process by what is shown of its parts.
use insider_notification.Base.{ℕ, String, Option, none, some, [], ◌∷◌, ◌≡◌, refl, sym, ap, subst}
use insider_notification.Errors.{Error}
use insider_notification.Effect.{Result, ok, err}
use insider_notification.Startup.{
  follow, Call, World, Process, after, caught, ◌>>=◌, ◌>>◌, attempt, deferring, give, fail, panic,
  exit, call, make, or_fail, or_panic, check, must,
}
use insider_notification.Startup.Ledger.Runs.{
  Meets, To, Or, Explains, after-Meets, seq-Meets, follow-Meets, weaken-Meets, attempt-Meets,
  deferring-Meets,
}
use insider_notification.Startup.Ledger.{Ledger, step, steps, go_on}

-- From any state of the libraries.
pub record Holds {S A : Type 0} (X : Type 0) (l : Ledger) (Q : Result A → Ledger → Type 0)
    (m : Process S A) : Type 0 where
  pub meets : (s : S) → Meets X l Q (m s)

module _ {S X : Type 0} (w : World S) (fails : Explains w X) where
  one_step : (c : Call) (l m : Ledger) → step c l ≡ some m → steps (c ∷ []) l ≡ some m
  unfolding steps
  one_step c l m h = ap (λ o. go_on o some) h

  -- A call that is allowed.
  pub make-Meets : (c : Call) (l m : Ledger) → step c l ≡ some m → Holds X l (To m) (make w c)
  make-Meets c l m h = record { meets = λ s. (m, one_step c l m h, refl) }

  pub call-Meets : (c : Call) (l m : Ledger) → step c l ≡ some m → Holds X l (To m) (call w c)
  call-Meets c l m h = record { meets = λ s. (m, one_step c l m h, refl) }

  -- A call, with what follows if it answers no error, and if it answers one.
  pub bind-call :
      {B : Type 0} (c : Call) (k : Option Error → Process S B) {l m : Ledger}
      {R : Result B → Ledger → Type 0}
      → step c l ≡ some m
      → Holds X m R (k none)
      → ((e : Error) → X → Holds X m R (k (some e)))
      → Holds X l R (call w c >>= k)
  unfolding ◌>>=◌
  bind-call c k {l = l} {m = m} {R = R} h fine refused = record {
    meets = λ s. go (w.answer c s).0 (w.answer c s).1 (λ e same. fails c s e same);
  }
    where
      go :
          (s : S) (o : Option Error)
          → ((e : Error) → o ≡ some e → X)
          → Meets X l R (after (c ∷ []) (k o s))
      go s none why = after-Meets X (c ∷ []) l m R (k none s) (one_step c l m h) (fine.meets s)
      go s (some e) why =
          after-Meets X (c ∷ []) l m R (k (some e) s) (one_step c l m h)
            ((refused e (why e refl)).meets s)

  pub must-Meets :
      (c : Call) (f : Error → String) (l m : Ledger)
      → step c l ≡ some m
      → Holds X l (To m) (must w c f)
  unfolding steps
  must-Meets c f l m h =
      bind-call c (or_panic w f) h (record { meets = λ s. (m, refl, refl) })
        (λ e x. record { meets = λ s. x })

  -- The error of the call is returned as `f` makes it.
  pub check-Meets :
      (c : Call) (f : Error → Error) (l m : Ledger)
      → step c l ≡ some m
      → Holds X l (Or (λ e n. ((x : Error) × (e ≡ f x)) × (n ≡ m)) m) (check w c f)
  unfolding steps
  check-Meets c f l m h =
      bind-call c (or_fail w f) h (record { meets = λ s. (m, refl, refl) })
        (λ e x. record { meets = λ s. (x, (m, refl, ((e, refl), refl))) })

pub give-Meets :
    (S : Type 0) {A X : Type 0} (a : A) (l : Ledger) → Holds {S = S} X l (To l) (give a)
unfolding steps
give-Meets S a l = record { meets = λ s. (l, refl, refl) }

pub fail-Meets :
    (S : Type 0) {A X : Type 0} (e : Error) (l : Ledger) (Q : Result A → Ledger → Type 0)
    → X
    → Q (err e) l
    → Holds {S = S} X l Q (fail e)
unfolding steps
fail-Meets S e l Q x q = record { meets = λ s. (x, (l, refl, q)) }

pub panic-Meets :
    (S : Type 0) {A X : Type 0} (t : String) (l : Ledger) (Q : Result A → Ledger → Type 0)
    → X
    → Holds {S = S} X l Q (panic t)
panic-Meets S t l Q x = record { meets = λ s. x }

pub exit-Meets :
    (S : Type 0) {A X : Type 0} (n : ℕ) (l : Ledger) (Q : Result A → Ledger → Type 0)
    → X
    → Holds {S = S} X l Q (exit n)
exit-Meets S n l Q x = record { meets = λ s. x }

-- An error of which more is known than is asked for.
pub weaken-Holds :
    {S A : Type 0} {m : Process S A} {X : Type 0} {l n : Ledger} {E F : Error → Ledger → Type 0}
    → ((e : Error) (o : Ledger) → E e o → F e o)
    → Holds X l (Or E n) m
    → Holds X l (Or F n) m
weaken-Holds {A = A} {m = m} {X = X} {l = l} {n = n} {E = E} {F = F} f h = record {
  meets = λ s. weaken-Meets X l (Or E n) (Or F n) (m s) go (h.meets s);
}
  where
    go : (x : Result A) (o : Ledger) → Or E n x o → Or F n x o
    go (ok a) o q = q
    go (err e) o q = f e o q

pub never_fails :
    {S A : Type 0} {m : Process S A} {X : Type 0} {l n : Ledger} {E : Error → Ledger → Type 0}
    → Holds X l (To n) m
    → Holds X l (Or E n) m
never_fails {A = A} {m = m} {X = X} {l = l} {n = n} {E = E} h = record {
  meets = λ s. weaken-Meets X l (To n) (Or E n) (m s) go (h.meets s);
}
  where
    go : (x : Result A) (o : Ledger) → To n x o → Or E n x o
    go (ok a) o q = q
    go (err e) o q = absurd q

-- Processes in a row.
pub then-To :
    {S B : Type 0} {m : Process S (Unit {0})} {k : Process S B} {X : Type 0} {l n : Ledger}
    {R : Result B → Ledger → Type 0}
    → Holds X l (To n) m
    → Holds X n R k
    → Holds X l R (m >> k)
unfolding ◌>>◌
then-To {m = m} {k = k} {X = X} {l = l} {n = n} {R = R} f g = record {
  meets = λ s. seq-Meets X (λ _. k) l n R (m s) (f.meets s) (λ _. g.meets);
}

pub bind-To :
    {S A B : Type 0} {m : Process S A} {k : A → Process S B} {X : Type 0} {l n : Ledger}
    {R : Result B → Ledger → Type 0}
    → Holds X l (To n) m
    → ((a : A) → Holds X n R (k a))
    → Holds X l R (m >>= k)
unfolding ◌>>=◌
bind-To {m = m} {k = k} {X = X} {l = l} {n = n} {R = R} f g = record {
  meets = λ s. seq-Meets X k l n R (m s) (f.meets s) (λ a. (g a).meets);
}

pub then-Or :
    {S B : Type 0} {m : Process S (Unit {0})} {k : Process S B} {X : Type 0} {l n : Ledger}
    {E : Error → Ledger → Type 0} {R : Result B → Ledger → Type 0}
    → Holds X l (Or E n) m
    → Holds X n R k
    → ((e : Error) (o : Ledger) → E e o → R (err e) o)
    → Holds X l R (m >> k)
unfolding ◌>>◌
then-Or {m = m} {k = k} {X = X} {l = l} {n = n} {E = E} {R = R} f g refused = record {
  meets = λ s.
      follow-Meets X (λ _. k) l (Or E n) R (m s) (f.meets s)
        (λ a o u same. subst (λ o. Meets X o R (k u)) (sym same) (g.meets u)) (λ x. refused);
}

-- A process whose error the caller looks at.
pub attempt-Or :
    {S A B : Type 0} {m : Process S A} (k : Result A → Process S B) {X : Type 0} {l n : Ledger}
    {E : Error → Ledger → Type 0} {R : Result B → Ledger → Type 0}
    → Holds X l (Or E n) m
    → ((a : A) → Holds X n R (k (ok a)))
    → ((e : Error) (o : Ledger) → X → E e o → Holds X o R (k (err e)))
    → Holds X l R (attempt m >>= k)
unfolding ◌>>=◌ attempt
attempt-Or {S = S} {A = A} {m = m} k {X = X} {l = l} {n = n} {E = E} {R = R} f g refused = record {
  meets = λ s.
      follow-Meets X k l Caught R (caught (m s))
        (attempt-Meets X l (Or E n) Caught (m s) (λ a o q. q) (λ x e o q. (x, q)) (f.meets s)) go
        (λ x e o never. absurd never);
}
  where
    Caught : Result (Result A) → Ledger → Type 0
    Caught (ok (ok a)) o = o ≡ n
    Caught (ok (err e)) o = X × E e o
    Caught (err e) o = ⊥

    go : (x : Result A) (o : Ledger) (s : S) → Caught (ok x) o → Meets X o R (k x s)
    go (ok a) o s same = subst (λ o. Meets X o R (k (ok a) s)) (sym same) ((g a).meets s)
    go (err e) o s (x, q) = (refused e o x q).meets s

pub defer-To :
    {S A : Type 0} {d : Process S (Unit {0})} {m : Process S A} {X : Type 0} {l n o : Ledger}
    → Holds X l (To n) m
    → Holds X n (To o) d
    → Holds X l (To o) (deferring d m)
unfolding deferring
defer-To {d = d} {m = m} {X = X} {l = l} {n = n} {o = o} f g = record {
  meets = λ s. deferring-Meets X l n o d (m s) (f.meets s) g.meets;
}

-- A process that returns a given value, and what goes on with it.
pub give-bind :
    {S A B : Type 0} {m : Process S (Unit {0})} {a : A} (k : A → Process S B) {X : Type 0}
    {l n : Ledger} {R : Result B → Ledger → Type 0}
    → Holds X l (To n) m
    → Holds X n R (k a)
    → Holds X l R (m >> give a >>= k)
unfolding ◌>>=◌ ◌>>◌ steps
give-bind {S = S} {A = A} {m = m} {a = a} k {X = X} {l = l} {n = n} {R = R} f g = record {
  meets = λ s.
      follow-Meets X k l Given R (follow (λ _. give a) (m s))
        (seq-Meets X (λ _. give a) l n Given (m s) (f.meets s) (λ _ u. (n, refl, (refl, refl))))
        (λ b o u (same, at).
          subst (λ b. Meets X o R (k b u)) (sym same)
            (subst (λ o. Meets X o R (k a u)) (sym at) (g.meets u)))
        (λ x e o never. absurd never);
}
  where
    Given : Result A → Ledger → Type 0
    Given (ok b) o = (b ≡ a) × (o ≡ n)
    Given (err e) o = ⊥
