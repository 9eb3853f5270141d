-- ===== src/Health/Readiness.antt =====
-- What the readiness endpoint says of the checks: shared/handler/health.go.
use Prim.Native.String
use insider_notification.Base.{
  String, Bool, true, false, ◌||◌, Option, none, some, ◌⊎◌, inl, inr, List, [], ◌∷◌, ◌≡◌, refl,
  ◌==◌, if◌then◌else◌,
}
use insider_notification.Errors.{Error, message}
use insider_notification.Platform.{Platform}
use insider_notification.Health.{
  HealthReply, ReadinessChecker, no_checks, put, text_of, is_failure, verdict, run_checks,
  readiness_check,
}

-- The checks in their order, each from the state that the one before has left.
pub outcomes : {S : Type 0} → List (ReadinessChecker S) → S → List (String × Option Error)
outcomes [] s = []
outcomes (c ∷ cs) s = (c.name, (c.check s).1) ∷ outcomes cs (c.check s).0

-- One of the checks has come to an error.
pub data Fails : List (String × Option Error) → Type 0 where
  here :
      {name : String} {e : Error} {os : List (String × Option Error)} → Fails ((name, some e) ∷ os)
  there :
      {o : String × Option Error} {os : List (String × Option Error)} → Fails os → Fails (o ∷ os)

-- What the last check under the name has come to: "ok", or "error: " and the text of the error.
abbrev pub last_text :
    Platform → List (String × Option Error) → Option String → String → Option String
last_text p [] o name = o
last_text p ((key, none) ∷ os) o name = last_text p os (if key == name then some "ok" else o) name
last_text p ((key, some e) ∷ os) o name =
    last_text p os (if key == name then some (String.◌++◌ "error: " (message p e)) else o) name

-- The reply's code and status in the two cases.
abbrev pub Degraded : HealthReply → Type 0
Degraded reply = (reply.status_code ≡ 503) × (reply.body.status ≡ "degraded")

abbrev pub Fine : HealthReply → Type 0
Fine reply = (reply.status_code ≡ 200) × (reply.body.status ≡ "ok")

-- The reply that stands for the outcomes, after earlier checks.
pub record Reports (p : Platform) (failed : Bool) (checks : String → Option String)
    (os : List (String × Option Error)) (reply : HealthReply) : Type 0 where
  pub degraded : (failed ≡ true) ⊎ Fails os → Degraded reply
  pub fine : failed ≡ false → ¬ Fails os → Fine reply
  pub text : (name : String) → reply.body.checks name ≡ last_text p os (checks name) name

no-Fails : ¬ Fails []
no-Fails f = elim f [ ]

verdict-Reports :
    (p : Platform) (failed : Bool) (checks : String → Option String)
    → Reports p failed checks [] (verdict checks failed)
verdict-Reports p true checks = record {
  degraded = λ _. (refl, refl);
  fine = λ h. cc;
  text = λ name. refl;
}
verdict-Reports p false checks = record {
  degraded = λ h. elim h [ inl e ↦ cc | inr f ↦ absurd (no-Fails f) ];
  fine = λ _ _. (refl, refl);
  text = λ name. refl;
}

Fails-later :
    {name : String} {os : List (String × Option Error)} → Fails ((name, none) ∷ os) → Fails os
Fails-later (there f) = f

-- One outcome more before those of the rest.
with_outcome :
    (p : Platform) (name : String) (o : Option Error) (failed : Bool)
    (checks : String → Option String) (os : List (String × Option Error)) (reply : HealthReply)
    → Reports p (failed || is_failure o) (put checks name (text_of p o)) os reply
    → Reports p failed checks ((name, o) ∷ os) reply
with_outcome p name none true checks os reply rest = record {
  degraded = λ _. rest.degraded (inl refl);
  fine = λ h. cc;
  text = rest.text;
}
with_outcome p name none false checks os reply rest = record {
  degraded = λ h. elim h [ inl e ↦ cc | inr f ↦ rest.degraded (inr (Fails-later f)) ];
  fine = λ _ well. rest.fine refl (λ f. well (there f));
  text = rest.text;
}
with_outcome p name (some e) true checks os reply rest = record {
  degraded = λ _. rest.degraded (inl refl);
  fine = λ h. cc;
  text = rest.text;
}
with_outcome p name (some e) false checks os reply rest = record {
  degraded = λ _. rest.degraded (inl refl);
  fine = λ _ well. absurd (well here);
  text = rest.text;
}

run_checks-Reports :
    {S : Type 0} (p : Platform) (cs : List (ReadinessChecker S)) (checks : String → Option String)
    (failed : Bool) (s : S)
    → Reports p failed checks (outcomes cs s) (run_checks p cs checks failed s).1
unfolding run_checks outcomes
run_checks-Reports p [] checks failed s = verdict-Reports p failed checks
run_checks-Reports p (c ∷ cs) checks failed s =
    let o = (c.check s).1 in
    with_outcome p c.name o failed checks _ _ (
      run_checks-Reports p cs (put checks c.name (text_of p o)) (failed || is_failure o)
        (c.check s).0)

-- Every check is run, in the order given and from the state that the one before has left. The
-- answer is 503 and degraded if one of them comes to an error, 200 and ok if none does, and it has
-- under each name "ok" or "error: " with the error's text, as the last check of that name has come
-- to.
pub readiness_check-Reports :
    {S : Type 0} (p : Platform) (cs : List (ReadinessChecker S)) (s : S)
    → Reports p false no_checks (outcomes cs s) (readiness_check p cs s).1
unfolding readiness_check outcomes
readiness_check-Reports p [] s = verdict-Reports p false no_checks
readiness_check-Reports p (c ∷ cs) s = run_checks-Reports p (c ∷ cs) no_checks false s
