-- ===== src/Nats/Subscriber/Loop.antt =====
-- The loops over a subscription: shared/messaging/nats/foreach.go. What ends them, the end of the
-- context or of the channel, is one answer of the select.
use insider_notification.Base.{
  ℕ, zero, suc, ◌<◌, Bool, true, false, Option, none, some, List, [], ◌∷◌, ◌≡◌, refl, sym, ap,
  subst, ◌∙◌, length, arith,
}

-- The select of the loops, the handler, and the end of the span of a result.
pub record Receiver (S A B : Type 0) : Type 0 where
  pub receive : S → S × Option B
  pub handler : B → S → S
  pub end_span : A → S → S

module _ {S A B : Type 0} (c : Receiver S A B) where
  open c use {receive, handler, end_span}

  -- The loops, for at most the given number of results; true says that they have not ended.
  abbrev pub handle_next : (B → S → S) → (S → S × Bool) → S × Option B → S × Bool
  handle_next body again (s, none) = (s, false)
  handle_next body again (s, some b) = again (body b s)

  unfoldable pub loop : (B → S → S) → ℕ → S → S × Bool
  loop body zero s = (s, true)
  loop body (suc n) s = handle_next body (loop body n) (receive s)

module _ {S A : Type 0} (c : Receiver S A A) where
  -- `ForEach`
  unfoldable pub for_each : ℕ → S → S × Bool
  for_each = loop c (λ r s. c.end_span r (c.handler r s))

module _ {S A : Type 0} (c : Receiver S A (List A)) where
  unfoldable pub end_spans : List A → S → S
  end_spans [] s = s
  end_spans (r ∷ rs) s = end_spans rs (c.end_span r s)

  -- `ForEachBatch`
  unfoldable pub for_each_batch : ℕ → S → S × Bool
  for_each_batch = loop c (λ rs s. end_spans rs (c.handler rs s))

-- A channel with its values, as long as the context goes on. `ended` are the results whose spans
-- have ended.
pub record ReceiverLaws {S A B : Type 0} (c : Receiver S A B) : Type 0 where
  pub waiting : S → List B
  pub handled : S → List B
  pub ended : S → List A
  pub receive_end : (s : S) → waiting s ≡ [] → (c.receive s).1 ≡ none
  pub receive_next :
      (s : S) (b : B) (bs : List B)
      → waiting s ≡ b ∷ bs
      → ((c.receive s).1 ≡ some b) × (waiting (c.receive s).0 ≡ bs)
  pub receive_handled : (s : S) → handled (c.receive s).0 ≡ handled s
  pub receive_ended : (s : S) → ended (c.receive s).0 ≡ ended s
  pub handler_waiting : (b : B) (s : S) → waiting (c.handler b s) ≡ waiting s
  pub handler_handled : (b : B) (s : S) → handled (c.handler b s) ≡ b ∷ handled s
  pub handler_ended : (b : B) (s : S) → ended (c.handler b s) ≡ ended s
  pub span_waiting : (a : A) (s : S) → waiting (c.end_span a s) ≡ waiting s
  pub span_handled : (a : A) (s : S) → handled (c.end_span a s) ≡ handled s
  pub span_ended : (a : A) (s : S) → ended (c.end_span a s) ≡ a ∷ ended s

-- The values in front of others, the last of them first.
unfoldable pub onto : {A : Type 0} → List A → List A → List A
onto [] ys = ys
onto (x ∷ xs) ys = onto xs (x ∷ ys)

abbrev pub onto_all : {A : Type 0} → List (List A) → List A → List A
onto_all [] ys = ys
onto_all (xs ∷ xss) ys = onto_all xss (onto xs ys)

module _ {S A B : Type 0} {c : Receiver S A B} (laws : ReceiverLaws c) where
  open laws use {waiting, handled, ended}

  loop-HandlesAll :
      (body : B → S → S) (spans : List B → List A → List A)
      → ((ys : List A) → spans [] ys ≡ ys)
      → ((b : B) (s : S) → (waiting (body b s) ≡ waiting s) × (handled (body b s) ≡ b ∷ handled s))
      → ((b : B) (bs : List B) (s : S) → spans bs (ended (body b s)) ≡ spans (b ∷ bs) (ended s))
      → (bs : List B) (n : ℕ) (s : S) → waiting s ≡ bs
      → length bs < n
      → ((loop c body n s).1 ≡ false)
        × (handled (loop c body n s).0 ≡ onto bs (handled s))
        × (ended (loop c body n s).0 ≡ spans bs (ended s))
  unfolding loop onto
  loop-HandlesAll body spans nil keeps more bs zero s at enough = absurd (omega arith)
  loop-HandlesAll body spans nil keeps more [] (suc n) s at enough =
      subst
        (λ (x : S × Option B).
          ((handle_next c body (loop c body n) x).1 ≡ false)
          × (handled (handle_next c body (loop c body n) x).0 ≡ handled s)
          × (ended (handle_next c body (loop c body n) x).0 ≡ spans [] (ended s)))
        (λ i. ((c.receive s).0, (sym (laws.receive_end s at)) i))
        (refl, laws.receive_handled s, laws.receive_ended s ∙ sym (nil (ended s)))
  loop-HandlesAll body spans nil keeps more (b ∷ bs) (suc n) s at enough =
      let (got, left) = laws.receive_next s b bs at in
      let u = (c.receive s).0 in
      let (same, noted) = keeps b u in
      let (stops, done, spanned) =
        loop-HandlesAll body spans nil keeps more bs n (body b u) (same ∙ left) (omega arith) in
      subst
        (λ (x : S × Option B).
          ((handle_next c body (loop c body n) x).1 ≡ false)
          × (handled (handle_next c body (loop c body n) x).0 ≡ onto bs (b ∷ handled s))
          × (ended (handle_next c body (loop c body n) x).0 ≡ spans (b ∷ bs) (ended s)))
        (λ i. (u, (sym got) i))
        (
          stops,
          done ∙ ap (onto bs) (noted ∙ ap (λ l. b ∷ l) (laws.receive_handled s)),
          spanned ∙ more b bs u ∙ ap (spans (b ∷ bs)) (laws.receive_ended s),
        )

-- The loop has ended; the values were handled in their order, and the spans ended in the given one.
abbrev pub HandlesAll :
    {S A B : Type 0} {c : Receiver S A B} → ReceiverLaws c → List A → S → S × Bool → Type 0
HandlesAll laws spans s x =
    (x.1 ≡ false)
    × (laws.handled x.0 ≡ onto (laws.waiting s) (laws.handled s))
    × (laws.ended x.0 ≡ spans)

-- As long as the context goes on, `ForEach` ends with the channel: by then it has handled each of
-- the results that were waiting, in their order, and ended the span of each.
pub for_each-HandlesAll :
    {S A : Type 0} {c : Receiver S A A} (laws : ReceiverLaws c) (n : ℕ) (s : S)
    → length (laws.waiting s) < n
    → HandlesAll laws (onto (laws.waiting s) (laws.ended s)) s (for_each c n s)
unfolding for_each onto
for_each-HandlesAll {c = c} laws n s enough =
    loop-HandlesAll laws (λ r u. c.end_span r (c.handler r u)) onto (λ ys. refl)
      (λ r u. (
        laws.span_waiting r (c.handler r u) ∙ laws.handler_waiting r u,
        laws.span_handled r (c.handler r u) ∙ laws.handler_handled r u,
      ))
      (λ r rs u.
        ap (onto rs) (laws.span_ended r (c.handler r u) ∙ ap (λ l. r ∷ l) (laws.handler_ended r u)))
      (laws.waiting s) n s refl enough

module _ {S A : Type 0} {c : Receiver S A (List A)} (laws : ReceiverLaws c) where
  end_spans_waiting : (rs : List A) (s : S) → laws.waiting (end_spans c rs s) ≡ laws.waiting s
  unfolding end_spans
  end_spans_waiting [] s = refl
  end_spans_waiting (r ∷ rs) s = end_spans_waiting rs (c.end_span r s) ∙ laws.span_waiting r s

  end_spans_handled : (rs : List A) (s : S) → laws.handled (end_spans c rs s) ≡ laws.handled s
  unfolding end_spans
  end_spans_handled [] s = refl
  end_spans_handled (r ∷ rs) s = end_spans_handled rs (c.end_span r s) ∙ laws.span_handled r s

  end_spans-onto : (rs : List A) (s : S) → laws.ended (end_spans c rs s) ≡ onto rs (laws.ended s)
  unfolding end_spans onto
  end_spans-onto [] s = refl
  end_spans-onto (r ∷ rs) s =
      end_spans-onto rs (c.end_span r s) ∙ ap (onto rs) (laws.span_ended r s)

  -- As long as the context goes on, `ForEachBatch` ends with the channel: by then it has handled
  -- each of the batches that were waiting, in their order, and ended the span of each of their
  -- results.
  pub for_each_batch-HandlesAll :
      (n : ℕ) (s : S)
      → length (laws.waiting s) < n
      → HandlesAll laws (onto_all (laws.waiting s) (laws.ended s)) s (for_each_batch c n s)
  unfolding for_each_batch
  for_each_batch-HandlesAll n s enough =
      loop-HandlesAll laws (λ rs u. end_spans c rs (c.handler rs u)) onto_all (λ ys. refl)
        (λ rs u. (
          end_spans_waiting rs (c.handler rs u) ∙ laws.handler_waiting rs u,
          end_spans_handled rs (c.handler rs u) ∙ laws.handler_handled rs u,
        ))
        (λ rs rss u.
          ap (onto_all rss)
            (end_spans-onto rs (c.handler rs u) ∙ ap (onto rs) (laws.handler_ended rs u)))
        (laws.waiting s) n s refl enough
