-- ===== src/Processor/Pipeline/Runs.antt =====
-- One run of processor/internal/delivery/pipeline.go as a whole: the lock, the limiter, the
-- provider and the result.
use insider_notification.Base.{
  ℕ, ℤ, String, Bool, true, false, none, some, List, [], ◌∷◌, ◌++◌, ◌≡◌, refl, ap, subst, sym, ◌∙◌,
  ◌⊎◌, inl, inr, suc, ◌+◌,
}
use insider_notification.Errors.{as_retry_after}
use insider_notification.Effect.{Result, ok, err, then_on}
use insider_notification.Public.Topic
use insider_notification.Public.Events.{NotificationReadyEvent, Payload, delivery_result}
use insider_notification.Processor.Retry.{retry_delay}
use insider_notification.Processor.Client.{DeliveryResult}
use insider_notification.Processor.Pipeline.{
  NotificationDeliveryPipeline, limit_answer, apply_rate_limit, attempt_delivery, run_locked, run,
  wait_of,
}
use insider_notification.Processor.Pipeline.Laws.{Lawful}
use insider_notification.Processor.Pipeline.Attempt.{
  verdict, MayRetry, PublishFails, Handled, handle-Handled,
}

-- The answers on the way of a run from the state `s`.
module _ {S : Type 0} (p : NotificationDeliveryPipeline S) (evt : NotificationReadyEvent)
    (s : S) where
  open p use {delivery_client, limiter, locker}

  abbrev pub locked : S × Result Bool
  locked = locker.try_lock evt.notification_id s

  abbrev pub limited : S × Result (Bool × ℤ)
  limited = limiter.is_allowed evt.channel locked.0

  abbrev pub answered : S × DeliveryResult
  answered = delivery_client.send evt.recipient evt.channel evt.content limited.0

module _ {S : Type 0} {p : NotificationDeliveryPipeline S} (laws : Lawful p) where
  open p use {randomness, locker, limiter, delivery_client}
  open laws use {sent, requests}

  -- The lock is taken, and with it the limiter allows.
  abbrev pub Locks : NotificationReadyEvent → S → Type 0
  Locks evt s = (locked p evt s).1 ≡ ok true

  abbrev pub Admits : NotificationReadyEvent → S → Type 0
  Admits evt s = Locks evt s × ((d : ℤ) × ((limited p evt s).1 ≡ ok (true, d)))

  -- A run from `s` returns the result and leaves the published messages `q` and the number of
  -- requests `k`.
  abbrev pub Runs :
      NotificationReadyEvent → ℕ → S → List (String × Payload) → ℕ → Result (Unit {0}) → Type 0
  Runs evt n s q k (ok _) =
      (((locked p evt s).1 ≡ ok false) × (q ≡ sent s) × (k ≡ requests s))
      ⊎ (Admits evt s
          × (q
              ≡ sent s ++ (Topic.status, delivery_result (verdict evt (answered p evt s).1 n)) ∷ [])
          × (k ≡ suc (requests s))
          × ¬ MayRetry evt (answered p evt s).1 n)
  Runs evt n s q k (err e) =
      ((as_retry_after e ≡ none)
        × (((k ≡ requests s) × ((locked p evt s).1 ≡ err e))
            ⊎ ((k ≡ requests s) × Locks evt s × ((limited p evt s).1 ≡ err e))
            ⊎ ((k ≡ suc (requests s))
                × Admits evt s
                × ¬ MayRetry evt (answered p evt s).1 n
                × PublishFails laws evt (answered p evt s).1 n e)))
      ⊎ ((d : ℤ) × Locks evt s
          × ((limited p evt s).1 ≡ ok (false, d))
          × (as_retry_after e ≡ some (wait_of d))
          × (q ≡ sent s)
          × (k ≡ requests s))
      ⊎ (Admits evt s
          × (as_retry_after e ≡ some (retry_delay randomness (n + 1) (answered p evt s).0).1)
          × MayRetry evt (answered p evt s).1 n
          × (q ≡ sent s)
          × (k ≡ suc (requests s)))

  -- What was handled after the provider's answer, counted from the start of the run.
  Runs-of_Handled :
      (evt : NotificationReadyEvent) (n : ℕ) (s s' : S) (r : Result (Unit {0}))
      → Admits evt s
      → sent (answered p evt s).0 ≡ sent s
      → requests (answered p evt s).0 ≡ suc (requests s)
      → Handled laws evt (answered p evt s).1 n (answered p evt s).0 s' r
      → Runs evt n s (sent s') (requests s') r
  Runs-of_Handled evt n s s' (ok _) in_ same one (q, k, final) =
      inr (in_, rw⁻¹ same q, k ∙ one, final)
  Runs-of_Handled evt n s s' (err e) in_ same one (k, inl (none_, final, why)) =
      inl (none_, inr (inr (k ∙ one, in_, final, why)))
  Runs-of_Handled evt n s s' (err e) in_ same one (k, inr (d, q, may)) =
      inr (inr (in_, d, may, q ∙ same, k ∙ one))

  -- Asking for the lock and for the rate changes neither count.
  asked_sent : (evt : NotificationReadyEvent) (s : S) → sent (limited p evt s).0 ≡ sent s
  asked_sent evt s = laws.limit_sent _ _ ∙ laws.lock_sent s _

  asked_requests :
      (evt : NotificationReadyEvent) (s : S) → requests (limited p evt s).0 ≡ requests s
  asked_requests evt s = laws.limit_requests _ _ ∙ laws.lock_requests s _

  -- The body under the lock, after the limiter's answer.
  after_limit : NotificationReadyEvent → ℕ → S × Result (Bool × ℤ) → S × Result (Unit {0})
  after_limit evt n x = then_on (λ _. attempt_delivery p evt n) (then_on (limit_answer p) x)

  after_limit-Runs :
      (evt : NotificationReadyEvent) (n : ℕ) (s : S) (r : Result (Bool × ℤ))
      → Locks evt s
      → (limited p evt s).1 ≡ r
      → let x = after_limit evt n ((limited p evt s).0, r) in
        Runs evt n s (sent x.0) (requests x.0) x.1
  unfolding after_limit limit_answer attempt_delivery as_retry_after
  after_limit-Runs evt n s (err e) held h =
      inl (laws.limit_error _ _ e h, inr (inl (asked_requests evt s, held, h)))
  after_limit-Runs evt n s (ok (false, d)) held h =
      inr (inl (d, held, h, refl, asked_sent evt s, asked_requests evt s))
  after_limit-Runs evt n s (ok (true, d)) held h =
      Runs-of_Handled evt n s _ _ (held, (d, h)) (laws.send_sent _ _ _ _ ∙ asked_sent evt s)
        (laws.send_requests _ _ _ _ ∙ ap suc (asked_requests evt s)) (handle-Handled laws evt _ n _)

  -- The lock is released after the body.
  locked-Runs :
      (evt : NotificationReadyEvent) (n : ℕ) (s : S) (r : Result Bool)
      → (locked p evt s).1 ≡ r
      → let x = then_on (run_locked p evt n) ((locked p evt s).0, r) in
        Runs evt n s (sent x.0) (requests x.0) x.1
  unfolding run_locked apply_rate_limit after_limit
  locked-Runs evt n s (err e) h = inl (laws.lock_error s _ e h, inl (laws.lock_requests s _, h))
  locked-Runs evt n s (ok false) h = inl (h, laws.lock_sent s _, laws.lock_requests s _)
  locked-Runs evt n s (ok true) h =
      let x = after_limit evt n (limited p evt s) in
      subst (λ q. Runs evt n s q (requests (locker.unlock evt.notification_id x.0).0) x.1)
        (sym (laws.unlock_sent x.0 _))
        (subst (λ k. Runs evt n s (sent x.0) k x.1) (sym (laws.unlock_requests x.0 _))
          (after_limit-Runs evt n s (limited p evt s).1 h refl))

  -- With lawful dependencies: a run of attempt n returns without an error in two cases: the lock
  -- was held by another worker and nothing was sent or requested, or the lock was taken, the
  -- limiter allowed, the provider was asked once, its answer is final, and one message, the verdict
  -- of this attempt, was published. An error that is no `ErrRetryAfter` is that of the lock, that
  -- of the limiter under the lock, both without a request, or, after one request that lock and
  -- limiter let through, that of the publication of a final answer. An `ErrRetryAfter` comes with
  -- nothing published and under the lock: either the limiter refused, with no request made and a
  -- positive delay derived from its answer, or it allowed and the provider's answer is a retryable
  -- failure of an attempt below the maximum, with one request made and the backoff of the next
  -- attempt as the delay.
  pub run-Runs :
      (evt : NotificationReadyEvent) (n : ℕ) (s : S)
      → Runs evt n s (sent (run p evt n s).0) (requests (run p evt n s).0) (run p evt n s).1
  unfolding run
  run-Runs evt n s = locked-Runs evt n s (locked p evt s).1 refl
