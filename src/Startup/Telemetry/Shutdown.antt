-- ===== src/Startup/Telemetry/Shutdown.antt =====
-- The shutdown of the telemetry: the function that `Init` of shared/otel/setup.go returns.
use insider_notification.Base.{Option, none, some, [], ◌∷◌, ◌≡◌, ◌↔◌, refl}
use insider_notification.Errors.{Error, join}
use insider_notification.Nats.Publisher.{to_result}
use insider_notification.Effect.{Result, ok}
use insider_notification.Startup.{
  Signal, traces, metrics, logs, shutdown_provider, World, Run, returned, ◌>>=◌,
}
use insider_notification.Startup.Telemetry.{noted, shutdown}

module _ {S : Type 0} (w : World S) where
  abbrev asked : Signal → S → S × Option Error
  asked g = w.answer (shutdown_provider g)

  -- The calls and the result of a shutdown, by the answers of the three providers.
  abbrev pub AsksAll : S → Run S (Result (Unit {0})) → Type 0
  AsksAll s r =
      (r.1.0 ≡ shutdown_provider traces ∷ shutdown_provider metrics ∷ shutdown_provider logs ∷ [])
      × ((x : Result (Unit {0})) × (r.1.1 ≡ returned x)
          × ((x ≡ ok tt) ↔ (
              ((asked traces s).1 ≡ none)
              × ((asked metrics (asked traces s).0).1 ≡ none)
              × ((asked logs (asked metrics (asked traces s).0).0).1 ≡ none))))

  all_well :
      (a b c : Option Error)
      → (to_result (join (noted w traces a (noted w metrics b (noted w logs c [])))) ≡ ok tt)
        ↔ ((a ≡ none) × (b ≡ none) × (c ≡ none))
  unfolding join
  all_well none none none = (λ h. (refl, refl, refl), λ h. refl)
  all_well (some e) b c = (λ h. cc, λ h. let first = h.0 in cc)
  all_well none (some e) c = (λ h. cc, λ h. let second = h.1 in cc)
  all_well none none (some e) = (λ h. cc, λ h. let third = h.2 in cc)

  -- The shutdown asks all three providers in turn, whatever each of them answers, and returns
  -- without an error exactly if none of them answers one.
  pub shutdown-AsksAll : (s : S) → AsksAll s (shutdown w s)
  unfolding shutdown ◌>>=◌ join
  shutdown-AsksAll s = (
    refl,
    (
      _,
      refl,
      all_well (asked traces s).1 (asked metrics (asked traces s).0).1
          (asked logs (asked metrics (asked traces s).0).0).1,
    ),
  )
