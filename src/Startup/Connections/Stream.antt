-- ===== src/Startup/Connections/Stream.antt =====
-- The stream that every service ensures when it starts: `EnsureStream` of shared/messaging/nats/
-- handle.go.
use Prim.Native.String.{◌++◌}
use insider_notification.Base.{
  String, true, Option, none, some, List, [], ◌∷◌, ◌≡◌, refl, ap, sym, subst, ◌∙◌, ◌==◌,
  if◌then◌else◌,
}
use insider_notification.Errors.{Error, wrap}
use insider_notification.Platform.{Platform}
use insider_notification.Startup.{
  StreamConfig, Call, stream_info, add_stream, update_stream, World, Run, returned, failed,
  panicked, exited, after, or_fail, check, fail, ◌>>=◌,
}
use insider_notification.Startup.Connections.{put_stream, stream_of, ensure_stream}

-- A JetStream that is available and takes what it is asked for: the information on a stream is
-- there exactly if the stream is, a stream that is missing can be added, and one that is there can
-- be updated. The two calls set the stream and no other.
pub record StreamTable {S : Type 0} (w : World S) : Type 0 where
  pub streams : S → String → Option StreamConfig
  pub info_same :
      (s : S) (name n : String) → streams (w.answer (stream_info name) s).0 n ≡ streams s n
  pub info_there :
      (s : S) (name : String) (cfg : StreamConfig)
      → streams s name ≡ some cfg
      → (w.answer (stream_info name) s).1 ≡ none
  pub info_missing :
      (s : S) (name : String)
      → streams s name ≡ none
      → (e : Error) × ((w.answer (stream_info name) s).1 ≡ some e)
        × (w.is_stream_not_found e ≡ true)
  pub add_missing :
      (s : S) (cfg : StreamConfig)
      → streams s cfg.name ≡ none
      → ((w.answer (add_stream cfg) s).1 ≡ none)
        × ((n : String)
            → streams (w.answer (add_stream cfg) s).0 n
              ≡ (if cfg.name == n then some cfg else streams s n))
  pub update_there :
      (s : S) (cfg old : StreamConfig)
      → streams s cfg.name ≡ some old
      → ((w.answer (update_stream cfg) s).1 ≡ none)
        × ((n : String)
            → streams (w.answer (update_stream cfg) s).0 n
              ≡ (if cfg.name == n then some cfg else streams s n))

module _ {S : Type 0} (p : Platform) {w : World S} (laws : StreamTable w) where
  open laws use {streams}

  -- The function returns without an error, with this stream set and the others as they were.
  abbrev pub Sets : S → StreamConfig → Run S (Unit {0}) → Type 0
  Sets s cfg (s', (xs, returned _)) =
      (n : String) → streams s' n ≡ (if cfg.name == n then some cfg else streams s n)
  Sets s cfg (s', (xs, failed e)) = ⊥
  Sets s cfg (s', (xs, panicked t)) = ⊥
  Sets s cfg (s', (xs, exited k)) = ⊥

  answered-Sets :
      (s u v : S) (cfg : StreamConfig) (xs : List Call) (o : Option Error)
      → o ≡ none
      → ((n : String) → streams v n ≡ (if cfg.name == n then some cfg else streams u n))
      → ((n : String) → streams u n ≡ streams s n)
      → Sets s cfg (after xs (or_fail w (λ e. e) o v))
  answered-Sets s u v cfg xs none well set same =
      λ n. set n ∙ ap (λ o. if cfg.name == n then some cfg else o) (same n)
  answered-Sets s u v cfg xs (some e) well set same = cc

  put_stream-Sets :
      (s u : S) (cfg : StreamConfig) (xs : List Call) (o : Option Error) (old : Option StreamConfig)
      → streams u cfg.name ≡ old
      → ((n : String) → streams u n ≡ streams s n)
      → ((c : StreamConfig) → old ≡ some c → o ≡ none)
      → (old ≡ none → (e : Error) × (o ≡ some e) × (w.is_stream_not_found e ≡ true))
      → Sets s cfg (after xs (put_stream p w cfg o u))
  unfolding ◌>>=◌
  put_stream-Sets s u cfg xs none (some c) at same there missing =
      let (well, set) = laws.update_there u cfg c at in
      answered-Sets s u _ cfg xs (w.answer (update_stream cfg) u).1 well set same
  put_stream-Sets s u cfg xs none none at same there missing =
      let (e, refused, known) = missing refl in cc
  put_stream-Sets s u cfg xs (some e) (some c) at same there missing = cc (there c refl)
  put_stream-Sets s u cfg xs (some e) none at same there missing =
      let (e', refused, known) = missing refl in
      let found : w.is_stream_not_found e ≡ true = cc in
      let (well, set) = laws.add_missing u cfg at in
      subst
        (λ b. Sets s cfg (
          after xs (
            (if b
                then check w (add_stream cfg) (λ x. x)
                else fail (wrap p ("nats stream info " ++ cfg.name ++ ": ") e))
              u)))
        (sym found) (answered-Sets s u _ cfg xs (w.answer (add_stream cfg) u).1 well set same)

  -- With a JetStream that is available, `EnsureStream` returns without an error, whether the stream
  -- was there before or not: it then has the subjects that were asked for, and the other streams
  -- are as they were.
  pub ensure_stream-Sets :
      (name : String) (subjects : List String) (s : S)
      → Sets s (stream_of p w name subjects) (ensure_stream p w name subjects s)
  unfolding ensure_stream ◌>>=◌
  ensure_stream-Sets name subjects s =
      let same = laws.info_same s name in
      put_stream-Sets s _ (stream_of p w name subjects) (stream_info name ∷ [])
        (w.answer (stream_info name) s).1 (streams s name) (same name) same
        (λ c there. laws.info_there s name c there) (laws.info_missing s name)
